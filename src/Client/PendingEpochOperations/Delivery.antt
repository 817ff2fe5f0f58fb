-- ===== src/Client/PendingEpochOperations/Delivery.antt =====
-- What a confirmation sends and what it leaves.
use cordn.Prelude.{
  String, ◌≡◌, refl, sym, ap, ◌∙◌, ◌⊎◌, inl, inr, Bool, true, false, not, none, List, [], ◌∷◌,
  arith, ◌==◌, ==-refl, eq_of_==, filter, any, find?, filter_all, string_eq, nat_eq,
}
use cordn.Storage.Inbox.{pending, put}
use cordn.Storage.Inbox.Laws.{pending-put, pending-set_same}
use cordn.Prelude.Map
use cordn.Prelude.Map.{get-set}
use mathlib.Core.List.{map}
use cordn.Client.PendingEpochOperations.{
  PendingEpochOperation, Operations, is_confirmed, is_seen, confirm_seen, is_same, finalize_each,
  confirm_pending_epoch_operations, get_pending_epoch_operation, reject_pending_epoch_operations,
}

-- The operations that are among none of the others.
abbrev pub without :
    List PendingEpochOperation → List PendingEpochOperation → List PendingEpochOperation
without sent = filter (λ c. not (any (λ s. is_same s c) sent))

without-without :
    (s : PendingEpochOperation) (sent rs : List PendingEpochOperation)
    → without sent (filter (λ c. not (is_same s c)) rs) ≡ without (s ∷ sent) rs
unfolding filter any
without-without s sent [] = refl
without-without s sent (r ∷ rs) = ground (arith, without-without s sent rs)

finalize_each-pending :
    (accepts : PendingEpochOperation → Bool) (g : String) (rs : List PendingEpochOperation)
    (m : Operations)
    → pending g (finalize_each accepts g rs m).2
      ≡ without (finalize_each accepts g rs m).0 (pending g m)
unfolding finalize_each any
finalize_each-pending accepts g [] m = sym (filter_all _ (pending g m) (λ r. refl))
finalize_each-pending accepts g (r ∷ rs) m =
    let remaining = filter (λ c. not (is_same r c)) (pending g m) in
    ground (
      arith,
      finalize_each-pending accepts g rs m,
      finalize_each-pending accepts g rs (put g remaining m),
      pending-put g g remaining m,
      ==-refl g,
      without-without r (finalize_each accepts g rs (put g remaining m)).0 (pending g m),
      filter_all (λ c. not (any (λ s. is_same s c) [])) (pending g m) (λ r. refl),
    )

finalize_each-sent :
    (accepts : PendingEpochOperation → Bool) (g : String) (rs : List PendingEpochOperation)
    (m : Operations)
    → (finalize_each accepts g rs m).1 ≡ false
    → (finalize_each accepts g rs m).0 ≡ filter is_confirmed rs
unfolding finalize_each filter
finalize_each-sent accepts g [] m h = refl
finalize_each-sent accepts g (r ∷ rs) m h = ground (
  arith,
  finalize_each-sent accepts g rs m,
  finalize_each-sent accepts g rs (put g (filter (λ c. not (is_same r c)) (pending g m)) m),
)

-- The operations of a group with those marked that the messages confirm.
abbrev pub marked : String → List String → Operations → List PendingEpochOperation
marked g messages m = map (confirm_seen messages) (pending g m)

List-cases :
    (rs : List PendingEpochOperation)
    → (rs ≡ []) ⊎ ((o : PendingEpochOperation) × (os : List PendingEpochOperation) × (rs ≡ o ∷ os))
List-cases [] = inl refl
List-cases (o ∷ os) = inr (o, os, refl)

confirm-empty :
    (accepts : PendingEpochOperation → Bool) (g : String) (messages : List String) (m : Operations)
    → pending g m ≡ []
    → confirm_pending_epoch_operations accepts g messages m ≡ ([], false, m)
unfolding confirm_pending_epoch_operations
confirm-empty accepts g messages m h = rw (h, confirm_pending_epoch_operations)

confirm-finalize_each :
    (accepts : PendingEpochOperation → Bool) (g : String) (messages : List String) (m : Operations)
    (o : PendingEpochOperation) (os : List PendingEpochOperation)
    → pending g m ≡ o ∷ os
    → confirm_pending_epoch_operations accepts g messages m
      ≡ finalize_each accepts g (marked g messages m) (Map.set g (marked g messages m) m)
unfolding confirm_pending_epoch_operations
confirm-finalize_each accepts g messages m o os h = rw (h, confirm_pending_epoch_operations)

-- After a confirmation, whether its client fails or not, the group has left exactly the operations
-- that were not finalized, marked and in order.
pub confirm_pending_epoch_operations-pending :
    (accepts : PendingEpochOperation → Bool) (g : String) (messages : List String) (m : Operations)
    → pending g (confirm_pending_epoch_operations accepts g messages m).2
      ≡ without (confirm_pending_epoch_operations accepts g messages m).0 (marked g messages m)
confirm_pending_epoch_operations-pending accepts g messages m = elim (List-cases (pending g m)) [
  | inl e ↦ rw (confirm-empty accepts g messages m e, e) (unfold filter in refl)
  | inr (o, os, e) ↦ rw (confirm-finalize_each accepts g messages m o os e) (
      finalize_each-pending accepts g (marked g messages m) (Map.set g (marked g messages m) m)
      ∙ ap
          (without
            (finalize_each accepts g (marked g messages m) (Map.set g (marked g messages m) m)).0)
          (pending-set_same g (marked g messages m) m))
]

-- A confirmation whose client does not fail finalizes every confirmed operation once, in order.
pub confirm_pending_epoch_operations-sent :
    (accepts : PendingEpochOperation → Bool) (g : String) (messages : List String) (m : Operations)
    → (confirm_pending_epoch_operations accepts g messages m).1 ≡ false
    → (confirm_pending_epoch_operations accepts g messages m).0
      ≡ filter is_confirmed (marked g messages m)
confirm_pending_epoch_operations-sent accepts g messages m h = elim (List-cases (pending g m)) [
  | inl e ↦ rw (confirm-empty accepts g messages m e, e) (unfold filter in refl)
  | inr (o, os, e) ↦ rw (confirm-finalize_each accepts g messages m o os e) (
      finalize_each-sent accepts g (marked g messages m) (Map.set g (marked g messages m) m)
        (rw (confirm-finalize_each accepts g messages m o os e) at h))
]

find?-filter :
    (seen p : PendingEpochOperation → Bool) (rs : List PendingEpochOperation)
    → ((r : PendingEpochOperation) → p r ≡ true → seen r ≡ true)
    → find? p (filter (λ c. not (seen c)) rs) ≡ none
unfolding find? filter
find?-filter seen p [] h = refl
find?-filter seen p (r ∷ rs) h = ground (arith, find?-filter seen p rs h, h r)

is_seen-head :
    (message : String) (messages : List String) (r : PendingEpochOperation)
    → (r.commit_message_base64 == message) ≡ true
    → is_seen (message ∷ messages) r ≡ true
unfolding any
is_seen-head message messages r h =
    ground (arith, eq_of_== r.commit_message_base64 message h, ==-refl message)

reject-empty :
    (g message : String) (messages : List String) (m : Operations)
    → pending g m ≡ []
    → reject_pending_epoch_operations g (message ∷ messages) m ≡ m
unfolding reject_pending_epoch_operations
reject-empty g message messages m h = rw (h, reject_pending_epoch_operations)

reject-put :
    (g message : String) (messages : List String) (m : Operations) (o : PendingEpochOperation)
    (os : List PendingEpochOperation)
    → pending g m ≡ o ∷ os
    → reject_pending_epoch_operations g (message ∷ messages) m
      ≡ put g (filter (λ c. not (is_seen (message ∷ messages) c)) (pending g m)) m
unfolding reject_pending_epoch_operations
reject-put g message messages m o os h = rw (h, reject_pending_epoch_operations)

pending-reject :
    (g message : String) (messages : List String) (m : Operations)
    → pending g (reject_pending_epoch_operations g (message ∷ messages) m)
      ≡ filter (λ c. not (is_seen (message ∷ messages) c)) (pending g m)
pending-reject g message messages m = elim (List-cases (pending g m)) [
  | inl e ↦ rw (reject-empty g message messages m e, e) (unfold filter in refl)
  | inr (o, os, e) ↦ rw (reject-put g message messages m o os e, pending-put, ==-refl g)
]

-- A commit that is rejected is not found any more.
pub get_pending_epoch_operation-reject :
    (g message : String) (messages : List String) (m : Operations)
    → get_pending_epoch_operation g message
        (reject_pending_epoch_operations g (message ∷ messages) m)
      ≡ none
get_pending_epoch_operation-reject g message messages m =
    unfold get_pending_epoch_operation in
    (rw (pending-reject g message messages m) (
      find?-filter (is_seen (message ∷ messages)) (λ r. r.commit_message_base64 == message)
        (pending g m) (is_seen-head message messages)))
