-- ===== src/Server/Adapter/Inboxes.antt =====
-- Welcomes and join requests under the methods: what is stored stays well formed.
use cordn.Prelude.{
  ℕ, String, ◌≡◌, refl, inl, inr, Bool, false, get_or, List, [], ◌∷◌, ◌++◌, arith, leb, ◌==◌,
  Bool-cases, Option-cases, length, filter, any, find?, string_eq, nat_eq,
}
use cordn.Prelude.Map
use cordn.Prelude.Map.{Map, IsDistinct, set-IsDistinct}
use cordn.Result.{ok}
use cordn.Storage.Inbox.{pending, unconsumed}
use cordn.Storage.Inbox.Laws.{
  pending-fetch, pending-delete_expired, fetch-IsDistinct, delete_expired-IsDistinct,
}
use cordn.Storage.Welcomes.{
  WelcomeQueueRecord, WelcomeInbox, ConsumedWelcomeRef, names_welcome, store_welcome,
  fetch_pending_welcomes, delete_expired_welcomes,
}
use cordn.Storage.JoinRequests.{
  JoinRequestRecord, JoinRequestInbox, ConsumedJoinRequestRef, ConsumedJoinRequestWithGroupRef,
  names_request, requested_by, refresh, max_pending_join_requests_per_group, store_join_request,
  fetch_pending_join_requests, fetch_each, fetch_many_pending_join_requests,
  delete_expired_join_requests, partition_consumed,
}
use cordn.Storage.JoinRequests.Bounds as Bounds
use cordn.Storage.JoinRequests.Bounds.{
  store_join_request-IsValid, fetch-IsValid, delete_expired-IsValid,
}
use cordn.Coordinator.Welcomes.{StoreWelcomeInput, submit_welcome, is_duplicate}
use cordn.Coordinator.Welcomes.Acknowledgement as Acknowledgement
use cordn.Coordinator.Welcomes.Acknowledgement.{IsDistinctlyNamed, ack, submit_welcome-IsValid}

module _ {W : Type 0} where
  -- One inbox to a target, and no acknowledgement that names two of its welcomes.
  pub record IsNamed (m : WelcomeInbox W) : Type 0 where
    pub distinct : IsDistinct m
    pub named : Acknowledgement.IsValid m

  any-filter :
      (p q : WelcomeQueueRecord W → Bool) (rs : List (WelcomeQueueRecord W))
      → any p rs ≡ false
      → any p (filter q rs) ≡ false
  unfolding any filter
  any-filter p q [] h = refl
  any-filter p q (r ∷ rs) h = ground (arith, any-filter p q rs)

  filter-IsDistinctlyNamed :
      (q : WelcomeQueueRecord W → Bool) (rs : List (WelcomeQueueRecord W))
      → IsDistinctlyNamed rs
      → IsDistinctlyNamed (filter q rs)
  unfolding filter
  filter-IsDistinctlyNamed q [] h = tt
  filter-IsDistinctlyNamed q (r ∷ rs) h =
      ground (arith, filter-IsDistinctlyNamed q rs h.1, any-filter (names_welcome (ack r)) q rs h.0)

  pub fetch-IsNamed :
      (target : String) (refs : List ConsumedWelcomeRef) (m : WelcomeInbox W)
      → IsNamed m
      → IsNamed (fetch_pending_welcomes target refs m).1
  unfolding fetch_pending_welcomes unconsumed
  fetch-IsNamed target refs m v = record {
    distinct = fetch-IsDistinct names_welcome target refs m v.distinct;
    named = record {
      named = λ k. rw pending-fetch (elim (Bool-cases (target == k)) [
        | inl here ↦ rw here (filter-IsDistinctlyNamed _ (pending target m) (v.named.named target))
        | inr other ↦ rw other (v.named.named k)
      ]);
    };
  }

  pub cleanup-IsNamed :
      (threshold : ℕ) (m : WelcomeInbox W)
      → IsNamed m
      → IsNamed (delete_expired_welcomes threshold m).1
  unfolding delete_expired_welcomes
  cleanup-IsNamed threshold m v = record {
    distinct = delete_expired-IsDistinct _ threshold m v.distinct;
    named = record {
      named = λ k.
          rw
            (pending-delete_expired (λ (r : WelcomeQueueRecord W). r.created_at) threshold k m
              v.distinct)
            (filter-IsDistinctlyNamed _ (pending k m) (v.named.named k));
    };
  }

  pub submit_welcome-IsNamed :
      (encode : W → List ℕ) (input : StoreWelcomeInput W) (now : ℕ) (m : WelcomeInbox W)
      → IsNamed m
      → IsNamed (submit_welcome encode input now m).1
  unfolding submit_welcome store_welcome
  submit_welcome-IsNamed encode input now m v = record {
    distinct =
        elim (Option-cases
          (find? (is_duplicate encode input) (pending input.target_stable_pubkey m))) [
            | inl e ↦ rw (e, submit_welcome) (set-IsDistinct _ _ m v.distinct)
            | inr (r, e) ↦ rw (e, submit_welcome) v.distinct
          ];
    named = submit_welcome-IsValid encode input now m v.named;
  }

-- One inbox to a group, within its bounds.
pub record IsBounded (m : JoinRequestInbox) : Type 0 where
  pub distinct : IsDistinct m
  pub bounded : Bounds.IsValid m

store_join_request-set :
    (new kept : JoinRequestRecord) (m m' : JoinRequestInbox)
    → store_join_request new m ≡ ok (kept, m')
    → (rs : List JoinRequestRecord) × (m' ≡ Map.set new.group_id rs m)
unfolding store_join_request
store_join_request-set new kept m m' h =
    let existing = pending new.group_id m in
    elim (Option-cases (find? (requested_by new.requester_stable_pubkey) existing)) [
      | inr (d, e) ↦ (refresh new existing, ground arith)
      | inl e ↦ elim (Bool-cases (leb max_pending_join_requests_per_group (length existing))) [
        | inl full ↦ absurd (ground arith)
        | inr free ↦ (existing ++ new ∷ [], ground arith)
      ]
    ]

pub store_join_request-IsBounded :
    (new kept : JoinRequestRecord) (m m' : JoinRequestInbox)
    → IsBounded m
    → store_join_request new m ≡ ok (kept, m')
    → IsBounded m'
store_join_request-IsBounded new kept m m' v h = record {
  distinct =
      let (rs, e) = store_join_request-set new kept m m' h in
      rw e (set-IsDistinct new.group_id rs m v.distinct);
  bounded = store_join_request-IsValid new kept m m' v.bounded h;
}

fetch_each-IsBounded :
    (consumed : Map String (List ConsumedJoinRequestRef)) (groups : List String)
    (m : JoinRequestInbox)
    → IsBounded m
    → IsBounded (fetch_each consumed groups m).1
unfolding fetch_each fetch_pending_join_requests
fetch_each-IsBounded consumed [] m v = v
fetch_each-IsBounded consumed (g ∷ gs) m v = fetch_each-IsBounded consumed gs _ (record {
  distinct = fetch-IsDistinct names_request g (get_or (Map.get g consumed) []) m v.distinct;
  bounded = fetch-IsValid g (get_or (Map.get g consumed) []) m v.bounded;
})

pub fetch_many-IsBounded :
    (groups : List String) (refs : List ConsumedJoinRequestWithGroupRef) (m : JoinRequestInbox)
    → IsBounded m
    → IsBounded (fetch_many_pending_join_requests groups refs m).1
unfolding fetch_many_pending_join_requests
fetch_many-IsBounded groups refs m v = fetch_each-IsBounded (partition_consumed refs []) groups m v

pub cleanup-IsBounded :
    (threshold : ℕ) (m : JoinRequestInbox)
    → IsBounded m
    → IsBounded (delete_expired_join_requests threshold m).1
unfolding delete_expired_join_requests
cleanup-IsBounded threshold m v = record {
  distinct = delete_expired-IsDistinct _ threshold m v.distinct;
  bounded = delete_expired-IsValid threshold m v.distinct v.bounded;
}
