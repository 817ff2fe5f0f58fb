-- ===== src/Coordinator/Welcomes/Acknowledgement.antt =====
-- A pending welcome is known by its key package reference and its time.
use mathlib.Core.Option.{Option}
use mathlib.Core.Bool.{◌||◌}
use cordn.Prelude.{
  ℕ, max, String, ◌≡◌, refl, inl, inr, Bool, true, false, none, some, List, [], ◌∷◌, ◌++◌, arith,
  ◌+◌, ◌≤◌, if◌then◌else◌, ◌==◌, Bool-cases, Option-cases, ==-refl, eq_of_==, filter, any, find?,
  string_eq, nat_eq,
}
use cordn.Prelude.Map.{get-set}
use cordn.Coordinator.Welcomes.{
  StoreWelcomeInput, bytes_equal, same_cursor, next_created_at, is_duplicate, new_welcome,
  submit_welcome,
}
use cordn.Storage.Inbox.{pending}
use cordn.Storage.Welcomes.{
  WelcomeQueueRecord, WelcomeInbox, ConsumedWelcomeRef, names_welcome, store_welcome,
}

-- The acknowledgement of a record.
abbrev pub ack : {W : Type 0} → WelcomeQueueRecord W → ConsumedWelcomeRef
ack r = record { key_package_reference = r.key_package_reference; created_at = r.created_at }

-- No acknowledgement names two of the records.
abbrev pub IsDistinctlyNamed : {W : Type 0} → List (WelcomeQueueRecord W) → Type 0
IsDistinctlyNamed [] = Unit
IsDistinctlyNamed (r ∷ rs) = (any (names_welcome (ack r)) rs ≡ false) × IsDistinctlyNamed rs

pub record IsValid {W : Type 0} (m : WelcomeInbox W) : Type 0 where
  pub named : (target : String) → IsDistinctlyNamed (pending target m)

pub next_created_at-ge-now {ℓ} :
    {R : Type ℓ} (f : R → ℕ) (now : ℕ) (rs : List R) → now ≤ next_created_at f now rs
unfolding next_created_at
next_created_at-ge-now f now [] = omega arith
next_created_at-ge-now f now (r ∷ rs) =
    omega (arith, next_created_at-ge-now f (max now (f r + 1)) rs)

bytes_equal_refl : (xs : List ℕ) → bytes_equal xs xs ≡ true
unfolding bytes_equal
bytes_equal_refl [] = refl
bytes_equal_refl (x ∷ xs) = ground (arith, ==-refl x, bytes_equal_refl xs)

same_cursor_refl : (a : Option ℕ) → same_cursor a a ≡ true
unfolding same_cursor
same_cursor_refl none = refl
same_cursor_refl (some a) = ==-refl a

module _ {W : Type 0} where
  -- The time of a new record is later than that of every record with its reference.
  new_name :
      (ref : String) (now : ℕ) (rs : List (WelcomeQueueRecord W)) (t : ℕ)
      → next_created_at (λ r. r.created_at) now (filter (λ r. r.key_package_reference == ref) rs)
        ≤ t
      → any (names_welcome (record { key_package_reference = ref; created_at = t })) rs ≡ false
  unfolding any filter next_created_at
  new_name ref now [] t h = refl
  new_name ref now (r ∷ rs) t h = elim (Bool-cases (r.key_package_reference == ref)) [
    | inl here ↦
        let later : next_created_at (λ r. r.created_at) (max now (r.created_at + 1))
              (filter (λ r. r.key_package_reference == ref) rs)
            ≤ t =
          rw here at h in
        let bound : max now (r.created_at + 1) ≤ t = omega (
          arith,
          later,
          next_created_at-ge-now (λ (x : WelcomeQueueRecord W). x.created_at)
              (max now (r.created_at + 1)) (filter (λ x. x.key_package_reference == ref) rs),
        ) in
        ground (arith, new_name ref (max now (r.created_at + 1)) rs t later, bound)
    | inr other ↦ ground (arith, other, new_name ref now rs t (rw other at h))
  ]

  any-append :
      (c : ConsumedWelcomeRef) (rs : List (WelcomeQueueRecord W)) (r : WelcomeQueueRecord W)
      → any (names_welcome c) (rs ++ r ∷ []) ≡ (any (names_welcome c) rs || names_welcome c r)
  unfolding any
  any-append c [] r = ground arith
  any-append c (x ∷ rs) r = ground (arith, any-append c rs r)

  append-IsDistinctlyNamed :
      (rs : List (WelcomeQueueRecord W)) (r : WelcomeQueueRecord W)
      → IsDistinctlyNamed rs
      → any (names_welcome (ack r)) rs ≡ false
      → IsDistinctlyNamed (rs ++ r ∷ [])
  unfolding any
  append-IsDistinctlyNamed [] r d h = (refl, tt)
  append-IsDistinctlyNamed (x ∷ rs) r d h =
      ground (arith, append-IsDistinctlyNamed rs r d.1, any-append (ack x) rs r, d.0)

  any-filter :
      (p : WelcomeQueueRecord W → Bool) (c : ConsumedWelcomeRef) (rs : List (WelcomeQueueRecord W))
      → any (names_welcome c) rs ≡ false
      → any (names_welcome c) (filter p rs) ≡ false
  unfolding any filter
  any-filter p c [] h = refl
  any-filter p c (x ∷ rs) h = ground (arith, any-filter p c rs)

  filter-IsDistinctlyNamed :
      (p : WelcomeQueueRecord W → Bool) (rs : List (WelcomeQueueRecord W))
      → IsDistinctlyNamed rs
      → IsDistinctlyNamed (filter p rs)
  unfolding filter
  filter-IsDistinctlyNamed p [] d = tt
  filter-IsDistinctlyNamed p (x ∷ rs) d =
      ground (arith, filter-IsDistinctlyNamed p rs d.1, any-filter p (ack x) rs d.0)

  pending-store_welcome :
      (r : WelcomeQueueRecord W) (target : String) (m : WelcomeInbox W)
      → pending target (store_welcome r m) ≡ (
          if r.target_stable_pubkey == target then pending target m ++ r ∷ [] else pending target m)
  unfolding store_welcome pending
  pending-store_welcome r target m =
      ground (
        arith,
        get-set r.target_stable_pubkey target (pending r.target_stable_pubkey m ++ r ∷ []) m,
      )

  module _ (encode : W → List ℕ) where
    new_welcome-is_duplicate :
        (input : StoreWelcomeInput W) (now : ℕ) (rs : List (WelcomeQueueRecord W))
        → is_duplicate encode input (new_welcome input now rs) ≡ true
    unfolding is_duplicate new_welcome
    new_welcome-is_duplicate input now rs = ground (
      arith,
      ==-refl input.key_package_reference,
      same_cursor_refl input.join_after_cursor,
      bytes_equal_refl (encode input.welcome),
    )

    new_welcome-named :
        (input : StoreWelcomeInput W) (now : ℕ) (rs : List (WelcomeQueueRecord W))
        → any (names_welcome (ack (new_welcome input now rs))) rs ≡ false
    unfolding new_welcome
    new_welcome-named input now rs =
        new_name input.key_package_reference now rs
          (next_created_at (λ r. r.created_at) now
            (filter (λ r. r.key_package_reference == input.key_package_reference) rs))
          (omega arith)

    -- A record that is stored beside the pending ones of its target, under a new name.
    store_welcome-IsValid :
        (r : WelcomeQueueRecord W) (m : WelcomeInbox W)
        → IsValid m
        → any (names_welcome (ack r)) (pending r.target_stable_pubkey m) ≡ false
        → IsValid (store_welcome r m)
    store_welcome-IsValid r m v h = record {
      named = λ target. elim (Bool-cases (r.target_stable_pubkey == target)) [
        | inl here ↦
            rw (pending-store_welcome r target m, here)
              (append-IsDistinctlyNamed (pending target m) r (v.named target)
                (rw (eq_of_== r.target_stable_pubkey target here) at h))
        | inr other ↦ rw (pending-store_welcome r target m, other) (v.named target)
      ];
    }

    submit_welcome-fresh :
        (input : StoreWelcomeInput W) (now : ℕ) (m : WelcomeInbox W)
        → find? (is_duplicate encode input) (pending input.target_stable_pubkey m) ≡ none
        → let created = new_welcome input now (pending input.target_stable_pubkey m) in
          submit_welcome encode input now m ≡ (created, store_welcome created m)
    unfolding submit_welcome new_welcome store_welcome
    submit_welcome-fresh input now m h = rw (submit_welcome, h)

    submit_welcome-duplicate :
        (input : StoreWelcomeInput W) (r : WelcomeQueueRecord W) (now : ℕ) (m : WelcomeInbox W)
        → find? (is_duplicate encode input) (pending input.target_stable_pubkey m) ≡ some r
        → submit_welcome encode input now m ≡ (r, m)
    unfolding submit_welcome
    submit_welcome-duplicate input r now m h = rw (submit_welcome, h)

    -- If no acknowledgement names two pending welcomes of one target, none does after a submission.
    pub submit_welcome-IsValid :
        (input : StoreWelcomeInput W) (now : ℕ) (m : WelcomeInbox W)
        → IsValid m
        → IsValid (submit_welcome encode input now m).1
    unfolding new_welcome
    submit_welcome-IsValid input now m v =
        elim (Option-cases
          (find? (is_duplicate encode input) (pending input.target_stable_pubkey m))) [
            | inl fresh ↦ rw (submit_welcome-fresh input now m fresh) (
                store_welcome-IsValid (new_welcome input now (pending input.target_stable_pubkey m))
                  m v (new_welcome-named input now (pending input.target_stable_pubkey m)))
            | inr (r, found) ↦ rw (submit_welcome-duplicate input r now m found) v
          ]

    find?-append :
        (p : WelcomeQueueRecord W → Bool) (rs : List (WelcomeQueueRecord W))
        (r : WelcomeQueueRecord W)
        → find? p rs ≡ none
        → p r ≡ true
        → find? p (rs ++ r ∷ []) ≡ some r
    unfolding find?
    find?-append p [] r none_of h = ground arith
    find?-append p (x ∷ rs) r none_of h = ground (arith, find?-append p rs r)

    stored_again :
        (input : StoreWelcomeInput W) (now : ℕ) (m : WelcomeInbox W)
        → find? (is_duplicate encode input) (pending input.target_stable_pubkey m) ≡ none
        → let created = new_welcome input now (pending input.target_stable_pubkey m) in
          find?
            (is_duplicate encode input)
            (pending input.target_stable_pubkey (store_welcome created m))
          ≡ some created
    stored_again input now m fresh =
        let created = new_welcome input now (pending input.target_stable_pubkey m) in
        let same : (created.target_stable_pubkey == input.target_stable_pubkey) ≡ true =
          unfold new_welcome in (==-refl input.target_stable_pubkey) in
        rw (pending-store_welcome created input.target_stable_pubkey m, same)
          (find?-append (is_duplicate encode input) (pending input.target_stable_pubkey m) created
            fresh (new_welcome-is_duplicate input now (pending input.target_stable_pubkey m)))

    -- A welcome that is submitted again, at any time, is answered with the record of the first
    -- submission, and nothing is stored.
    pub submit_welcome_again :
        (input : StoreWelcomeInput W) (now later : ℕ) (m : WelcomeInbox W)
        → submit_welcome encode input later (submit_welcome encode input now m).1
          ≡ submit_welcome encode input now m
    submit_welcome_again input now later m =
        elim (Option-cases
          (find? (is_duplicate encode input) (pending input.target_stable_pubkey m))) [
            | inl fresh ↦ rw (submit_welcome-fresh input now m fresh) (
                submit_welcome-duplicate input
                  (new_welcome input now (pending input.target_stable_pubkey m)) later
                  (store_welcome (new_welcome input now (pending input.target_stable_pubkey m)) m)
                  (stored_again input now m fresh))
            | inr (r, found) ↦
                rw (submit_welcome-duplicate input r now m found)
                  (submit_welcome-duplicate input r later m found)
          ]
