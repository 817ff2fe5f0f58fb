-- ===== src/Coordinator/Welcomes.antt =====
-- `storeWelcome` of `Coordinator` (packages/coordinator/src/coordinator.ts). `now` is the reading of
-- the clock; `encode` is `encodeWelcome`, the serialisation by ts-mls.
pub mod Acknowledgement
use cordn.Prelude.{
  ℕ, max, String, Bool, true, false, ◌&&◌, Option, none, some, List, [], ◌∷◌, ◌+◌, ◌==◌, filter,
  find?, string_eq, nat_eq,
}
use cordn.Storage.Inbox.{pending}
use cordn.Storage.Welcomes.{WelcomeQueueRecord, WelcomeInbox, store_welcome}
use mathlib.Core.List.{foldl}

pub record StoreWelcomeInput (W : Type 0) : Type 0 where
  pub target_stable_pubkey : String
  pub key_package_reference : String
  pub welcome : W
  pub join_after_cursor : Option ℕ

unfoldable pub bytes_equal : List ℕ → List ℕ → Bool
bytes_equal [] [] = true
bytes_equal (x ∷ xs) (y ∷ ys) = (x == y) && bytes_equal xs ys
bytes_equal xs ys = false

-- `===` on optional numbers
unfoldable pub same_cursor : Option ℕ → Option ℕ → Bool
same_cursor none none = true
same_cursor (some a) (some b) = a == b
same_cursor a b = false

-- The time for a new record beside others: `now`, or just after the latest of them.
unfoldable pub next_created_at {ℓ} : {R : Type ℓ} → (R → ℕ) → ℕ → List R → ℕ
next_created_at created_at now rs = foldl (λ at r. max at (created_at r + 1)) now rs

unfoldable pub new_welcome :
    {W : Type 0} → StoreWelcomeInput W → ℕ → List (WelcomeQueueRecord W) → WelcomeQueueRecord W
new_welcome input now rs = record {
  target_stable_pubkey = input.target_stable_pubkey;
  key_package_reference = input.key_package_reference;
  welcome = input.welcome;
  created_at =
      next_created_at (λ r. r.created_at) now
        (filter (λ r. r.key_package_reference == input.key_package_reference) rs);
  join_after_cursor = input.join_after_cursor;
}

module _ {W : Type 0} (encode : W → List ℕ) where
  unfoldable pub is_duplicate : StoreWelcomeInput W → WelcomeQueueRecord W → Bool
  is_duplicate input r =
      (r.key_package_reference == input.key_package_reference)
      && (same_cursor r.join_after_cursor input.join_after_cursor
          && bytes_equal (encode r.welcome) (encode input.welcome))

  -- A welcome that is pending already is returned as it is.
  unfoldable pub submit_welcome :
      StoreWelcomeInput W → ℕ → WelcomeInbox W → WelcomeQueueRecord W × WelcomeInbox W
  submit_welcome input now m =
      let queue = pending input.target_stable_pubkey m in
      elim (find? (is_duplicate input) queue) [
        | some duplicate ↦ (duplicate, m)
        | none ↦ let created = new_welcome input now queue in (created, store_welcome created m)
      ]
