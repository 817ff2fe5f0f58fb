-- ===== src/Storage/KeyPackages.antt =====
-- The key packages of `InMemoryCoordinatorStorage` (packages/coordinator/src/storage/
-- inMemoryStorage.ts): a map from the identity to what it has published. `P` is the type of MLS key
-- packages and `E` that of Nostr events, of ts-mls and nostr-tools.
pub mod Removal
pub mod Uniqueness
pub mod Consumption
pub mod Ownership
pub mod Selection
use cordn.Prelude.{
  ℕ, zero, suc, String, Bool, not, Option, none, some, List, [], ◌∷◌, ◌++◌, if◌then◌else◌, ◌==◌,
  get_elem?, find?, string_eq, nat_eq,
}
use cordn.Prelude.Map
use cordn.Prelude.Map.{Map}
use mathlib.Core.Option
use cordn.Storage.Inbox.{Inbox, pending}

pub record PublishedKeyPackageRecord (P E : Type 0) : Type 0 where
  pub stable_pubkey : String
  pub key_package : P
  pub key_package_ref : String
  pub is_last_resort : Bool
  pub published_at : ℕ
  pub publication_event : E

abbrev pub KeyPackageIndex : Type 0 → Type 0 → Type 0
KeyPackageIndex P E = Inbox String (PublishedKeyPackageRecord P E)

pub record Located (P E : Type 0) : Type 0 where
  pub stable_pubkey : String
  pub index : ℕ
  pub records : List (PublishedKeyPackageRecord P E)
  pub found : Option (PublishedKeyPackageRecord P E)

-- `records.findIndex(test)`; `none` is -1
unfoldable pub find_index {ℓ} : {A : Type ℓ} → (A → Bool) → List A → Option ℕ
find_index test [] = none
find_index test (x ∷ xs) = if test x then some 0 else Option.map suc (find_index test xs)

-- `records.splice(index, 1)`, without what it returns
unfoldable pub remove_at {ℓ} : {A : Type ℓ} → ℕ → List A → List A
remove_at i [] = []
remove_at zero (x ∷ xs) = xs
remove_at (suc i) (x ∷ xs) = x ∷ remove_at i xs

-- `records.at(-1) ?? null`
unfoldable pub last? {ℓ} : {A : Type ℓ} → List A → Option A
last? [] = none
last? (x ∷ []) = some x
last? (x ∷ y ∷ xs) = last? (y ∷ xs)

module _ {P E : Type 0} where
  abbrev pub has_ref : String → PublishedKeyPackageRecord P E → Bool
  has_ref ref candidate = candidate.key_package_ref == ref

  unfoldable pub publish_key_package :
      PublishedKeyPackageRecord P E → KeyPackageIndex P E → KeyPackageIndex P E
  publish_key_package published m =
      Map.set published.stable_pubkey (pending published.stable_pubkey m ++ published ∷ []) m

  unfoldable pub list_key_packages_for_identity :
      String → KeyPackageIndex P E → List (PublishedKeyPackageRecord P E)
  list_key_packages_for_identity stable_pubkey m = pending stable_pubkey m

  unfoldable pub list_all_key_packages : KeyPackageIndex P E → List (PublishedKeyPackageRecord P E)
  list_all_key_packages [] = []
  list_all_key_packages ((k, rs) ∷ m) = rs ++ list_all_key_packages m

  -- The loop of `findKeyPackage` over the entries; `found` is `records[index]`.
  unfoldable pub find_key_package : String → KeyPackageIndex P E → Option (Located P E)
  find_key_package ref [] = none
  find_key_package ref ((k, rs) ∷ m) = elim (find_index (has_ref ref) rs) [
    | some i ↦ some (record { stable_pubkey = k; index = i; records = rs; found = get_elem? rs i })
    | none ↦ find_key_package ref m
  ]

  unfoldable pub get_key_package :
      String → KeyPackageIndex P E → Option (PublishedKeyPackageRecord P E)
  get_key_package ref m = elim (find_key_package ref m) [
    | some located ↦ located.found
    | none ↦ none
  ]

  -- `records` after the splice go back into the map, or the identity leaves it.
  unfoldable pub put_back :
      String → List (PublishedKeyPackageRecord P E) → KeyPackageIndex P E → KeyPackageIndex P E
  put_back stable_pubkey [] m = Map.delete stable_pubkey m
  put_back stable_pubkey (r ∷ rs) m = Map.set stable_pubkey (r ∷ rs) m

  unfoldable pub remove_key_package :
      String → KeyPackageIndex P E → Option (PublishedKeyPackageRecord P E) × KeyPackageIndex P E
  remove_key_package ref m = elim (find_key_package ref m) [
    | none ↦ (none, m)
    | some located ↦
        (located.found, put_back located.stable_pubkey (remove_at located.index located.records) m)
  ]

  abbrev pub is_regular : PublishedKeyPackageRecord P E → Bool
  is_regular r = not r.is_last_resort

  unfoldable pub consume_by_reference :
      String → KeyPackageIndex P E → Option (PublishedKeyPackageRecord P E) × KeyPackageIndex P E
  consume_by_reference ref m = elim (get_key_package ref m) [
    | none ↦ (none, m)
    | some r ↦ if r.is_last_resort then (some r, m) else remove_key_package ref m
  ]

  unfoldable pub consume_by_identity :
      String → KeyPackageIndex P E → Option (PublishedKeyPackageRecord P E) × KeyPackageIndex P E
  consume_by_identity stable_pubkey m =
      let records = pending stable_pubkey m in
      elim (find? is_regular records) [
        | some regular ↦ remove_key_package regular.key_package_ref m
        | none ↦ (last? records, m)
      ]

  -- A record found by reference is the result; otherwise the identifier is an identity.
  unfoldable pub consume_key_package :
      String → KeyPackageIndex P E → Option (PublishedKeyPackageRecord P E) × KeyPackageIndex P E
  consume_key_package identifier m =
      let (direct, m') = consume_by_reference identifier m in
      elim direct [ some r ↦ (some r, m') | none ↦ consume_by_identity identifier m' ]
