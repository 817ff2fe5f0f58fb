-- ===== src/Storage/KeyPackages/Consumption.antt =====
-- `consumeKeyPackage`, for a map in which no reference is published twice.
use cordn.Prelude.{
  String, ◌≡◌, ◌⊎◌, inl, inr, true, false, Option, none, some, List, [], ◌∷◌, arith, Option-cases,
  find?, find?-true, find?-none-Contains, Contains, string_eq,
}
use cordn.Storage.Inbox.{pending}
use cordn.Storage.KeyPackages.{
  PublishedKeyPackageRecord, KeyPackageIndex, has_ref, list_all_key_packages, get_key_package,
  remove_key_package, consume_key_package, consume_by_identity, consume_by_reference, last?,
  is_regular, find_key_package,
}
use cordn.Storage.KeyPackages.Removal.{
  erase_first, get_key_package-eq-find?, list-remove_key_package, remove_key_package-result,
  located_found,
}
use cordn.Storage.KeyPackages.Uniqueness.{
  IsValid, get-remove_key_package, get_key_package-pending, remove_key_package-IsValid,
}

pub last?-Contains : {A : Type 0} (r : A) (xs : List A) → last? xs ≡ some r → Contains r xs
unfolding last?
last?-Contains r [] h = cc
last?-Contains r (x ∷ []) h = inl (ground arith)
last?-Contains r (x ∷ y ∷ xs) h = inr (last?-Contains r (y ∷ xs) h)

module _ {P E : Type 0} where
  -- How a consumption that returns `r` can have changed the map.
  abbrev pub Consumed :
      PublishedKeyPackageRecord P E
      → KeyPackageIndex P E
      → Option (PublishedKeyPackageRecord P E) × KeyPackageIndex P E
      → Type 0
  Consumed r m out =
      ((r.is_last_resort ≡ true) × (out.1 ≡ m))
      ⊎ ((r.is_last_resort ≡ false) × (out.1 ≡ (remove_key_package r.key_package_ref m).1))

  pub get_key_package-ref :
      (ref : String) (m : KeyPackageIndex P E) (r : PublishedKeyPackageRecord P E)
      → get_key_package ref m ≡ some r
      → r.key_package_ref ≡ ref
  get_key_package-ref ref m r h =
      ground (
        arith,
        get_key_package-eq-find? ref m,
        find?-true (has_ref ref) r (list_all_key_packages m),
      )

  consume_by_reference-Consumed :
      (ref : String) (m : KeyPackageIndex P E) (r : PublishedKeyPackageRecord P E)
      → (consume_by_reference ref m).0 ≡ some r
      → Consumed r m (consume_by_reference ref m)
  unfolding consume_by_reference
  consume_by_reference-Consumed ref m r h = elim (Option-cases (get_key_package ref m)) [
    | inl e ↦ absurd (ground arith)
    | inr (x, e) ↦ ground (arith, remove_key_package-result ref m, get_key_package-ref ref m x)
  ]

  consume_by_identity-Consumed :
      (k : String) (m : KeyPackageIndex P E) (r : PublishedKeyPackageRecord P E)
      → IsValid m
      → (consume_by_identity k m).0 ≡ some r
      → Consumed r m (consume_by_identity k m)
  unfolding consume_by_identity
  consume_by_identity-Consumed k m r v h = elim (Option-cases (find? is_regular (pending k m))) [
    | inl e ↦ ground (
      arith,
      find?-none-Contains is_regular r (pending k m) e
          (last?-Contains r (pending k m) (ground arith)),
    )
    | inr (x, e) ↦ ground (
      arith,
      remove_key_package-result x.key_package_ref m,
      get_key_package-pending x is_regular k m v e,
      find?-true is_regular x (pending k m) e,
    )
  ]

  remove_missing :
      (ref : String) (m : KeyPackageIndex P E)
      → (remove_key_package ref m).0 ≡ none
      → (remove_key_package ref m).1 ≡ m
  unfolding remove_key_package
  remove_missing ref m h = elim (Option-cases (find_key_package ref m)) [
    | inl e ↦ ground arith
    | inr (l, e) ↦ absurd (ground (arith, located_found ref m l e))
  ]

  consume_by_reference_miss :
      (ref : String) (m : KeyPackageIndex P E)
      → (consume_by_reference ref m).0 ≡ none
      → (consume_by_reference ref m).1 ≡ m
  unfolding consume_by_reference
  consume_by_reference_miss ref m h = ground (arith, remove_key_package-result ref m)

  consume_by_identity_miss :
      (k : String) (m : KeyPackageIndex P E)
      → (consume_by_identity k m).0 ≡ none
      → (consume_by_identity k m).1 ≡ m
  unfolding consume_by_identity
  consume_by_identity_miss k m h = elim (Option-cases (find? is_regular (pending k m))) [
    | inl e ↦ ground arith
    | inr (x, e) ↦ ground (arith, remove_missing x.key_package_ref m)
  ]

  consume_hit :
      (id : String) (m : KeyPackageIndex P E) (r : PublishedKeyPackageRecord P E)
      → (consume_by_reference id m).0 ≡ some r
      → consume_key_package id m ≡ consume_by_reference id m
  unfolding consume_key_package
  consume_hit id m r e = ground arith

  consume_miss :
      (id : String) (m : KeyPackageIndex P E)
      → (consume_by_reference id m).0 ≡ none
      → consume_key_package id m ≡ consume_by_identity id m
  unfolding consume_key_package
  consume_miss id m e = ground (arith, consume_by_reference_miss id m e)

  pub consume_nothing :
      (id : String) (m : KeyPackageIndex P E)
      → (consume_key_package id m).0 ≡ none
      → (consume_key_package id m).1 ≡ m
  consume_nothing id m h = elim (Option-cases (consume_by_reference id m).0) [
    | inl e ↦
        let miss = consume_miss id m e in rw miss (consume_by_identity_miss id m (rw (← miss) h))
    | inr (x, e) ↦ absurd (ground (arith, consume_hit id m x e))
  ]

  pub consume_key_package-Consumed :
      (id : String) (m : KeyPackageIndex P E) (r : PublishedKeyPackageRecord P E)
      → IsValid m
      → (consume_key_package id m).0 ≡ some r
      → Consumed r m (consume_key_package id m)
  consume_key_package-Consumed id m r v h = elim (Option-cases (consume_by_reference id m).0) [
    | inl e ↦
        let miss = consume_miss id m e in
        rw miss (consume_by_identity-Consumed id m r v (rw (← miss) h))
    | inr (x, e) ↦
        let hit = consume_hit id m x e in
        rw hit (consume_by_reference-Consumed id m r (rw (← hit) h))
  ]

  -- In a valid map, a consumption that returns a last-resort key package leaves the map as it was.
  pub consume_key_package-last_resort :
      (id : String) (m : KeyPackageIndex P E) (r : PublishedKeyPackageRecord P E)
      → IsValid m
      → (consume_key_package id m).0 ≡ some r
      → r.is_last_resort ≡ true
      → (consume_key_package id m).1 ≡ m
  consume_key_package-last_resort id m r v h last = elim (consume_key_package-Consumed id m r v h) [
    | inl c ↦ c.1
    | inr c ↦ absurd (ground arith)
  ]

  -- In a valid map, a consumption that returns a regular key package takes that record, and no
  -- other, out of the published ones, and its reference is not found any more.
  pub consume_key_package-regular :
      (id : String) (m : KeyPackageIndex P E) (r : PublishedKeyPackageRecord P E)
      → IsValid m
      → (consume_key_package id m).0 ≡ some r
      → r.is_last_resort ≡ false
      → (list_all_key_packages (consume_key_package id m).1
          ≡ erase_first (has_ref r.key_package_ref) (list_all_key_packages m))
        × (get_key_package r.key_package_ref (consume_key_package id m).1 ≡ none)
  consume_key_package-regular id m r v h regular = elim (consume_key_package-Consumed id m r v h) [
    | inl c ↦ absurd (ground arith)
    | inr c ↦ rw c.1 (
      list-remove_key_package r.key_package_ref m v.distinct,
      get-remove_key_package r.key_package_ref m v,
    )
  ]

  -- In a valid map, an identifier that is no published reference stands for an identity: the
  -- first regular key package of that identity is returned if it has one, and otherwise its last
  -- record, if it has any.
  pub consume_key_package-identity :
      (id : String) (m : KeyPackageIndex P E)
      → IsValid m
      → get_key_package id m ≡ none
      → (consume_key_package id m).0
        ≡ elim (find? is_regular (pending id m)) [ some r ↦ some r | none ↦ last? (pending id m) ]
  consume_key_package-identity id m v h = rw (consume_miss id m missing) by_identity
    where
      missing : (consume_by_reference id m).0 ≡ none
      missing = unfold consume_by_reference in ground arith

      by_identity :
          (consume_by_identity id m).0
          ≡ elim (find? is_regular (pending id m)) [ some r ↦ some r | none ↦ last? (pending id m) ]
      by_identity =
          unfold consume_by_identity in
          elim (Option-cases (find? is_regular (pending id m))) [
            | inl e ↦ ground arith
            | inr (x, e) ↦ ground (
              arith,
              remove_key_package-result x.key_package_ref m,
              get_key_package-pending x is_regular id m v e,
            )
          ]

  -- A consumption keeps one list to an identity and one record to a reference.
  pub consume_key_package-IsValid :
      (id : String) (m : KeyPackageIndex P E) → IsValid m → IsValid (consume_key_package id m).1
  consume_key_package-IsValid id m v = elim (Option-cases (consume_key_package id m).0) [
    | inl e ↦ rw (consume_nothing id m e) v
    | inr (r, e) ↦ elim (consume_key_package-Consumed id m r v e) [
      | inl c ↦ rw c.1 v
      | inr c ↦ rw c.1 (remove_key_package-IsValid r.key_package_ref m v)
    ]
  ]
