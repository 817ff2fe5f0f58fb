-- ===== src/Storage/KeyPackages/Uniqueness.antt =====
-- Maps in which no reference is published twice.
use cordn.Prelude.{
  String, ◌≡◌, refl, ap, inl, inr, Bool, false, none, some, List, [], ◌∷◌, ◌++◌, arith,
  if◌then◌else◌, ◌==◌, Bool-cases, eq_of_==, find?, find?-Contains, Contains, string_eq, nat_eq,
}
use cordn.Prelude.Map
use cordn.Prelude.Map.{IsDistinct}
use cordn.Storage.Inbox.{pending}
use cordn.Storage.KeyPackages.{
  PublishedKeyPackageRecord, KeyPackageIndex, has_ref, list_all_key_packages, get_key_package,
  remove_key_package,
}
use cordn.Storage.KeyPackages.Removal.{
  erase_first, get_key_package-eq-find?, list-remove_key_package, remove_key_package-IsDistinct,
}

module _ {P E : Type 0} where
  abbrev pub IsUnique : List (PublishedKeyPackageRecord P E) → Type 0
  IsUnique [] = Unit
  IsUnique (r ∷ rs) = (find? (has_ref r.key_package_ref) rs ≡ none) × IsUnique rs

  -- The map has one list to an identity, and a reference names one record.
  pub record IsValid (m : KeyPackageIndex P E) : Type 0 where
    pub distinct : IsDistinct m
    pub unique : IsUnique (list_all_key_packages m)

  Contains-append_left :
      (r : PublishedKeyPackageRecord P E) (xs ys : List (PublishedKeyPackageRecord P E))
      → Contains r xs
      → Contains r (xs ++ ys)
  Contains-append_left r [] ys h = elim h [ ]
  Contains-append_left r (x ∷ xs) ys (inl e) = inl e
  Contains-append_left r (x ∷ xs) ys (inr h) = inr (Contains-append_left r xs ys h)

  Contains-append_right :
      (r : PublishedKeyPackageRecord P E) (xs ys : List (PublishedKeyPackageRecord P E))
      → Contains r ys
      → Contains r (xs ++ ys)
  Contains-append_right r [] ys h = h
  Contains-append_right r (x ∷ xs) ys h = inr (Contains-append_right r xs ys h)

  pub Contains-list :
      (r : PublishedKeyPackageRecord P E) (k : String) (m : KeyPackageIndex P E)
      → Contains r (pending k m)
      → Contains r (list_all_key_packages m)
  unfolding pending Map.get list_all_key_packages
  Contains-list r k [] h = h
  Contains-list r k ((j, rs) ∷ m) h = elim (Bool-cases (j == k)) [
    | inl here ↦ Contains-append_left r rs (list_all_key_packages m) (rw here at h)
    | inr there ↦
        Contains-append_right r rs (list_all_key_packages m) (Contains-list r k m (rw there at h))
  ]

  find?-absent :
      (r : PublishedKeyPackageRecord P E) (ref : String) (xs : List (PublishedKeyPackageRecord P E))
      → Contains r xs
      → find? (has_ref ref) xs ≡ none
      → has_ref ref r ≡ false
  unfolding find?
  find?-absent r ref [] c h = elim c [ ]
  find?-absent r ref (x ∷ xs) (inl e) h = ground arith
  find?-absent r ref (x ∷ xs) (inr c) h = find?-absent r ref xs c (ground arith)

  pub find?-unique :
      (r : PublishedKeyPackageRecord P E) (xs : List (PublishedKeyPackageRecord P E))
      → IsUnique xs
      → Contains r xs
      → find? (has_ref r.key_package_ref) xs ≡ some r
  unfolding find?
  find?-unique r [] u c = elim c [ ]
  find?-unique r (x ∷ xs) u (inl e) = ground arith
  find?-unique r (x ∷ xs) u (inr c) =
      ground (arith, find?-unique r xs u.1 c, find?-absent r x.key_package_ref xs c u.0)

  find?-erase_first :
      (ref : String) (xs : List (PublishedKeyPackageRecord P E))
      → IsUnique xs
      → find? (has_ref ref) (erase_first (has_ref ref) xs) ≡ none
  unfolding find? erase_first
  find?-erase_first ref [] u = refl
  find?-erase_first ref (x ∷ xs) u = ground (arith, find?-erase_first ref xs u.1)

  erase_first-keeps_absent :
      (test : PublishedKeyPackageRecord P E → Bool) (ref : String)
      (xs : List (PublishedKeyPackageRecord P E))
      → find? (has_ref ref) xs ≡ none
      → find? (has_ref ref) (erase_first test xs) ≡ none
  unfolding find? erase_first
  erase_first-keeps_absent test ref [] h = refl
  erase_first-keeps_absent test ref (x ∷ xs) h =
      ground (arith, erase_first-keeps_absent test ref xs)

  erase_first-IsUnique :
      (test : PublishedKeyPackageRecord P E → Bool) (xs : List (PublishedKeyPackageRecord P E))
      → IsUnique xs
      → IsUnique (erase_first test xs)
  unfolding erase_first
  erase_first-IsUnique test [] u = tt
  erase_first-IsUnique test (x ∷ xs) u = ground (
    arith,
    erase_first-IsUnique test xs u.1,
    erase_first-keeps_absent test x.key_package_ref xs u.0,
  )

  pub get_key_package-pending :
      (r : PublishedKeyPackageRecord P E) (test : PublishedKeyPackageRecord P E → Bool) (k : String)
      (m : KeyPackageIndex P E)
      → IsValid m
      → find? test (pending k m) ≡ some r
      → get_key_package r.key_package_ref m ≡ some r
  get_key_package-pending r test k m v h = rw get_key_package-eq-find? (
      find?-unique r (list_all_key_packages m) v.unique
        (Contains-list r k m (find?-Contains test r (pending k m) h)))

  -- In a valid map, a removed reference is not found any more.
  pub get-remove_key_package :
      (ref : String) (m : KeyPackageIndex P E)
      → IsValid m
      → get_key_package ref (remove_key_package ref m).1 ≡ none
  get-remove_key_package ref m v =
      rw (get_key_package-eq-find?, list-remove_key_package ref m v.distinct)
        (find?-erase_first ref (list_all_key_packages m) v.unique)

  find?-erase_first-apart :
      (ref other : String) (xs : List (PublishedKeyPackageRecord P E))
      → (ref == other) ≡ false
      → find? (has_ref other) (erase_first (has_ref ref) xs) ≡ find? (has_ref other) xs
  unfolding find? erase_first
  find?-erase_first-apart ref other [] h = refl
  find?-erase_first-apart ref other (x ∷ xs) h = elim (Bool-cases (x.key_package_ref == ref)) [
    | inl here ↦ ground (arith, here, h, ap (λ k. k == other) (eq_of_== x.key_package_ref ref here))
    | inr away ↦ ground (arith, away, h, find?-erase_first-apart ref other xs)
  ]

  find?-erase_first-other :
      (ref other : String) (xs : List (PublishedKeyPackageRecord P E))
      → IsUnique xs
      → find? (has_ref other) (erase_first (has_ref ref) xs)
        ≡ (if ref == other then none else find? (has_ref other) xs)
  find?-erase_first-other ref other xs u = elim (Bool-cases (ref == other)) [
    | inl same ↦ rw (same, ← eq_of_== ref other same) (find?-erase_first ref xs u)
    | inr apart ↦ rw apart (find?-erase_first-apart ref other xs apart)
  ]

  -- A removal by one reference is seen by that reference only.
  pub get-remove_key_package-other :
      (ref other : String) (m : KeyPackageIndex P E)
      → IsValid m
      → get_key_package other (remove_key_package ref m).1
        ≡ (if ref == other then none else get_key_package other m)
  get-remove_key_package-other ref other m v =
      rw
        (
          get_key_package-eq-find? other (remove_key_package ref m).1,
          get_key_package-eq-find? other m,
          list-remove_key_package ref m v.distinct,
        )
        (find?-erase_first-other ref other (list_all_key_packages m) v.unique)

  pub remove_key_package-IsValid :
      (ref : String) (m : KeyPackageIndex P E) → IsValid m → IsValid (remove_key_package ref m).1
  remove_key_package-IsValid ref m v = record {
    distinct = remove_key_package-IsDistinct ref m v.distinct;
    unique =
        rw (list-remove_key_package ref m v.distinct)
          (erase_first-IsUnique (has_ref ref) (list_all_key_packages m) v.unique);
  }
