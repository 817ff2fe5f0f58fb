-- ===== src/Storage/KeyPackages/Removal.antt =====
-- What a removal leaves, for the map read as one list of records in the order of iteration.
use cordn.Prelude.{
  ℕ, String, ◌≡◌, refl, inl, inr, Bool, false, none, some, List, [], ◌∷◌, ◌++◌, arith,
  if◌then◌else◌, Eq, ◌==◌, Bool-cases, Option-cases, get_elem?, find?, string_eq, nat_eq,
}
use cordn.Prelude.Map
use cordn.Prelude.Map.{IsDistinct}
use cordn.Storage.KeyPackages.{
  PublishedKeyPackageRecord, KeyPackageIndex, Located, find_index, remove_at, has_ref,
  list_all_key_packages, find_key_package, get_key_package, put_back, remove_key_package,
}

-- The list without the first element that passes the test.
unfoldable pub erase_first {ℓ} : {A : Type ℓ} → (A → Bool) → List A → List A
erase_first test [] = []
erase_first test (x ∷ xs) = if test x then xs else x ∷ erase_first test xs

module _ {ℓ} {A : Type ℓ} (test : A → Bool) where
  find_index-some :
      (xs : List A) (i : ℕ)
      → find_index test xs ≡ some i
      → (x : A) × (find? test xs ≡ some x)
        × (get_elem? xs i ≡ some x)
        × (remove_at i xs ≡ erase_first test xs)
  unfolding find_index find? get_elem? remove_at erase_first
  find_index-some [] i h = cc
  find_index-some (x ∷ xs) i h = elim (Bool-cases (test x)) [
    | inl here ↦ (x, ground arith, ground arith, ground arith)
    | inr there ↦ elim (Option-cases (find_index test xs)) [
      | inl absent ↦ absurd (ground arith)
      | inr (j, e) ↦
          let (y, found, got, gone) = find_index-some xs j e in
          (y, ground arith, ground arith, ground arith)
    ]
  ]

  find_index-none : (xs : List A) → find_index test xs ≡ none → find? test xs ≡ none
  unfolding find_index find?
  find_index-none [] h = refl
  find_index-none (x ∷ xs) h = ground (arith, find_index-none xs)

  pub find?-append :
      (xs ys : List A)
      → find? test (xs ++ ys) ≡ elim (find? test xs) [ some x ↦ some x | none ↦ find? test ys ]
  unfolding find?
  find?-append [] ys = refl
  find?-append (x ∷ xs) ys = ground (arith, find?-append xs ys)

  erase_first-append :
      (xs ys : List A)
      → erase_first test (xs ++ ys) ≡ elim (find? test xs) [
        | some x ↦ erase_first test xs ++ ys
        | none ↦ xs ++ erase_first test ys
      ]
  unfolding find? erase_first
  erase_first-append [] ys = refl
  erase_first-append (x ∷ xs) ys = ground (arith, erase_first-append xs ys)

delete_absent {ℓ} :
    {K V : Type ℓ} ⦃e : Eq K⦄ (k : K) (m : Map.Map K V) → Map.get k m ≡ none → Map.delete k m ≡ m
unfolding Map.get Map.delete
delete_absent k [] h = refl
delete_absent k ((j, v) ∷ m) h = ground (arith, delete_absent k m)

put_back-IsDistinct :
    {P E : Type 0} (k : String) (rs : List (PublishedKeyPackageRecord P E))
    (m : KeyPackageIndex P E)
    → IsDistinct m
    → IsDistinct (put_back k rs m)
unfolding put_back
put_back-IsDistinct k [] m d = Map.delete-IsDistinct k m d
put_back-IsDistinct k (r ∷ rs) m d = Map.set-IsDistinct k (r ∷ rs) m d

module _ {P E : Type 0} (ref : String) where
  -- A lookup by reference reads the map as one list.
  pub get_key_package-eq-find? :
      (m : KeyPackageIndex P E)
      → get_key_package ref m ≡ find? (has_ref ref) (list_all_key_packages m)
  unfolding get_key_package find_key_package list_all_key_packages find?
  get_key_package-eq-find? [] = refl
  get_key_package-eq-find? ((k, rs) ∷ m) = elim (Option-cases (find_index (has_ref ref) rs)) [
    | inl e ↦
        rw (e, get_key_package, find_key_package)
          (ground (
            arith,
            find_index-none (has_ref ref) rs,
            find?-append (has_ref ref) rs (list_all_key_packages m),
            get_key_package-eq-find? m,
          ))
    | inr (i, e) ↦
        let (x, found, got, _) = find_index-some (has_ref ref) rs i e in
        rw (e, get_key_package, find_key_package)
          (ground (arith, find?-append (has_ref ref) rs (list_all_key_packages m)))
  ]

  pub located_found :
      (m : KeyPackageIndex P E) (l : Located P E)
      → find_key_package ref m ≡ some l
      → (x : PublishedKeyPackageRecord P E) × (l.found ≡ some x)
  unfolding find_key_package
  located_found [] l h = cc
  located_found ((k, rs) ∷ m) l h = elim (Option-cases (find_index (has_ref ref) rs)) [
    | inl e ↦ located_found m l (ground arith)
    | inr (i, e) ↦
        let (x, found, got, _) = find_index-some (has_ref ref) rs i e in (x, ground arith)
  ]

  pub get-located :
      (m : KeyPackageIndex P E) (l : Located P E)
      → IsDistinct m
      → find_key_package ref m ≡ some l
      → Map.get l.stable_pubkey m ≡ some l.records
  unfolding find_key_package Map.get
  get-located [] l d h = cc
  get-located ((k, rs) ∷ m) l d h = ground (arith, get-located m l d.1)

  put_back-list :
      (k : String) (rs rs' : List (PublishedKeyPackageRecord P E)) (m : KeyPackageIndex P E)
      → Map.get k m ≡ none
      → list_all_key_packages (put_back k rs' ((k, rs) ∷ m)) ≡ rs' ++ list_all_key_packages m
  unfolding put_back list_all_key_packages Map.set Map.delete
  put_back-list k rs [] m h = ground (arith, delete_absent k m)
  put_back-list k rs (r ∷ rs') m h = ground arith

  put_back-skip :
      (k j : String) (rs rs' : List (PublishedKeyPackageRecord P E)) (m : KeyPackageIndex P E)
      → (k == j) ≡ false
      → list_all_key_packages (put_back j rs' ((k, rs) ∷ m))
        ≡ rs ++ list_all_key_packages (put_back j rs' m)
  unfolding put_back list_all_key_packages Map.set Map.delete
  put_back-skip k j rs [] m h = ground arith
  put_back-skip k j rs (r ∷ rs') m h = ground arith

  find_key_package_distinct :
      (k : String) (m : KeyPackageIndex P E) (l : Located P E)
      → IsDistinct m
      → Map.get k m ≡ none
      → find_key_package ref m ≡ some l
      → (k == l.stable_pubkey) ≡ false
  find_key_package_distinct k m l d h e = ground (arith, get-located m l d e)

  -- In a map with one entry to an identity, a removal by reference takes the first record with the
  -- reference, if there is one, out of the published ones, and no other.
  pub list-remove_key_package :
      (m : KeyPackageIndex P E)
      → IsDistinct m
      → list_all_key_packages (remove_key_package ref m).1
        ≡ erase_first (has_ref ref) (list_all_key_packages m)
  unfolding remove_key_package find_key_package list_all_key_packages erase_first
  list-remove_key_package [] d = refl
  list-remove_key_package ((k, rs) ∷ m) d = elim (Option-cases (find_index (has_ref ref) rs)) [
    | inr (i, e) ↦
        let (x, found, got, gone) = find_index-some (has_ref ref) rs i e in
        rw (e, remove_key_package, find_key_package)
          (ground (
            arith,
            put_back-list k rs (remove_at i rs) m d.0,
            erase_first-append (has_ref ref) rs (list_all_key_packages m),
          ))
    | inl e ↦ elim (Option-cases (find_key_package ref m)) [
      | inl missing ↦
          rw (e, remove_key_package, find_key_package)
            (ground (
              arith,
              find_index-none (has_ref ref) rs,
              erase_first-append (has_ref ref) rs (list_all_key_packages m),
              list-remove_key_package m d.1,
            ))
      | inr (l, found) ↦
          rw (e, remove_key_package, find_key_package)
            (ground (
              arith,
              find_index-none (has_ref ref) rs,
              erase_first-append (has_ref ref) rs (list_all_key_packages m),
              list-remove_key_package m d.1,
              put_back-skip k l.stable_pubkey rs (remove_at l.index l.records) m,
              find_key_package_distinct k m l d.1 d.0,
            ))
    ]
  ]

  -- What it returns is that record.
  pub remove_key_package-result :
      (m : KeyPackageIndex P E) → (remove_key_package ref m).0 ≡ get_key_package ref m
  unfolding remove_key_package get_key_package
  remove_key_package-result m = ground arith

  pub remove_key_package-IsDistinct :
      (m : KeyPackageIndex P E) → IsDistinct m → IsDistinct (remove_key_package ref m).1
  unfolding remove_key_package
  remove_key_package-IsDistinct m d = elim (Option-cases (find_key_package ref m)) [
    | inl e ↦ rw (e, remove_key_package) d
    | inr (l, e) ↦
        rw (e, remove_key_package)
          (put_back-IsDistinct l.stable_pubkey (remove_at l.index l.records) m d)
  ]
