-- ===== src/Storage/Sqlite/KeyPackages/Rows.antt =====
-- A table of encoded rows behaves as the list of its packages with their ids.
use cordn.Prelude.{
  ℕ_discrete, ℕ, String, ◌≡◌, refl, subst, inl, inr, Bool, true, false, not, Option, none, some,
  List, [], ◌∷◌, map, arith, ◌+◌, ◌≤◌, ◌<◌, if◌then◌else◌, ◌==◌, Bool-cases, Option-cases, ==-refl,
  eq_of_==, filter, find?, All, All-append, All-filter, find?-none-Contains, All-Contains,
  All_of_Contains, filter_agree, find?-map, Contains, string_eq, nat_eq,
}
use cordn.Result.{ok}
use cordn.Core.MlsCodec.Roundtrip.{IsLossless, decode_key_package-encode_key_package}
use cordn.Storage.KeyPackages.{PublishedKeyPackageRecord, has_ref, is_regular, last?}
use cordn.Storage.KeyPackages.Uniqueness.{IsUnique}
use cordn.Storage.Sqlite.{insert}
use cordn.Storage.Sqlite.KeyPackages.{
  KeyPackageRow, RowFormat, is_regular_row, to_key_package_row, map_key_package_row,
  map_key_package_rows, map_found,
}
use cordn.Storage.Sqlite.KeyPackages.Order.{Rising, selected}
use mathlib.Core.Option

-- What the columns are made of can be read back.
pub record RestoresRows {P E : Type 0} (format : RowFormat P E) : Type 0 where
  pub lossless : IsLossless format.codec
  pub parses : (event : E) → format.parse (format.stringify event) ≡ ok event

last?-map : {A B : Type 0} (f : A → B) (xs : List A) → last? (map f xs) ≡ Option.map f (last? xs)
unfolding last?
last?-map f [] = refl
last?-map f (x ∷ []) = refl
last?-map f (x ∷ y ∷ xs) = last?-map f (y ∷ xs)

find?-map_on :
    {A B : Type 0} (f : A → B) (p : B → Bool) (q : A → Bool) (xs : List A)
    → ((x : A) → p (f x) ≡ q x)
    → find? p (map f xs) ≡ Option.map f (find? q xs)
unfolding find?
find?-map_on f p q [] h = refl
find?-map_on f p q (x ∷ xs) h = ground (arith, h x, find?-map_on f p q xs h)

-- A package with the id of its row.
abbrev pub Entry : Type 0 → Type 0 → Type 0
Entry P E = ℕ × PublishedKeyPackageRecord P E

module _ {P E : Type 0} where
  abbrev pub packages : List (Entry P E) → List (PublishedKeyPackageRecord P E)
  packages xs = map (λ x. x.1) xs

  -- The ids rise, and `next` is above them.
  abbrev pub Ordered : ℕ → List (Entry P E) → Type 0
  Ordered next [] = Unit
  Ordered next (x ∷ xs) = All (λ y. x.0 < y.0) xs × (x.0 < next) × Ordered next xs

  pub Ordered-filter :
      (next : ℕ) (p : (Entry P E) → Bool) (xs : List (Entry P E))
      → Ordered next xs
      → Ordered next (filter p xs)
  unfolding filter
  Ordered-filter next p [] o = tt
  Ordered-filter next p (x ∷ xs) o = elim (Bool-cases (p x)) [
    | inl e ↦ rw e (All-filter (λ y. x.0 < y.0) p xs o.0, o.1, Ordered-filter next p xs o.2)
    | inr e ↦ rw e (Ordered-filter next p xs o.2)
  ]

  pub Ordered-insert :
      (next : ℕ) (r : PublishedKeyPackageRecord P E) (xs : List (Entry P E))
      → Ordered next xs
      → Ordered (next + 1) (insert (next, r) xs)
  Ordered-insert next r [] o = (tt, omega arith, tt)
  Ordered-insert next r (x ∷ xs) o = (
    All-append (λ y. x.0 < y.0) xs ((next, r) ∷ []) o.0 (o.1, tt),
    omega (arith, o.1),
    Ordered-insert next r xs o.2,
  )

  -- The package that a consumption by identity takes.
  abbrev pub picked : List (Entry P E) → Option (Entry P E)
  picked xs = elim (find? (λ x. is_regular x.1) xs) [ some x ↦ some x | none ↦ last? xs ]

  pub packages-picked :
      (xs : List (Entry P E))
      → Option.map (λ x. x.1) (picked xs)
        ≡ elim (find? is_regular (packages xs)) [ some r ↦ some r | none ↦ last? (packages xs) ]
  packages-picked xs = elim (Option-cases (find? (λ x. is_regular x.1) xs)) [
    | inl e ↦ ground (
      arith,
      e,
      find?-map (λ (x : Entry P E). x.1) is_regular xs,
      last?-map (λ (x : Entry P E). x.1) xs,
    )
    | inr (x, e) ↦ ground (arith, e, find?-map (λ (x : Entry P E). x.1) is_regular xs)
  ]

  fresh_entry :
      (ref : String) (xs : List (Entry P E))
      → find? (has_ref ref) (packages xs) ≡ none
      → find? (λ x. has_ref ref x.1) xs ≡ none
  unfolding find?
  fresh_entry ref [] h = refl
  fresh_entry ref (x ∷ xs) h = ground (arith, fresh_entry ref xs, h)

  -- By id or by reference, the same entry goes.
  delete_first :
      (next : ℕ) (y : Entry P E) (ys : List (Entry P E))
      → Ordered next (y ∷ ys)
      → IsUnique (packages (y ∷ ys))
      → filter (λ z. not (z.0 == y.0)) (y ∷ ys)
        ≡ filter (λ z. not (has_ref y.1.key_package_ref z.1)) (y ∷ ys)
  unfolding filter find?
  delete_first next y ys o u =
      let fresh = fresh_entry y.1.key_package_ref ys u.0 in
      let rest : filter (λ z. not (z.0 == y.0)) ys
          ≡ filter (λ z. not (has_ref y.1.key_package_ref z.1)) ys =
        filter_agree (λ z. not (z.0 == y.0)) (λ z. not (has_ref y.1.key_package_ref z.1)) ys
          (All_of_Contains _ ys (λ z d.
            let above = All-Contains (λ w. y.0 < w.0) z ys o.0 d in
            let other = find?-none-Contains (λ w. has_ref y.1.key_package_ref w.1) z ys fresh d in
            ground (arith, above, other))) in
      ground (arith, ==-refl y.0, ==-refl y.1.key_package_ref, rest)

  pub delete-same :
      (next : ℕ) (x : Entry P E) (xs : List (Entry P E))
      → Ordered next xs
      → IsUnique (packages xs)
      → Contains x xs
      → filter (λ y. not (y.0 == x.0)) xs ≡ filter (λ y. not (has_ref x.1.key_package_ref y.1)) xs
  unfolding filter find?
  delete-same next x [] o u c = elim c [ ]
  delete-same next x (y ∷ ys) o u (inl e) =
      subst
        (λ v.
          filter (λ z. not (z.0 == v.0)) (y ∷ ys)
          ≡ filter (λ z. not (has_ref v.1.key_package_ref z.1)) (y ∷ ys))
        e (delete_first next y ys o u)
  delete-same next x (y ∷ ys) o u (inr c) =
      let fresh = fresh_entry y.1.key_package_ref ys u.0 in
      let above = All-Contains (λ w. y.0 < w.0) x ys o.0 c in
      let other = find?-none-Contains (λ w. has_ref y.1.key_package_ref w.1) x ys fresh c in
      let rest = delete-same next x ys o.2 u.1 c in
      ground (
        arith,
        above,
        other,
        rest,
        eq_of_== y.1.key_package_ref x.1.key_package_ref,
        ==-refl x.1.key_package_ref,
      )

module _ {P E : Type 0} (format : RowFormat P E) where
  abbrev pub to_row : (Entry P E) → KeyPackageRow
  to_row x = to_key_package_row format x.0 x.1

  flag_back : (b : Bool) → ◌==◌ {A = ℕ} (if b then 1 else 0) 1 ≡ b
  unfolding ℕ_discrete
  flag_back false = refl
  flag_back true = refl

  pub map_row :
      (x : (Entry P E)) → RestoresRows format → map_key_package_row format (to_row x) ≡ ok x.1
  unfolding map_key_package_row to_key_package_row
  map_row x l =
      rw
        (
          decode_key_package-encode_key_package format.codec x.1.key_package l.lossless,
          l.parses x.1.publication_event,
          flag_back x.1.is_last_resort,
        )
        refl

  pub map_rows :
      (xs : List (Entry P E))
      → RestoresRows format
      → map_key_package_rows format (map to_row xs) ≡ ok (packages xs)
  unfolding map_key_package_rows
  map_rows [] l = refl
  map_rows (x ∷ xs) l = rw (map_row x l, map_rows xs l) refl

  pub map_found-row :
      (o : Option (Entry P E))
      → RestoresRows format
      → map_found format (Option.map to_row o) ≡ ok (Option.map (λ x. x.1) o)
  unfolding map_found
  map_found-row none l = refl
  map_found-row (some x) l = rw (map_row x l) refl

  flag_le : (b : Bool) → (if b then 1 else 0) ≤ 1
  flag_le false = omega arith
  flag_le true = omega arith

  later :
      (x : Entry P E) (xs : List (Entry P E))
      → All (λ y. x.0 < y.0) xs
      → All (λ row. (x.0 < row.id) × (row.is_last_resort ≤ 1)) (map to_row xs)
  unfolding to_key_package_row
  later x [] a = tt
  later x (y ∷ ys) a = ((a.0, flag_le y.1.is_last_resort), later x ys a.1)

  pub Ordered-Rising : (next : ℕ) (xs : List (Entry P E)) → Ordered next xs → Rising (map to_row xs)
  unfolding to_key_package_row
  Ordered-Rising next [] o = tt
  Ordered-Rising next (x ∷ xs) o =
      (later x xs o.0, flag_le x.1.is_last_resort, Ordered-Rising next xs o.2)

  pub regular_back : (b : Bool) → ◌==◌ {A = ℕ} (if b then 1 else 0) 0 ≡ not b
  unfolding ℕ_discrete
  regular_back false = refl
  regular_back true = refl

  pub selected-picked :
      (xs : List (Entry P E)) → selected (map to_row xs) ≡ Option.map to_row (picked xs)
  unfolding to_key_package_row
  selected-picked xs = ground (
    arith,
    find?-map_on to_row is_regular_row (λ x. is_regular x.1) xs
        (λ x. regular_back x.1.is_last_resort),
    last?-map to_row xs,
  )
