-- ===== src/Storage/Sqlite/KeyPackages/Order.antt =====
-- Which row a consumption by identity selects.
use cordn.Prelude.{
  ◌≡◌, refl, ◌∙◌, inl, inr, true, false, Option, none, some, List, [], ◌∷◌, arith, ◌≤◌, ◌<◌,
  if◌then◌else◌, Bool-cases, Option-cases, find?, All, find?-Contains, All-Contains, Contains,
}
use cordn.Storage.KeyPackages.{last?}
use cordn.Storage.KeyPackages.Consumption.{last?-Contains}
use cordn.Storage.Sqlite.{place_by, order_by}
use cordn.Storage.Sqlite.KeyPackages.{KeyPackageRow, is_regular_row, consumed_before, first}

-- The ids rise, and every flag is 0 or 1.
abbrev pub Rising : List KeyPackageRow → Type 0
Rising [] = Unit
Rising (r ∷ rs) =
    All (λ x. (r.id < x.id) × (x.is_last_resort ≤ 1)) rs × (r.is_last_resort ≤ 1) × Rising rs

-- The first regular row, else the last row of all.
abbrev pub selected : List KeyPackageRow → Option KeyPackageRow
selected rows = elim (find? is_regular_row rows) [ some r ↦ some r | none ↦ last? rows ]

selected-Contains :
    (rows : List KeyPackageRow) (r : KeyPackageRow) → selected rows ≡ some r → Contains r rows
selected-Contains rows r h = elim (Option-cases (find? is_regular_row rows)) [
  | inr (x, e) ↦ find?-Contains is_regular_row r rows (ground (arith, e))
  | inl e ↦ last?-Contains r rows (ground (arith, e))
]

first-place_by :
    (r : KeyPackageRow) (rows : List KeyPackageRow)
    → first (place_by consumed_before r rows) ≡ elim (first rows) [
      | none ↦ some r
      | some x ↦ if consumed_before r x then some r else some x
    ]
unfolding place_by first
first-place_by r [] = refl
first-place_by r (x ∷ rows) = ground arith

abbrev Later : KeyPackageRow → KeyPackageRow → Type 0
Later r x = (r.id < x.id) × (x.is_last_resort ≤ 1)

regular_first :
    (r x : KeyPackageRow) → is_regular_row r ≡ true → Later r x → consumed_before r x ≡ true
unfolding consumed_before
regular_first r x e l = ground (arith, e, l.0, l.1)

last_resort_after :
    (r x : KeyPackageRow)
    → r.is_last_resort ≤ 1
    → is_regular_row r ≡ false
    → Later r x
    → consumed_before r x ≡ false
unfolding consumed_before
last_resort_after r x f e l = ground (arith, f, e, l.0, l.1)

last?-cons :
    (r : KeyPackageRow) (rows : List KeyPackageRow)
    → last? (r ∷ rows) ≡ elim (last? rows) [ none ↦ some r | some x ↦ some x ]
unfolding last?
last?-cons r [] = refl
last?-cons r (x ∷ rows) = ground (arith, last?-cons x rows)

selected-cons :
    (r : KeyPackageRow) (rows : List KeyPackageRow)
    → is_regular_row r ≡ false
    → selected (r ∷ rows) ≡ elim (selected rows) [ none ↦ some r | some x ↦ some x ]
unfolding find?
selected-cons r rows e = elim (Option-cases (find? is_regular_row rows)) [
  | inl f ↦ ground (arith, e, f, last?-cons r rows)
  | inr (x, f) ↦ ground (arith, e, f)
]

pub first-order_by :
    (rows : List KeyPackageRow)
    → Rising rows
    → first (order_by consumed_before rows) ≡ selected rows
unfolding order_by find? last? first
first-order_by [] h = refl
first-order_by (r ∷ rows) h =
    first-place_by r (order_by consumed_before rows)
    ∙ rw (first-order_by rows h.2) (elim (Bool-cases (is_regular_row r)) [
      | inl e ↦ elim (Option-cases (selected rows)) [
        | inl none_left ↦ ground (arith, e, none_left)
        | inr (x, s) ↦ ground (
          arith,
          e,
          s,
          regular_first r x e (All-Contains (Later r) x rows h.0 (selected-Contains rows x s)),
        )
      ]
      | inr e ↦ rw (selected-cons r rows e) (elim (Option-cases (selected rows)) [
        | inl none_left ↦ rw none_left refl
        | inr (x, s) ↦
            let later = All-Contains (Later r) x rows h.0 (selected-Contains rows x s) in
            rw (s, last_resort_after r x h.1 e later) refl
      ])
    ])
