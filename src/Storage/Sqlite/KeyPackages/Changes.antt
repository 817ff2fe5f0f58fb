-- ===== src/Storage/Sqlite/KeyPackages/Changes.antt =====
-- A removal and a consumption in the table, beside those in memory.
use cordn.Prelude.{
  String, ◌≡◌, refl, sym, ap, ◌∙◌, subst, inl, inr, Option, none, some, List, map, arith,
  Bool-cases, Option-cases, eq_of_==, filter, find?, find?-Contains, find?-true, filter-Contains,
  filter-map, Contains, string_eq, nat_eq,
}
use cordn.Result.{ok}
use cordn.Storage.Inbox.{pending}
use cordn.Storage.KeyPackages as Memory
use cordn.Storage.KeyPackages.{
  PublishedKeyPackageRecord, KeyPackageIndex, has_ref, is_regular, last?,
}
use cordn.Storage.KeyPackages.Removal.{remove_key_package-result}
use cordn.Storage.KeyPackages.Consumption.{last?-Contains}
use cordn.Storage.KeyPackages.Ownership.{owned}
use cordn.Storage.KeyPackages.Selection.{
  taken, chosen, remove_nothing, consume-direct, consume-chosen, consume_nothing,
}
use cordn.Storage.Sqlite.{order_by}
use cordn.Storage.Sqlite.KeyPackages
use cordn.Storage.Sqlite.KeyPackages.{
  KeyPackageTable, KeyPackageRow, RowFormat, row_ref, row_owner, delete_key_package,
  to_key_package_row, take_row, first, consumed_before,
}
use cordn.Storage.Sqlite.KeyPackages.Order.{first-order_by}
use cordn.Storage.Sqlite.KeyPackages.Rows.{
  RestoresRows, Entry, to_row, map_found-row, regular_back, Ordered-filter, Ordered-Rising, picked,
  packages-picked, selected-picked,
}
use cordn.Storage.Sqlite.KeyPackages.Refinement.{
  entry_none, entry_some, Agrees, entry, find_row, delete-Agrees,
}
use mathlib.Core.Option

picked-Contains :
    {P E : Type 0} (xs : List (Entry P E)) (x : Entry P E) → picked xs ≡ some x → Contains x xs
picked-Contains xs x h = elim (Option-cases (find? (λ y. is_regular y.1) xs)) [
  | inr (y, e) ↦ find?-Contains (λ z. is_regular z.1) x xs (ground (arith, e, h))
  | inl e ↦ last?-Contains x xs (ground (arith, e, h))
]

-- The calls, by the row that they select.
module _ {P E : Type 0} (format : RowFormat P E) (table : KeyPackageTable) (id : String) where
  remove_absent :
      find? (row_ref id) table.rows ≡ none
      → KeyPackages.remove_key_package format id table ≡ (ok none, table)
  unfolding KeyPackages.remove_key_package
  remove_absent h = rw (KeyPackages.remove_key_package, h) refl

  remove_present :
      (row : KeyPackageRow)
      → find? (row_ref id) table.rows ≡ some row
      → KeyPackages.remove_key_package format id table
        ≡ (KeyPackages.map_found format (some row), delete_key_package row.id table)
  unfolding KeyPackages.remove_key_package
  remove_present row h = rw (KeyPackages.remove_key_package, h) refl

  selected_by_reference :
      (found : Option KeyPackageRow)
      → find? (row_ref id) table.rows ≡ found
      → KeyPackages.consume_by_reference id table ≡ take_row found table
  unfolding KeyPackages.consume_by_reference
  selected_by_reference found h = ap (λ o. take_row o table) h

  consume_present :
      (row : KeyPackageRow)
      → find? (row_ref id) table.rows ≡ some row
      → KeyPackages.consume_key_package format id table
        ≡ (KeyPackages.map_found format (some row), (take_row (some row) table).1)
  unfolding KeyPackages.consume_key_package take_row
  consume_present row h =
      let found = selected_by_reference (some row) h in
      rw (KeyPackages.consume_key_package, found)
        (ap (λ t. (KeyPackages.map_found format (some row), t)) (ap (λ t. t.1) found))

  consume_absent :
      find? (row_ref id) table.rows ≡ none
      → KeyPackages.consume_key_package format id table ≡ (
        KeyPackages.map_found format (KeyPackages.consume_by_identity id table).0,
        (KeyPackages.consume_by_identity id table).1,
      )
  unfolding KeyPackages.consume_key_package take_row
  consume_absent h =
      let found = selected_by_reference none h in
      rw (KeyPackages.consume_key_package, found)
        (ap
          (λ t. (
            KeyPackages.map_found format (KeyPackages.consume_by_identity id t).0,
            (KeyPackages.consume_by_identity id t).1,
          ))
          (ap (λ t. t.1) found))

module _ {P E : Type 0} (format : RowFormat P E) (table : KeyPackageTable) (m : KeyPackageIndex P E)
    (a : Agrees format table m) where
  row_at :
      (ref : String) (x : Entry P E)
      → entry format table m a ref ≡ some x
      → find? (row_ref ref) table.rows ≡ some (to_row format x)
  row_at ref x e = find_row format table m a ref ∙ ap (Option.map (to_row format)) e

  pub remove-same :
      (ref : String)
      → RestoresRows format
      → ((KeyPackages.remove_key_package format ref table).0
          ≡ ok (Memory.remove_key_package ref m).0)
        × Agrees format
            (KeyPackages.remove_key_package format ref table).1
            (Memory.remove_key_package ref m).1
  unfolding to_key_package_row
  remove-same ref l = elim (Option-cases (Memory.get_key_package ref m)) [
    | inl h ↦
        let absent : find? (row_ref ref) table.rows ≡ none =
          find_row format table m a ref
          ∙ ap (Option.map (to_row format)) (entry_none format table m a ref h) in
        rw (remove_absent format table ref absent, remove_nothing ref m h) (refl, a)
    | inr (r, h) ↦
        let (x, e, f) = entry_some format table m a ref r h in
        let named =
          eq_of_== x.1.key_package_ref ref (find?-true (λ y. has_ref ref y.1) x a.kept e) in
        let deleted =
          delete-Agrees format table m a x (find?-Contains (λ y. has_ref ref y.1) x a.kept e) in
        rw (remove_present format table ref (to_row format x) (row_at ref x e)) (
          map_found-row format (some x) l
              ∙ ap (λ y. ok (some y)) f
              ∙ ap ok (sym (remove_key_package-result ref m ∙ h)),
          subst
              (λ s. Agrees format (delete_key_package x.0 table) (Memory.remove_key_package s m).1)
              named deleted,
        )
  ]

  -- The row that a consumption selects.
  take-Agrees :
      (x : Entry P E)
      → Contains x a.kept
      → Agrees format (take_row (some (to_row format x)) table).1 (taken x.1 m).1
  unfolding take_row to_key_package_row
  take-Agrees x c = elim (Bool-cases x.1.is_last_resort) [
    | inl last ↦ rw (regular_back format x.1.is_last_resort, last) a
    | inr regular ↦
        rw (regular_back format x.1.is_last_resort, regular) (delete-Agrees format table m a x c)
  ]

  abbrev mine : String → List (Entry P E)
  mine id = filter (λ x. owned id x.1) a.kept

  selection :
      (id : String)
      → first (order_by consumed_before (filter (row_owner id) table.rows))
        ≡ Option.map (to_row format) (picked (mine id))
  unfolding to_key_package_row
  selection id =
      ap (λ rows. first (order_by consumed_before (filter (row_owner id) rows))) a.encoded
      ∙ ap (λ rows. first (order_by consumed_before rows))
          (filter-map (to_row format) (row_owner id) a.kept)
      ∙ first-order_by (map (to_row format) (mine id)) (
          Ordered-Rising format table.next_id (mine id)
            (Ordered-filter table.next_id (λ x. owned id x.1) a.kept a.ordered))
      ∙ selected-picked format (mine id)

  picked-chosen : (id : String) → Option.map (λ x. x.1) (picked (mine id)) ≡ chosen (pending id m)
  picked-chosen id =
      packages-picked (mine id)
      ∙ ap chosen (sym (filter-map (λ (x : Entry P E). x.1) (owned id) a.kept) ∙ a.queues id)

  identity-same :
      (id : String)
      → RestoresRows format
      → Memory.get_key_package id m ≡ none
      → (KeyPackages.map_found format (KeyPackages.consume_by_identity id table).0
          ≡ ok (Memory.consume_key_package id m).0)
        × Agrees format
            (KeyPackages.consume_by_identity id table).1
            (Memory.consume_key_package id m).1
  unfolding KeyPackages.consume_by_identity
  identity-same id l h = elim (Option-cases (picked (mine id))) [
    | inl e ↦
        let empty : chosen (pending id m) ≡ none =
          sym (picked-chosen id) ∙ ap (Option.map (λ (x : Entry P E). x.1)) e in
        rw (KeyPackages.consume_by_identity, selection id, e, consume_nothing m a.valid id h empty)
          (unfold take_row KeyPackages.map_found in (refl, a))
    | inr (x, e) ↦
        let found : chosen (pending id m) ≡ some x.1 =
          sym (picked-chosen id) ∙ ap (Option.map (λ (x : Entry P E). x.1)) e in
        let there = filter-Contains (λ y. owned id y.1) x a.kept (picked-Contains (mine id) x e) in
        rw
          (
            KeyPackages.consume_by_identity,
            selection id,
            e,
            consume-chosen m a.valid id x.1 h found,
          )
          (unfold take_row in (map_found-row format (some x) l, take-Agrees x there))
  ]

  pub consume-same :
      (id : String)
      → RestoresRows format
      → ((KeyPackages.consume_key_package format id table).0
          ≡ ok (Memory.consume_key_package id m).0)
        × Agrees format
            (KeyPackages.consume_key_package format id table).1
            (Memory.consume_key_package id m).1
  consume-same id l = elim (Option-cases (Memory.get_key_package id m)) [
    | inr (r, h) ↦
        let (x, e, f) = entry_some format table m a id r h in
        rw
          (
            consume_present format table id (to_row format x) (row_at id x e),
            consume-direct m a.valid id r h,
          )
          (
            map_found-row format (some x) l ∙ ap (λ y. ok (some y)) f,
            subst (λ y. Agrees format (take_row (some (to_row format x)) table).1 (taken y m).1) f
                (take-Agrees x (find?-Contains (λ y. has_ref id y.1) x a.kept e)),
          )
    | inl h ↦
        let absent : find? (row_ref id) table.rows ≡ none =
          find_row format table m a id
          ∙ ap (Option.map (to_row format)) (entry_none format table m a id h) in
        rw (consume_absent format table id absent) (identity-same id l h)
  ]
