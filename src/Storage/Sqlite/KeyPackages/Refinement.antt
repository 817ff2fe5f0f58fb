-- ===== src/Storage/Sqlite/KeyPackages/Refinement.antt =====
-- The table that stands for the key packages in memory, and the calls on both.
use cordn.Prelude.{
  String, ◌≡◌, sym, ap, ◌∙◌, subst, inl, inr, not, Option, none, some, List, map, arith, ◌==◌,
  Option-cases, ==-refl, eq_of_==, filter, find?, find?-Contains, find?-true, find?-none-Contains,
  Contains-filter, filter-Contains, find?-map, filter-map, Contains, string_eq, nat_eq,
}
use cordn.Result.{ok}
use cordn.Storage.Inbox.{pending}
use cordn.Storage.KeyPackages as Memory
use cordn.Storage.KeyPackages.{
  PublishedKeyPackageRecord, KeyPackageIndex, has_ref, is_regular, last?,
}
use cordn.Storage.KeyPackages.Removal.{get_key_package-eq-find?}
use cordn.Storage.KeyPackages.Uniqueness.{
  IsUnique, IsValid, find?-unique, Contains-list, remove_key_package-IsValid,
}
use cordn.Storage.KeyPackages.Ownership.{owned, IsOwned, filter-list, remove_key_package-IsOwned}
use cordn.Storage.KeyPackages.Selection.{IsUnique-filter, pending-remove_key_package}
use cordn.Storage.Sqlite.{delete_where}
use cordn.Storage.Sqlite.Table.{filter-swap}
use cordn.Storage.Sqlite.KeyPackages
use cordn.Storage.Sqlite.KeyPackages.{
  KeyPackageTable, KeyPackageRow, RowFormat, row_ref, row_owner, delete_key_package,
  to_key_package_row, first, take_row,
}
use cordn.Storage.Sqlite.KeyPackages.Rows.{
  RestoresRows, Entry, packages, Ordered, Ordered-filter, delete-same, to_row, map_rows,
  map_found-row,
}
use mathlib.Core.Option

module _ {P E : Type 0} (format : RowFormat P E) where
  -- The rows are the encodings, by rising id, of packages that are, for each identity and in order,
  -- those in memory; no reference is there twice.
  pub record Agrees (table : KeyPackageTable) (m : KeyPackageIndex P E) : Type 0 where
    pub kept : List (Entry P E)
    pub encoded : table.rows ≡ map (to_row format) kept
    pub ordered : Ordered table.next_id kept
    pub unique : IsUnique (packages kept)
    pub queues : (k : String) → filter (owned k) (packages kept) ≡ pending k m
    pub owners : IsOwned m
    pub valid : IsValid m

  module _ (table : KeyPackageTable) (m : KeyPackageIndex P E) (a : Agrees table m) where
    abbrev pub entry : String → Option (Entry P E)
    entry ref = find? (λ x. has_ref ref x.1) a.kept

    in_memory :
        (r : PublishedKeyPackageRecord P E)
        → Contains r (packages a.kept)
        → Contains r (Memory.list_all_key_packages m)
    in_memory r c = Contains-list r r.stable_pubkey m (
        subst (Contains r) (a.queues r.stable_pubkey)
          (Contains-filter (owned r.stable_pubkey) r (packages a.kept) (==-refl r.stable_pubkey) c))

    in_table :
        (r : PublishedKeyPackageRecord P E)
        → Contains r (Memory.list_all_key_packages m)
        → Contains r (packages a.kept)
    in_table r c = filter-Contains (owned r.stable_pubkey) r (packages a.kept) (
        subst (Contains r)
          (filter-list r.stable_pubkey m a.valid.distinct a.owners ∙ sym (a.queues r.stable_pubkey))
          (Contains-filter (owned r.stable_pubkey) r (Memory.list_all_key_packages m)
            (==-refl r.stable_pubkey) c))

    pub find_same :
        (ref : String)
        → find? (has_ref ref) (packages a.kept)
          ≡ find? (has_ref ref) (Memory.list_all_key_packages m)
    find_same ref = elim (Option-cases (find? (has_ref ref) (packages a.kept))) [
      | inr (r, e) ↦
          let named =
            eq_of_== r.key_package_ref ref (find?-true (has_ref ref) r (packages a.kept) e) in
          let there =
            find?-unique r (Memory.list_all_key_packages m) a.valid.unique
              (in_memory r (find?-Contains (has_ref ref) r (packages a.kept) e)) in
          e
          ∙ sym
              (subst (λ s. find? (has_ref s) (Memory.list_all_key_packages m) ≡ some r) named there)
      | inl e ↦ elim (Option-cases (find? (has_ref ref) (Memory.list_all_key_packages m))) [
        | inl f ↦ e ∙ sym f
        | inr (r, f) ↦
            let named = find?-true (has_ref ref) r (Memory.list_all_key_packages m) f in
            let absent =
              find?-none-Contains (has_ref ref) r (packages a.kept) e
                (in_table r (find?-Contains (has_ref ref) r (Memory.list_all_key_packages m) f)) in
            absurd (cc)
      ]
    ]

    pub find_row :
        (ref : String) → find? (row_ref ref) table.rows ≡ Option.map (to_row format) (entry ref)
    unfolding to_key_package_row
    find_row ref =
        ap (find? (row_ref ref)) a.encoded ∙ find?-map (to_row format) (row_ref ref) a.kept

    pub entry-get :
        (ref : String) → Option.map (λ x. x.1) (entry ref) ≡ Memory.get_key_package ref m
    entry-get ref =
        sym (find?-map (λ (x : Entry P E). x.1) (has_ref ref) a.kept)
        ∙ find_same ref
        ∙ sym (get_key_package-eq-find? ref m)

    pub entry_none : (ref : String) → Memory.get_key_package ref m ≡ none → entry ref ≡ none
    entry_none ref h = elim (Option-cases (entry ref)) [
      | inl e ↦ e
      | inr (x, e) ↦ ground (arith, e, h, entry-get ref)
    ]

    pub entry_some :
        (ref : String) (r : PublishedKeyPackageRecord P E)
        → Memory.get_key_package ref m ≡ some r
        → (x : Entry P E) × (entry ref ≡ some x) × (x.1 ≡ r)
    entry_some ref r h = elim (Option-cases (entry ref)) [
      | inl e ↦ absurd (ground (arith, e, h, entry-get ref))
      | inr (x, e) ↦ (x, e, ground (arith, e, h, entry-get ref))
    ]

    pub get-same :
        (ref : String)
        → RestoresRows format
        → KeyPackages.get_key_package format ref table ≡ ok (Memory.get_key_package ref m)
    unfolding KeyPackages.get_key_package
    get-same ref l =
        ap (KeyPackages.map_found format) (find_row ref)
        ∙ map_found-row format (entry ref) l
        ∙ ap ok (entry-get ref)

    pub list-same :
        (k : String)
        → RestoresRows format
        → KeyPackages.list_key_packages_for_identity format k table
          ≡ ok (Memory.list_key_packages_for_identity k m)
    unfolding KeyPackages.list_key_packages_for_identity Memory.list_key_packages_for_identity
        to_key_package_row
    list-same k l =
        ap (λ rows. KeyPackages.map_key_package_rows format (filter (row_owner k) rows)) a.encoded
        ∙ ap (KeyPackages.map_key_package_rows format)
            (filter-map (to_row format) (row_owner k) a.kept)
        ∙ map_rows format (filter (λ x. owned k x.1) a.kept) l
        ∙ ap ok (sym (filter-map (λ (x : Entry P E). x.1) (owned k) a.kept) ∙ a.queues k)

    -- A row that is deleted leaves the packages without its reference.
    pub delete-Agrees :
        (x : Entry P E)
        → Contains x a.kept
        → Agrees (delete_key_package x.0 table) (Memory.remove_key_package x.1.key_package_ref m).1
    unfolding delete_key_package delete_where to_key_package_row
    delete-Agrees x c =
        let same = delete-same table.next_id x a.kept a.ordered a.unique c in
        let rest : packages (filter (λ y. not (y.0 == x.0)) a.kept)
            ≡ filter (λ r. not (has_ref x.1.key_package_ref r)) (packages a.kept) =
          ap packages same
          ∙ sym (
              filter-map (λ (y : Entry P E). y.1) (λ r. not (has_ref x.1.key_package_ref r))
                a.kept) in
        record {
          kept = filter (λ y. not (y.0 == x.0)) a.kept;
          encoded =
              ap (filter (λ row. not (row.id == x.0))) a.encoded
              ∙ filter-map (to_row format) (λ row. not (row.id == x.0)) a.kept;
          ordered = Ordered-filter table.next_id (λ y. not (y.0 == x.0)) a.kept a.ordered;
          unique = subst IsUnique (sym rest) (
              IsUnique-filter (λ r. not (has_ref x.1.key_package_ref r)) (packages a.kept)
                a.unique);
          queues = λ k.
              ap (filter (owned k)) rest
              ∙ filter-swap (owned k) (λ r. not (has_ref x.1.key_package_ref r)) (packages a.kept)
              ∙ ap (filter (λ r. not (has_ref x.1.key_package_ref r))) (a.queues k)
              ∙ sym (pending-remove_key_package k x.1.key_package_ref m a.valid a.owners);
          owners = remove_key_package-IsOwned x.1.key_package_ref m a.valid.distinct a.owners;
          valid = remove_key_package-IsValid x.1.key_package_ref m a.valid;
        }
