-- ===== src/Storage/Sqlite/KeyPackages/Publication.antt =====
-- A publication in the table, beside one in memory.
use cordn.Prelude.{
  ◌≡◌, refl, sym, ap, ◌∙◌, subst, inl, inr, Bool, true, false, none, some, List, [], ◌∷◌,
  append-nil, map-append, arith, ◌+◌, ◌==◌, Bool-cases, ==-refl, eq_of_==, filter, any, find?,
  filter-append, string_eq, nat_eq,
}
use cordn.Result.{ok, err, unique_constraint_failed}
use cordn.Storage.Inbox.{pending}
use cordn.Storage.Inbox.Laws.{pending-set}
use cordn.Storage.KeyPackages as Memory
use cordn.Storage.KeyPackages.{
  PublishedKeyPackageRecord, KeyPackageIndex, has_ref, is_regular, last?,
}
use cordn.Storage.KeyPackages.Removal.{get_key_package-eq-find?}
use cordn.Storage.KeyPackages.Uniqueness.{IsUnique}
use cordn.Storage.KeyPackages.Ownership.{
  publish_key_package-IsOwned, publish_key_package-IsValid, IsUnique-insert,
}
use cordn.Storage.KeyPackages.Selection.{}
use cordn.Storage.Sqlite.{insert}
use cordn.Storage.Sqlite.KeyPackages
use cordn.Storage.Sqlite.KeyPackages.{
  KeyPackageTable, KeyPackageRow, RowFormat, row_ref, row_owner, delete_key_package,
  to_key_package_row, take_row, first, consumed_before,
}
use cordn.Storage.Sqlite.KeyPackages.Rows.{Entry, packages, to_row, Ordered-insert}
use cordn.Storage.Sqlite.KeyPackages.Refinement.{
  entry_none, entry_some, Agrees, find_row, find_same,
}

any-find? :
    (p : KeyPackageRow → Bool) (rows : List KeyPackageRow)
    → any p rows ≡ elim (find? p rows) [ none ↦ false | some row ↦ true ]
unfolding any find?
any-find? p [] = refl
any-find? p (row ∷ rows) = ground (arith, any-find? p rows)

module _ {P E : Type 0} (format : RowFormat P E) (table : KeyPackageTable) (m : KeyPackageIndex P E)
    (a : Agrees format table m) where
  module _ (r : PublishedKeyPackageRecord P E)
      (h : Memory.get_key_package r.key_package_ref m ≡ none) where
    abbrev grown : KeyPackageTable
    grown = record {
      next_id = table.next_id + 1;
      rows = insert (to_key_package_row format table.next_id r) table.rows;
    }

    pub publish-ok : KeyPackages.publish_key_package format r table ≡ ok (r, grown)
    unfolding KeyPackages.publish_key_package
    publish-ok = ground (
      arith,
      any-find? (row_ref r.key_package_ref) table.rows,
      find_row format table m a r.key_package_ref,
      entry_none format table m a r.key_package_ref h,
    )

    pub publish-Agrees : Agrees format grown (Memory.publish_key_package r m)
    unfolding Memory.publish_key_package
    publish-Agrees = record {
      kept = insert (table.next_id, r) a.kept;
      encoded =
          ap (insert (to_key_package_row format table.next_id r)) a.encoded
          ∙ sym (map-append (to_row format) a.kept ((table.next_id, r) ∷ []));
      ordered = Ordered-insert table.next_id r a.kept a.ordered;
      unique =
          subst IsUnique
            (sym (map-append (λ (x : Entry P E). x.1) a.kept ((table.next_id, r) ∷ [])))
            (IsUnique-insert r (packages a.kept) [] (rw append-nil a.unique) (
              rw append-nil (
                find_same format table m a r.key_package_ref
                ∙ sym (get_key_package-eq-find? r.key_package_ref m)
                ∙ h)));
      queues = λ k. elim (Bool-cases (r.stable_pubkey == k)) [
        | inl here ↦
            rw (map-append, filter-append, a.queues k, pending-set, here)
              (rw (← eq_of_== r.stable_pubkey k here)
                (unfold filter in (rw (==-refl r.stable_pubkey) refl)))
        | inr other ↦
            rw (map-append, filter-append, a.queues k, pending-set, other)
              (unfold filter in (rw other (append-nil (pending k m))))
      ];
      owners = publish_key_package-IsOwned r m a.owners;
      valid =
          publish_key_package-IsValid r m a.valid
            (sym (get_key_package-eq-find? r.key_package_ref m) ∙ h);
    }

  pub publish_refused :
      (r x : PublishedKeyPackageRecord P E)
      → Memory.get_key_package r.key_package_ref m ≡ some x
      → KeyPackages.publish_key_package format r table ≡ err unique_constraint_failed
  unfolding KeyPackages.publish_key_package
  publish_refused r x h =
      let (y, e, f) = entry_some format table m a r.key_package_ref x h in
      ground (
        arith,
        any-find? (row_ref r.key_package_ref) table.rows,
        find_row format table m a r.key_package_ref,
        e,
      )
