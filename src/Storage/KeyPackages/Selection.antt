-- ===== src/Storage/KeyPackages/Selection.antt =====
-- Which package a consumption takes, and what a removal leaves to each identity.
use cordn.Prelude.{
  String, ◌≡◌, refl, sym, ap, ◌∙◌, inl, inr, Bool, not, Option, none, some, List, [], ◌∷◌, arith,
  if◌then◌else◌, Bool-cases, Option-cases, eq_of_==, filter, find?, find?-true, find?-none-Contains,
  string_eq, nat_eq,
}
use cordn.Storage.Inbox.{pending}
use cordn.Storage.KeyPackages.{
  find_key_package, PublishedKeyPackageRecord, KeyPackageIndex, has_ref, list_all_key_packages,
  get_key_package, remove_key_package, consume_key_package, consume_by_reference,
  consume_by_identity, is_regular, last?,
}
use cordn.Storage.KeyPackages.Removal.{
  located_found, erase_first, get_key_package-eq-find?, list-remove_key_package,
  remove_key_package-result, remove_key_package-IsDistinct,
}
use cordn.Storage.KeyPackages.Uniqueness.{IsUnique, IsValid, get_key_package-pending}
use cordn.Storage.KeyPackages.Consumption.{last?-Contains}
use cordn.Storage.KeyPackages.Ownership.{owned, IsOwned, filter-list, remove_key_package-IsOwned}
use cordn.Storage.Sqlite.Table.{filter-swap}

module _ {P E : Type 0} where
  filter_absent :
      (p : PublishedKeyPackageRecord P E → Bool) (xs : List (PublishedKeyPackageRecord P E))
      → find? p xs ≡ none
      → filter (λ x. not (p x)) xs ≡ xs
  unfolding find? filter
  filter_absent p [] h = refl
  filter_absent p (x ∷ xs) h = ground (arith, h, filter_absent p xs)

  erase_first-filter :
      (ref : String) (xs : List (PublishedKeyPackageRecord P E))
      → IsUnique xs
      → erase_first (has_ref ref) xs ≡ filter (λ x. not (has_ref ref x)) xs
  unfolding erase_first filter
  erase_first-filter ref [] u = refl
  erase_first-filter ref (x ∷ xs) u = elim (Bool-cases (has_ref ref x)) [
    | inl here ↦
        let absent : find? (has_ref ref) xs ≡ none =
          rw (eq_of_== x.key_package_ref ref here) at u.0 in
        ground (arith, here, filter_absent (has_ref ref) xs absent)
    | inr other ↦ ground (arith, other, erase_first-filter ref xs u.1)
  ]

  find?-filter :
      (p q : PublishedKeyPackageRecord P E → Bool) (xs : List (PublishedKeyPackageRecord P E))
      → find? p xs ≡ none
      → find? p (filter q xs) ≡ none
  unfolding find? filter
  find?-filter p q [] h = refl
  find?-filter p q (x ∷ xs) h = ground (arith, h, find?-filter p q xs)

  pub IsUnique-filter :
      (q : PublishedKeyPackageRecord P E → Bool) (xs : List (PublishedKeyPackageRecord P E))
      → IsUnique xs
      → IsUnique (filter q xs)
  unfolding filter
  IsUnique-filter q [] u = tt
  IsUnique-filter q (x ∷ xs) u = elim (Bool-cases (q x)) [
    | inl e ↦ rw e (find?-filter (has_ref x.key_package_ref) q xs u.0, IsUnique-filter q xs u.1)
    | inr e ↦ rw e (IsUnique-filter q xs u.1)
  ]

  -- A removal takes the reference out of every list.
  pub pending-remove_key_package :
      (k ref : String) (m : KeyPackageIndex P E)
      → IsValid m
      → IsOwned m
      → pending k (remove_key_package ref m).1 ≡ filter (λ r. not (has_ref ref r)) (pending k m)
  pending-remove_key_package k ref m v o =
      sym (
        filter-list k (remove_key_package ref m).1 (remove_key_package-IsDistinct ref m v.distinct)
          (remove_key_package-IsOwned ref m v.distinct o))
      ∙ ap (filter (owned k)) (
          list-remove_key_package ref m v.distinct
          ∙ erase_first-filter ref (list_all_key_packages m) v.unique)
      ∙ filter-swap (owned k) (λ r. not (has_ref ref r)) (list_all_key_packages m)
      ∙ ap (filter (λ r. not (has_ref ref r))) (filter-list k m v.distinct o)

  -- A removal that finds nothing changes nothing.
  pub remove_nothing :
      (ref : String) (m : KeyPackageIndex P E)
      → get_key_package ref m ≡ none
      → remove_key_package ref m ≡ (none, m)
  unfolding remove_key_package get_key_package
  remove_nothing ref m h = elim (Option-cases (find_key_package ref m)) [
    | inl e ↦ ground (arith, e)
    | inr (l, e) ↦ let (x, found) = located_found ref m l e in absurd (ground (arith, e, found, h))
  ]

  -- The first regular package of a list, else its last one.
  abbrev pub chosen : List (PublishedKeyPackageRecord P E) → Option (PublishedKeyPackageRecord P E)
  chosen rs = elim (find? is_regular rs) [ some r ↦ some r | none ↦ last? rs ]

  -- A consumption that takes `r` keeps it only if it is a last resort.
  abbrev pub taken :
      PublishedKeyPackageRecord P E
      → KeyPackageIndex P E
      → Option (PublishedKeyPackageRecord P E) × KeyPackageIndex P E
  taken r m = (some r, if r.is_last_resort then m else (remove_key_package r.key_package_ref m).1)

  module _ (m : KeyPackageIndex P E) (v : IsValid m) (id : String) where
    removed :
        (r : PublishedKeyPackageRecord P E) (ref : String)
        → get_key_package ref m ≡ some r
        → remove_key_package ref m ≡ (some r, (remove_key_package ref m).1)
    removed r ref h = λ i. ((remove_key_package-result ref m ∙ h) i, (remove_key_package ref m).1)

    pub consume-direct :
        (r : PublishedKeyPackageRecord P E)
        → get_key_package id m ≡ some r
        → consume_key_package id m ≡ taken r m
    unfolding consume_key_package consume_by_reference
    consume-direct r h =
        let e : r.key_package_ref ≡ id = eq_of_== r.key_package_ref id (
          find?-true (has_ref id) r (list_all_key_packages m)
            (sym (get_key_package-eq-find? id m) ∙ h)) in
        let gone = removed r id h in
        let same = ap (λ ref. remove_key_package ref m) e in
        elim (Bool-cases r.is_last_resort) [
          | inl last ↦ ground (arith, h, last)
          | inr regular ↦ ground (arith, h, regular, gone, same)
        ]

    pub consume_nothing :
        get_key_package id m ≡ none
        → chosen (pending id m) ≡ none
        → consume_key_package id m ≡ (none, m)
    unfolding consume_key_package consume_by_reference consume_by_identity
    consume_nothing h c = elim (Option-cases (find? is_regular (pending id m))) [
      | inr (x, e) ↦ ground (arith, h, c, e)
      | inl e ↦ ground (arith, h, c, e)
    ]

    pub consume-chosen :
        (r : PublishedKeyPackageRecord P E)
        → get_key_package id m ≡ none
        → chosen (pending id m) ≡ some r
        → consume_key_package id m ≡ taken r m
    unfolding consume_key_package consume_by_reference consume_by_identity
    consume-chosen r h c = elim (Option-cases (find? is_regular (pending id m))) [
      | inr (x, e) ↦
          let first : find? is_regular (pending id m) ≡ some r = ground (arith, c, e) in
          let regular = find?-true is_regular r (pending id m) first in
          let gone =
            removed r r.key_package_ref (get_key_package-pending r is_regular id m v first) in
          ground (arith, h, first, regular, gone)
      | inl e ↦
          let last : last? (pending id m) ≡ some r = ground (arith, c, e) in
          let reserve =
            find?-none-Contains is_regular r (pending id m) e
              (last?-Contains r (pending id m) last) in
          ground (arith, h, e, last, reserve)
    ]
