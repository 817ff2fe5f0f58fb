-- ===== src/Storage/KeyPackages/Ownership.antt =====
-- Each list of the map has the packages of its identity, and publication keeps the map valid.
use cordn.Prelude.{
  ℕ, zero, suc, String, ◌≡◌, refl, sym, ap, ◌∙◌, subst, inl, inr, Bool, false, none, List, [], ◌∷◌,
  ◌++◌, append-nil, append_assoc, arith, ◌==◌, Bool-cases, Option-cases, ==-refl, eq_of_==, filter,
  find?, All, filter-append, All-append, string_eq, nat_eq,
}
use cordn.Prelude.Map
use cordn.Prelude.Map.{IsDistinct, get-set}
use cordn.Storage.Inbox.{pending}
use cordn.Storage.KeyPackages.{
  PublishedKeyPackageRecord, KeyPackageIndex, has_ref, list_all_key_packages, remove_key_package,
  publish_key_package, find_key_package, remove_at, put_back,
}
use cordn.Storage.KeyPackages.Removal.{get-located}
use cordn.Storage.KeyPackages.Uniqueness.{IsUnique, IsValid}

module _ {P E : Type 0} where
  abbrev pub owned : String → PublishedKeyPackageRecord P E → Bool
  owned k r = r.stable_pubkey == k

  abbrev OwnedBy : String → List (PublishedKeyPackageRecord P E) → Type 0
  OwnedBy k rs = All (λ r. r.stable_pubkey ≡ k) rs

  abbrev pub IsOwned : KeyPackageIndex P E → Type 0
  IsOwned m = All (λ entry. OwnedBy entry.0 entry.1) m

  pending-OwnedBy : (k : String) (m : KeyPackageIndex P E) → IsOwned m → OwnedBy k (pending k m)
  unfolding pending Map.get
  pending-OwnedBy k [] o = tt
  pending-OwnedBy k ((j, rs) ∷ m) o = elim (Bool-cases (j == k)) [
    | inl here ↦ rw here (subst (λ i. OwnedBy i rs) (eq_of_== j k here) o.0)
    | inr other ↦ rw other (pending-OwnedBy k m o.1)
  ]

  set-IsOwned :
      (k : String) (rs : List (PublishedKeyPackageRecord P E)) (m : KeyPackageIndex P E)
      → OwnedBy k rs
      → IsOwned m
      → IsOwned (Map.set k rs m)
  unfolding Map.set
  set-IsOwned k rs [] a o = (a, tt)
  set-IsOwned k rs ((j, xs) ∷ m) a o = elim (Bool-cases (j == k)) [
    | inl here ↦ rw here (a, o.1)
    | inr other ↦ rw other (o.0, set-IsOwned k rs m a o.1)
  ]

  delete-IsOwned : (k : String) (m : KeyPackageIndex P E) → IsOwned m → IsOwned (Map.delete k m)
  unfolding Map.delete
  delete-IsOwned k [] o = tt
  delete-IsOwned k ((j, xs) ∷ m) o = elim (Bool-cases (j == k)) [
    | inl here ↦ rw here (delete-IsOwned k m o.1)
    | inr other ↦ rw other (o.0, delete-IsOwned k m o.1)
  ]

  remove_at-OwnedBy :
      (k : String) (i : ℕ) (rs : List (PublishedKeyPackageRecord P E))
      → OwnedBy k rs
      → OwnedBy k (remove_at i rs)
  unfolding remove_at
  remove_at-OwnedBy k i [] o = tt
  remove_at-OwnedBy k zero (r ∷ rs) o = o.1
  remove_at-OwnedBy k (suc i) (r ∷ rs) o = (o.0, remove_at-OwnedBy k i rs o.1)

  put_back-IsOwned :
      (k : String) (rs : List (PublishedKeyPackageRecord P E)) (m : KeyPackageIndex P E)
      → OwnedBy k rs
      → IsOwned m
      → IsOwned (put_back k rs m)
  unfolding put_back
  put_back-IsOwned k [] m a o = delete-IsOwned k m o
  put_back-IsOwned k (r ∷ rs) m a o = set-IsOwned k (r ∷ rs) m a o

  pub remove_key_package-IsOwned :
      (ref : String) (m : KeyPackageIndex P E)
      → IsDistinct m
      → IsOwned m
      → IsOwned (remove_key_package ref m).1
  unfolding remove_key_package pending
  remove_key_package-IsOwned ref m d o = elim (Option-cases (find_key_package ref m)) [
    | inl e ↦ rw (remove_key_package, e) o
    | inr (l, e) ↦
        let records : OwnedBy l.stable_pubkey l.records =
          rw (get-located ref m l d e) at (pending-OwnedBy l.stable_pubkey m o) in
        rw (remove_key_package, e)
          (put_back-IsOwned l.stable_pubkey (remove_at l.index l.records) m
            (remove_at-OwnedBy l.stable_pubkey l.index l.records records) o)
  ]

  pub publish_key_package-IsOwned :
      (r : PublishedKeyPackageRecord P E) (m : KeyPackageIndex P E)
      → IsOwned m
      → IsOwned (publish_key_package r m)
  unfolding publish_key_package
  publish_key_package-IsOwned r m o =
      set-IsOwned r.stable_pubkey (pending r.stable_pubkey m ++ r ∷ []) m
        (All-append (λ x. x.stable_pubkey ≡ r.stable_pubkey) (pending r.stable_pubkey m) (r ∷ [])
          (pending-OwnedBy r.stable_pubkey m o) (refl, tt))
        o

  filter_mine :
      (k : String) (rs : List (PublishedKeyPackageRecord P E))
      → OwnedBy k rs
      → filter (owned k) rs ≡ rs
  unfolding filter
  filter_mine k [] o = refl
  filter_mine k (r ∷ rs) o = ground (arith, o.0, ==-refl k, filter_mine k rs o.1)

  filter_foreign :
      (j k : String) (rs : List (PublishedKeyPackageRecord P E))
      → (j == k) ≡ false
      → OwnedBy j rs
      → filter (owned k) rs ≡ []
  unfolding filter
  filter_foreign j k [] d o = refl
  filter_foreign j k (r ∷ rs) d o = ground (arith, o.0, d, filter_foreign j k rs d o.1)

  -- The packages of an identity are its list.
  pub filter-list :
      (k : String) (m : KeyPackageIndex P E)
      → IsDistinct m
      → IsOwned m
      → filter (owned k) (list_all_key_packages m) ≡ pending k m
  unfolding list_all_key_packages pending Map.get filter
  filter-list k [] d o = refl
  filter-list k ((j, rs) ∷ m) d o = elim (Bool-cases (j == k)) [
    | inl here ↦
        let e = eq_of_== j k here in
        let mine = filter_mine k rs (subst (λ i. OwnedBy i rs) e o.0) in
        let gone = rw e at d.0 in
        ground (
          arith,
          here,
          mine,
          gone,
          filter-append (owned k) rs (list_all_key_packages m),
          filter-list k m d.1 o.1,
          append-nil rs,
        )
    | inr other ↦
        rw (filter-append, other, filter_foreign j k rs other o.0) (filter-list k m d.1 o.1)
  ]

  -- Where a publication puts its record in the list of all.
  abbrev Inserted :
      PublishedKeyPackageRecord P E
      → List (PublishedKeyPackageRecord P E)
      → List (PublishedKeyPackageRecord P E)
      → Type 0
  Inserted r xs ys =
      (before : List (PublishedKeyPackageRecord P E)) × (after : List
        (PublishedKeyPackageRecord P E))
      × (xs ≡ before ++ after)
      × (ys ≡ before ++ r ∷ after)

  set-Inserted :
      (k : String) (r : PublishedKeyPackageRecord P E) (xs : List (PublishedKeyPackageRecord P E))
      (m : KeyPackageIndex P E)
      → pending k m ≡ xs
      → Inserted r (list_all_key_packages m) (list_all_key_packages (Map.set k (xs ++ r ∷ []) m))
  unfolding list_all_key_packages pending Map.get Map.set
  set-Inserted k r xs [] h =
      ([], [], refl, append-nil (xs ++ r ∷ []) ∙ ap (λ ys. ys ++ r ∷ []) (sym h))
  set-Inserted k r xs ((j, rs) ∷ m) h = elim (Bool-cases (j == k)) [
    | inl here ↦
        rw (here, ← rw here at h)
          (rs, list_all_key_packages m, refl, append_assoc rs (r ∷ []) (list_all_key_packages m))
    | inr other ↦
        let (before, after, e, f) = set-Inserted k r xs m (rw other at h) in
        rw other (
          rs ++ before,
          after,
          ap (λ ys. rs ++ ys) e ∙ sym (append_assoc rs before after),
          ap (λ ys. rs ++ ys) f ∙ sym (append_assoc rs before (r ∷ after)),
        )
  ]

  abbrev Fresh : PublishedKeyPackageRecord P E → List (PublishedKeyPackageRecord P E) → Type 0
  Fresh r xs = find? (has_ref r.key_package_ref) xs ≡ none

  Fresh-insert :
      (x r : PublishedKeyPackageRecord P E) (xs ys : List (PublishedKeyPackageRecord P E))
      → Fresh x (xs ++ ys)
      → has_ref x.key_package_ref r ≡ false
      → Fresh x (xs ++ r ∷ ys)
  unfolding find?
  Fresh-insert x r [] ys h n = ground (arith, h, n)
  Fresh-insert x r (z ∷ xs) ys h n = ground (arith, h, Fresh-insert x r xs ys)

  Fresh-tail :
      (r x : PublishedKeyPackageRecord P E) (xs : List (PublishedKeyPackageRecord P E))
      → Fresh r (x ∷ xs)
      → (has_ref x.key_package_ref r ≡ false) × Fresh r xs
  unfolding find?
  Fresh-tail r x xs h = ground (
    arith,
    h,
    eq_of_== r.key_package_ref x.key_package_ref,
    eq_of_== x.key_package_ref r.key_package_ref,
    ==-refl r.key_package_ref,
  )

  pub IsUnique-insert :
      (r : PublishedKeyPackageRecord P E) (xs ys : List (PublishedKeyPackageRecord P E))
      → IsUnique (xs ++ ys)
      → Fresh r (xs ++ ys)
      → IsUnique (xs ++ r ∷ ys)
  unfolding find?
  IsUnique-insert r [] ys u h = (h, u)
  IsUnique-insert r (x ∷ xs) ys u h =
      let (other, fresh) = Fresh-tail r x (xs ++ ys) h in
      (Fresh-insert x r xs ys u.0 other, IsUnique-insert r xs ys u.1 fresh)

  -- Publication keeps the map valid, if the reference is new.
  pub publish_key_package-IsValid :
      (r : PublishedKeyPackageRecord P E) (m : KeyPackageIndex P E)
      → IsValid m
      → find? (has_ref r.key_package_ref) (list_all_key_packages m) ≡ none
      → IsValid (publish_key_package r m)
  unfolding publish_key_package
  publish_key_package-IsValid r m v h =
      let (before, after, e, f) = set-Inserted r.stable_pubkey r _ m refl in
      record {
        distinct =
            Map.set-IsDistinct r.stable_pubkey (pending r.stable_pubkey m ++ r ∷ []) m v.distinct;
        unique =
            subst IsUnique (sym f)
              (IsUnique-insert r before after (subst IsUnique e v.unique) (subst (Fresh r) e h));
      }
