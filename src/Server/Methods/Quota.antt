-- ===== src/Server/Methods/Quota.antt =====
-- The quota on the key packages of an identity.
use cordn.Prelude.{
  ℕ, min, String, ◌≡◌, refl, ap, ◌⊎◌, inl, inr, Bool, true, false, none, some, get_or, List, [],
  ◌∷◌, arith, ◌+◌, ◌-◌, ◌≤◌, ◌<◌, if◌then◌else◌, leb, ◌==◌, Bool-cases, Option-cases, ==-refl,
  eq_of_==, length, take, filter, find?-none-Contains, Contains, string_eq, nat_eq,
}
use cordn.Result.{ok}
use cordn.Storage.Inbox.{pending}
use cordn.Prelude.Map.{IsDistinct, get-set, get-delete}
use cordn.Storage.KeyPackages.{
  PublishedKeyPackageRecord, KeyPackageIndex, Located, has_ref, find_index, remove_at, put_back,
  find_key_package, get_key_package, remove_key_package, list_key_packages_for_identity,
  list_all_key_packages,
}
use cordn.Storage.KeyPackages.Removal.{
  get-located, get_key_package-eq-find?, remove_key_package-IsDistinct,
}
use cordn.Storage.KeyPackages.Uniqueness.{IsValid, Contains-list, get-remove_key_package}
use cordn.Server.Methods.{KeyPackageQuota, remove_each, superseded, enforce_key_package_quota}

-- A quota that limits both counts.
pub record IsLimiting (quota : KeyPackageQuota) : Type 0 where
  pub total : 0 < quota.max_per_identity
  pub last_resorts : 0 < quota.max_last_resort_per_identity

module _ {P E : Type 0} where
  pending-put_back :
      (k j : String) (rs : List (PublishedKeyPackageRecord P E)) (m : KeyPackageIndex P E)
      → pending j (put_back k rs m) ≡ (if k == j then rs else pending j m)
  unfolding pending put_back
  pending-put_back k j [] m = ground (arith, get-delete k j m)
  pending-put_back k j (r ∷ rs) m = ground (arith, get-set k j (r ∷ rs) m)

  located_at :
      (ref : String) (m : KeyPackageIndex P E) (l : Located P E)
      → find_key_package ref m ≡ some l
      → find_index (has_ref ref) l.records ≡ some l.index
  unfolding find_key_package
  located_at ref [] l h = cc
  located_at ref ((k, rs) ∷ m) l h = ground (arith, located_at ref m l)

  length-remove_at :
      (ref : String) (rs : List (PublishedKeyPackageRecord P E)) (i : ℕ)
      → find_index (has_ref ref) rs ≡ some i
      → length (remove_at i rs) + 1 ≡ length rs
  unfolding find_index remove_at
  length-remove_at ref [] i h = cc
  length-remove_at ref (r ∷ rs) i h = elim (Bool-cases (has_ref ref r)) [
    | inl here ↦ ground arith
    | inr other ↦ elim (Option-cases (find_index (has_ref ref) rs)) [
      | inl e ↦ absurd (ground arith)
      | inr (j, e) ↦ ground (arith, length-remove_at ref rs j e)
    ]
  ]

  located_records :
      (ref : String) (m : KeyPackageIndex P E) (l : Located P E)
      → IsDistinct m
      → find_key_package ref m ≡ some l
      → pending l.stable_pubkey m ≡ l.records
  unfolding pending
  located_records ref m l d e = ap (λ o. get_or o []) (get-located ref m l d e)

  -- A removal takes one record from the list of the identity that is located, and no other list.
  length-remove_key_package :
      (ref k : String) (m : KeyPackageIndex P E) (l : Located P E)
      → IsDistinct m
      → find_key_package ref m ≡ some l
      → length (pending k (remove_key_package ref m).1)
        ≡ (if l.stable_pubkey == k then length (pending k m) - 1 else length (pending k m))
  unfolding remove_key_package
  length-remove_key_package ref k m l d e = elim (Bool-cases (l.stable_pubkey == k)) [
    | inl here ↦
        let shorter = length-remove_at ref l.records l.index (located_at ref m l e) in
        let whole : length (pending k m) ≡ length l.records =
          ap length (rw (eq_of_== l.stable_pubkey k here) at (located_records ref m l d e)) in
        rw (e, remove_key_package, pending-put_back, here) (omega (arith, shorter, whole))
    | inr other ↦ rw (e, remove_key_package, pending-put_back, other) refl
  ]

  pub length-remove_le :
      (ref k : String) (m : KeyPackageIndex P E)
      → IsDistinct m
      → length (pending k (remove_key_package ref m).1) ≤ length (pending k m)
  unfolding remove_key_package
  length-remove_le ref k m d = elim (Option-cases (find_key_package ref m)) [
    | inl e ↦ rw (e, remove_key_package) (omega arith)
    | inr (l, e) ↦ ground (arith, length-remove_key_package ref k m l d e)
  ]

  absent-Contains :
      (k : String) (m : KeyPackageIndex P E) (r : PublishedKeyPackageRecord P E)
      → get_key_package r.key_package_ref m ≡ none
      → Contains r (pending k m)
      → ⊥
  absent-Contains k m r h c =
      let found = ==-refl r.key_package_ref in
      let missing =
        find?-none-Contains (has_ref r.key_package_ref) r (list_all_key_packages m)
          (rw get_key_package-eq-find? at h) (Contains-list r k m c) in
      ground (arith, found, missing)

  pending-remove_other :
      (ref k : String) (m : KeyPackageIndex P E) (l : Located P E)
      → find_key_package ref m ≡ some l
      → (l.stable_pubkey == k) ≡ false
      → pending k (remove_key_package ref m).1 ≡ pending k m
  unfolding remove_key_package
  pending-remove_other ref k m l e other = rw (e, remove_key_package, pending-put_back, other) refl

  Contains-length :
      (r : PublishedKeyPackageRecord P E) (rs : List (PublishedKeyPackageRecord P E))
      → Contains r rs
      → 0 < length rs
  Contains-length r [] c = elim c [ ]
  Contains-length r (x ∷ rs) c = omega arith

  length-remove_lt :
      (k : String) (m : KeyPackageIndex P E) (r : PublishedKeyPackageRecord P E)
      → IsValid m
      → Contains r (pending k m)
      → length (pending k (remove_key_package r.key_package_ref m).1) < length (pending k m)
  length-remove_lt k m r v c = elim (Option-cases (find_key_package r.key_package_ref m)) [
    | inl e ↦ absurd (absent-Contains k m r (unfold get_key_package in (rw (e, get_key_package))) c)
    | inr (l, e) ↦ elim (Bool-cases (l.stable_pubkey == k)) [
      | inl here ↦
          let shorter = length-remove_key_package r.key_package_ref k m l v.distinct e in
          omega (arith, rw here at shorter, Contains-length r (pending k m) c)
      | inr other ↦ absurd (
          absent-Contains k (remove_key_package r.key_package_ref m).1 r
            (get-remove_key_package r.key_package_ref m v)
            (rw (pending-remove_other r.key_package_ref k m l e other) c))
    ]
  ]

  length-remove_each_le :
      (k : String) (rs : List (PublishedKeyPackageRecord P E)) (m : KeyPackageIndex P E)
      → IsDistinct m
      → length (pending k (remove_each rs m)) ≤ length (pending k m)
  unfolding remove_each
  length-remove_each_le k [] m d = omega arith
  length-remove_each_le k (r ∷ rs) m d = omega (
    arith,
    length-remove_each_le k rs (remove_key_package r.key_package_ref m).1
        (remove_key_package-IsDistinct r.key_package_ref m d),
    length-remove_le r.key_package_ref k m d,
  )

  -- Removing a record of an identity, and then others, leaves the identity fewer.
  length-remove_each_lt :
      (k : String) (r : PublishedKeyPackageRecord P E) (rs : List (PublishedKeyPackageRecord P E))
      (m : KeyPackageIndex P E)
      → IsValid m
      → Contains r (pending k m)
      → length (pending k (remove_each (r ∷ rs) m)) < length (pending k m)
  unfolding remove_each
  length-remove_each_lt k r rs m v c = omega (
    arith,
    length-remove_each_le k rs (remove_key_package r.key_package_ref m).1
        (remove_key_package-IsDistinct r.key_package_ref m v.distinct),
    length-remove_lt k m r v c,
  )

  filter-Contains :
      (p : PublishedKeyPackageRecord P E → Bool) (r : PublishedKeyPackageRecord P E)
      (rs : List (PublishedKeyPackageRecord P E))
      → Contains r (filter p rs)
      → Contains r rs
  unfolding filter
  filter-Contains p r [] c = c
  filter-Contains p r (x ∷ rs) c = elim (Bool-cases (p x)) [
    | inl kept ↦ elim (rw kept at c) [ inl e ↦ inl e | inr d ↦ inr (filter-Contains p r rs d) ]
    | inr gone ↦ inr (filter-Contains p r rs (rw gone at c))
  ]

  superseded-cases :
      (quota : KeyPackageQuota) (rs : List (PublishedKeyPackageRecord P E))
      → IsLimiting quota
      → ((superseded quota rs ≡ []) × (length rs < quota.max_last_resort_per_identity))
        ⊎ ((r : PublishedKeyPackageRecord P E) × (others : List (PublishedKeyPackageRecord P E))
            × (superseded quota rs ≡ r ∷ others)
            × Contains r rs
            × (quota.max_last_resort_per_identity ≤ length rs))
  unfolding superseded take
  superseded-cases quota [] limits = inl (ground (arith, limits.last_resorts), limits.last_resorts)
  superseded-cases quota (r ∷ rs) limits =
      elim (Bool-cases (leb quota.max_last_resort_per_identity (length (r ∷ rs)))) [
        | inl full ↦ inr (
          r,
          take (length (r ∷ rs) - quota.max_last_resort_per_identity) rs,
          ground (arith, limits.last_resorts),
          inl refl,
          ground arith,
        )
        | inr free ↦ inl (ground arith, ground arith)
      ]

  allowed :
      (quota : KeyPackageQuota) (k : String) (m m' : KeyPackageIndex P E)
      → IsLimiting quota
      → enforce_key_package_quota quota k true m ≡ (ok tt, m')
      → let existing = filter (λ r. r.is_last_resort) (pending k m) in
        (m' ≡ remove_each (superseded quota existing) m)
        × (length (pending k m') + min (length existing + 1) quota.max_last_resort_per_identity
            ≤ quota.max_per_identity + length existing)
  unfolding enforce_key_package_quota list_key_packages_for_identity
  allowed quota k m m' limits h = (ground (arith, limits.total), ground (arith, limits.total))

  -- Under a quota that limits both counts, over a valid map in which the identity is within the
  -- total, a publication that is allowed, last-resort or not, has room beside what is left.
  pub enforce_key_package_quota-room :
      (quota : KeyPackageQuota) (k : String) (last_resort : Bool) (m m' : KeyPackageIndex P E)
      → IsLimiting quota
      → IsValid m
      → length (pending k m) ≤ quota.max_per_identity
      → enforce_key_package_quota quota k last_resort m ≡ (ok tt, m')
      → length (pending k m') < quota.max_per_identity
  unfolding enforce_key_package_quota list_key_packages_for_identity
  enforce_key_package_quota-room quota k false m m' limits v within h = ground (arith, limits.total)
  enforce_key_package_quota-room quota k true m m' limits v within h =
      let existing = filter (λ r. r.is_last_resort) (pending k m) in
      let (left, fits) = allowed quota k m m' limits h in
      elim (superseded-cases quota existing limits) [
        | inl (e, few) ↦ omega (arith, fits, few)
        | inr (r, others, e, c, full) ↦
            let fewer =
              length-remove_each_lt k r others m v
                (filter-Contains (λ x. x.is_last_resort) r (pending k m) c) in
            rw (left, e) (omega (arith, fewer, within))
      ]
