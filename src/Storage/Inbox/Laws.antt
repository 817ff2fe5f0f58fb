-- ===== src/Storage/Inbox/Laws.antt =====
-- What an inbox holds after each operation.
use cordn.Prelude.{
  ℕ, ◌≡◌, refl, sym, inl, inr, Bool, true, false, none, List, [], ◌∷◌, arith, ◌+◌, if◌then◌else◌,
  leb, Eq, ◌==◌, Bool-cases, ==-refl, length, filter, any, length-filter-le, filter_all, string_eq,
  nat_eq,
}
use cordn.Prelude.Map
use cordn.Prelude.Map.{IsDistinct, get-set, get-delete}
use cordn.Storage.Inbox.{Inbox, pending, put, unconsumed, fetch, put_front, sweep, delete_expired}

-- The number of records in all lists together.
abbrev pub total {ℓ} : {K R : Type ℓ} → Inbox K R → ℕ
total [] = 0
total ((k, rs) ∷ m) = length rs + total m

module _ {ℓ} {K R : Type ℓ} ⦃e : Eq K⦄ where
  pub pending-set :
      (k j : K) (rs : List R) (m : Inbox K R)
      → pending j (Map.set k rs m) ≡ (if k == j then rs else pending j m)
  unfolding pending
  pending-set k j rs m = ground (arith, get-set k j rs m)

  pub pending-set_same : (k : K) (rs : List R) (m : Inbox K R) → pending k (Map.set k rs m) ≡ rs
  pending-set_same k rs m = ground (arith, pending-set k k rs m, ==-refl k)

  pub pending-put :
      (k j : K) (rs : List R) (m : Inbox K R)
      → pending j (put k rs m) ≡ (if k == j then rs else pending j m)
  unfolding pending put
  pending-put k j [] m = ground (arith, get-delete k j m)
  pending-put k j (r ∷ rs) m = ground (arith, get-set k j (r ∷ rs) m)

  pub put-IsDistinct :
      (k : K) (rs : List R) (m : Inbox K R) → IsDistinct m → IsDistinct (put k rs m)
  unfolding put
  put-IsDistinct k [] m d = Map.delete-IsDistinct k m d
  put-IsDistinct k (r ∷ rs) m d = Map.set-IsDistinct k (r ∷ rs) m d

  pending-put_front :
      (k j : K) (rs : List R) (m : Inbox K R)
      → Map.get k m ≡ none
      → pending j (put_front k rs m) ≡ (if k == j then rs else pending j m)
  unfolding pending put_front Map.get
  pending-put_front k j [] m h = ground arith
  pending-put_front k j (r ∷ rs) m h = ground arith

  get-put_front :
      (k j : K) (rs : List R) (m : Inbox K R)
      → Map.get j m ≡ none
      → (k == j) ≡ false
      → Map.get j (put_front k rs m) ≡ none
  unfolding put_front Map.get
  get-put_front k j [] m h d = h
  get-put_front k j (r ∷ rs) m h d = ground arith

  get-sweep :
      (keep : R → Bool) (k : K) (m : Inbox K R)
      → Map.get k m ≡ none
      → Map.get k (sweep keep m).1 ≡ none
  unfolding sweep Map.get
  get-sweep keep k [] h = refl
  get-sweep keep k ((j, rs) ∷ m) h =
      ground (arith, get-sweep keep k m, get-put_front j k (filter keep rs) (sweep keep m).1)

  -- Every list is filtered, and the owners stay what they were.
  pub pending-sweep :
      (keep : R → Bool) (k : K) (m : Inbox K R)
      → IsDistinct m
      → pending k (sweep keep m).1 ≡ filter keep (pending k m)
  unfolding sweep
  pending-sweep keep k [] d = unfold pending Map.get filter in refl
  pending-sweep keep k ((j, rs) ∷ m) d =
      rw (pending-put_front j k (filter keep rs) (sweep keep m).1 (get-sweep keep j m d.0))
        (rw (pending-sweep keep k m d.1) (unfold pending Map.get in ground arith))

  put_front-IsDistinct :
      (k : K) (rs : List R) (m : Inbox K R)
      → Map.get k m ≡ none
      → IsDistinct m
      → IsDistinct (put_front k rs m)
  unfolding put_front
  put_front-IsDistinct k [] m h d = d
  put_front-IsDistinct k (r ∷ rs) m h d = (h, d)

  pub sweep-IsDistinct :
      (keep : R → Bool) (m : Inbox K R) → IsDistinct m → IsDistinct (sweep keep m).1
  unfolding sweep
  sweep-IsDistinct keep [] d = tt
  sweep-IsDistinct keep ((j, rs) ∷ m) d =
      put_front-IsDistinct j (filter keep rs) (sweep keep m).1 (get-sweep keep j m d.0)
        (sweep-IsDistinct keep m d.1)

  pub delete_expired-IsDistinct :
      (created_at : R → ℕ) (threshold : ℕ) (m : Inbox K R)
      → IsDistinct m
      → IsDistinct (delete_expired created_at threshold m).1
  unfolding delete_expired
  delete_expired-IsDistinct created_at threshold m d =
      ground (arith, sweep-IsDistinct (λ r. leb threshold (created_at r)) m d)

  -- In a map with one entry to an owner, a cleanup leaves of every owner's records, in order, those
  -- that are not older than the threshold; at threshold 0 that is all of them.
  pub pending-delete_expired :
      (created_at : R → ℕ) (threshold : ℕ) (k : K) (m : Inbox K R)
      → IsDistinct m
      → pending k (delete_expired created_at threshold m).1
        ≡ filter (λ r. leb threshold (created_at r)) (pending k m)
  unfolding delete_expired
  pending-delete_expired created_at threshold k m d = elim (Bool-cases (leb threshold 0)) [
    | inl off ↦ rw off (sym (filter_all _ (pending k m) (λ r. ground arith)))
    | inr on ↦ rw on (pending-sweep (λ r. leb threshold (created_at r)) k m d)
  ]

  module _ {κ} {C : Type κ} (names : C → R → Bool) where
    pub fetch-result :
        (k : K) (consumed : List C) (m : Inbox K R)
        → (fetch names k consumed m).0 ≡ unconsumed names consumed (pending k m)
    unfolding fetch
    fetch-result k [] m = unfold unconsumed any in sym (filter_all _ (pending k m) (λ r. refl))
    fetch-result k (c ∷ cs) m = refl

    -- A fetch drops from its owner's pending records exactly those that a consumed reference names,
    -- for good, and no record of another owner.
    pub pending-fetch :
        (k j : K) (consumed : List C) (m : Inbox K R)
        → pending j (fetch names k consumed m).1
          ≡ (if k == j then unconsumed names consumed (pending k m) else pending j m)
    unfolding fetch
    pending-fetch k j [] m =
        unfold unconsumed any in ground (arith, filter_all (λ r. true) (pending k m) (λ r. refl))
    pending-fetch k j (c ∷ cs) m = pending-put k j (unconsumed names (c ∷ cs) (pending k m)) m

    pub fetch-IsDistinct :
        (k : K) (consumed : List C) (m : Inbox K R)
        → IsDistinct m
        → IsDistinct (fetch names k consumed m).1
    unfolding fetch
    fetch-IsDistinct k [] m d = d
    fetch-IsDistinct k (c ∷ cs) m d = put-IsDistinct k _ m d

module _ {ℓ} {K R : Type ℓ} where
  total-put_front :
      (k : K) (rs : List R) (m : Inbox K R) → total (put_front k rs m) ≡ length rs + total m
  unfolding put_front
  total-put_front k [] m = omega arith
  total-put_front k (r ∷ rs) m = refl

  pub total-sweep :
      (keep : R → Bool) (m : Inbox K R) → (sweep keep m).0 + total (sweep keep m).1 ≡ total m
  unfolding sweep
  total-sweep keep [] = omega arith
  total-sweep keep ((k, rs) ∷ m) = omega (
    arith,
    total-put_front k (filter keep rs) (sweep keep m).1,
    total-sweep keep m,
    length-filter-le keep rs,
  )

  -- The count that a cleanup returns and the records that it leaves are all that there were.
  pub total-delete_expired :
      (created_at : R → ℕ) (threshold : ℕ) (m : Inbox K R)
      → (delete_expired created_at threshold m).0 + total (delete_expired created_at threshold m).1
        ≡ total m
  unfolding delete_expired
  total-delete_expired created_at threshold m =
      ground (arith, total-sweep (λ r. leb threshold (created_at r)) m)
