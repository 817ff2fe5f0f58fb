-- ===== src/Storage/Sqlite/Table.antt =====
-- A table whose rows have owners, and the in-memory inbox of the same records.
use cordn.Prelude.{
  ℕ, String, ◌≡◌, refl, sym, ap, ◌∙◌, inl, inr, Bool, true, false, ◌&&◌, not, get_or, List, [], ◌∷◌,
  ◌++◌, append-nil, arith, ◌+◌, ltb, leb, ◌==◌, Bool-cases, ==-refl, eq_of_==, length, filter, any,
  filter-append, filter_all, string_eq, nat_eq,
}
use cordn.Prelude.Map
use cordn.Prelude.Map.{IsDistinct, get-set}
use cordn.Storage.Inbox.{Inbox, pending, unconsumed, fetch, delete_expired}
use cordn.Storage.Inbox.Laws.{
  pending-set, total, pending-fetch, fetch-result, fetch-IsDistinct, pending-delete_expired,
  total-delete_expired, delete_expired-IsDistinct,
}
use cordn.Storage.Sqlite.{insert, delete_where, delete_each}

module _ {ℓ} {R : Type ℓ} where
  pub filter-filter :
      (p q : R → Bool) (rs : List R) → filter p (filter q rs) ≡ filter (λ r. q r && p r) rs
  unfolding filter
  filter-filter p q [] = refl
  filter-filter p q (r ∷ rs) = ground (arith, filter-filter p q rs)

  pub filter-swap : (p q : R → Bool) (rs : List R) → filter p (filter q rs) ≡ filter q (filter p rs)
  unfolding filter
  filter-swap p q [] = refl
  filter-swap p q (r ∷ rs) = ground (arith, filter-swap p q rs)

  pub length-partition :
      (p : R → Bool) (rs : List R)
      → length rs ≡ length (filter p rs) + length (filter (λ r. not (p r)) rs)
  unfolding filter
  length-partition p [] = omega arith
  length-partition p (r ∷ rs) = ground (arith, length-partition p rs)

  unconsumed-cons {κ} :
      {C : Type κ} (names : C → R → Bool) (c : C) (cs : List C) (rs : List R)
      → unconsumed names cs (filter (λ r. not (names c r)) rs) ≡ unconsumed names (c ∷ cs) rs
  unfolding unconsumed filter any
  unconsumed-cons names c cs [] = refl
  unconsumed-cons names c cs (r ∷ rs) = ground (arith, unconsumed-cons names c cs rs)

  -- The DELETEs one by one are one filter.
  pub delete_each-unconsumed {κ} :
      {C : Type κ} (names : C → R → Bool) (cs : List C) (rs : List R)
      → delete_each names cs rs ≡ unconsumed names cs rs
  unfolding delete_each delete_where unconsumed any
  delete_each-unconsumed names [] rs = sym (filter_all _ rs (λ r. refl))
  delete_each-unconsumed names (c ∷ cs) rs =
      delete_each-unconsumed names cs (filter (λ r. not (names c r)) rs)
      ∙ unconsumed-cons names c cs rs

  any-and {κ} :
      {C : Type κ} (own : R → Bool) (names : C → R → Bool) (cs : List C) (r : R)
      → any (λ c. own r && names c r) cs ≡ (own r && any (λ c. names c r) cs)
  unfolding any
  any-and own names [] r = ground arith
  any-and own names (c ∷ cs) r = ground (arith, any-and own names cs r)

  -- A condition on the owner beside one on the record.
  pub unconsumed-owned {κ} :
      {C : Type κ} (own : R → Bool) (names : C → R → Bool) (cs : List C) (rs : List R)
      → filter own (unconsumed (λ c r. own r && names c r) cs rs)
        ≡ unconsumed names cs (filter own rs)
  unfolding unconsumed filter
  unconsumed-owned own names cs [] = refl
  unconsumed-owned own names cs (r ∷ rs) =
      ground (arith, unconsumed-owned own names cs rs, any-and own names cs r)

module _ {R : Type 0} (owner : R → String) where
  abbrev pub owned : String → R → Bool
  owned k r = owner r == k

  -- The rows of each owner are the records of its queue, in order.
  pub record Represents (rows : List R) (m : Inbox String R) : Type 0 where
    pub queues : (k : String) → filter (owned k) rows ≡ pending k m
    pub distinct : IsDistinct m

  pub Represents-insert :
      (r : R) (rows : List R) (m : Inbox String R)
      → Represents rows m
      → Represents (insert r rows) (Map.set (owner r) (pending (owner r) m ++ r ∷ []) m)
  Represents-insert r rows m s = record {
    queues = λ k. elim (Bool-cases (owner r == k)) [
      | inl here ↦
          rw (pending-set (owner r) k, here, filter-append)
            (rw (s.queues k, eq_of_== (owner r) k here) (unfold filter in (rw here refl)))
      | inr other ↦
          rw (pending-set (owner r) k, other, filter-append)
            (unfold filter in rw other (append-nil _ ∙ s.queues k))
    ];
    distinct = Map.set-IsDistinct (owner r) (pending (owner r) m ++ r ∷ []) m s.distinct;
  }

  other_owner :
      {C : Type 0} (names : C → R → Bool) (j k : String) (cs : List C) (rows : List R)
      → (j == k) ≡ false
      → filter (owned k) (unconsumed (λ c r. owned j r && names c r) cs rows)
        ≡ filter (owned k) rows
  unfolding unconsumed filter
  other_owner names j k cs [] d = refl
  other_owner names j k cs (r ∷ rows) d = ground (
    arith,
    other_owner names j k cs rows d,
    any-and (owned j) names cs r,
    eq_of_== (owner r) j,
    eq_of_== (owner r) k,
  )

  pub Represents-delete_each :
      {C : Type 0} (names : C → R → Bool) (j : String) (cs : List C) (rows : List R)
      (m : Inbox String R)
      → Represents rows m
      → Represents (delete_each (λ c r. owned j r && names c r) cs rows) (fetch names j cs m).1
  Represents-delete_each names j cs rows m s = record {
    queues = λ k. elim (Bool-cases (j == k)) [
      | inl here ↦ rw (← eq_of_== j k here) (
          rw (
            delete_each-unconsumed,
            unconsumed-owned (owned j) names cs rows,
            s.queues j,
            pending-fetch,
            ==-refl j,
          ))
      | inr other ↦
          rw (delete_each-unconsumed, other_owner names j k cs rows other, pending-fetch, other)
            (s.queues k)
    ];
    distinct = fetch-IsDistinct names j cs m s.distinct;
  }

  -- SELECT after the DELETEs is what a fetch in memory returns.
  pub select-delete_each :
      {C : Type 0} (names : C → R → Bool) (j : String) (cs : List C) (rows : List R)
      (m : Inbox String R)
      → Represents rows m
      → filter (owned j) (delete_each (λ c r. owned j r && names c r) cs rows)
        ≡ (fetch names j cs m).0
  select-delete_each names j cs rows m s =
      rw
        (delete_each-unconsumed, unconsumed-owned (owned j) names cs rows, s.queues j, fetch-result)

  rest_none :
      (k : String) (rows : List R) → filter (owned k) (filter (λ r. not (owned k r)) rows) ≡ []
  unfolding filter
  rest_none k [] = refl
  rest_none k (r ∷ rows) = ground (arith, rest_none k rows)

  rest_same :
      (k j : String) (rows : List R)
      → (k == j) ≡ false
      → filter (owned j) (filter (λ r. not (owned k r)) rows) ≡ filter (owned j) rows
  unfolding filter
  rest_same k j [] d = refl
  rest_same k j (r ∷ rows) d =
      ground (arith, rest_same k j rows d, eq_of_== (owner r) k, eq_of_== (owner r) j)

  keep_since :
      (created_at : R → ℕ) (threshold : ℕ) (rs : List R)
      → filter (λ r. not (ltb (created_at r) threshold)) rs
        ≡ filter (λ r. leb threshold (created_at r)) rs
  unfolding filter
  keep_since created_at threshold [] = refl
  keep_since created_at threshold (r ∷ rs) = ground (arith, keep_since created_at threshold rs)

  -- The rows that one owner does not have stand for the other entries.
  Represents-rest :
      (k : String) (rs rows : List R) (m : Inbox String R)
      → Represents rows ((k, rs) ∷ m)
      → Represents (filter (λ r. not (owned k r)) rows) m
  Represents-rest k rs rows m s = record {
    queues = λ j. elim (Bool-cases (k == j)) [
      | inl here ↦
          rw (← eq_of_== k j here)
            (rest_none k rows ∙ sym (unfold pending in (ap (λ o. get_or o []) s.distinct.0)))
      | inr other ↦
          rest_same k j rows other ∙ s.queues j ∙ unfold pending Map.get in (rw other refl)
    ];
    distinct = s.distinct.1;
  }

  first_owned : (r : R) (rows : List R) → filter (owned (owner r)) (r ∷ rows) ≡ [] → ⊥
  unfolding filter
  first_owned r rows h = ground (arith, ==-refl (owner r), h)

  pub length-total :
      (rows : List R) (m : Inbox String R) → Represents rows m → length rows ≡ total m
  length-total [] [] s = refl
  length-total (r ∷ rows) [] s =
      absurd (first_owned r rows (s.queues (owner r) ∙ unfold pending Map.get in refl))
  length-total rows ((k, rs) ∷ m) s =
      let mine : length (filter (owned k) rows) ≡ length rs =
        ap length (s.queues k ∙ unfold pending Map.get in (rw (==-refl k) refl)) in
      omega (
        arith,
        length-partition (owned k) rows,
        mine,
        length-total (filter (λ r. not (owned k r)) rows) m (Represents-rest k rs rows m s),
      )

  pub Represents-delete_where :
      (created_at : R → ℕ) (threshold : ℕ) (rows : List R) (m : Inbox String R)
      → Represents rows m
      → ltb 0 threshold ≡ true
      → Represents
          (delete_where (λ r. ltb (created_at r) threshold) rows).1
          (delete_expired created_at threshold m).1
  unfolding delete_where
  Represents-delete_where created_at threshold rows m s h = record {
    queues = λ k.
        rw (filter-swap, s.queues k, pending-delete_expired created_at threshold k m s.distinct)
          (keep_since created_at threshold (pending k m));
    distinct = delete_expired-IsDistinct created_at threshold m s.distinct;
  }

  -- The count of the deleted rows is the count in memory.
  pub changes-delete_where :
      (created_at : R → ℕ) (threshold : ℕ) (rows : List R) (m : Inbox String R)
      → Represents rows m
      → ltb 0 threshold ≡ true
      → (delete_where (λ r. ltb (created_at r) threshold) rows).0
        ≡ (delete_expired created_at threshold m).0
  unfolding delete_where
  changes-delete_where created_at threshold rows m s h = omega (
    arith,
    length-total rows m s,
    length-total _ _ (Represents-delete_where created_at threshold rows m s h),
    total-delete_expired created_at threshold m,
    length-partition (λ r. ltb (created_at r) threshold) rows,
  )
