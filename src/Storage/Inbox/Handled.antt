-- ===== src/Storage/Inbox/Handled.antt =====
-- What an acknowledgement takes out of an inbox.
use cordn.Prelude.{
  ◌≡◌, refl, sym, ap, ◌∙◌, ◌↔◌, ◌⊎◌, inl, inr, Bool, true, false, not, List, [], ◌∷◌, arith, Eq,
  ◌==◌, Bool-cases, eq_of_==, ==-refl, any, All, filter, Contains, Contains-filter, filter-Contains,
  string_eq, nat_eq,
}
use cordn.Storage.Inbox.{Inbox, pending, unconsumed, fetch}
use cordn.Storage.Inbox.Laws.{pending-fetch, fetch-result}

module _ {R C : Type 0} (names : C → R → Bool) (r : R) where
  any-All : (cs : List C) → any (λ c. names c r) cs ≡ false → All (λ c. names c r ≡ false) cs
  unfolding any
  any-All [] h = tt
  any-All (c ∷ cs) h = ground (arith, any-All cs)

  All-any : (cs : List C) → All (λ c. names c r ≡ false) cs → any (λ c. names c r) cs ≡ false
  unfolding any
  All-any [] h = refl
  All-any (c ∷ cs) h = ground (arith, All-any cs h.1)

  filter-true : (p : R → Bool) (rs : List R) → Contains r (filter p rs) → p r ≡ true
  unfolding filter
  filter-true p [] c = elim c [ ]
  filter-true p (x ∷ xs) c = elim (Bool-cases (p x)) [
    | inl here ↦ elim (rw here at c) [ inl e ↦ ap p (sym e) ∙ here | inr d ↦ filter-true p xs d ]
    | inr other ↦ filter-true p xs (rw other at c)
  ]

  unconsumed-leaves :
      (cs : List C) (rs : List R)
      → Contains r (unconsumed names cs rs) ↔ (Contains r rs × All (λ c. names c r ≡ false) cs)
  unfolding unconsumed
  unconsumed-leaves cs rs =
      let keeps : R → Bool = λ x. not (any (λ c. names c x) cs) in
      (
        λ c. (filter-Contains keeps r rs c, any-All cs (ground (arith, filter-true keeps rs c))),
        λ (c, none_names). Contains-filter keeps r rs (ground (arith, All-any cs none_names)) c,
      )

  -- After a fetch a record is pending for an owner exactly when it was, and the owner is another than
  -- the one that fetched or none of the consumed references names the record; and the owner that
  -- fetched is answered with what is then pending for it.
  pub fetch-leaves :
      {K : Type 0} ⦃e : Eq K⦄ (k j : K) (consumed : List C) (m : Inbox K R)
      → (Contains r (pending j (fetch names k consumed m).1) ↔ (
          Contains r (pending j m) × (((k == j) ≡ false) ⊎ All (λ c. names c r ≡ false) consumed)))
        × ((fetch names k consumed m).0 ≡ pending k (fetch names k consumed m).1)
  fetch-leaves k j consumed m = (
    rw (pending-fetch names k j consumed m) (elim (Bool-cases (k == j)) [
      | inl here ↦
          let same : pending k m ≡ pending j m = ap (λ i. pending i m) (eq_of_== k j here) in
          rw (here, same)
            (
              λ c.
                  let (was, free) = (unconsumed-leaves consumed (pending j m)).0 c in
                  (was, inr free),
              λ (was, free). elim free [
                | inl apart ↦ cc
                | inr none_names ↦ (unconsumed-leaves consumed (pending j m)).1 (was, none_names)
              ],
            )
      | inr other ↦ rw other (λ c. (c, inl refl), λ (was, free). was)
    ]),
    fetch-result names k consumed m
        ∙ sym (pending-fetch names k k consumed m ∙ rw (==-refl k) refl),
  )
