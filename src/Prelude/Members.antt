-- ===== src/Prelude/Members.antt =====
-- Members of lists, and what searches and filters take from them.
use mathlib.Core.Path.{◌≡◌, refl, ◌∙◌, ap, subst}
use mathlib.Core.Logic.{◌⊎◌, inl, inr}
use mathlib.Core.Bool.{Bool, true, false}
use mathlib.Core.Option.{Option, none, some}
use mathlib.Core.List.{List, [], ◌∷◌, map}
use mathlib.Core.Option
use native.Mathlib.Omega.{arith}
use cordn.Prelude.Tests.{Bool-cases}
use cordn.Prelude.Lists.{filter, find?, All}

module _ {A : Type 0} where
  -- The element stands in the list.
  abbrev pub Contains : A → List A → Type 0
  Contains r [] = ⊥
  Contains r (x ∷ xs) = (x ≡ r) ⊎ Contains r xs

  pub find?-Contains :
      (test : A → Bool) (r : A) (xs : List A) → find? test xs ≡ some r → Contains r xs
  unfolding find?
  find?-Contains test r [] h = cc
  find?-Contains test r (x ∷ xs) h = elim (Bool-cases (test x)) [
    | inl here ↦ inl (ground arith)
    | inr there ↦ inr (find?-Contains test r xs (ground arith))
  ]

  pub find?-true : (test : A → Bool) (r : A) (xs : List A) → find? test xs ≡ some r → test r ≡ true
  unfolding find?
  find?-true test r [] h = cc
  find?-true test r (x ∷ xs) h = ground (arith, find?-true test r xs)

  pub find?-none-Contains :
      (test : A → Bool) (r : A) (xs : List A)
      → find? test xs ≡ none
      → Contains r xs
      → test r ≡ false
  unfolding find?
  find?-none-Contains test r [] h c = elim c [ ]
  find?-none-Contains test r (x ∷ xs) h (inl e) = ground arith
  find?-none-Contains test r (x ∷ xs) h (inr c) = find?-none-Contains test r xs (ground arith) c

  pub Contains-filter :
      (p : A → Bool) (r : A) (xs : List A) → p r ≡ true → Contains r xs → Contains r (filter p xs)
  unfolding filter
  Contains-filter p r [] h c = c
  Contains-filter p r (x ∷ xs) h (inl e) = rw (ap p e ∙ h) (inl e)
  Contains-filter p r (x ∷ xs) h (inr c) = elim (Bool-cases (p x)) [
    | inl here ↦ rw here (inr (Contains-filter p r xs h c))
    | inr other ↦ rw other (Contains-filter p r xs h c)
  ]

  pub filter-Contains :
      (p : A → Bool) (r : A) (xs : List A) → Contains r (filter p xs) → Contains r xs
  unfolding filter
  filter-Contains p r [] c = c
  filter-Contains p r (x ∷ xs) c = elim (Bool-cases (p x)) [
    | inl here ↦ elim (rw here at c) [ inl e ↦ inl e | inr d ↦ inr (filter-Contains p r xs d) ]
    | inr other ↦ inr (filter-Contains p r xs (rw other at c))
  ]

  pub All-Contains {κ} : (P : A → Type κ) (r : A) (xs : List A) → All P xs → Contains r xs → P r
  All-Contains P r [] a c = elim c [ ]
  All-Contains P r (x ∷ xs) a (inl e) = subst P e a.0
  All-Contains P r (x ∷ xs) a (inr c) = All-Contains P r xs a.1 c

  pub All_of_Contains {κ} :
      (P : A → Type κ) (xs : List A) → ((r : A) → Contains r xs → P r) → All P xs
  All_of_Contains P [] h = tt
  All_of_Contains P (x ∷ xs) h = (h x (inl refl), All_of_Contains P xs (λ r c. h r (inr c)))

  pub filter_agree :
      (p q : A → Bool) (xs : List A) → All (λ x. p x ≡ q x) xs → filter p xs ≡ filter q xs
  unfolding filter
  filter_agree p q [] h = refl
  filter_agree p q (x ∷ xs) h = ground (arith, h.0, filter_agree p q xs h.1)

module _ {A B : Type 0} (f : A → B) where
  pub find?-map :
      (p : B → Bool) (xs : List A) → find? p (map f xs) ≡ Option.map f (find? (λ x. p (f x)) xs)
  unfolding find?
  find?-map p [] = refl
  find?-map p (x ∷ xs) = ground (arith, find?-map p xs)

  pub filter-map :
      (p : B → Bool) (xs : List A) → filter p (map f xs) ≡ map f (filter (λ x. p (f x)) xs)
  unfolding filter
  filter-map p [] = refl
  filter-map p (x ∷ xs) = ground (arith, filter-map p xs)
