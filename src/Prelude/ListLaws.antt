-- ===== src/Prelude/ListLaws.antt =====
-- Laws of the list functions.
use Prim.Native.Nat.{ℕ, zero, suc, ◌+◌, ◌-◌, ◌≤◌, ◌<◌}
use mathlib.Core.Path.{◌≡◌, refl, ap, ◌∙◌}
use mathlib.Core.Bool.{Bool, true}
use mathlib.Core.List.{List, [], ◌∷◌, ◌++◌}
use native.Mathlib.Nat.{zero-sub, suc-sub-suc}
use native.Mathlib.Omega.{arith}
use mathlib.Core.Option.{some, none}
use cordn.Prelude.Lists.{get_elem?, length, drop, filter, All}

module _ {ℓ} {A : Type ℓ} where
  pub length-append : (xs ys : List A) → length (xs ++ ys) ≡ length xs + length ys
  length-append [] ys = omega arith
  length-append (x ∷ xs) ys = omega (arith, length-append xs ys)

  pub filter-append :
      (p : A → Bool) (xs ys : List A) → filter p (xs ++ ys) ≡ filter p xs ++ filter p ys
  unfolding filter
  filter-append p [] ys = refl
  filter-append p (x ∷ xs) ys = ground (arith, filter-append p xs ys)

  pub length-filter-le : (p : A → Bool) (xs : List A) → length (filter p xs) ≤ length xs
  unfolding filter
  length-filter-le p [] = omega arith
  length-filter-le p (x ∷ xs) = ground (arith, length-filter-le p xs)

  pub filter_all : (p : A → Bool) (xs : List A) → ((x : A) → p x ≡ true) → filter p xs ≡ xs
  unfolding filter
  filter_all p [] h = refl
  filter_all p (x ∷ xs) h = rw (h x) (ap (◌∷◌ x) (filter_all p xs h))

  pub filter_idem : (p : A → Bool) (xs : List A) → filter p (filter p xs) ≡ filter p xs
  unfolding filter
  filter_idem p [] = refl
  filter_idem p (x ∷ xs) = ground (arith, filter_idem p xs)

  pub All-append {κ} : (P : A → Type κ) (xs ys : List A) → All P xs → All P ys → All P (xs ++ ys)
  All-append P [] ys hx hy = hy
  All-append P (x ∷ xs) ys hx hy = (hx.0, All-append P xs ys hx.1 hy)

  pub All-filter {κ} :
      (P : A → Type κ) (p : A → Bool) (xs : List A) → All P xs → All P (filter p xs)
  unfolding filter
  All-filter P p [] h = tt
  All-filter P p (x ∷ xs) h = ground (arith, All-filter P p xs h.1)

  pub drop_zero : (xs : List A) → drop 0 xs ≡ xs
  unfolding drop
  drop_zero [] = refl
  drop_zero (x ∷ xs) = refl

  pub drop-suc : (n : ℕ) (x : A) (xs : List A) → drop (suc n) (x ∷ xs) ≡ drop n xs
  unfolding drop
  drop-suc n x xs = refl

  pub drop_all : (n : ℕ) (xs : List A) → length xs ≤ n → drop n xs ≡ []
  unfolding drop
  drop_all zero [] h = refl
  drop_all zero (x ∷ xs) h = absurd (omega arith)
  drop_all (suc n) [] h = refl
  drop_all (suc n) (x ∷ xs) h = drop_all n xs (omega arith)

  pub drop-append :
      (n : ℕ) (xs ys : List A) → drop n (xs ++ ys) ≡ drop n xs ++ drop (n - length xs) ys
  unfolding drop
  drop-append zero xs ys = simp (drop_zero, zero-sub)
  drop-append (suc n) [] ys = ground arith
  drop-append (suc n) (x ∷ xs) ys = rw suc-sub-suc (drop-append n xs ys)

  pub drop-append_self : (xs ys : List A) → drop (length xs) (xs ++ ys) ≡ ys
  drop-append_self [] ys = drop_zero ys
  drop-append_self (x ∷ xs) ys = drop-suc (length xs) x (xs ++ ys) ∙ drop-append_self xs ys

  pub drop_get :
      (n : ℕ) (x : A) (xs : List A) → get_elem? xs n ≡ some x → drop n xs ≡ x ∷ drop (n + 1) xs
  unfolding drop get_elem?
  drop_get n x [] h = cc
  drop_get zero x (y ∷ xs) h = ground (arith, drop_zero xs)
  drop_get (suc n) x (y ∷ xs) h = ground (arith, drop_get n x xs h)

  pub drop-none : (n : ℕ) (xs : List A) → get_elem? xs n ≡ none → drop n xs ≡ []
  unfolding drop get_elem?
  drop-none zero [] h = refl
  drop-none (suc n) [] h = refl
  drop-none zero (y ∷ xs) h = cc
  drop-none (suc n) (y ∷ xs) h = drop-none n xs h

  pub get_elem?-lt : (n : ℕ) (x : A) (xs : List A) → get_elem? xs n ≡ some x → n < length xs
  unfolding get_elem?
  get_elem?-lt n x [] h = cc
  get_elem?-lt zero x (y ∷ xs) h = omega arith
  get_elem?-lt (suc n) x (y ∷ xs) h = omega (arith, get_elem?-lt n x xs h)

  pub drop-append_le :
      (n : ℕ) (xs ys : List A) → n ≤ length xs → drop n (xs ++ ys) ≡ drop n xs ++ ys
  drop-append_le zero xs ys h = simp drop_zero
  drop-append_le (suc n) [] ys h = absurd (omega arith)
  drop-append_le (suc n) (x ∷ xs) ys h = simp drop-suc (drop-append_le n xs ys (omega arith))
