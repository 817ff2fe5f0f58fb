-- ===== src/Storage/Simulation.antt =====
-- Two storages side by side: what each answers to a sequence of calls.
use cordn.Prelude.{ℕ, suc, ◌≡◌, refl, List, [], ◌∷◌, length}
use mathlib.Core.Path.{ap₂}

module _ {C A : Type 0} where
  -- The answers to the calls, each on the state that the one before leaves.
  abbrev pub answers : {S : Type 0} → (C → S → A × S) → List C → S → List A
  answers step [] s = []
  answers step (c ∷ cs) s = let r = step c s in r.0 ∷ answers step cs r.1

  -- A relation that each call keeps, and under which both answer it alike. It may depend on how
  -- many calls are left.
  pub answers_same :
      {S T : Type 0} (R : ℕ → S → T → Type 0) (f : C → S → A × S) (g : C → T → A × T)
      → ((n : ℕ) (c : C) (s : S) (t : T)
          → R (suc n) s t
          → ((f c s).0 ≡ (g c t).0) × R n (f c s).1 (g c t).1)
      → (cs : List C) (s : S) (t : T) → R (length cs) s t
      → answers f cs s ≡ answers g cs t
  answers_same R f g step [] s t a = refl
  answers_same R f g step (c ∷ cs) s t a =
      let (same, next) = step (length cs) c s t a in
      ap₂ ◌∷◌ same (answers_same R f g step cs (f c s).1 (g c t).1 next)
