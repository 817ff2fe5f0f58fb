-- ===== src/Client/MultiDevice/Chain.antt =====
-- What the steps of a chain are.
use cordn.Prelude.{
  ℕ, zero, suc, String, ◌≡◌, refl, subst, inl, inr, Option, none, some, List, [], ◌∷◌, arith, ◌≤◌,
  ◌<◌, ltb, leb, ◌==◌, Bool-cases, Option-cases, eq_of_==, All, string_eq, nat_eq,
}
use mathlib.Core.Option
use cordn.Prelude.Map
use cordn.Prelude.Map.{Map}
use cordn.Client.MultiDevice.{
  GroupDocument, MultiDeviceDocument, group, meta, ChainStep, ChainAccess, max_hops, step_of,
  keep_oldest, place_step, sorted_steps, read_step, walk, walk_group_chain,
}

-- The cursors do not fall.
abbrev pub Ascending : List ChainStep → Type 0
Ascending [] = Unit
Ascending (s ∷ steps) = All (λ t. s.cursor ≤ t.cursor) steps × Ascending steps

some_same : {A : Type 0} (x y : A) → some x ≡ some y → x ≡ y
some_same x y h = cc

module _ (access : ChainAccess) (group_id : String) (local_epoch : ℕ) where
  -- The step is of a document of the group, pulled from its address, of a newer epoch.
  pub record IsStep (s : ChainStep) : Type 0 where
    pub doc : GroupDocument
    pub pulled : access.pull_document s.address ≡ some (group doc)
    pub mine : doc.gid ≡ group_id
    pub same_state : doc.client_state ≡ s.client_state
    pub same_cursor : doc.cursor ≡ s.cursor
    pub decoded : access.decode_epoch doc.client_state ≡ some s.epoch
    pub newer : local_epoch < s.epoch

  abbrev Steps : Map ℕ ChainStep → Type 0
  Steps m = All (λ entry. IsStep entry.1) m

  set-Steps :
      (k : ℕ) (s : ChainStep) (m : Map ℕ ChainStep) → IsStep s → Steps m → Steps (Map.set k s m)
  unfolding Map.set
  set-Steps k s [] h a = (h, tt)
  set-Steps k s ((j, t) ∷ m) h a = elim (Bool-cases (j == k)) [
    | inl e ↦ rw e (h, a.1)
    | inr e ↦ rw e (a.0, set-Steps k s m h a.1)
  ]

  keep_oldest-Steps :
      (s : ChainStep) (m : Map ℕ ChainStep) → IsStep s → Steps m → Steps (keep_oldest s m)
  unfolding keep_oldest
  keep_oldest-Steps s m h a = elim (Option-cases (Map.get s.epoch m)) [
    | inl e ↦ rw (keep_oldest, e) (set-Steps s.epoch s m h a)
    | inr (t, e) ↦ elim (Bool-cases (ltb s.cursor t.cursor)) [
      | inl f ↦ rw (keep_oldest, e, f) (set-Steps s.epoch s m h a)
      | inr f ↦ rw (keep_oldest, e, f) a
    ]
  ]

  place_step-All :
      (P : ChainStep → Type 0) (s : ChainStep) (xs : List ChainStep)
      → P s
      → All P xs
      → All P (place_step s xs)
  unfolding place_step
  place_step-All P s [] h a = (h, tt)
  place_step-All P s (x ∷ xs) h a = elim (Bool-cases (leb s.cursor x.cursor)) [
    | inl e ↦ rw e (h, a)
    | inr e ↦ rw e (a.0, place_step-All P s xs h a.1)
  ]

  below_all :
      (n k : ℕ) (xs : List ChainStep)
      → n ≤ k
      → All (λ t. k ≤ t.cursor) xs
      → All (λ t. n ≤ t.cursor) xs
  below_all n k [] h a = tt
  below_all n k (x ∷ xs) h a = (omega (arith, h, a.0), below_all n k xs h a.1)

  place_step-Ascending :
      (s : ChainStep) (xs : List ChainStep) → Ascending xs → Ascending (place_step s xs)
  unfolding place_step
  place_step-Ascending s [] a = (tt, tt)
  place_step-Ascending s (x ∷ xs) a = elim (Bool-cases (leb s.cursor x.cursor)) [
    | inl e ↦
        let le : s.cursor ≤ x.cursor = ground (arith, e) in
        rw e ((le, below_all s.cursor x.cursor xs le a.0), a)
    | inr e ↦
        let le : x.cursor ≤ s.cursor = ground (arith, e) in
        rw e (place_step-All (λ t. x.cursor ≤ t.cursor) s xs le a.0, place_step-Ascending s xs a.1)
  ]

  sorted_steps-Ascending : (m : Map ℕ ChainStep) → Ascending (sorted_steps m)
  unfolding sorted_steps
  sorted_steps-Ascending [] = tt
  sorted_steps-Ascending ((k, s) ∷ m) =
      place_step-Ascending s (sorted_steps m) (sorted_steps-Ascending m)

  sorted_steps-IsStep : (m : Map ℕ ChainStep) → Steps m → All IsStep (sorted_steps m)
  unfolding sorted_steps
  sorted_steps-IsStep [] a = tt
  sorted_steps-IsStep ((k, s) ∷ m) a =
      place_step-All IsStep s (sorted_steps m) a.0 (sorted_steps-IsStep m a.1)

  read_step-IsStep :
      (address : String) (d : MultiDeviceDocument) (next : ChainStep × Option String)
      → access.pull_document address ≡ some d
      → read_step access group_id local_epoch address d ≡ some next
      → IsStep next.0
  unfolding read_step
  read_step-IsStep address meta next p h = cc
  read_step-IsStep address (group doc) next p h = elim (Bool-cases (doc.gid == group_id)) [
    | inr e ↦ absurd (ground (arith, e, h))
    | inl e ↦ elim (Option-cases (access.decode_epoch doc.client_state)) [
      | inl f ↦ absurd (ground (arith, e, f, h))
      | inr (epoch, f) ↦ elim (Bool-cases (leb epoch local_epoch)) [
        | inl g ↦ absurd (ground (arith, e, f, g, h))
        | inr g ↦
            let same : (step_of address epoch doc, doc.prev) ≡ next =
              some_same (step_of address epoch doc, doc.prev) next (ground (arith, e, f, g, h)) in
            subst (λ x. IsStep x.0) same
              (record {
                doc = doc;
                pulled = p;
                mine = eq_of_== doc.gid group_id e;
                same_state = refl;
                same_cursor = refl;
                decoded = f;
                newer = ground (arith, g);
              })
      ]
    ]
  ]

  -- A walk throws only at a document that cannot be pulled.
  abbrev Walked : Option (Map ℕ ChainStep) → Type 0
  Walked none = (address : String) × (access.pull_document address ≡ none)
  Walked (some m) = Steps m

  walk-Walked :
      (hops : ℕ) (address : Option String) (m : Map ℕ ChainStep)
      → Steps m
      → Walked (walk access group_id local_epoch hops address m)
  unfolding walk
  walk-Walked zero address m a = a
  walk-Walked (suc hops) none m a = a
  walk-Walked (suc hops) (some address) m a = elim (Bool-cases (address == "")) [
    | inl e ↦ rw e a
    | inr e ↦ elim (Option-cases (access.pull_document address)) [
      | inl f ↦ rw (e, f) (address, f)
      | inr (d, f) ↦ elim (Option-cases (read_step access group_id local_epoch address d)) [
        | inl g ↦ rw (e, f, g) a
        | inr (next, g) ↦
            rw (e, f, g)
              (walk-Walked hops next.1 (keep_oldest next.0 m)
                (keep_oldest-Steps next.0 m (read_step-IsStep address d next f g) a))
      ]
    ]
  ]

  abbrev pub IsChain : Option (List ChainStep) → Type 0
  IsChain none = (address : String) × (access.pull_document address ≡ none)
  IsChain (some steps) = Ascending steps × All IsStep steps

  sorted : (r : Option (Map ℕ ChainStep)) → Walked r → IsChain (Option.map sorted_steps r)
  sorted none w = w
  sorted (some m) w = (sorted_steps-Ascending m, sorted_steps-IsStep m w)

  -- The walk ends: with a document that cannot be pulled, or with steps whose cursors do not fall, each
  -- of a document of the group pulled from the step's address, of an epoch newer than the local one.
  pub walk_group_chain-IsChain :
      (tip : String) → IsChain (walk_group_chain access group_id local_epoch tip)
  unfolding walk_group_chain
  walk_group_chain-IsChain tip =
      sorted (walk access group_id local_epoch max_hops (some tip) [])
        (walk-Walked max_hops (some tip) [] tt)
