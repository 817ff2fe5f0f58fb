-- ===== src/Coordinator/Subscriptions/Fanout.antt =====
-- A message reaches each subscriber of its group once, and no other.
use mathlib.Core.Bool.{◌||◌}
use cordn.Prelude.{
  ℕ, ◌≡◌, refl, ap, ◌∙◌, inl, inr, Bool, false, some, List, [], ◌∷◌, ◌++◌, append-nil, arith,
  if◌then◌else◌, ◌==◌, Bool-cases, Option-cases, eq_of_==, any, string_eq, nat_eq,
}
use cordn.Prelude.Map
use cordn.Prelude.Map.{get-set, Map}
use cordn.Coordinator.MessageQueue.Delivery.{delivered}
use cordn.Coordinator.Subscriptions.{Subscriber, push_subscriber, push_to, Settlements, add_to_set}
use cordn.Storage.Groups.{GroupMessageRecord}

abbrev pub among : ℕ → List ℕ → Bool
among id ids = any (λ i. i == id) ids

-- A set lists no subscriber twice.
abbrev pub NoRepeat : List ℕ → Type 0
NoRepeat [] = Unit
NoRepeat (i ∷ is) = (among i is ≡ false) × NoRepeat is

-- What the readers of one subscriber get.
unfoldable pub delivered_to : ℕ → Settlements → List GroupMessageRecord
delivered_to id [] = []
delivered_to id ((i, out) ∷ rest) =
    let others = delivered_to id rest in if i == id then delivered out ++ others else others

push_to-absent :
    (r : GroupMessageRecord) (id : ℕ) (ids : List ℕ) (m : Map ℕ Subscriber)
    → among id ids ≡ false
    → (Map.get id (push_to r ids m).1 ≡ Map.get id m) × (delivered_to id (push_to r ids m).0 ≡ [])
unfolding push_to delivered_to any
push_to-absent r id [] m h = (refl, refl)
push_to-absent r id (i ∷ ids) m h = elim (Option-cases (Map.get i m)) [
  | inl e ↦ ground (arith, push_to-absent r id ids m)
  | inr (s, e) ↦ ground (
    arith,
    push_to-absent r id ids (Map.set i (push_subscriber r s).1 m),
    get-set i id (push_subscriber r s).1 m,
  )
]

pub push_to-subscriber :
    (r : GroupMessageRecord) (id : ℕ) (ids : List ℕ) (m : Map ℕ Subscriber) (s : Subscriber)
    → NoRepeat ids
    → Map.get id m ≡ some s
    → (Map.get id (push_to r ids m).1 ≡ some (if among id ids then (push_subscriber r s).1 else s))
      × (delivered_to id (push_to r ids m).0
          ≡ (if among id ids then delivered (push_subscriber r s).0 else []))
unfolding push_to delivered_to any
push_to-subscriber r id [] m s d h = (h, refl)
push_to-subscriber r id (i ∷ ids) m s d h = elim (Bool-cases (i == id)) [
  | inl here ↦
      let e : i ≡ id = eq_of_== i id here in
      let found : Map.get i m ≡ some s = ap (λ k. Map.get k m) e ∙ h in
      ground (
        arith,
        found,
        ap (λ k. among k ids) e,
        push_to-absent r id ids (Map.set i (push_subscriber r s).1 m),
        get-set i id (push_subscriber r s).1 m,
        append-nil (delivered (push_subscriber r s).0),
      )
  | inr other ↦ elim (Option-cases (Map.get i m)) [
    | inl e ↦ ground (arith, other, push_to-subscriber r id ids m s d.1 h)
    | inr (x, e) ↦ ground (
      arith,
      other,
      get-set i id (push_subscriber r x).1 m,
      push_to-subscriber r id ids (Map.set i (push_subscriber r x).1 m) s d.1,
    )
  ]
]

among-append : (j id : ℕ) (ids : List ℕ) → among j (ids ++ id ∷ []) ≡ (among j ids || (id == j))
unfolding any
among-append j id [] = ground arith
among-append j id (i ∷ ids) = ground (arith, among-append j id ids)

append-NoRepeat :
    (id : ℕ) (ids : List ℕ) → NoRepeat ids → among id ids ≡ false → NoRepeat (ids ++ id ∷ [])
unfolding any
append-NoRepeat id [] d h = (refl, tt)
append-NoRepeat id (i ∷ ids) d h =
    ground (arith, append-NoRepeat id ids d.1, among-append i id ids, d.0)

-- A set stays one, and the new subscriber joins those that are there.
pub add_to_set-NoRepeat : (id : ℕ) (ids : List ℕ) → NoRepeat ids → NoRepeat (add_to_set id ids)
unfolding add_to_set
add_to_set-NoRepeat id ids d = ground (arith, append-NoRepeat id ids d)

pub among-add_to_set :
    (j id : ℕ) (ids : List ℕ) → among j (add_to_set id ids) ≡ (among j ids || (id == j))
unfolding add_to_set
among-add_to_set j id ids = ground (arith, among-append j id ids)
