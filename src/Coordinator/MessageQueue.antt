-- ===== src/Coordinator/MessageQueue.antt =====
-- `AsyncMessageQueue` (packages/coordinator/src/coordinator.ts). A call of `next` that has to wait
-- leaves a waiter, a promise that is known by a number; a later call settles it. `E` is the type of
-- what a queue is aborted with.
pub mod Delivery
use cordn.Prelude.{
  ℕ, Bool, true, false, ◌&&◌, ◌||◌, Option, none, some, List, [], ◌∷◌, ◌++◌, map, ◌+◌, ◌*◌,
  if◌then◌else◌, ltb, leb, length, drop, get_elem?, string_eq,
}
use cordn.Prelude.Map

pub data Settled {ℓ} (A E : Type ℓ) : Type ℓ where
  value : A → Settled A E
  done : Settled A E
  rejected : E → Settled A E

pub record AsyncMessageQueue {ℓ} (A E : Type ℓ) : Type ℓ where
  pub values : List A
  pub next_value_index : ℕ
  pub waiters : List ℕ
  pub closed : Bool
  pub aborted : Option E

abbrev pub compaction_floor : ℕ
compaction_floor = 1024

module _ {ℓ} {A E : Type ℓ} where
  unfoldable pub empty : AsyncMessageQueue A E
  empty = record { values = []; next_value_index = 0; waiters = []; closed = false; aborted = none }

  -- `this.closed || this.aborted`
  unfoldable pub has_ended : AsyncMessageQueue A E → Bool
  has_ended q = q.closed || elim q.aborted [ none ↦ false | some _ ↦ true ]

  -- The promises that a call settles stand beside the queue that it leaves.
  unfoldable pub hand_out :
      A → List ℕ → AsyncMessageQueue A E → List (ℕ × Settled A E) × AsyncMessageQueue A E
  hand_out v [] q = ([], record q { values = q.values ++ v ∷ [] })
  hand_out v (w ∷ ws) q = ((w, value v) ∷ [], record q { waiters = ws })

  unfoldable pub push : A → AsyncMessageQueue A E → List (ℕ × Settled A E) × AsyncMessageQueue A E
  push v q = if has_ended q then ([], q) else hand_out v q.waiters q

  unfoldable pub close : AsyncMessageQueue A E → List (ℕ × Settled A E) × AsyncMessageQueue A E
  close q =
      if has_ended q
      then ([], q)
      else (map (λ w. (w, done)) q.waiters, record q { closed = true; waiters = [] })

  unfoldable pub abort : E → AsyncMessageQueue A E → List (ℕ × Settled A E) × AsyncMessageQueue A E
  abort error q = if has_ended q then ([], q) else (
    map (λ w. (w, rejected error)) q.waiters,
    record q { aborted = some error; waiters = [] },
  )

  -- The values already read are dropped once there are many of them.
  unfoldable pub compact : AsyncMessageQueue A E → AsyncMessageQueue A E
  compact q =
      if ltb compaction_floor q.next_value_index && leb (length q.values) (q.next_value_index * 2)
      then record q { values = drop q.next_value_index q.values; next_value_index = 0 }
      else q

  -- `next()` by the promise `id`: `none` is a promise that waits.
  unfoldable pub next : ℕ → AsyncMessageQueue A E → Option (Settled A E) × AsyncMessageQueue A E
  next id q = elim (get_elem? q.values q.next_value_index) [
    | some v ↦ (some (value v), compact (record q { next_value_index = q.next_value_index + 1 }))
    | none ↦ elim q.aborted [
      | some error ↦ (some (rejected error), q)
      | none ↦
          if q.closed then (some done, q) else (none, record q { waiters = q.waiters ++ id ∷ [] })
    ]
  ]
