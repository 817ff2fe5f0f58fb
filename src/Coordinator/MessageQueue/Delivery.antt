-- ===== src/Coordinator/MessageQueue/Delivery.antt =====
-- Every value that is pushed into an open queue is delivered once, and in order.
use Prim.Native.Nat.{◌+◌}
use cordn.Prelude.{
  ℕ, ◌≡◌, refl, sym, ap, ◌∙◌, ◌⊎◌, inl, inr, ◌&&◌, Option, none, some, List, [], ◌∷◌, ◌++◌, map,
  append-nil, append_assoc, arith, ◌*◌, ◌≤◌, if◌then◌else◌, ltb, leb, Bool-cases, Option-cases,
  length, drop, get_elem?, length-append, drop_zero, drop_get, drop-none, get_elem?-lt,
  drop-append_le, string_eq,
}
use cordn.Coordinator.MessageQueue.{
  Settled, value, done, rejected, AsyncMessageQueue, has_ended, hand_out, push, close, abort,
  compact, next,
}

module _ {ℓ} {A E : Type ℓ} where
  -- The values that wait to be read.
  abbrev pub contents : AsyncMessageQueue A E → List A
  contents q = drop q.next_value_index q.values

  pub record IsValid (q : AsyncMessageQueue A E) : Type ℓ where
    pub read : q.next_value_index ≤ length q.values
    pub idle : (contents q ≡ []) ⊎ (q.waiters ≡ [])

  -- The value of a promise that is settled with one.
  abbrev pub value_of : Settled A E → List A
  value_of (value v) = v ∷ []
  value_of done = []
  value_of (rejected e) = []

  abbrev pub delivered : List (ℕ × Settled A E) → List A
  delivered [] = []
  delivered ((w, s) ∷ out) = value_of s ++ delivered out

  abbrev pub returned : Option (Settled A E) → List A
  returned none = []
  returned (some s) = value_of s

  contents-compact : (q : AsyncMessageQueue A E) → contents (compact q) ≡ contents q
  unfolding compact
  contents-compact q =
      elim (Bool-cases
        (ltb 1024 q.next_value_index && leb (length q.values) (q.next_value_index * 2))) [
          | inl e ↦ rw (e, compact) (drop_zero (drop q.next_value_index q.values))
          | inr e ↦ rw (e, compact)
        ]

  -- A call of `next` takes the first of the values that wait.
  pub contents-next :
      (id : ℕ) (q : AsyncMessageQueue A E)
      → returned (next id q).0 ++ contents (next id q).1 ≡ contents q
  unfolding next
  contents-next id q = elim (Option-cases (get_elem? q.values q.next_value_index)) [
    | inl e ↦ ground arith
    | inr (v, e) ↦ ground (
      arith,
      drop_get q.next_value_index v q.values e,
      contents-compact (record q { next_value_index = q.next_value_index + 1 }),
    )
  ]

  -- A push into an open queue adds its value behind them, or hands it to a waiter.
  pub contents-push :
      (v : A) (q : AsyncMessageQueue A E)
      → IsValid q
      → delivered (push v q).0 ++ contents (push v q).1
        ≡ (if has_ended q then contents q else contents q ++ v ∷ [])
  unfolding push hand_out
  contents-push v q h = ground (arith, drop-append_le q.next_value_index q.values (v ∷ []) h.read)

  has_ended-compact : (q : AsyncMessageQueue A E) → has_ended (compact q) ≡ has_ended q
  unfolding compact has_ended
  has_ended-compact q = ground arith

  pub has_ended-next : (id : ℕ) (q : AsyncMessageQueue A E) → has_ended (next id q).1 ≡ has_ended q
  unfolding next has_ended
  has_ended-next id q = elim (Option-cases (get_elem? q.values q.next_value_index)) [
    | inl e ↦ ground arith
    | inr (v, e) ↦
        rw (e, next)
          (has_ended-compact (record q { next_value_index = q.next_value_index + 1 })
            ∙ unfold has_ended in refl)
  ]

  pub contents-close : (q : AsyncMessageQueue A E) → contents (close q).1 ≡ contents q
  unfolding close
  contents-close q = ground arith

  contents-abort : (e : E) (q : AsyncMessageQueue A E) → contents (abort e q).1 ≡ contents q
  unfolding abort
  contents-abort e q = ground arith

  compact-IsValid : (q : AsyncMessageQueue A E) → IsValid q → IsValid (compact q)
  compact-IsValid q v = record {
    read = unfold compact in ground (arith, v.read);
    idle = rw contents-compact (unfold compact in ground (arith, v.idle));
  }

  pub push-IsValid : (v : A) (q : AsyncMessageQueue A E) → IsValid q → IsValid (push v q).1
  unfolding push hand_out
  push-IsValid v q h = ground (
    arith,
    drop-append_le q.next_value_index q.values (v ∷ []) h.read,
    length-append q.values (v ∷ []),
  )

  pub next-IsValid : (id : ℕ) (q : AsyncMessageQueue A E) → IsValid q → IsValid (next id q).1
  unfolding next
  next-IsValid id q h = elim (Option-cases (get_elem? q.values q.next_value_index)) [
    | inl e ↦ ground (arith, drop-none q.next_value_index q.values e)
    | inr (v, e) ↦
        rw (e, next)
          (compact-IsValid (record q { next_value_index = q.next_value_index + 1 })
            (record {
              read = omega (arith, get_elem?-lt q.next_value_index v q.values e);
              idle = ground (arith, drop_get q.next_value_index v q.values e);
            }))
  ]

pub data Call {ℓ} (A E : Type ℓ) : Type ℓ where
  pushes : A → Call A E
  reads : ℕ → Call A E
  closes : Call A E
  aborts : E → Call A E

module _ {ℓ} {A E : Type ℓ} where
  -- One call: the values that it hands to readers, and the queue that it leaves.
  unfoldable pub step : Call A E → AsyncMessageQueue A E → List A × AsyncMessageQueue A E
  step (pushes v) q = (delivered (push v q).0, (push v q).1)
  step (reads id) q = (returned (next id q).0, (next id q).1)
  step closes q = (delivered (close q).0, (close q).1)
  step (aborts e) q = (delivered (abort e q).0, (abort e q).1)

  unfoldable pub run : List (Call A E) → AsyncMessageQueue A E → List A × AsyncMessageQueue A E
  run [] q = ([], q)
  run (c ∷ cs) q = let rest = run cs (step c q).1 in ((step c q).0 ++ rest.0, rest.1)

  -- The value that a call adds: none once the queue has ended.
  abbrev pub accepts : Call A E → AsyncMessageQueue A E → List A
  accepts (pushes v) q = if has_ended q then [] else v ∷ []
  accepts (reads id) q = []
  accepts closes q = []
  accepts (aborts e) q = []

  abbrev pub accepted : List (Call A E) → AsyncMessageQueue A E → List A
  accepted [] q = []
  accepted (c ∷ cs) q = accepts c q ++ accepted cs (step c q).1

  delivered_none :
      (s : Settled A E) (ws : List ℕ) → value_of s ≡ [] → delivered (map (λ w. (w, s)) ws) ≡ []
  delivered_none s [] h = refl
  delivered_none s (w ∷ ws) h = rw h (delivered_none s ws h)

  close-IsValid : (q : AsyncMessageQueue A E) → IsValid q → IsValid (close q).1
  unfolding close
  close-IsValid q v = ground arith

  abort-IsValid : (e : E) (q : AsyncMessageQueue A E) → IsValid q → IsValid (abort e q).1
  unfolding abort
  abort-IsValid e q v = ground arith

  pub step-IsValid : (c : Call A E) (q : AsyncMessageQueue A E) → IsValid q → IsValid (step c q).1
  unfolding step
  step-IsValid (pushes v) q h = push-IsValid v q h
  step-IsValid (reads id) q h = next-IsValid id q h
  step-IsValid closes q h = close-IsValid q h
  step-IsValid (aborts e) q h = abort-IsValid e q h

  contents-step :
      (c : Call A E) (q : AsyncMessageQueue A E)
      → IsValid q
      → (step c q).0 ++ contents (step c q).1 ≡ contents q ++ accepts c q
  unfolding step
  contents-step (pushes v) q h = ground (arith, contents-push v q h, append-nil (contents q))
  contents-step (reads id) q h = contents-next id q ∙ sym (append-nil (contents q))
  contents-step closes q h =
      unfold close in ground (arith, delivered_none done q.waiters refl, append-nil (contents q))
  contents-step (aborts e) q h =
      unfold abort in
      ground (arith, delivered_none (rejected e) q.waiters refl, append-nil (contents q))

  -- From a valid queue, through any calls, the values that readers get, followed by those that
  -- still wait, are the values that waited at first and then those pushed before the queue ended,
  -- each once and in order.
  pub run-delivers :
      (cs : List (Call A E)) (q : AsyncMessageQueue A E)
      → IsValid q
      → (run cs q).0 ++ contents (run cs q).1 ≡ contents q ++ accepted cs q
  unfolding run
  run-delivers [] q v = sym (append-nil (contents q))
  run-delivers (c ∷ cs) q v =
      append_assoc (step c q).0 (run cs (step c q).1).0 (contents (run cs (step c q).1).1)
      ∙ ap (◌++◌ (step c q).0) (run-delivers cs (step c q).1 (step-IsValid c q v))
      ∙ sym (append_assoc (step c q).0 (contents (step c q).1) (accepted cs (step c q).1))
      ∙ ap (λ l. l ++ accepted cs (step c q).1) (contents-step c q v)
      ∙ append_assoc (contents q) (accepts c q) (accepted cs (step c q).1)
