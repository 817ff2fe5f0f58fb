-- ===== src/Coordinator/Subscriptions/Emission.antt =====
-- What a many-group subscription emits, group by group.
use cordn.Prelude.{
  ℕ, suc, String, ◌≡◌, refl, sym, ap, ◌∙◌, inl, inr, false, get_or, List, [], ◌∷◌, ◌++◌, append-nil,
  append_assoc, arith, ◌+◌, if◌then◌else◌, leb, ◌==◌, Bool-cases, length, filter, filter-append,
  string_eq, nat_eq,
}
use cordn.Prelude.Map
use cordn.Prelude.Map.{get-set}
use cordn.Coordinator.MessageQueue.{has_ended, push, hand_out}
use cordn.Coordinator.MessageQueue.Delivery.{contents, delivered, contents-push, push-IsValid}
use cordn.Coordinator.MessageQueue.Delivery as Delivery
use cordn.Coordinator.Subscriptions.{LiveQueue, ManySubscription, emit_if_new, push_each}
use cordn.Storage.Groups.{GroupMessageRecord}
use cordn.Storage.Groups.Log.{Numbered}

-- The messages of one group.
unfoldable pub in_group : String → List GroupMessageRecord → List GroupMessageRecord
in_group g = filter (λ r. r.group_id == g)

abbrev pub cursor_for : String → ManySubscription → ℕ
cursor_for g s = get_or (Map.get g s.cursors_by_group) 0

pub in_group-append :
    (g : String) (xs ys : List GroupMessageRecord)
    → in_group g (xs ++ ys) ≡ in_group g xs ++ in_group g ys
unfolding in_group
in_group-append g xs ys = filter-append (λ r. r.group_id == g) xs ys

-- A queue that takes what is pushed.
pub record IsOpen (q : LiveQueue) : Type 0 where
  pub valid : Delivery.IsValid q
  pub open_ : has_ended q ≡ false

push-open :
    (r : GroupMessageRecord) (q : LiveQueue) → has_ended q ≡ false → has_ended (push r q).1 ≡ false
unfolding push hand_out has_ended
push-open r q h = ground arith

push-IsOpen : (r : GroupMessageRecord) (q : LiveQueue) → IsOpen q → IsOpen (push r q).1
push-IsOpen r q o = record { valid = push-IsValid r q o.valid; open_ = push-open r q o.open_ }

-- The message as a list, if it lies beyond the cursor of its group.
abbrev pub fresh : GroupMessageRecord → ManySubscription → List GroupMessageRecord
fresh r s = if leb r.cursor (cursor_for r.group_id s) then [] else r ∷ []

pub emit_if_new-contents :
    (r : GroupMessageRecord) (s : ManySubscription)
    → IsOpen s.queue
    → delivered (emit_if_new r s).0 ++ contents (emit_if_new r s).1.queue
      ≡ contents s.queue ++ fresh r s
unfolding emit_if_new
emit_if_new-contents r s o =
    ground (arith, contents-push r s.queue o.valid, o.open_, append-nil (contents s.queue))

pub emit_if_new-IsOpen :
    (r : GroupMessageRecord) (s : ManySubscription)
    → IsOpen s.queue
    → IsOpen (emit_if_new r s).1.queue
unfolding emit_if_new
emit_if_new-IsOpen r s o = ground (arith, push-IsOpen r s.queue o)

-- The later of two cursors.
abbrev pub later : ℕ → ℕ → ℕ
later a b = if leb b a then a else b

pub emit_if_new-cursor :
    (g : String) (r : GroupMessageRecord) (s : ManySubscription)
    → cursor_for g (emit_if_new r s).1
      ≡ (if r.group_id == g then later (cursor_for g s) r.cursor else cursor_for g s)
unfolding emit_if_new
emit_if_new-cursor g r s = ground (arith, get-set r.group_id g r.cursor s.cursors_by_group)

-- With no reader waiting, nothing is settled and the queue only grows.
emit_if_new-quiet :
    (r : GroupMessageRecord) (s : ManySubscription)
    → s.queue.waiters ≡ []
    → ((emit_if_new r s).0 ≡ []) × ((emit_if_new r s).1.queue.waiters ≡ [])
unfolding emit_if_new push hand_out
emit_if_new-quiet r s h = ground arith

-- What of the messages lies beyond the cursor, which moves along.
unfoldable pub new_after : ℕ → List GroupMessageRecord → List GroupMessageRecord
new_after c [] = []
new_after c (r ∷ rs) =
    let rest = new_after (later c r.cursor) rs in if leb r.cursor c then rest else r ∷ rest

pub record IsQuiet (s : ManySubscription) : Type 0 where
  pub accepting : IsOpen s.queue
  pub unread : s.queue.waiters ≡ []

emit_if_new-IsQuiet :
    (r : GroupMessageRecord) (s : ManySubscription) → IsQuiet s → IsQuiet (emit_if_new r s).1
emit_if_new-IsQuiet r s o = record {
  accepting = emit_if_new-IsOpen r s o.accepting;
  unread = (emit_if_new-quiet r s o.unread).1;
}

emit_if_new-queue :
    (r : GroupMessageRecord) (s : ManySubscription)
    → IsQuiet s
    → contents (emit_if_new r s).1.queue ≡ contents s.queue ++ fresh r s
emit_if_new-queue r s o =
    ground (arith, emit_if_new-contents r s o.accepting, (emit_if_new-quiet r s o.unread).0)

fresh-new_after :
    (g : String) (r : GroupMessageRecord) (s : ManySubscription) (rs : List GroupMessageRecord)
    → in_group g (fresh r s) ++ new_after (cursor_for g (emit_if_new r s).1) (in_group g rs)
      ≡ new_after (cursor_for g s) (in_group g (r ∷ rs))
unfolding in_group new_after filter
fresh-new_after g r s rs = rw (emit_if_new-cursor g r s) (elim (Bool-cases (r.group_id == g)) [
  | inl here ↦ ground (arith, here)
  | inr other ↦ ground (arith, other)
])

-- A replay adds to the queue, of each group, the messages beyond its cursor.
pub replay-contents :
    (g : String) (rs : List GroupMessageRecord) (s : ManySubscription)
    → IsQuiet s
    → in_group g (contents (push_each emit_if_new rs s).1.queue)
      ≡ in_group g (contents s.queue) ++ new_after (cursor_for g s) (in_group g rs)
unfolding push_each
replay-contents g [] s o = unfold in_group new_after filter in sym (append-nil _)
replay-contents g (r ∷ rs) s o =
    replay-contents g rs (emit_if_new r s).1 (emit_if_new-IsQuiet r s o)
    ∙ ap (λ l. in_group g l ++ new_after (cursor_for g (emit_if_new r s).1) (in_group g rs))
        (emit_if_new-queue r s o)
    ∙ ap (λ l. l ++ new_after (cursor_for g (emit_if_new r s).1) (in_group g rs))
        (in_group-append g (contents s.queue) (fresh r s))
    ∙ append_assoc (in_group g (contents s.queue)) (in_group g (fresh r s)) _
    ∙ ap (λ l. in_group g (contents s.queue) ++ l) (fresh-new_after g r s rs)

pub replay-IsQuiet :
    (rs : List GroupMessageRecord) (s : ManySubscription)
    → IsQuiet s
    → IsQuiet (push_each emit_if_new rs s).1
unfolding push_each
replay-IsQuiet [] s o = o
replay-IsQuiet (r ∷ rs) s o = replay-IsQuiet rs (emit_if_new r s).1 (emit_if_new-IsQuiet r s o)

-- Where the cursor ends up.
unfoldable pub last_cursor : ℕ → List GroupMessageRecord → ℕ
last_cursor c [] = c
last_cursor c (r ∷ rs) = last_cursor (later c r.cursor) rs

pub replay-cursor :
    (g : String) (rs : List GroupMessageRecord) (s : ManySubscription)
    → cursor_for g (push_each emit_if_new rs s).1 ≡ last_cursor (cursor_for g s) (in_group g rs)
unfolding push_each last_cursor in_group filter
replay-cursor g [] s = refl
replay-cursor g (r ∷ rs) s =
    replay-cursor g rs (emit_if_new r s).1
    ∙ rw (emit_if_new-cursor g r s) (elim (Bool-cases (r.group_id == g)) [
      | inl here ↦ ground (arith, here)
      | inr other ↦ ground (arith, other)
    ])

-- Messages that are numbered from just behind the cursor are all new, and take it to the last.
pub new_after-Numbered :
    (g : String) (c : ℕ) (rs : List GroupMessageRecord)
    → Numbered g (suc c) rs
    → new_after c rs ≡ rs
unfolding new_after
new_after-Numbered g c [] h = refl
new_after-Numbered g c (r ∷ rs) h =
    let e : leb r.cursor c ≡ false = ground arith in
    rw e (ap (◌∷◌ r) (ap (λ k. new_after k rs) h.0 ∙ new_after-Numbered g (suc c) rs h.2))

pub last_cursor-Numbered :
    (g : String) (c : ℕ) (rs : List GroupMessageRecord)
    → Numbered g (suc c) rs
    → last_cursor c rs ≡ c + length rs
unfolding last_cursor
last_cursor-Numbered g c [] h = omega arith
last_cursor-Numbered g c (r ∷ rs) h =
    let e : later c r.cursor ≡ suc c = ground arith in
    ap (λ k. last_cursor k rs) e ∙ omega (arith, last_cursor-Numbered g (suc c) rs h.2)
