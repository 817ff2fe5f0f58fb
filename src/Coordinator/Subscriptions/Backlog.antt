-- ===== src/Coordinator/Subscriptions/Backlog.antt =====
-- What a new many-group subscription holds: the backlog of each of its groups.
use cordn.Prelude.{
  ℕ, zero, suc, String, ◌≡◌, refl, ◌∙◌, subst, ◌⊎◌, inl, inr, true, false, some, get_or, List, [],
  ◌∷◌, ◌++◌, append-nil, arith, ◌+◌, ◌-◌, if◌then◌else◌, ◌==◌, length, drop, filter, any, flat_map,
  string_eq, nat_eq,
}
use cordn.Prelude.Map
use cordn.Prelude.Map.{get-set, Map}
use cordn.Coordinator.MessageQueue
use cordn.Coordinator.MessageQueue.Delivery.{contents}
use cordn.Coordinator.Subscriptions.{
  ManySubscription, emit_if_new, push_many, push_each, start_many, initial_cursors,
}
use cordn.Coordinator.Subscriptions.Emission.{
  in_group, in_group-append, cursor_for, IsOpen, IsQuiet, later, replay-contents, replay-IsQuiet,
  replay-cursor, new_after-Numbered, last_cursor-Numbered,
}
use cordn.Storage.Groups.{
  GroupMessageRecord, FetchGroupMessagesInput, Groups, messages_of, fetch_group_messages,
  fetch_many_group_messages,
}
use cordn.Storage.Groups.Log.{Numbered, IsValid, fetch_group_messages-drop, messages_of-Numbered}

Numbered-drop :
    (g : String) (n k : ℕ) (rs : List GroupMessageRecord)
    → Numbered g (suc n) rs
    → Numbered g (suc (n + k)) (drop k rs)
unfolding drop
Numbered-drop g n zero rs h =
    let e : suc n ≡ suc (n + 0) = omega arith in subst (λ k. Numbered g k rs) e h
Numbered-drop g n (suc k) [] h = tt
Numbered-drop g n (suc k) (r ∷ rs) h =
    let e : suc (suc n + k) ≡ suc (n + suc k) = omega arith in
    subst (λ j. Numbered g j (drop k rs)) e (Numbered-drop g (suc n) k rs h.2)

drop-Numbered :
    (g : String) (c : ℕ) (rs : List GroupMessageRecord)
    → Numbered g 1 rs
    → Numbered g (suc c) (drop c rs)
drop-Numbered g c rs h =
    let e : suc (0 + c) ≡ suc c = omega arith in
    subst (λ k. Numbered g k (drop c rs)) e (Numbered-drop g 0 c rs h)

in_group-Numbered :
    (g h : String) (n : ℕ) (rs : List GroupMessageRecord)
    → Numbered g n rs
    → in_group h rs ≡ (if g == h then rs else [])
unfolding in_group filter
in_group-Numbered g h n [] v = ground arith
in_group-Numbered g h n (r ∷ rs) v = ground (arith, in_group-Numbered g h (suc n) rs v.2)

-- The inputs name the group `g` once, with the cursor `c`.
abbrev pub NamesOnce : String → ℕ → List FetchGroupMessagesInput → Type 0
NamesOnce g c [] = ⊥
NamesOnce g c (input ∷ inputs) =
    ((input.group_id ≡ g)
      × (get_or input.after_cursor 0 ≡ c)
      × (any (λ i. i.group_id == g) inputs ≡ false))
    ⊎ (((input.group_id == g) ≡ false) × NamesOnce g c inputs)

in_group-fetch :
    (g : String) (input : FetchGroupMessagesInput) (m : Groups)
    → IsValid m
    → in_group g (fetch_group_messages input m)
      ≡ (if input.group_id == g then drop (get_or input.after_cursor 0) (messages_of g m) else [])
in_group-fetch g input m v = rw (fetch_group_messages-drop input.group_id input.after_cursor m v) (
    ground (
      arith,
      in_group-Numbered input.group_id g (suc (get_or input.after_cursor 0))
          (drop (get_or input.after_cursor 0) (messages_of input.group_id m))
          (drop-Numbered input.group_id (get_or input.after_cursor 0) (messages_of input.group_id m)
            (messages_of-Numbered input.group_id m v)),
    ))

backlog_other :
    (g : String) (inputs : List FetchGroupMessagesInput) (m : Groups)
    → IsValid m
    → any (λ i. i.group_id == g) inputs ≡ false
    → in_group g (fetch_many_group_messages inputs m) ≡ []
unfolding fetch_many_group_messages flat_map any
backlog_other g [] m v h = unfold in_group filter in refl
backlog_other g (i ∷ inputs) m v h =
    in_group-append g (fetch_group_messages i m) (fetch_many_group_messages inputs m)
    ∙ ground (arith, in_group-fetch g i m v, backlog_other g inputs m v)

in_group-backlog :
    (g : String) (c : ℕ) (inputs : List FetchGroupMessagesInput) (m : Groups)
    → IsValid m
    → NamesOnce g c inputs
    → in_group g (fetch_many_group_messages inputs m) ≡ drop c (messages_of g m)
unfolding fetch_many_group_messages flat_map
in_group-backlog g c [] m v h = elim h [ ]
in_group-backlog g c (i ∷ inputs) m v (inl h) =
    in_group-append g (fetch_group_messages i m) (fetch_many_group_messages inputs m)
    ∙ ground (
      arith,
      in_group-fetch g i m v,
      backlog_other g inputs m v h.2,
      h.0,
      h.1,
      append-nil (drop c (messages_of g m)),
    )
in_group-backlog g c (i ∷ inputs) m v (inr h) =
    in_group-append g (fetch_group_messages i m) (fetch_many_group_messages inputs m)
    ∙ ground (arith, in_group-fetch g i m v, in_group-backlog g c inputs m v h.1, h.0)

cursors_other :
    (g : String) (inputs : List FetchGroupMessagesInput) (m : Map String ℕ)
    → any (λ i. i.group_id == g) inputs ≡ false
    → Map.get g (initial_cursors inputs m) ≡ Map.get g m
unfolding initial_cursors any
cursors_other g [] m h = refl
cursors_other g (i ∷ inputs) m h =
    cursors_other g inputs (Map.set i.group_id (get_or i.after_cursor 0) m) (ground arith)
    ∙ ground (arith, get-set i.group_id g (get_or i.after_cursor 0) m)

pub initial_cursors-NamesOnce :
    (g : String) (c : ℕ) (inputs : List FetchGroupMessagesInput) (m : Map String ℕ)
    → NamesOnce g c inputs
    → Map.get g (initial_cursors inputs m) ≡ some c
unfolding initial_cursors
initial_cursors-NamesOnce g c [] m h = elim h [ ]
initial_cursors-NamesOnce g c (i ∷ inputs) m (inl h) =
    cursors_other g inputs (Map.set i.group_id (get_or i.after_cursor 0) m) h.2
    ∙ ground (arith, get-set i.group_id g (get_or i.after_cursor 0) m, h.0, h.1)
initial_cursors-NamesOnce g c (i ∷ inputs) m (inr h) =
    initial_cursors-NamesOnce g c inputs (Map.set i.group_id (get_or i.after_cursor 0) m) h.1

-- The subscription before anything is replayed.
abbrev pub initial : List FetchGroupMessagesInput → ManySubscription
initial inputs = record {
  queue = MessageQueue.empty;
  cursors_by_group = initial_cursors inputs [];
  live_buffer = [];
  replaying_backlog = true;
}

initial-IsQuiet : (inputs : List FetchGroupMessagesInput) → IsQuiet (initial inputs)
unfolding MessageQueue.empty MessageQueue.has_ended
initial-IsQuiet inputs = record {
  accepting = record { valid = record { read = omega arith; idle = inr refl }; open_ = refl };
  unread = refl;
}

emit_if_new-fields :
    (r : GroupMessageRecord) (s : ManySubscription)
    → ((emit_if_new r s).1.live_buffer ≡ s.live_buffer)
      × ((emit_if_new r s).1.replaying_backlog ≡ s.replaying_backlog)
unfolding emit_if_new
emit_if_new-fields r s = ground arith

replay-live_buffer :
    (rs : List GroupMessageRecord) (s : ManySubscription)
    → (push_each emit_if_new rs s).1.live_buffer ≡ s.live_buffer
unfolding push_each
replay-live_buffer [] s = refl
replay-live_buffer (r ∷ rs) s =
    replay-live_buffer rs (emit_if_new r s).1 ∙ (emit_if_new-fields r s).0

length-drop : (n : ℕ) (rs : List GroupMessageRecord) → length (drop n rs) ≡ length rs - n
unfolding drop
length-drop zero [] = omega arith
length-drop zero (r ∷ rs) = omega arith
length-drop (suc n) [] = omega arith
length-drop (suc n) (r ∷ rs) = omega (arith, length-drop n rs)

-- A subscription that has emitted, of the group `g`, all messages after the cursor `c`: those in
-- `got` are with the reader, the others wait in the queue.
pub record Follows (g : String) (c : ℕ) (m : Groups) (got : List GroupMessageRecord)
    (s : ManySubscription) : Type 0 where
  pub emitted : in_group g (got ++ contents s.queue) ≡ drop c (messages_of g m)
  pub reached : cursor_for g s ≡ later c (length (messages_of g m))
  pub accepting : IsOpen s.queue
  pub live : s.replaying_backlog ≡ false

push_each_none :
    (rs : List GroupMessageRecord) (s : ManySubscription)
    → rs ≡ []
    → (push_each push_many rs s).1 ≡ s
unfolding push_each
push_each_none [] s h = refl
push_each_none (r ∷ rs) s h = cc

start_many-flushed :
    (backlog : List GroupMessageRecord) (s : ManySubscription)
    → s.live_buffer ≡ []
    → start_many backlog s
      ≡ record ((push_each emit_if_new backlog s).1) { replaying_backlog = false; live_buffer = [] }
unfolding start_many
start_many-flushed backlog s h =
    push_each_none (push_each emit_if_new backlog s).1.live_buffer _
      (replay-live_buffer backlog s ∙ h)

module _ (g : String) (c : ℕ) (inputs : List FetchGroupMessagesInput) (m : Groups) (v : IsValid m)
    (once : NamesOnce g c inputs) where
  initial-cursor : cursor_for g (initial inputs) ≡ c
  initial-cursor = rw (initial_cursors-NamesOnce g c inputs [] once)

  new_messages : Numbered g (suc c) (drop c (messages_of g m))
  new_messages = drop-Numbered g c (messages_of g m) (messages_of-Numbered g m v)

  replayed : ManySubscription
  replayed = (push_each emit_if_new (fetch_many_group_messages inputs m) (initial inputs)).1

  replayed-contents : in_group g (contents replayed.queue) ≡ drop c (messages_of g m)
  unfolding replayed
  replayed-contents =
      replay-contents g (fetch_many_group_messages inputs m) (initial inputs)
        (initial-IsQuiet inputs)
      ∙ rw (initial-cursor, in_group-backlog g c inputs m v once)
          (unfold MessageQueue.empty in_group filter drop in
            new_after-Numbered g c (drop c (messages_of g m)) new_messages)

  replayed-cursor : cursor_for g replayed ≡ later c (length (messages_of g m))
  unfolding replayed
  replayed-cursor =
      replay-cursor g (fetch_many_group_messages inputs m) (initial inputs)
      ∙ rw (initial-cursor, in_group-backlog g c inputs m v once)
          (ground (
            arith,
            last_cursor-Numbered g c (drop c (messages_of g m)) new_messages,
            length-drop c (messages_of g m),
          ))

  -- A new subscription has queued, of a group that its inputs name once with the cursor `c`,
  -- all messages after `c`.
  pub start_many-Follows :
      Follows g c m [] (start_many (fetch_many_group_messages inputs m) (initial inputs))
  unfolding replayed
  start_many-Follows =
      rw (start_many-flushed (fetch_many_group_messages inputs m) (initial inputs) refl) (record {
        emitted = replayed-contents;
        reached = replayed-cursor;
        accepting =
            (replay-IsQuiet (fetch_many_group_messages inputs m) (initial inputs)
              (initial-IsQuiet inputs)).accepting;
        live = refl;
      })
