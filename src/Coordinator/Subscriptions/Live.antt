-- ===== src/Coordinator/Subscriptions/Live.antt =====
-- A subscription goes on following its groups while messages are posted and read.
use cordn.Coordinator.MessageQueue.{push}
use cordn.Prelude.{
  ℕ, String, ◌≡◌, sym, ap, ◌∙◌, inl, inr, false, List, [], ◌∷◌, ◌++◌, append-nil, append_assoc,
  arith, ◌+◌, if◌then◌else◌, leb, ◌==◌, Bool-cases, eq_of_==, length, drop, filter, length-append,
  drop_all, drop-append_le, string_eq, nat_eq,
}
use cordn.Coordinator.MessageQueue.Delivery.{
  contents, delivered, returned, contents-next, next-IsValid, has_ended-next,
}
use cordn.Coordinator.MessageQueue
use cordn.Coordinator.Subscriptions.{ManySubscription, emit_if_new, push_many}
use cordn.Coordinator.Subscriptions.Emission.{
  in_group, in_group-append, cursor_for, later, fresh, emit_if_new-contents, emit_if_new-IsOpen,
  emit_if_new-cursor,
}
use cordn.Coordinator.Subscriptions.Backlog.{Follows}
use cordn.Storage.Groups.{
  GroupMessageRecord, AppendGroupMessageParams, Groups, messages_of, append_group_message,
}
use cordn.Storage.Groups.Log.{
  IsValid, appended, appended-group, appended-cursor, messages_of-append,
}

-- The log grows by one: what lies behind the cursor does too, if the new message does.
drop-grown :
    (c : ℕ) (rs : List GroupMessageRecord) (r : GroupMessageRecord)
    → drop c (rs ++ r ∷ []) ≡ drop c rs ++ (if leb (length rs + 1) c then [] else r ∷ [])
drop-grown c rs r = elim (Bool-cases (leb (length rs + 1) c)) [
  | inl past ↦ rw past (
      ground (
        arith,
        drop_all c (rs ++ r ∷ []),
        drop_all c rs,
        length-append rs (r ∷ []),
        append-nil (drop c rs),
      ))
  | inr new ↦ rw new (drop-append_le c rs (r ∷ []) (ground arith))
]

push_many_live :
    (r : GroupMessageRecord) (s : ManySubscription)
    → s.replaying_backlog ≡ false
    → push_many r s ≡ emit_if_new r s
unfolding push_many
push_many_live r s h = ground arith

module _ (g : String) (c : ℕ) (p : AppendGroupMessageParams) (m : Groups) (v : IsValid m)
    (got : List GroupMessageRecord) (s : ManySubscription) (f : Follows g c m got s) where
  -- Of the new message, what is emitted of the group `g` is what the log gains behind `c`.
  fresh-grown :
      drop c (messages_of g m) ++ in_group g (fresh (appended p m) s)
      ≡ drop c (messages_of g (append_group_message p m).1)
  unfolding in_group filter
  fresh-grown = elim (Bool-cases (p.group_id == g)) [
    | inl here ↦
        let e : p.group_id ≡ g = eq_of_== p.group_id g here in
        rw (messages_of-append g p m, here, drop-grown c (messages_of g m) (appended p m))
          (ground (
            arith,
            here,
            e,
            (appended-group p m),
            f.reached,
            ap (λ k. length (messages_of k m)) e,
            ap (λ k. cursor_for k s) e,
            appended-cursor p m v,
          ))
    | inr other ↦
        rw (messages_of-append g p m, other)
          (ground (arith, other, (appended-group p m), append-nil (drop c (messages_of g m))))
  ]

  emit_if_new-live : (emit_if_new (appended p m) s).1.replaying_backlog ≡ false
  unfolding emit_if_new
  emit_if_new-live = ground (arith, f.live)

  cursor-grown :
      cursor_for g (emit_if_new (appended p m) s).1
      ≡ later c (length (messages_of g (append_group_message p m).1))
  cursor-grown = elim (Bool-cases (p.group_id == g)) [
    | inl here ↦
        let e : p.group_id ≡ g = eq_of_== p.group_id g here in
        rw
          (
            emit_if_new-cursor g (appended p m) s,
            messages_of-append g p m,
            here,
            (appended-group p m),
            here,
          )
          (ground (
            arith,
            f.reached,
            ap (λ k. length (messages_of k m)) e,
            appended-cursor p m v,
            length-append (messages_of g m) (appended p m ∷ []),
          ))
    | inr other ↦
        rw
          (
            emit_if_new-cursor g (appended p m) s,
            messages_of-append g p m,
            other,
            (appended-group p m),
            other,
          )
          f.reached
  ]

  emit_if_new-Follows :
      Follows g c
        (append_group_message p m).1
        (got ++ delivered (emit_if_new (appended p m) s).0)
        (emit_if_new (appended p m) s).1
  emit_if_new-Follows = record {
    emitted =
        ap (in_group g) (
          append_assoc got _ _
          ∙ ap (λ l. got ++ l) (emit_if_new-contents (appended p m) s f.accepting)
          ∙ sym (append_assoc got (contents s.queue) _))
        ∙ in_group-append g (got ++ contents s.queue) (fresh (appended p m) s)
        ∙ ap (λ l. l ++ in_group g (fresh (appended p m) s)) f.emitted
        ∙ fresh-grown;
    reached = cursor-grown;
    accepting = emit_if_new-IsOpen (appended p m) s f.accepting;
    live = emit_if_new-live;
  }

  pub push_many-Follows :
      Follows g c
        (append_group_message p m).1
        (got ++ delivered (push_many (appended p m) s).0)
        (push_many (appended p m) s).1
  push_many-Follows = rw (push_many_live (appended p m) s f.live) emit_if_new-Follows

  -- A message of another group leaves the log of `g` alone.
  pub skip-Follows : (p.group_id == g) ≡ false → Follows g c (append_group_message p m).1 got s
  skip-Follows other = record {
    emitted = rw (messages_of-append g p m, other) f.emitted;
    reached = rw (messages_of-append g p m, other) f.reached;
    accepting = f.accepting;
    live = f.live;
  }

module _ (g : String) (c : ℕ) (m : Groups) (got : List GroupMessageRecord) (s : ManySubscription)
    (f : Follows g c m got s) where
  -- A read hands over what waits first.
  pub next-Follows :
      (id : ℕ)
      → Follows g c m
          (got ++ returned (MessageQueue.next id s.queue).0)
          (record s { queue = (MessageQueue.next id s.queue).1 })
  next-Follows id = record {
    emitted =
        ap (in_group g) (append_assoc got _ _ ∙ ap (λ l. got ++ l) (contents-next id s.queue))
        ∙ f.emitted;
    reached = f.reached;
    accepting = record {
      valid = next-IsValid id s.queue f.accepting.valid;
      open_ = has_ended-next id s.queue ∙ f.accepting.open_;
    };
    live = f.live;
  }
