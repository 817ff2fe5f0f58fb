-- ===== src/Server/Streaming/Start.antt =====
-- The start of the stream's handler, and the groups that it names.
use cordn.Prelude.{
  eq_of_==, get_or, if◌then◌else◌, ℕ, String, ◌≡◌, refl, ◌∙◌, ◌⊎◌, inl, inr, Bool, true, false,
  Option, none, some, List, [], ◌∷◌, map, arith, any, Bool-cases, ◌==◌, string_eq, nat_eq,
}
use cordn.Prelude.Map
use cordn.Prelude.Map.{Map}
use cordn.Coordinator.MessageQueue
use cordn.Coordinator.MessageQueue.{value, done, rejected}
use cordn.Coordinator.Subscriptions.{
  Hub, LiveQueue, ManySubscription, Pushed, initial_cursors, queue_of, emit_if_new, push_many,
  push_each, start_many, subscribe_many_group_messages,
}
use cordn.Coordinator.Subscriptions.Stream.{subscribe_many-IsValid}
use cordn.Coordinator.Subscriptions.Calls.{IsValid}
use cordn.Storage.Groups.{GroupMessageRecord, FetchGroupMessagesInput}
use cordn.Server.Streaming.{
  Phase, starting, waiting, settled, writing, leaving, failing, closing, aborting, finished,
  Streaming, Event, resumes, terminates, posts, is_waiting, resume_settled, or_fail,
  cleanup_subscriptions, read, fail, finish, complete, leave, resume, step, run, start,
}
use cordn.Server.Streaming.Phases.{queue_in-set}
use cordn.Server.Streaming.Open.{Open, loops}

-- No one has read a queue yet, or ended it.
Idle : LiveQueue → Type 0
Idle q = (q.aborted ≡ none) × (q.waiters ≡ [])

emit_if_new-Idle :
    (m : GroupMessageRecord) (s : ManySubscription) → Idle s.queue → Idle (emit_if_new m s).1.queue
unfolding Idle emit_if_new MessageQueue.push MessageQueue.hand_out
emit_if_new-Idle m s h = ground (arith, h)

push_many-Idle :
    (m : GroupMessageRecord) (s : ManySubscription) → Idle s.queue → Idle (push_many m s).1.queue
unfolding push_many Idle
push_many-Idle m s h = ground (arith, h, emit_if_new-Idle m s h)

push_each-Idle :
    (push_one : GroupMessageRecord → ManySubscription → Pushed ManySubscription)
    → ((m : GroupMessageRecord) (s : ManySubscription) → Idle s.queue → Idle (push_one m s).1.queue)
    → (ms : List GroupMessageRecord) (s : ManySubscription) → Idle s.queue
    → Idle (push_each push_one ms s).1.queue
unfolding push_each
push_each-Idle push_one keeps [] s h = h
push_each-Idle push_one keeps (m ∷ ms) s h =
    push_each-Idle push_one keeps ms (push_one m s).1 (keeps m s h)

start_many-Idle :
    (backlog : List GroupMessageRecord) (s : ManySubscription)
    → Idle s.queue
    → Idle (start_many backlog s).queue
unfolding start_many
start_many-Idle backlog s h =
    push_each-Idle push_many push_many-Idle _ _
      (push_each-Idle emit_if_new emit_if_new-Idle backlog s h)

pub start-Open :
    (inputs : List FetchGroupMessagesInput) (hub : Hub) → IsValid hub → Open (start inputs hub)
unfolding start subscribe_many_group_messages Idle is_waiting loops MessageQueue.empty queue_of
    start_many
start-Open inputs hub v =
    let idle = start_many-Idle _ _ (refl, refl) in
    (
      _,
      record {
        valid = subscribe_many-IsValid inputs hub v;
        entry = queue_in-set _ _ _;
        aborted = idle.0;
        uncleaned = refl;
      },
      (refl, idle.1, λ h. cc),
    )

-- The handler keeps the groups that it named.
cleanup_subscriptions-group_ids :
    (s : Streaming) → (cleanup_subscriptions s).group_ids ≡ s.group_ids
unfolding cleanup_subscriptions
cleanup_subscriptions-group_ids s = ground arith

complete-group_ids : (a : Bool) (s : Streaming) → (complete a s).group_ids ≡ s.group_ids
unfolding complete finish
complete-group_ids true s = cleanup_subscriptions-group_ids s
complete-group_ids false s = cleanup_subscriptions-group_ids s

resume-group_ids :
    (p : Phase) (failure : Option String) (is_active : Bool) (s : Streaming)
    → (resume p failure is_active s).group_ids ≡ s.group_ids
unfolding resume or_fail resume_settled fail finish leave read
resume-group_ids starting none a s = refl
resume-group_ids starting (some x) a s = cleanup_subscriptions-group_ids s
resume-group_ids waiting f a s = refl
resume-group_ids (settled (value m)) f true s = refl
resume-group_ids (settled (value m)) f false s = refl
resume-group_ids (settled done) f a s = complete-group_ids a s
resume-group_ids (settled (rejected x)) f a s = cleanup_subscriptions-group_ids s
resume-group_ids (writing m) none a s = refl
resume-group_ids (writing m) (some x) a s = refl
resume-group_ids leaving f a s = complete-group_ids a s
resume-group_ids (failing x) f a s = cleanup_subscriptions-group_ids s
resume-group_ids closing none a s = cleanup_subscriptions-group_ids s
resume-group_ids closing (some x) a s = cleanup_subscriptions-group_ids s
resume-group_ids (aborting x) f a s = cleanup_subscriptions-group_ids s
resume-group_ids (finished o) f a s = refl

pub run-group_ids : (es : List Event) (s : Streaming) → (run es s).group_ids ≡ s.group_ids
unfolding run step
run-group_ids [] s = refl
run-group_ids (resumes f a ∷ es) s =
    run-group_ids es (resume s.phase f a s) ∙ resume-group_ids s.phase f a s
run-group_ids (terminates ∷ es) s =
    run-group_ids es (cleanup_subscriptions s) ∙ cleanup_subscriptions-group_ids s
run-group_ids (posts p ∷ es) s = run-group_ids es (step (posts p) s)

-- A key of the map.
unfoldable pub among_keys : String → Map String ℕ → Bool
among_keys g m = any (λ k. k == g) (map (λ e. e.0) m)

among_keys-set :
    (g k : String) (c : ℕ) (m : Map String ℕ)
    → among_keys g (Map.set k c m) ≡ (if k == g then true else among_keys g m)
unfolding among_keys Map.set any
among_keys-set g k c [] = ground arith
among_keys-set g k c ((j, n) ∷ m) = elim (Bool-cases (j == k)) [
  | inl e ↦ ground (arith, e, eq_of_== j k e)
  | inr e ↦ ground (arith, e, among_keys-set g k c m)
]

pub initial_cursors-named :
    (g : String) (inputs : List FetchGroupMessagesInput) (m : Map String ℕ)
    → (among_keys g m ≡ true) ⊎ (any (λ i. i.group_id == g) inputs ≡ true)
    → among_keys g (initial_cursors inputs m) ≡ true
unfolding initial_cursors any
initial_cursors-named g [] m (inl h) = h
initial_cursors-named g [] m (inr h) = cc
initial_cursors-named g (i ∷ inputs) m h =
    let next = Map.set i.group_id (get_or i.after_cursor 0) m in
    let keys = among_keys-set g i.group_id (get_or i.after_cursor 0) m in
    initial_cursors-named g inputs next (elim (Bool-cases (i.group_id == g)) [
      | inl e ↦ inl (ground (arith, keys, e))
      | inr e ↦ elim h [
        | inl there ↦ inl (ground (arith, keys, e, there))
        | inr later ↦ inr (ground (arith, e, later))
      ]
    ])
