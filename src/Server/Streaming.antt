-- ===== src/Server/Streaming.antt =====
-- The handler `subscribeManyGroupMessages` (packages/server/src/coordinatorMethods.ts): it writes a
-- subscription's messages to a stream until the subscription or the stream ends. An `await` is where
-- other code runs, so the handler is a state machine with a phase to each. The stream is the SDK's:
-- what its calls come to, and whether it is active, come with the events.
use cordn.Prelude.{
  ℕ, String, Bool, true, false, Option, none, some, List, [], ◌∷◌, map, if◌then◌else◌, string_eq,
  nat_eq,
}
use cordn.Prelude.Map
use cordn.Coordinator.MessageQueue.{Settled, value, done, rejected}
use cordn.Coordinator.Subscriptions.{
  Hub, initial_cursors, close_subscriber, post_group_message, read_next,
  subscribe_many_group_messages, unsubscribe,
}
use cordn.Coordinator.Subscriptions.Fanout.{delivered_to}
use cordn.Storage.Groups.{GroupMessageRecord, AppendGroupMessageParams, FetchGroupMessagesInput}
pub mod Phases
pub mod Closed
pub mod Ending
pub mod Open
pub mod Reached
pub mod Start
pub mod Teardown

abbrev pub Reply : Type 0
Reply = Settled GroupMessageRecord String

-- What the handler awaits: `stream.start`, the queue's `next`, a `next` that has settled,
-- `stream.write`, the queue's `return` after a `break` or a throw, `stream.close`, and the writer's
-- own abort. An error is the reason that the handler ends with.
pub data Phase : Type 0 where
  starting : Phase
  waiting : Phase
  settled : Reply → Phase
  writing : GroupMessageRecord → Phase
  leaving : Phase
  failing : String → Phase
  closing : Phase
  aborting : String → Phase
  finished : Option String → Phase

-- The handler's variables, with the coordinator's hub.
pub record Streaming : Type 0 where
  pub hub : Hub
  pub id : ℕ
  pub group_ids : List String
  pub cleaned_up : Bool
  pub phase : Phase

pub data Event : Type 0 where
  -- What is awaited is there: the error that it failed with, and `stream.isActive`.
  resumes : Option String → Bool → Event
  -- The stream's signal fires, or its `abort` is called.
  terminates : Event
  posts : AppendGroupMessageParams → Event

unfoldable pub is_waiting : Phase → Bool
is_waiting waiting = true
is_waiting _ = false

unfoldable pub has_finished : Phase → Bool
has_finished (finished _) = true
has_finished _ = false

-- A promise that the handler waits on is settled. Its loop is the queue's only reader.
unfoldable pub settle : List Reply → Phase → Phase
settle [] phase = phase
settle (r ∷ rs) phase = if is_waiting phase then settled r else phase

unfoldable pub close_queue : ℕ → Hub → Hub
close_queue id hub = elim (Map.get id hub.subscribers) [
  | none ↦ hub
  | some s ↦ record hub { subscribers = Map.set id (close_subscriber s).1 hub.subscribers }
]

-- What closing the queue settles.
unfoldable pub closing_settles : ℕ → Hub → List Reply
closing_settles id hub = elim (Map.get id hub.subscribers) [
  | none ↦ []
  | some s ↦ map (λ p. p.1) (close_subscriber s).0
]

-- `cleanupSubscriptions`, less the entry in the log
unfoldable pub cleanup_subscriptions : Streaming → Streaming
cleanup_subscriptions s = if s.cleaned_up then s else record s {
  cleaned_up = true;
  hub = unsubscribe s.group_ids s.id s.hub;
  phase = settle (closing_settles s.id s.hub) s.phase;
}

-- The loop asks for the next message. It has one promise at a time.
unfoldable pub read : Streaming → Streaming
read s =
    let result = read_next s.id 0 s.hub in
    record s { hub = result.1; phase = elim result.0 [ none ↦ waiting | some r ↦ settled r ] }

-- The `catch` block.
unfoldable pub fail : String → Streaming → Streaming
fail error s = record (cleanup_subscriptions s) { phase = aborting error }

-- The `finally` block.
unfoldable pub finish : Option String → Streaming → Streaming
finish outcome s = record (cleanup_subscriptions s) { phase = finished outcome }

-- What follows the loop.
unfoldable pub complete : Bool → Streaming → Streaming
complete is_active s =
    if is_active then record (cleanup_subscriptions s) { phase = closing } else finish none s

-- The loop is left, and its iterator's `return` closes the queue.
unfoldable pub leave : Phase → Streaming → Streaming
leave phase s = record s { hub = close_queue s.id s.hub; phase = phase }

unfoldable pub resume_settled : Reply → Bool → Streaming → Streaming
resume_settled (value message) is_active s =
    if is_active then record s { phase = writing message } else leave leaving s
resume_settled done is_active s = complete is_active s
resume_settled (rejected error) is_active s = fail error s

unfoldable pub or_fail : Option String → (String → Streaming) → Streaming → Streaming
or_fail none failed s = s
or_fail (some error) failed s = failed error

-- A promise that has settled, or that cannot fail, leaves the failure unread.
unfoldable pub resume : Phase → Option String → Bool → Streaming → Streaming
resume starting failure is_active s = or_fail failure (λ e. fail e s) (read s)
resume waiting failure is_active s = s
resume (settled r) failure is_active s = resume_settled r is_active s
resume (writing message) failure is_active s = or_fail failure (λ e. leave (failing e) s) (read s)
resume leaving failure is_active s = complete is_active s
resume (failing error) failure is_active s = fail error s
resume closing failure is_active s = or_fail failure (λ e. fail e s) (finish none s)
resume (aborting error) failure is_active s = finish (some error) s
resume (finished outcome) failure is_active s = s

unfoldable pub step : Event → Streaming → Streaming
step (resumes failure is_active) s = resume s.phase failure is_active s
step terminates s = cleanup_subscriptions s
step (posts params) s =
    let posted = post_group_message params s.hub in
    record s { hub = posted.2; phase = settle (map value (delivered_to s.id posted.1)) s.phase }

unfoldable pub run : List Event → Streaming → Streaming
run [] s = s
run (e ∷ es) s = run es (step e s)

-- The call, up to `stream.start`.
unfoldable pub start : List FetchGroupMessagesInput → Hub → Streaming
start inputs hub =
    let subscribed = subscribe_many_group_messages inputs hub in
    record {
      hub = subscribed.1;
      id = subscribed.0;
      group_ids = map (λ e. e.0) (initial_cursors inputs []);
      cleaned_up = false;
      phase = starting;
    }
