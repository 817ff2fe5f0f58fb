-- ===== src/Tests/Streaming.antt =====
-- The handler of a stream on a run of a few events.
use cordn.Coordinator.Subscriptions.Stream.{waiting}
use Prim.Native.Nat.{◌*◌, ◌+◌, ◌≤◌}
use cordn.Prelude.{
  ◌≡◌, refl, true, false, none, some, List, [], ◌∷◌, ◌++◌, arith, ◌+◌, ◌*◌, ◌≤◌, string_eq, nat_eq,
}
use cordn.Prelude.{any, drop, flat_map, get_elem?, length, String_discrete, ℕ_discrete}
use cordn.Prelude.Map
use cordn.Storage.Groups
use cordn.Coordinator.MessageQueue
use cordn.Coordinator.Subscriptions
use cordn.Coordinator.Subscriptions.Stream.{waiting}
use cordn.Server.Streaming
use cordn.Server.Streaming.Ending.{resumptions}
use cordn.Coordinator.Subscriptions.{Hub}
use cordn.Coordinator.Subscriptions.Calls.{IsValid}
use cordn.Coordinator.Subscriptions.Fanout.{among, delivered_to}
use cordn.Coordinator.Subscriptions.Membership.{ids_of}
use cordn.Storage.Groups.{FetchGroupMessagesInput}
use cordn.Server.Streaming.{
  Streaming, Event, resumes, terminates, posts, finished, has_finished, start, run,
}
use cordn.Server.Streaming.Teardown.{terminates-has_finished, finished-gone}

abbrev empty_hub : Hub
empty_hub = record {
  groups = [];
  group_subscribers = [];
  subscriber_refcounts = [];
  subscribers = [];
  next_subscriber = 0;
}

empty_hub-IsValid : IsValid empty_hub
unfolding Map.get
empty_hub-IsValid = record { groups = record { logs = λ g group h. cc }; sets = λ g. tt }

abbrev group_a : List FetchGroupMessagesInput
group_a = record { group_id = "a"; after_cursor = none } ∷ []

-- The stream starts, a message comes and is written, and another waits.
abbrev reading : List Event
reading =
    resumes none true
    ∷ posts (record { group_id = "a"; opaque_message = 1 ∷ []; created_at = 10 })
    ∷ resumes none true
    ∷ posts (record { group_id = "a"; opaque_message = 2 ∷ []; created_at = 20 })
    ∷ []

-- The write fails, and what follows is that error's.
abbrev ending : List Event
ending =
    resumes (some "gone") false
    ∷ resumes none false
    ∷ resumes none false
    ∷ resumes none false
    ∷ resumes none false
    ∷ resumes none false
    ∷ resumes none false
    ∷ []

waiting_one :
    length (
      waiting
        (run reading (start group_a empty_hub)).id
        (run reading (start group_a empty_hub)).hub)
    ≡ 1
unfolding run Streaming.step Streaming.resume Streaming.settle Streaming.is_waiting delivered_to
    Subscriptions.post_group_message Subscriptions.publish_live_group_message Subscriptions.push_to
    Map.get start Streaming.or_fail Streaming.read Subscriptions.read_next
    Subscriptions.subscribe_many_group_messages Map.set Subscriptions.add_to_groups
    MessageQueue.compact MessageQueue.empty MessageQueue.hand_out MessageQueue.has_ended
    MessageQueue.next MessageQueue.push Subscriptions.add_group_subscriber Subscriptions.add_to_set
    Subscriptions.create_subscriber Subscriptions.emit_if_new Subscriptions.initial_cursors
    Subscriptions.push_each Subscriptions.push_many Subscriptions.push_subscriber
    Subscriptions.queue_of Subscriptions.start_many Subscriptions.with_queue any flat_map get_elem?
    String_discrete ℕ_discrete Streaming.resume_settled Groups.append_group_message
    Groups.create_group_log Groups.fetch_group_messages Groups.fetch_many_group_messages
    Groups.messages_of Groups.next_message Groups.push_message drop waiting
waiting_one = refl

enough :
    5
      + 2
        * length (
            waiting
              (run reading (start group_a empty_hub)).id
              (run reading (start group_a empty_hub)).hub)
    ≤ resumptions ending
unfolding resumptions
enough = rw waiting_one (omega arith)

terminates-has_finished_example :
    has_finished (run (reading ++ terminates ∷ ending) (start group_a empty_hub)).phase ≡ true
terminates-has_finished_example =
    terminates-has_finished group_a empty_hub reading ending empty_hub-IsValid enough

finished-gone_example :
    among
      (run (reading ++ terminates ∷ ending) (start group_a empty_hub)).id
      (ids_of "a" (run (reading ++ terminates ∷ ending) (start group_a empty_hub)).hub)
    ≡ false
unfolding any String_discrete
finished-gone_example =
    finished-gone group_a empty_hub (reading ++ terminates ∷ ending) "a" empty_hub-IsValid
      terminates-has_finished_example refl
