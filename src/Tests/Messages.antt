-- ===== src/Tests/Messages.antt =====
-- Group messages, queues and subscriptions.
use cordn.Prelude.{
  ℕ, String, ◌≡◌, refl, inl, inr, false, none, some, List, [], ◌∷◌, ◌++◌, arith, length, drop, any,
  string_eq, String_discrete,
}
use cordn.Prelude.Map
use cordn.Storage.Groups.{
  AppendGroupMessageParams, FetchGroupMessagesInput, Groups, append_group_message,
  fetch_group_messages, messages_of,
}
use cordn.Storage.Groups.Log
use cordn.Storage.Groups.Log.{
  append_group_message-IsValid, fetch_group_messages-drop, fetch_group_messages-append_all,
  append_all, sent_to,
}
use cordn.Coordinator.MessageQueue.{AsyncMessageQueue}
use cordn.Coordinator.MessageQueue.Delivery
use cordn.Coordinator.MessageQueue.Delivery.{contents, accepted, run-delivers}
use cordn.Coordinator.Subscriptions.{Hub, subscribe_many_group_messages}
use cordn.Coordinator.Subscriptions.Emission.{in_group}
use cordn.Coordinator.Subscriptions.Backlog.{NamesOnce}
use cordn.Coordinator.Subscriptions.Calls
use cordn.Coordinator.Subscriptions.Calls.{Call, run, step, step-IsValid}
use cordn.Coordinator.Subscriptions.Stream.{waiting, subscribe_many-stream}

abbrev to_a : AppendGroupMessageParams
to_a = record { group_id = "a"; opaque_message = 1 ∷ []; created_at = 10 }

abbrev to_b : AppendGroupMessageParams
to_b = record { group_id = "b"; opaque_message = 2 ∷ []; created_at = 20 }

no_groups-IsValid : Log.IsValid []
unfolding Map.get
no_groups-IsValid = record { logs = λ g group h. cc }

abbrev two_groups : Groups
two_groups = (append_group_message to_b (append_group_message to_a []).1).1

two_groups-IsValid : Log.IsValid two_groups
two_groups-IsValid =
    append_group_message-IsValid to_b (append_group_message to_a []).1
      (append_group_message-IsValid to_a [] no_groups-IsValid)

fetch_group_messages-append_all_example :
    fetch_group_messages
      (record { group_id = "a"; after_cursor = some (length (messages_of "a" two_groups)) })
      (append_all (to_a ∷ to_b ∷ to_a ∷ []) two_groups)
    ≡ sent_to "a" (to_a ∷ to_b ∷ to_a ∷ []) two_groups
fetch_group_messages-append_all_example =
    fetch_group_messages-append_all "a" (to_a ∷ to_b ∷ to_a ∷ []) two_groups two_groups-IsValid

abbrev waiting_queue : AsyncMessageQueue ℕ String
waiting_queue = record {
  values = 7 ∷ 8 ∷ [];
  next_value_index = 1;
  waiters = [];
  closed = false;
  aborted = none;
}

abbrev queue_calls : List (Delivery.Call ℕ String)
queue_calls = Delivery.reads 0 ∷ Delivery.reads 1 ∷ Delivery.pushes 9 ∷ Delivery.closes ∷ []

run-delivers_example :
    (Delivery.run queue_calls waiting_queue).0
      ++ contents (Delivery.run queue_calls waiting_queue).1
    ≡ contents waiting_queue ++ accepted queue_calls waiting_queue
run-delivers_example =
    run-delivers queue_calls waiting_queue (record { read = omega arith; idle = inr refl })

abbrev no_hub : Hub
no_hub = record {
  groups = [];
  group_subscribers = [];
  subscriber_refcounts = [];
  subscribers = [];
  next_subscriber = 0;
}

no_hub-IsValid : Calls.IsValid no_hub
unfolding Map.get
no_hub-IsValid = record { groups = no_groups-IsValid; sets = λ g. tt }

abbrev hub : Hub
hub = (step 0 (Call.posts to_a) no_hub).1

abbrev inputs : List FetchGroupMessagesInput
inputs =
    record { group_id = "b"; after_cursor = none }
    ∷ record { group_id = "a"; after_cursor = some 0 }
    ∷ []

abbrev calls : List Call
calls = Call.posts to_a ∷ Call.reads 0 0 ∷ Call.posts to_b ∷ Call.reads 0 1 ∷ []

names_a : NamesOnce "a" 0 inputs
unfolding any String_discrete
names_a = inr (refl, inl (refl, refl, refl))

subscribe_many-stream_example :
    let subscribed = subscribe_many_group_messages inputs hub in
    let after = run subscribed.0 calls subscribed.1 in
    in_group "a" (after.0 ++ waiting subscribed.0 after.1) ≡ drop 0 (messages_of "a" after.1.groups)
subscribe_many-stream_example =
    subscribe_many-stream "a" 0 inputs calls hub
      (step-IsValid 0 (Call.posts to_a) no_hub no_hub-IsValid) names_a
