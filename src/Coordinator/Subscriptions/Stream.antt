-- ===== src/Coordinator/Subscriptions/Stream.antt =====
-- The stream of a subscription, from its start through any posts and reads.
use cordn.Prelude.{
  ℕ, String, ◌≡◌, refl, sym, ◌∙◌, subst, none, some, List, [], ◌++◌, map, ==-refl, drop, string_eq,
  nat_eq,
}
use cordn.Prelude.Map
use cordn.Prelude.Map.{get-set, Map}
use cordn.Coordinator.MessageQueue.Delivery.{contents}
use cordn.Coordinator.Subscriptions.{
  Hub, many, queue_of, add_to_groups, create_subscriber, subscribe_many_group_messages,
  initial_cursors, start_many, fetch_many_group_messages,
}
use cordn.Coordinator.Subscriptions.Backlog.{
  NamesOnce, initial, initial_cursors-NamesOnce, start_many-Follows,
}
use cordn.Coordinator.Subscriptions.Emission.{in_group}
use cordn.Coordinator.Subscriptions.Membership.{
  add_to_groups-same, add_to_groups-sets, add_to_groups-joined, key_among,
}
use cordn.Storage.Groups.{GroupMessageRecord, FetchGroupMessagesInput, messages_of}
use cordn.Storage.Groups.Log.{appended, appended-group, append_group_message-IsValid}
use cordn.Storage.Groups.Log as Log
use cordn.Coordinator.Subscriptions.Calls.{IsValid, Subscribed, Call, run, run-Subscribed}

-- The messages that wait in the queue of a subscriber.
unfoldable pub waiting : ℕ → Hub → List GroupMessageRecord
waiting id hub = elim (Map.get id hub.subscribers) [ none ↦ [] | some s ↦ contents (queue_of s) ]

Subscribed-waiting :
    (g : String) (c id : ℕ) (got : List GroupMessageRecord) (hub : Hub)
    → Subscribed g c id got hub
    → in_group g (got ++ waiting id hub) ≡ drop c (messages_of g hub.groups)
unfolding waiting queue_of
Subscribed-waiting g c id got hub s = rw (s.entry, waiting) s.follows.emitted

-- The hub once the new subscriber is in it and in the sets of its groups.
joining : List FetchGroupMessagesInput → Hub → Hub
joining inputs hub =
    add_to_groups (map (λ e. e.0) (initial_cursors inputs [])) hub.next_subscriber
      (create_subscriber (many (initial inputs)) hub).1

joining-groups :
    (inputs : List FetchGroupMessagesInput) (hub : Hub) → (joining inputs hub).groups ≡ hub.groups
unfolding joining create_subscriber
joining-groups inputs hub = (add_to_groups-same _ hub.next_subscriber _).0

pub subscribe_many-IsValid :
    (inputs : List FetchGroupMessagesInput) (hub : Hub)
    → IsValid hub
    → IsValid (subscribe_many_group_messages inputs hub).1
unfolding subscribe_many_group_messages joining create_subscriber
subscribe_many-IsValid inputs hub v = record {
  groups = subst Log.IsValid (sym (joining-groups inputs hub)) v.groups;
  sets = add_to_groups-sets _ hub.next_subscriber _ v.sets;
}

subscribe_many-Subscribed :
    (g : String) (c : ℕ) (inputs : List FetchGroupMessagesInput) (hub : Hub)
    → IsValid hub
    → NamesOnce g c inputs
    → Subscribed g c
        (subscribe_many_group_messages inputs hub).0
        []
        (subscribe_many_group_messages inputs hub).1
unfolding subscribe_many_group_messages joining create_subscriber
subscribe_many-Subscribed g c inputs hub v once =
    let e = joining-groups inputs hub in
    record {
      subscription =
          start_many (fetch_many_group_messages inputs (joining inputs hub).groups)
            (initial inputs);
      entry =
          get-set hub.next_subscriber hub.next_subscriber _ _
          ∙ rw (==-refl hub.next_subscriber) refl;
      follows =
          start_many-Follows g c inputs (joining inputs hub).groups
            (subst Log.IsValid (sym e) v.groups) once;
      joined = add_to_groups-joined g _ hub.next_subscriber _ (
          key_among g c (initial_cursors inputs []) (initial_cursors-NamesOnce g c inputs [] once));
    }

-- In a valid hub, a client that subscribes to several groups, and names the group `g` once with
-- the cursor `c`: after any posts to any groups and any reads of any subscriptions, the messages
-- of `g` that the client has read, followed by those that wait in its queue, are exactly the
-- messages of `g` after the cursor `c`, backlog and live ones, each once and in order.
pub subscribe_many-stream :
    (g : String) (c : ℕ) (inputs : List FetchGroupMessagesInput) (calls : List Call) (hub : Hub)
    → IsValid hub
    → NamesOnce g c inputs
    → let subscribed = subscribe_many_group_messages inputs hub in
      let after = run subscribed.0 calls subscribed.1 in
      in_group g (after.0 ++ waiting subscribed.0 after.1) ≡ drop c (messages_of g after.1.groups)
subscribe_many-stream g c inputs calls hub v once =
    let subscribed = subscribe_many_group_messages inputs hub in
    Subscribed-waiting g c subscribed.0 (run subscribed.0 calls subscribed.1).0 _ (
      run-Subscribed g c subscribed.0 [] calls subscribed.1 (subscribe_many-IsValid inputs hub v)
        (subscribe_many-Subscribed g c inputs hub v once))
