-- ===== src/Coordinator/Subscriptions.antt =====
-- The group messages of `Coordinator` (packages/coordinator/src/coordinator.ts): posting, fetching
-- and the live subscriptions. A subscriber object is known by a number, and the `hub` holds it;
-- the code is single threaded, so a method runs with no other between its steps. A method that
-- pushes into queues returns the promises that it settles, by subscriber.
pub mod Emission
pub mod Backlog
pub mod Live
pub mod Fanout
pub mod Membership
pub mod Calls
pub mod Departure
pub mod Stream
use cordn.Prelude.{
  ℕ, suc, String, Bool, true, false, not, Option, none, some, get_or, List, [], ◌∷◌, ◌++◌, map, ◌+◌,
  ◌-◌, if◌then◌else◌, leb, ◌==◌, length, filter, any, string_eq, nat_eq,
}
use cordn.Prelude.Map
use cordn.Prelude.Map.{Map}
use cordn.Coordinator.MessageQueue
use cordn.Coordinator.MessageQueue.{AsyncMessageQueue, Settled}
use cordn.Storage.Groups.{
  GroupMessageRecord, AppendGroupMessageParams, FetchGroupMessagesInput, Groups,
  append_group_message, fetch_many_group_messages,
}

abbrev pub LiveQueue : Type 0
LiveQueue = AsyncMessageQueue GroupMessageRecord String

-- Promises that are settled, each with the subscriber whose queue it waited on.
abbrev pub Settlements : Type 0
Settlements = List (ℕ × List (ℕ × Settled GroupMessageRecord String))

-- The variables that the closures of `subscribeManyGroupMessages` share.
pub record ManySubscription : Type 0 where
  pub queue : LiveQueue
  pub cursors_by_group : Map String ℕ
  pub live_buffer : List GroupMessageRecord
  pub replaying_backlog : Bool

pub data Subscriber : Type 0 where
  single : LiveQueue → Subscriber
  many : ManySubscription → Subscriber

pub record Hub : Type 0 where
  pub groups : Groups
  pub group_subscribers : Map String (List ℕ)
  pub subscriber_refcounts : Map ℕ ℕ
  pub subscribers : Map ℕ Subscriber
  pub next_subscriber : ℕ

abbrev pub Pushed : Type 0 → Type 0
Pushed S = List (ℕ × Settled GroupMessageRecord String) × S

unfoldable pub emit_if_new : GroupMessageRecord → ManySubscription → Pushed ManySubscription
emit_if_new message s =
    if leb message.cursor (get_or (Map.get message.group_id s.cursors_by_group) 0)
    then ([], s)
    else (let pushed = MessageQueue.push message s.queue in
        (
          pushed.0,
          record s {
            queue = pushed.1;
            cursors_by_group = Map.set message.group_id message.cursor s.cursors_by_group;
          },
        ))

unfoldable pub push_many : GroupMessageRecord → ManySubscription → Pushed ManySubscription
push_many message s =
    if s.replaying_backlog
    then ([], record s { live_buffer = s.live_buffer ++ message ∷ [] })
    else emit_if_new message s

-- The loops over records of `replay` and of the flush of the buffer.
unfoldable pub push_each :
    (GroupMessageRecord → ManySubscription → Pushed ManySubscription)
    → List GroupMessageRecord
    → ManySubscription
    → Pushed ManySubscription
push_each push_one [] s = ([], s)
push_each push_one (message ∷ messages) s =
    let first = push_one message s in
    let rest = push_each push_one messages first.1 in (first.0 ++ rest.0, rest.1)

unfoldable pub push_subscriber : GroupMessageRecord → Subscriber → Pushed Subscriber
push_subscriber message (single queue) =
    let pushed = MessageQueue.push message queue in (pushed.0, single pushed.1)
push_subscriber message (many s) = let pushed = push_many message s in (pushed.0, many pushed.1)

unfoldable pub close_subscriber : Subscriber → Pushed Subscriber
close_subscriber (single queue) =
    let closed = MessageQueue.close queue in (closed.0, single closed.1)
close_subscriber (many s) =
    let closed = MessageQueue.close s.queue in (closed.0, many (record s { queue = closed.1 }))

-- `set.add(id)`
unfoldable pub add_to_set : ℕ → List ℕ → List ℕ
add_to_set id ids = if any (λ i. i == id) ids then ids else ids ++ id ∷ []

unfoldable pub add_group_subscriber : String → ℕ → Hub → Hub
add_group_subscriber group_id id hub = record hub {
  group_subscribers =
      Map.set group_id (add_to_set id (get_or (Map.get group_id hub.group_subscribers) []))
        hub.group_subscribers;
  subscriber_refcounts =
      Map.set id (get_or (Map.get id hub.subscriber_refcounts) 0 + 1) hub.subscriber_refcounts;
}

-- One reference less; the last one takes the entry away.
unfoldable pub release : ℕ → Map ℕ ℕ → Map ℕ ℕ
release id refcounts =
    let count = get_or (Map.get id refcounts) 0 in
    if leb count 1 then Map.delete id refcounts else Map.set id (count - 1) refcounts

unfoldable pub put_subscribers : String → List ℕ → Map String (List ℕ) → Map String (List ℕ)
put_subscribers group_id [] m = Map.delete group_id m
put_subscribers group_id (i ∷ ids) m = Map.set group_id (i ∷ ids) m

unfoldable pub remove_group_subscriber : String → ℕ → Hub → Hub
remove_group_subscriber group_id id hub = elim (Map.get group_id hub.group_subscribers) [
  | none ↦ hub
  | some ids ↦ record hub {
    group_subscribers =
        put_subscribers group_id (filter (λ i. not (i == id)) ids) hub.group_subscribers;
    subscriber_refcounts =
        if any (λ i. i == id) ids
        then release id hub.subscriber_refcounts
        else hub.subscriber_refcounts;
  }
]

-- The loop of `publishLiveGroupMessage` over the set of a group.
unfoldable pub push_to :
    GroupMessageRecord → List ℕ → Map ℕ Subscriber → Settlements × Map ℕ Subscriber
push_to message [] m = ([], m)
push_to message (id ∷ ids) m = elim (Map.get id m) [
  | none ↦ push_to message ids m
  | some s ↦
      let pushed = push_subscriber message s in
      let rest = push_to message ids (Map.set id pushed.1 m) in ((id, pushed.0) ∷ rest.0, rest.1)
]

unfoldable pub publish_live_group_message : GroupMessageRecord → Hub → Settlements × Hub
publish_live_group_message message hub =
    let pushed =
      push_to message (get_or (Map.get message.group_id hub.group_subscribers) [])
        hub.subscribers in
    (pushed.0, record hub { subscribers = pushed.1 })

-- `createdAt` is the reading of the clock.
unfoldable pub post_group_message :
    AppendGroupMessageParams → Hub → GroupMessageRecord × Settlements × Hub
post_group_message params hub =
    let appended = append_group_message params hub.groups in
    let published = publish_live_group_message appended.0 (record hub { groups = appended.1 }) in
    (appended.0, published.0, published.1)

-- The new object enters the hub.
unfoldable pub create_subscriber : Subscriber → Hub → ℕ × Hub
create_subscriber s hub = (
  hub.next_subscriber,
  record hub {
    subscribers = Map.set hub.next_subscriber s hub.subscribers;
    next_subscriber = suc hub.next_subscriber;
  },
)

unfoldable pub subscribe_group_messages : FetchGroupMessagesInput → Hub → ℕ × Hub
subscribe_group_messages input hub =
    let created = create_subscriber (single MessageQueue.empty) hub in
    (created.0, add_group_subscriber input.group_id created.0 created.1)

-- The first loop of `subscribeManyGroupMessages`.
unfoldable pub initial_cursors : List FetchGroupMessagesInput → Map String ℕ → Map String ℕ
initial_cursors [] m = m
initial_cursors (input ∷ inputs) m =
    initial_cursors inputs (Map.set input.group_id (get_or input.after_cursor 0) m)

unfoldable pub add_to_groups : List String → ℕ → Hub → Hub
add_to_groups [] id hub = hub
add_to_groups (g ∷ gs) id hub = add_to_groups gs id (add_group_subscriber g id hub)

-- Replaying the backlog, then flushing what was buffered meanwhile.
unfoldable pub start_many : List GroupMessageRecord → ManySubscription → ManySubscription
start_many backlog s =
    let replayed = (push_each emit_if_new backlog s).1 in
    (push_each push_many replayed.live_buffer
      (record replayed { replaying_backlog = false; live_buffer = [] })).1

unfoldable pub subscribe_many_group_messages : List FetchGroupMessagesInput → Hub → ℕ × Hub
subscribe_many_group_messages inputs hub =
    let cursors = initial_cursors inputs [] in
    let s : ManySubscription = record {
      queue = MessageQueue.empty;
      cursors_by_group = cursors;
      live_buffer = [];
      replaying_backlog = true;
    } in
    let created = create_subscriber (many s) hub in
    let joined = add_to_groups (map (λ e. e.0) cursors) created.0 created.1 in
    let started = start_many (fetch_many_group_messages inputs joined.groups) s in
    (created.0, record joined { subscribers = Map.set created.0 (many started) joined.subscribers })

-- The closure `unsubscribe`, for the groups that the subscriber was added to.
unfoldable pub remove_from_groups : List String → ℕ → Hub → Hub
remove_from_groups [] id hub = hub
remove_from_groups (g ∷ gs) id hub = remove_from_groups gs id (remove_group_subscriber g id hub)

unfoldable pub unsubscribe : List String → ℕ → Hub → Hub
unsubscribe group_ids id hub = remove_from_groups group_ids id (elim (Map.get id hub.subscribers) [
  | none ↦ hub
  | some s ↦ record hub { subscribers = Map.set id (close_subscriber s).1 hub.subscribers }
])

unfoldable pub get_active_subscription_count : Hub → ℕ
get_active_subscription_count hub = length hub.subscriber_refcounts

-- The subscriber's queue, and the subscriber with another one.
unfoldable pub queue_of : Subscriber → LiveQueue
queue_of (single queue) = queue
queue_of (many s) = s.queue

unfoldable pub with_queue : LiveQueue → Subscriber → Subscriber
with_queue queue (single _) = single queue
with_queue queue (many s) = many (record s { queue = queue })

-- `next()` of the iterator of a subscription, by a promise.
unfoldable pub read_next : ℕ → ℕ → Hub → Option (Settled GroupMessageRecord String) × Hub
read_next id promise hub = elim (Map.get id hub.subscribers) [
  | none ↦ (none, hub)
  | some s ↦
      let result = MessageQueue.next promise (queue_of s) in
      (result.0, record hub { subscribers = Map.set id (with_queue result.1 s) hub.subscribers })
]
