-- ===== src/Server/Streaming/Phases.antt =====
-- What the steps of the stream's handler do to the queue of its subscriber.
use cordn.Prelude.{
  ℕ, String, ◌≡◌, refl, sym, ap, ◌∙◌, subst, ◌⊎◌, inl, inr, Option, none, some, get_or, List, [],
  ◌∷◌, map, arith, leb, Bool-cases, Option-cases, ==-refl, string_eq, nat_eq,
}
use cordn.Prelude.Map
use cordn.Prelude.Map.{get-set, Map}
use cordn.Coordinator.MessageQueue
use cordn.Coordinator.MessageQueue.Delivery.{delivered}
use cordn.Coordinator.Subscriptions.{
  Hub, LiveQueue, Subscriber, single, many, queue_of, with_queue, push_subscriber, push_many,
  emit_if_new, close_subscriber, read_next, unsubscribe, remove_from_groups,
  remove_group_subscriber, post_group_message, publish_live_group_message,
}
use cordn.Coordinator.Subscriptions.Membership.{ids_of}
use cordn.Coordinator.Subscriptions.Fanout.{among, delivered_to, push_to-subscriber}
use cordn.Coordinator.Subscriptions.Calls.{IsValid}
use cordn.Storage.Groups.{GroupMessageRecord, AppendGroupMessageParams}
use cordn.Storage.Groups.Log.{appended}
use cordn.Server.Streaming.{close_queue, closing_settles}

-- The queue of a subscriber.
abbrev pub queue_in : ℕ → Map ℕ Subscriber → Option LiveQueue
queue_in id m = elim (Map.get id m) [ none ↦ none | some s ↦ some (queue_of s) ]

abbrev pub queue_at : ℕ → Hub → Option LiveQueue
queue_at id hub = queue_in id hub.subscribers

queue_at-entry :
    (id : ℕ) (hub : Hub) (q : LiveQueue)
    → queue_at id hub ≡ some q
    → (s : Subscriber) × (Map.get id hub.subscribers ≡ some s) × (queue_of s ≡ q)
queue_at-entry id hub q h = elim (Option-cases (Map.get id hub.subscribers)) [
  | inl e ↦ cc
  | inr (s, e) ↦ (s, e, ground (arith, e))
]

queue_in-some :
    (id : ℕ) (m : Map ℕ Subscriber) (s : Subscriber)
    → Map.get id m ≡ some s
    → queue_in id m ≡ some (queue_of s)
queue_in-some id m s e = rw (e, queue_in) refl

pub queue_in-set :
    (id : ℕ) (s : Subscriber) (m : Map ℕ Subscriber)
    → queue_in id (Map.set id s m) ≡ some (queue_of s)
queue_in-set id s m = queue_in-some id (Map.set id s m) s (get-set id id s m ∙ rw (==-refl id) refl)

queue_of-with_queue : (q : LiveQueue) (s : Subscriber) → queue_of (with_queue q s) ≡ q
unfolding queue_of with_queue
queue_of-with_queue q (single _) = refl
queue_of-with_queue q (many _) = refl

queue_of-close_subscriber :
    (s : Subscriber)
    → (queue_of (close_subscriber s).1 ≡ (MessageQueue.close (queue_of s)).1)
      × ((close_subscriber s).0 ≡ (MessageQueue.close (queue_of s)).0)
unfolding queue_of close_subscriber
queue_of-close_subscriber (single q) = (refl, refl)
queue_of-close_subscriber (many s) = (refl, refl)

-- Whether a message changes the queue at all, and how.
abbrev pub Pushes : GroupMessageRecord → LiveQueue → List GroupMessageRecord → LiveQueue → Type 0
Pushes m q out r =
    ((r ≡ q) × (out ≡ []))
    ⊎ ((r ≡ (MessageQueue.push m q).1) × (out ≡ delivered (MessageQueue.push m q).0))

push_subscriber-Pushes :
    (m : GroupMessageRecord) (s : Subscriber)
    → Pushes m (queue_of s) (delivered (push_subscriber m s).0) (queue_of (push_subscriber m s).1)
unfolding push_subscriber push_many emit_if_new queue_of
push_subscriber-Pushes m (single q) = inr (refl, refl)
push_subscriber-Pushes m (many s) = elim (Bool-cases s.replaying_backlog) [
  | inl e ↦ rw (e) (inl (refl, refl))
  | inr e ↦ elim (Bool-cases (leb m.cursor (get_or (Map.get m.group_id s.cursors_by_group) 0))) [
    | inl old ↦ rw (e, old) (inl (refl, refl))
    | inr new ↦ rw (e, new) (inr (refl, refl))
  ]
]

pub post_group_message-queue :
    (p : AppendGroupMessageParams) (id : ℕ) (hub : Hub) (q : LiveQueue)
    → IsValid hub
    → queue_at id hub ≡ some q
    → (r : LiveQueue) × (queue_at id (post_group_message p hub).2 ≡ some r)
      × Pushes (appended p hub.groups) q (delivered_to id (post_group_message p hub).1) r
unfolding post_group_message publish_live_group_message
post_group_message-queue p id hub q v h =
    let m = appended p hub.groups in
    let (s, entry, e) = queue_at-entry id hub q h in
    let reached =
      push_to-subscriber m id (ids_of m.group_id hub) hub.subscribers s (v.sets m.group_id) entry in
    elim (Bool-cases (among id (ids_of m.group_id hub))) [
      | inl there ↦ (
        queue_of (push_subscriber m s).1,
        queue_in-some id _ _ (reached.0 ∙ rw there refl),
        subst
            (λ x.
              Pushes m x (delivered_to id (post_group_message p hub).1)
                (queue_of (push_subscriber m s).1))
            e
            (subst (λ out. Pushes m (queue_of s) out (queue_of (push_subscriber m s).1))
              (sym (reached.1 ∙ rw there refl)) (push_subscriber-Pushes m s)),
      )
      | inr away ↦ (
        queue_of s,
        queue_in-some id _ _ (reached.0 ∙ rw away refl),
        inl (e, reached.1 ∙ rw away refl),
      )
    ]

pub read_next-queue :
    (id promise : ℕ) (hub : Hub) (q : LiveQueue)
    → queue_at id hub ≡ some q
    → (queue_at id (read_next id promise hub).1 ≡ some (MessageQueue.next promise q).1)
      × ((read_next id promise hub).0 ≡ (MessageQueue.next promise q).0)
unfolding read_next
read_next-queue id promise hub q h =
    let (s, entry, e) = queue_at-entry id hub q h in
    rw (entry, read_next)
      (
        queue_in-set id _ hub.subscribers
            ∙ ap some (queue_of-with_queue _ s ∙ ap (λ x. (MessageQueue.next promise x).1) e),
        ap (λ x. (MessageQueue.next promise x).0) e,
      )

pub close_queue-queue :
    (id : ℕ) (hub : Hub) (q : LiveQueue)
    → queue_at id hub ≡ some q
    → (queue_at id (close_queue id hub) ≡ some (MessageQueue.close q).1)
      × (closing_settles id hub ≡ map (λ p. p.1) (MessageQueue.close q).0)
unfolding close_queue closing_settles
close_queue-queue id hub q h =
    let (s, entry, e) = queue_at-entry id hub q h in
    rw (entry, close_queue, closing_settles)
      (
        queue_in-set id _ hub.subscribers
            ∙ ap some ((queue_of-close_subscriber s).0 ∙ ap (λ x. (MessageQueue.close x).1) e),
        ap (λ x. map (λ p. p.1) x)
            ((queue_of-close_subscriber s).1 ∙ ap (λ x. (MessageQueue.close x).0) e),
      )

remove_from_groups-subscribers :
    (gs : List String) (id : ℕ) (hub : Hub)
    → (remove_from_groups gs id hub).subscribers ≡ hub.subscribers
unfolding remove_from_groups remove_group_subscriber
remove_from_groups-subscribers [] id hub = refl
remove_from_groups-subscribers (g ∷ gs) id hub =
    remove_from_groups-subscribers gs id (remove_group_subscriber g id hub) ∙ ground arith

pub unsubscribe-queue :
    (gs : List String) (id : ℕ) (hub : Hub) (q : LiveQueue)
    → queue_at id hub ≡ some q
    → queue_at id (unsubscribe gs id hub) ≡ some (MessageQueue.close q).1
unfolding unsubscribe close_queue
unsubscribe-queue gs id hub q h =
    ap (queue_in id) (remove_from_groups-subscribers gs id (close_queue id hub))
    ∙ (close_queue-queue id hub q h).0
