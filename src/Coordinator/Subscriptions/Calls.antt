-- ===== src/Coordinator/Subscriptions/Calls.antt =====
-- Posts and reads in any order: the hub stays valid, and a subscription follows its group.
use cordn.Prelude.{
  ℕ, String, ◌≡◌, refl, sym, ap, ◌∙◌, subst, inl, inr, true, false, some, List, [], ◌∷◌, ◌++◌,
  append-nil, append_assoc, arith, if◌then◌else◌, ◌==◌, Bool-cases, Option-cases, eq_of_==,
  string_eq, nat_eq,
}
use cordn.Prelude.Map
use cordn.Prelude.Map.{get-set, Map}
use cordn.Coordinator.MessageQueue
use cordn.Coordinator.MessageQueue.Delivery.{delivered, returned}
use cordn.Coordinator.Subscriptions.{
  Hub, ManySubscription, many, push_subscriber, push_to, publish_live_group_message,
  post_group_message, read_next, queue_of, with_queue, push_many,
}
use cordn.Coordinator.Subscriptions.Backlog.{Follows}
use cordn.Coordinator.Subscriptions.Membership.{ids_of}
use cordn.Coordinator.Subscriptions.Fanout.{among, NoRepeat, delivered_to, push_to-subscriber}
use cordn.Coordinator.Subscriptions.Live.{push_many-Follows, skip-Follows, next-Follows}
use cordn.Storage.Groups.{GroupMessageRecord, AppendGroupMessageParams, append_group_message}
use cordn.Storage.Groups.Log.{appended, appended-group, append_group_message-IsValid}
use cordn.Storage.Groups.Log as Log

pub record IsValid (hub : Hub) : Type 0 where
  pub groups : Log.IsValid hub.groups
  pub sets : (g : String) → NoRepeat (ids_of g hub)

-- The subscriber `id` follows the group `g` from the cursor `c`; its reader has received `got`.
pub record Subscribed (g : String) (c id : ℕ) (got : List GroupMessageRecord) (hub : Hub)
    : Type 0 where
  pub subscription : ManySubscription
  pub entry : Map.get id hub.subscribers ≡ some (many subscription)
  pub follows : Follows g c hub.groups got subscription
  pub joined : among id (ids_of g hub) ≡ true

pub data Call : Type 0 where
  posts : AppendGroupMessageParams → Call
  reads : ℕ → ℕ → Call

-- What a call hands to the reader of `id`, and the hub that it leaves.
unfoldable pub step : ℕ → Call → Hub → List GroupMessageRecord × Hub
step id (posts params) hub =
    let posted = post_group_message params hub in (delivered_to id posted.1, posted.2)
step id (reads i promise) hub =
    let result = read_next i promise hub in ((if i == id then returned result.0 else []), result.1)

unfoldable pub run : ℕ → List Call → Hub → List GroupMessageRecord × Hub
run id [] hub = ([], hub)
run id (c ∷ cs) hub =
    let rest = run id cs (step id c hub).1 in ((step id c hub).0 ++ rest.0, rest.1)

pub step-IsValid : (id : ℕ) (call : Call) (hub : Hub) → IsValid hub → IsValid (step id call hub).1
unfolding step post_group_message publish_live_group_message read_next
step-IsValid id (posts p) hub v = record {
  groups = append_group_message-IsValid p hub.groups v.groups;
  sets = v.sets;
}
step-IsValid id (reads i promise) hub v = elim (Option-cases (Map.get i hub.subscribers)) [
  | inl e ↦ rw (e, read_next) v
  | inr (s, e) ↦ rw (e, read_next) (record { groups = v.groups; sets = v.sets })
]

module _ (g : String) (c id : ℕ) (got : List GroupMessageRecord) (hub : Hub) (v : IsValid hub)
    (s : Subscribed g c id got hub) where
  module _ (p : AppendGroupMessageParams) where
    audience : List ℕ
    audience = ids_of (appended p hub.groups).group_id hub

    reached :
        (Map.get id (push_to (appended p hub.groups) audience hub.subscribers).1
          ≡ some (
              if among id audience
              then (push_subscriber (appended p hub.groups) (many s.subscription)).1
              else many s.subscription))
        × (delivered_to id (push_to (appended p hub.groups) audience hub.subscribers).0 ≡ (
            if among id audience
            then delivered (push_subscriber (appended p hub.groups) (many s.subscription)).0
            else []))
    unfolding audience
    reached =
        push_to-subscriber (appended p hub.groups) id audience hub.subscribers (many s.subscription)
          (v.sets (appended p hub.groups).group_id) s.entry

    outside : among id audience ≡ false → (p.group_id == g) ≡ false
    unfolding audience
    outside h = ground (
      arith,
      s.joined,
      appended-group p hub.groups,
      ap (λ k. among id (ids_of k hub)) (appended-group p hub.groups),
    )

    post-Subscribed : Subscribed g c id (got ++ (step id (posts p) hub).0) (step id (posts p) hub).1
    unfolding step post_group_message publish_live_group_message audience push_subscriber
    post-Subscribed = elim (Bool-cases (among id audience)) [
      | inl there ↦ record {
        subscription = (push_many (appended p hub.groups) s.subscription).1;
        entry = reached.0 ∙ rw there;
        follows =
            subst
              (λ l.
                Follows g c (append_group_message p hub.groups).1 (got ++ l)
                  (push_many (appended p hub.groups) s.subscription).1)
              (sym (reached.1 ∙ rw there))
              (push_many-Follows g c p hub.groups v.groups got s.subscription s.follows);
        joined = s.joined;
      }
      | inr away ↦ record {
        subscription = s.subscription;
        entry = reached.0 ∙ rw away;
        follows =
            subst (λ l. Follows g c (append_group_message p hub.groups).1 l s.subscription)
              (sym (ap (λ l. got ++ l) (reached.1 ∙ rw away) ∙ append-nil got))
              (skip-Follows g c p hub.groups v.groups got s.subscription s.follows (outside away));
        joined = s.joined;
      }
    ]

  read-Subscribed :
      (i promise : ℕ)
      → Subscribed g c id
          (got ++ (step id (reads i promise) hub).0)
          (step id (reads i promise) hub).1
  unfolding step read_next queue_of with_queue
  read-Subscribed i promise = elim (Bool-cases (i == id)) [
    | inl here ↦
        let e : Map.get i hub.subscribers ≡ some (many s.subscription) =
          ap (λ k. Map.get k hub.subscribers) (eq_of_== i id here) ∙ s.entry in
        rw (e, read_next, here)
          (record {
            subscription = record (s.subscription) {
              queue = (MessageQueue.next promise s.subscription.queue).1;
            };
            entry = get-set i id _ hub.subscribers ∙ rw here refl;
            follows = next-Follows g c hub.groups got s.subscription s.follows promise;
            joined = s.joined;
          })
    | inr other ↦ elim (Option-cases (Map.get i hub.subscribers)) [
      | inl e ↦ rw (e, read_next, other) (rw append-nil s)
      | inr (x, e) ↦
          rw (e, read_next, other)
            (record {
              subscription = s.subscription;
              entry = get-set i id _ hub.subscribers ∙ rw other s.entry;
              follows = rw append-nil s.follows;
              joined = s.joined;
            })
    ]
  ]

step-Subscribed :
    (g : String) (c id : ℕ) (got : List GroupMessageRecord) (call : Call) (hub : Hub)
    → IsValid hub
    → Subscribed g c id got hub
    → Subscribed g c id (got ++ (step id call hub).0) (step id call hub).1
step-Subscribed g c id got (posts p) hub v s = post-Subscribed g c id got hub v s p
step-Subscribed g c id got (reads i promise) hub v s = read-Subscribed g c id got hub v s i promise

pub run-Subscribed :
    (g : String) (c id : ℕ) (got : List GroupMessageRecord) (calls : List Call) (hub : Hub)
    → IsValid hub
    → Subscribed g c id got hub
    → Subscribed g c id (got ++ (run id calls hub).0) (run id calls hub).1
unfolding run
run-Subscribed g c id got [] hub v s = rw append-nil s
run-Subscribed g c id got (call ∷ calls) hub v s =
    rw (← append_assoc got (step id call hub).0 (run id calls (step id call hub).1).0) (
      run-Subscribed g c id (got ++ (step id call hub).0) calls (step id call hub).1
        (step-IsValid id call hub v) (step-Subscribed g c id got call hub v s))
