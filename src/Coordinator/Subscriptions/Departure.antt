-- ===== src/Coordinator/Subscriptions/Departure.antt =====
-- A subscriber that unsubscribes leaves the sets of its groups.
use mathlib.Core.Bool.{true}
use cordn.Prelude.{
  ℕ, String, ◌≡◌, refl, sym, ◌∙◌, subst, inl, inr, false, not, none, some, get_or, List, [], ◌∷◌,
  arith, if◌then◌else◌, ◌==◌, Bool-cases, Option-cases, ==-refl, eq_of_==, filter, any, string_eq,
  nat_eq,
}
use cordn.Prelude.Map
use cordn.Prelude.Map.{get-set, get-delete}
use cordn.Coordinator.Subscriptions.{
  Hub, remove_group_subscriber, remove_from_groups, put_subscribers, unsubscribe, close_subscriber,
}
use cordn.Coordinator.Subscriptions.Membership.{ids_of}
use cordn.Coordinator.Subscriptions.Fanout.{among, NoRepeat}
use cordn.Storage.Groups.Log as Log
use cordn.Coordinator.Subscriptions.Calls.{IsValid}

-- A set without a subscriber.
abbrev pub without : ℕ → List ℕ → List ℕ
without id = filter (λ i. not (i == id))

get-put_subscribers :
    (g h : String) (ids : List ℕ) (hub : Hub)
    → get_or (Map.get h (put_subscribers g ids hub.group_subscribers)) []
      ≡ (if g == h then ids else ids_of h hub)
unfolding put_subscribers
get-put_subscribers g h [] hub = ground (arith, get-delete g h hub.group_subscribers)
get-put_subscribers g h (i ∷ ids) hub = ground (arith, get-set g h (i ∷ ids) hub.group_subscribers)

pub remove_group_subscriber-ids :
    (g h : String) (id : ℕ) (hub : Hub)
    → ids_of h (remove_group_subscriber g id hub)
      ≡ (if g == h then without id (ids_of h hub) else ids_of h hub)
unfolding remove_group_subscriber filter
remove_group_subscriber-ids g h id hub = elim (Option-cases (Map.get g hub.group_subscribers)) [
  | inl e ↦ elim (Bool-cases (g == h)) [
    | inl here ↦ ground (arith, e, eq_of_== g h here)
    | inr other ↦ ground (arith, e)
  ]
  | inr (ids, e) ↦ ground (arith, e, eq_of_== g h, get-put_subscribers g h (without id ids) hub)
]

among-without : (id i : ℕ) (ids : List ℕ) → among i ids ≡ false → among i (without id ids) ≡ false
unfolding filter any
among-without id i [] h = refl
among-without id i (j ∷ ids) h = ground (arith, among-without id i ids)

without-gone : (id : ℕ) (ids : List ℕ) → among id (without id ids) ≡ false
unfolding filter any
without-gone id [] = refl
without-gone id (j ∷ ids) = ground (arith, without-gone id ids, ==-refl id)

without-NoRepeat : (id : ℕ) (ids : List ℕ) → NoRepeat ids → NoRepeat (without id ids)
unfolding filter
without-NoRepeat id [] h = tt
without-NoRepeat id (j ∷ ids) h =
    ground (arith, without-NoRepeat id ids h.1, among-without id j ids h.0)

pub remove_from_groups-sets :
    (gs : List String) (id : ℕ) (hub : Hub)
    → ((h : String) → NoRepeat (ids_of h hub))
    → (h : String) → NoRepeat (ids_of h (remove_from_groups gs id hub))
unfolding remove_from_groups
remove_from_groups-sets [] id hub d h = d h
remove_from_groups-sets (g ∷ gs) id hub d h =
    remove_from_groups-sets gs id (remove_group_subscriber g id hub)
      (λ k. rw (remove_group_subscriber-ids g k id hub) (elim (Bool-cases (g == k)) [
        | inl here ↦ rw here (without-NoRepeat id (ids_of k hub) (d k))
        | inr other ↦ rw other (d k)
      ]))
      h

remove_from_groups-groups :
    (gs : List String) (id : ℕ) (hub : Hub) → (remove_from_groups gs id hub).groups ≡ hub.groups
unfolding remove_from_groups remove_group_subscriber
remove_from_groups-groups [] id hub = refl
remove_from_groups-groups (g ∷ gs) id hub =
    remove_from_groups-groups gs id (remove_group_subscriber g id hub) ∙ ground arith

remove_from_groups-keeps :
    (g : String) (gs : List String) (id : ℕ) (hub : Hub)
    → among id (ids_of g hub) ≡ false
    → among id (ids_of g (remove_from_groups gs id hub)) ≡ false
unfolding remove_from_groups
remove_from_groups-keeps g [] id hub h = h
remove_from_groups-keeps g (k ∷ gs) id hub h =
    remove_from_groups-keeps g gs id (remove_group_subscriber k id hub)
      (ground (arith, remove_group_subscriber-ids k g id hub, among-without id id (ids_of g hub)))

pub remove_from_groups-gone :
    (g : String) (gs : List String) (id : ℕ) (hub : Hub)
    → any (λ k. k == g) gs ≡ true
    → among id (ids_of g (remove_from_groups gs id hub)) ≡ false
unfolding remove_from_groups any
remove_from_groups-gone g [] id hub h = cc
remove_from_groups-gone g (k ∷ gs) id hub h = elim (Bool-cases (k == g)) [
  | inl here ↦
      remove_from_groups-keeps g gs id (remove_group_subscriber k id hub) (
        ground
          (arith, here, remove_group_subscriber-ids k g id hub, without-gone id (ids_of g hub)))
  | inr other ↦ remove_from_groups-gone g gs id (remove_group_subscriber k id hub) (ground arith)
]

-- The hub whose queue of the subscriber is closed.
closed : ℕ → Hub → Hub
closed id hub = elim (Map.get id hub.subscribers) [
  | none ↦ hub
  | some s ↦ record hub { subscribers = Map.set id (close_subscriber s).1 hub.subscribers }
]

closed-same :
    (id : ℕ) (hub : Hub)
    → ((closed id hub).groups ≡ hub.groups)
      × ((closed id hub).group_subscribers ≡ hub.group_subscribers)
unfolding closed
closed-same id hub = ground arith

pub unsubscribe-IsValid :
    (gs : List String) (id : ℕ) (hub : Hub) → IsValid hub → IsValid (unsubscribe gs id hub)
unfolding unsubscribe closed
unsubscribe-IsValid gs id hub v = record {
  groups =
      subst Log.IsValid
        (sym (remove_from_groups-groups gs id (closed id hub) ∙ (closed-same id hub).0)) v.groups;
  sets = remove_from_groups-sets gs id (closed id hub) (λ h. rw (closed-same id hub).1 (v.sets h));
}
