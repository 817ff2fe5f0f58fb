-- ===== src/Coordinator/Subscriptions/Membership.antt =====
-- Who is subscribed to which group.
use cordn.Prelude.{
  ℕ, String, ◌≡◌, refl, inl, inr, true, some, get_or, List, [], ◌∷◌, map, arith, if◌then◌else◌,
  ◌==◌, Bool-cases, any, string_eq, nat_eq,
}
use cordn.Prelude.Map
use cordn.Prelude.Map.{get-set, Map}
use cordn.Coordinator.Subscriptions.{Hub, add_to_set, add_group_subscriber, add_to_groups}
use cordn.Coordinator.Subscriptions.Fanout.{among, NoRepeat, add_to_set-NoRepeat, among-add_to_set}

-- The subscribers of a group.
abbrev pub ids_of : String → Hub → List ℕ
ids_of g hub = get_or (Map.get g hub.group_subscribers) []

-- The hub changes in its subscribers only.
add_group_subscriber-ids :
    (g h : String) (id : ℕ) (hub : Hub)
    → ids_of h (add_group_subscriber g id hub)
      ≡ (if g == h then add_to_set id (ids_of h hub) else ids_of h hub)
unfolding add_group_subscriber
add_group_subscriber-ids g h id hub =
    ground (arith, get-set g h (add_to_set id (ids_of g hub)) hub.group_subscribers)

pub add_to_groups-same :
    (gs : List String) (id : ℕ) (hub : Hub)
    → ((add_to_groups gs id hub).groups ≡ hub.groups)
      × ((add_to_groups gs id hub).subscribers ≡ hub.subscribers)
unfolding add_to_groups add_group_subscriber
add_to_groups-same [] id hub = (refl, refl)
add_to_groups-same (g ∷ gs) id hub = add_to_groups-same gs id (add_group_subscriber g id hub)

pub add_to_groups-sets :
    (gs : List String) (id : ℕ) (hub : Hub)
    → ((h : String) → NoRepeat (ids_of h hub))
    → (h : String) → NoRepeat (ids_of h (add_to_groups gs id hub))
unfolding add_to_groups
add_to_groups-sets [] id hub d h = d h
add_to_groups-sets (g ∷ gs) id hub d h =
    add_to_groups-sets gs id (add_group_subscriber g id hub)
      (λ k. rw (add_group_subscriber-ids g k id hub) (elim (Bool-cases (g == k)) [
        | inl here ↦ rw here (add_to_set-NoRepeat id (ids_of k hub) (d k))
        | inr other ↦ rw other (d k)
      ]))
      h

add_to_groups-keeps :
    (g : String) (gs : List String) (id : ℕ) (hub : Hub)
    → among id (ids_of g hub) ≡ true
    → among id (ids_of g (add_to_groups gs id hub)) ≡ true
unfolding add_to_groups
add_to_groups-keeps g [] id hub h = h
add_to_groups-keeps g (k ∷ gs) id hub h =
    add_to_groups-keeps g gs id (add_group_subscriber k id hub)
      (ground (arith, add_group_subscriber-ids k g id hub, among-add_to_set id id (ids_of g hub)))

pub add_to_groups-joined :
    (g : String) (gs : List String) (id : ℕ) (hub : Hub)
    → any (λ k. k == g) gs ≡ true
    → among id (ids_of g (add_to_groups gs id hub)) ≡ true
unfolding add_to_groups any
add_to_groups-joined g [] id hub h = cc
add_to_groups-joined g (k ∷ gs) id hub h = elim (Bool-cases (k == g)) [
  | inl here ↦
      add_to_groups-keeps g gs id (add_group_subscriber k id hub)
        (ground (arith, add_group_subscriber-ids k g id hub, among-add_to_set id id (ids_of g hub)))
  | inr other ↦ add_to_groups-joined g gs id (add_group_subscriber k id hub) (ground arith)
]

pub key_among :
    (g : String) (c : ℕ) (m : Map String ℕ)
    → Map.get g m ≡ some c
    → any (λ k. k == g) (map (λ e. e.0) m) ≡ true
unfolding Map.get any
key_among g c [] h = cc
key_among g c ((k, n) ∷ m) h = ground (arith, key_among g c m)
