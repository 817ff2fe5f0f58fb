-- ===== src/Storage/Sqlite/Groups/Refinement.antt =====
-- The tables that stand for the group logs in memory, and the SELECTs on them.
use cordn.Prelude.{
  ℕ, suc, String, ◌≡◌, refl, sym, ap, ◌∙◌, inl, inr, Bool, ◌&&◌, some, get_or, List, [], ◌∷◌, ◌++◌,
  arith, ◌+◌, ◌≤◌, ltb, leb, Bool-cases, Option-cases, length, filter, flat_map, string_eq,
}
use cordn.Prelude.Map
use cordn.Storage.Groups as Memory
use cordn.Storage.Groups.{
  GroupMessageRecord, GroupLog, Groups, AppendGroupMessageParams, FetchGroupMessagesInput,
  messages_of, GroupRoutingRecord,
}
use cordn.Storage.Groups.Log as Log
use cordn.Storage.Groups.Log.{Numbered}
use cordn.Storage.Sqlite.{place_by, order_by}
use cordn.Storage.Sqlite.Groups
use cordn.Storage.Sqlite.Groups.{GroupTables, in_group, order_by_cursor, max_safe_integer}
use mathlib.Core.Option
use mathlib.Core.Path.{ap₂}

abbrev pub last_cursor : GroupLog → ℕ
last_cursor group = group.routing.last_message_cursor

-- The tables hold the logs, and `calls` more messages fit into each of them.
pub record Agrees (calls : ℕ) (tables : GroupTables) (m : Groups) : Type 0 where
  pub rows : (g : String) → filter (in_group g) tables.group_messages ≡ messages_of g m
  pub routing : (g : String) → Map.get g tables.group_routing ≡ Option.map last_cursor (Map.get g m)
  pub valid : Log.IsValid m
  pub room : (g : String) → length (messages_of g m) + calls ≤ max_safe_integer

-- The cursors are `n` or more, and do not fall.
abbrev Ascending : ℕ → List GroupMessageRecord → Type 0
Ascending n [] = Unit
Ascending n (r ∷ rs) = (n ≤ r.cursor) × Ascending r.cursor rs

Ascending-le : (n k : ℕ) (rs : List GroupMessageRecord) → n ≤ k → Ascending k rs → Ascending n rs
Ascending-le n k [] h a = tt
Ascending-le n k (r ∷ rs) h a = (omega (arith, h, a.0), a.1)

Ascending-filter :
    (p : GroupMessageRecord → Bool) (n : ℕ) (rs : List GroupMessageRecord)
    → Ascending n rs
    → Ascending n (filter p rs)
unfolding filter
Ascending-filter p n [] a = tt
Ascending-filter p n (r ∷ rs) a = elim (Bool-cases (p r)) [
  | inl e ↦ rw e (a.0, Ascending-filter p r.cursor rs a.1)
  | inr e ↦ rw e (Ascending-le n r.cursor (filter p rs) a.0 (Ascending-filter p r.cursor rs a.1))
]

Numbered-Ascending :
    (g : String) (n : ℕ) (rs : List GroupMessageRecord) → Numbered g n rs → Ascending n rs
Numbered-Ascending g n [] h = tt
Numbered-Ascending g n (r ∷ rs) h = (
  omega (arith, h.0),
  Ascending-le r.cursor (suc n) rs (omega (arith, h.0)) (Numbered-Ascending g (suc n) rs h.2),
)

place_first :
    (r : GroupMessageRecord) (rs : List GroupMessageRecord)
    → Ascending r.cursor rs
    → place_by (λ r x. leb r.cursor x.cursor) r rs ≡ r ∷ rs
unfolding place_by
place_first r [] a = refl
place_first r (x ∷ xs) a = ground (arith, a.0)

order_by-Ascending :
    (n : ℕ) (rs : List GroupMessageRecord) → Ascending n rs → order_by_cursor rs ≡ rs
unfolding order_by
order_by-Ascending n [] a = refl
order_by-Ascending n (r ∷ rs) a = rw (order_by-Ascending r.cursor rs a.1) (place_first r rs a.1)

filter-and :
    (p q : GroupMessageRecord → Bool) (rs : List GroupMessageRecord)
    → filter (λ r. p r && q r) rs ≡ filter q (filter p rs)
unfolding filter
filter-and p q [] = refl
filter-and p q (r ∷ rs) = ground (arith, filter-and p q rs)

module _ (n : ℕ) (tables : GroupTables) (m : Groups) (a : Agrees n tables m) where
  -- The log of a group is ordered already.
  select-pending :
      (g : String) (q : GroupMessageRecord → Bool)
      → order_by_cursor (filter (λ r. in_group g r && q r) tables.group_messages)
        ≡ filter q (messages_of g m)
  select-pending g q =
      ap order_by_cursor
        (filter-and (in_group g) q tables.group_messages ∙ ap (filter q) (a.rows g))
      ∙ order_by-Ascending 1 (filter q (messages_of g m)) (
          Ascending-filter q 1 (messages_of g m)
            (Numbered-Ascending g 1 (messages_of g m) (Log.messages_of-Numbered g m a.valid)))

  select_all :
      (g : String) → order_by_cursor (filter (in_group g) tables.group_messages) ≡ messages_of g m
  select_all g =
      ap order_by_cursor (a.rows g)
      ∙ order_by-Ascending 1 (messages_of g m)
          (Numbered-Ascending g 1 (messages_of g m) (Log.messages_of-Numbered g m a.valid))

  pub fetch-same :
      (input : FetchGroupMessagesInput)
      → Groups.fetch_group_messages input tables ≡ Memory.fetch_group_messages input m
  unfolding Groups.fetch_group_messages Memory.fetch_group_messages
  fetch-same input = elim (Option-cases input.after_cursor) [
    | inl e ↦ rw e (select_all input.group_id)
    | inr (c, e) ↦ rw e (select-pending input.group_id (λ r. ltb c r.cursor))
  ]

  -- A group without a cursor is read after the cursor 0, which is before every message.
  fetch_after :
      (input : FetchGroupMessagesInput)
      → order_by_cursor (
          filter
            (λ r. in_group input.group_id r && ltb (get_or input.after_cursor 0) r.cursor)
            tables.group_messages)
        ≡ Memory.fetch_group_messages input m
  unfolding Memory.fetch_group_messages
  fetch_after input =
      select-pending input.group_id (λ r. ltb (get_or input.after_cursor 0) r.cursor)
      ∙ Log.fetch_group_messages-drop input.group_id (some (get_or input.after_cursor 0)) m a.valid
      ∙ sym (Log.fetch_group_messages-drop input.group_id input.after_cursor m a.valid)

  pub fetch_many-same :
      (inputs : List FetchGroupMessagesInput)
      → Groups.fetch_many_group_messages inputs tables ≡ Memory.fetch_many_group_messages inputs m
  unfolding Groups.fetch_many_group_messages Memory.fetch_many_group_messages flat_map
  fetch_many-same [] = refl
  fetch_many-same (input ∷ inputs) = ap₂ ◌++◌ (fetch_after input) (fetch_many-same inputs)

  routed :
      (g : String) (routing : GroupRoutingRecord)
      → routing.group_id ≡ g
      → record { group_id = g; last_message_cursor = routing.last_message_cursor } ≡ routing
  routed g routing e =
      λ i. record { group_id = sym e i; last_message_cursor = routing.last_message_cursor }

  pub routing-same : (g : String) → Groups.get_group_routing g tables ≡ Memory.get_group_routing g m
  unfolding Groups.get_group_routing Memory.get_group_routing
  routing-same g = elim (Option-cases (Map.get g m)) [
    | inl e ↦ rw (Groups.get_group_routing, a.routing g, e, Memory.get_group_routing) refl
    | inr (group, e) ↦
        rw (Groups.get_group_routing, a.routing g, Memory.get_group_routing, e)
          (ap some (routed g group.routing (a.valid.logs g group e).routed))
  ]
