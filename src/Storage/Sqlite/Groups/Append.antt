-- ===== src/Storage/Sqlite/Groups/Append.antt =====
-- An append to the tables, beside one in memory.
use Prim.Native.Nat.{◌≤◌}
use cordn.Prelude.{
  ℕ, suc, String, ◌≡◌, refl, ap, ◌∙◌, inl, inr, Bool, true, false, ◌&&◌, get_or, List, [], ◌∷◌,
  ◌++◌, append-nil, arith, ◌+◌, leb, ◌==◌, Bool-cases, Option-cases, length, filter, any,
  length-append, filter-append, string_eq, nat_eq,
}
use cordn.Prelude.Map
use cordn.Prelude.Map.{get-set}
use cordn.Result.{ok}
use cordn.Storage.Groups as Memory
use cordn.Storage.Groups.{
  GroupMessageRecord, GroupLog, Groups, AppendGroupMessageParams, messages_of, create_group_log,
  push_message,
}
use cordn.Storage.Groups.Log as Log
use cordn.Storage.Groups.Log.{Numbered, appended, group_of}
use cordn.Storage.Sqlite.{insert}
use cordn.Storage.Sqlite.Groups
use cordn.Storage.Sqlite.Groups.{GroupTables, in_group, max_safe_integer}
use cordn.Storage.Sqlite.Groups.Refinement.{Agrees}

fresh_cursor :
    (g : String) (n k : ℕ) (rs : List GroupMessageRecord)
    → Numbered g n rs
    → n + length rs ≤ k
    → any (λ r. r.cursor == k) rs ≡ false
unfolding any
fresh_cursor g n k [] h l = refl
fresh_cursor g n k (r ∷ rs) h l =
    let later = fresh_cursor g (suc n) k rs h.2 (omega (arith, l)) in ground (arith, h.0, l, later)

any-and :
    (p q : GroupMessageRecord → Bool) (rs : List GroupMessageRecord)
    → any (λ r. p r && q r) rs ≡ any q (filter p rs)
unfolding any filter
any-and p q [] = refl
any-and p q (r ∷ rs) = ground (arith, any-and p q rs)

module _ (n : ℕ) (p : AppendGroupMessageParams) (tables : GroupTables) (m : Groups)
    (a : Agrees (suc n) tables m) where
  routed_cursor : get_or (Map.get p.group_id tables.group_routing) 0 + 1 ≡ (appended p m).cursor
  unfolding Memory.append_group_message Memory.next_message create_group_log
  routed_cursor = elim (Option-cases (Map.get p.group_id m)) [
    | inl e ↦ rw (a.routing p.group_id, e) refl
    | inr (group, e) ↦
        let log = a.valid.logs p.group_id group e in
        rw (a.routing p.group_id, e) (omega (arith, log.last, log.next))
  ]

  -- The tables after an append.
  abbrev grown : GroupTables
  grown = record {
    group_routing = Map.set p.group_id (appended p m).cursor tables.group_routing;
    group_messages = insert (appended p m) tables.group_messages;
  }

  fits : (leb (appended p m).cursor max_safe_integer ≡ true) × (leb (appended p m).cursor 0 ≡ false)
  fits =
      let c = Log.appended-cursor p m a.valid in
      let r = a.room p.group_id in (ground (arith, c, r), ground (arith, c))

  unused :
      any (λ r. in_group p.group_id r && (r.cursor == (appended p m).cursor)) tables.group_messages
      ≡ false
  unused =
      any-and (in_group p.group_id) (λ r. r.cursor == (appended p m).cursor) tables.group_messages
      ∙ ap (any (λ r. r.cursor == (appended p m).cursor)) (a.rows p.group_id)
      ∙ fresh_cursor p.group_id 1 (appended p m).cursor (messages_of p.group_id m)
          (Log.messages_of-Numbered p.group_id m a.valid)
          (omega (arith, Log.appended-cursor p m a.valid))

  pub append-ok : Groups.append_group_message p tables ≡ ok (appended p m, grown)
  unfolding Groups.append_group_message Groups.insert_group_message Memory.append_group_message
      Memory.next_message
  append-ok = rw (Groups.append_group_message, routed_cursor, fits.0, fits.1, unused) refl

  pub append-Agrees : Agrees n grown (Memory.append_group_message p m).1
  append-Agrees = record {
    rows = λ g. elim (Bool-cases (p.group_id == g)) [
      | inl here ↦
          rw (filter-append, a.rows g, Log.messages_of-append, here)
            (ap (λ rs. messages_of g m ++ rs)
              (unfold filter Memory.append_group_message Memory.next_message in (rw here refl)))
      | inr other ↦
          rw (filter-append, a.rows g, Log.messages_of-append, other)
            (unfold filter Memory.append_group_message Memory.next_message in
              (rw other (append-nil (messages_of g m))))
    ];
    routing = λ g. elim (Bool-cases (p.group_id == g)) [
      | inl here ↦ rw (get-set, Log.get-append, here) (unfold push_message in refl)
      | inr other ↦ rw (get-set, Log.get-append, other) (a.routing g)
    ];
    valid = Log.append_group_message-IsValid p m a.valid;
    room = λ g. elim (Bool-cases (p.group_id == g)) [
      | inl here ↦
          rw (Log.messages_of-append, here)
            (omega (arith, a.room g, length-append (messages_of g m) (appended p m ∷ [])))
      | inr other ↦ rw (Log.messages_of-append, other) (omega (arith, a.room g))
    ];
  }
