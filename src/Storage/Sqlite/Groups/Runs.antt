-- ===== src/Storage/Sqlite/Groups/Runs.antt =====
-- Runs of calls on the group messages.
use cordn.Prelude.{ℕ, suc, String, ◌≡◌, refl, ap, Option, List, arith, length, string_eq}
use cordn.Result.{Result, ok, err}
use cordn.Storage.Groups as Memory
use cordn.Storage.Groups.{
  GroupMessageRecord, GroupRoutingRecord, Groups, AppendGroupMessageParams, FetchGroupMessagesInput,
}
use cordn.Storage.Simulation.{answers, answers_same}
use cordn.Storage.Sqlite.Groups
use cordn.Storage.Sqlite.Groups.{GroupTables}
use cordn.Storage.Sqlite.Groups.Refinement.{Agrees, fetch-same, fetch_many-same, routing-same}
use cordn.Storage.Sqlite.Groups.Append.{append-ok, append-Agrees}

pub data Call : Type 0 where
  appends : AppendGroupMessageParams → Call
  fetches : FetchGroupMessagesInput → Call
  fetches_many : List FetchGroupMessagesInput → Call
  routes : String → Call

pub data Answer : Type 0 where
  numbered : Result GroupMessageRecord → Answer
  listed : List GroupMessageRecord → Answer
  located : Option GroupRoutingRecord → Answer

-- A call that fails changes nothing.
abbrev settle : GroupTables → Result (GroupMessageRecord × GroupTables) → Answer × GroupTables
settle tables (ok (message, tables')) = (numbered (ok message), tables')
settle tables (err e) = (numbered (err e), tables)

unfoldable pub sqlite_step : Call → GroupTables → Answer × GroupTables
sqlite_step (appends p) tables = settle tables (Groups.append_group_message p tables)
sqlite_step (fetches input) tables = (listed (Groups.fetch_group_messages input tables), tables)
sqlite_step (fetches_many inputs) tables =
    (listed (Groups.fetch_many_group_messages inputs tables), tables)
sqlite_step (routes g) tables = (located (Groups.get_group_routing g tables), tables)

unfoldable pub memory_step : Call → Groups → Answer × Groups
memory_step (appends p) m = let r = Memory.append_group_message p m in (numbered (ok r.0), r.1)
memory_step (fetches input) m = (listed (Memory.fetch_group_messages input m), m)
memory_step (fetches_many inputs) m = (listed (Memory.fetch_many_group_messages inputs m), m)
memory_step (routes g) m = (located (Memory.get_group_routing g m), m)

Agrees-suc :
    (n : ℕ) (tables : GroupTables) (m : Groups) → Agrees (suc n) tables m → Agrees n tables m
Agrees-suc n tables m a = record {
  rows = a.rows;
  routing = a.routing;
  valid = a.valid;
  room = λ g. omega (arith, a.room g);
}

step-Agrees :
    (n : ℕ) (c : Call) (tables : GroupTables) (m : Groups)
    → Agrees (suc n) tables m
    → ((sqlite_step c tables).0 ≡ (memory_step c m).0)
      × Agrees n (sqlite_step c tables).1 (memory_step c m).1
unfolding sqlite_step memory_step
step-Agrees n (appends p) tables m a =
    rw (append-ok n p tables m a) (refl, append-Agrees n p tables m a)
step-Agrees n (fetches input) tables m a =
    (ap listed (fetch-same (suc n) tables m a input), Agrees-suc n tables m a)
step-Agrees n (fetches_many inputs) tables m a =
    (ap listed (fetch_many-same (suc n) tables m a inputs), Agrees-suc n tables m a)
step-Agrees n (routes g) tables m a =
    (ap located (routing-same (suc n) tables m a g), Agrees-suc n tables m a)

-- On every sequence of calls that append, fetch and route group messages, the SQLite storage gives
-- the same answers as the storage in memory, cursors included, and no append fails, if the rows of
-- each group are, in the order of insertion, the messages of its log, numbered from 1, the routing
-- table has each group's last cursor, and no group can grow beyond the greatest safe integer.
pub answers-groups :
    (calls : List Call) (tables : GroupTables) (m : Groups)
    → Agrees (length calls) tables m
    → answers sqlite_step calls tables ≡ answers memory_step calls m
answers-groups = answers_same Agrees sqlite_step memory_step step-Agrees
