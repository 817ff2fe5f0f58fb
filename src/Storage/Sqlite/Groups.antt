-- ===== src/Storage/Sqlite/Groups.antt =====
-- The group messages of `SqliteCoordinatorStorage` (packages/coordinator/src/storage/
-- sqliteStorage.ts): the table `group_messages`, with a unique index on the group and the cursor, and
-- the table `group_routing`, whose primary key is the group: a map to the last cursor.
pub mod Refinement
pub mod Append
pub mod Runs
use cordn.Prelude.{
  ℕ, String, Bool, ◌&&◌, ◌||◌, not, Option, none, some, get_or, List, map, ◌+◌, if◌then◌else◌, ltb,
  leb, ◌==◌, filter, any, flat_map, string_eq, nat_eq,
}
use cordn.Prelude.Map
use cordn.Prelude.Map.{Map}
use cordn.Result.{Result, ok, err, ◌>>=◌, unable_to_allocate_cursor, unique_constraint_failed}
use cordn.Storage.Groups.{
  GroupMessageRecord, GroupRoutingRecord, AppendGroupMessageParams, FetchGroupMessagesInput,
}
use cordn.Storage.Sqlite.{insert, order_by}

pub record GroupTables : Type 0 where
  pub group_routing : Map String ℕ
  pub group_messages : List GroupMessageRecord

-- `Number.MAX_SAFE_INTEGER`
abbrev pub max_safe_integer : ℕ
max_safe_integer = 9007199254740991

-- `WHERE group_id = ?`
abbrev pub in_group : String → GroupMessageRecord → Bool
in_group group_id r = r.group_id == group_id

-- `ORDER BY cursor ASC`
abbrev pub order_by_cursor : List GroupMessageRecord → List GroupMessageRecord
order_by_cursor = order_by (λ r x. leb r.cursor x.cursor)

-- `insertGroupMessageStatement`, which throws when the unique index has the pair
unfoldable pub insert_group_message :
    GroupMessageRecord → List GroupMessageRecord → Result (List GroupMessageRecord)
insert_group_message message rows =
    if any (λ r. in_group message.group_id r && (r.cursor == message.cursor)) rows
    then err unique_constraint_failed
    else ok (insert message rows)

-- `appendGroupMessageTransaction`
unfoldable pub append_group_message :
    AppendGroupMessageParams → GroupTables → Result (GroupMessageRecord × GroupTables)
append_group_message params tables =
    let cursor = get_or (Map.get params.group_id tables.group_routing) 0 + 1 in
    let message : GroupMessageRecord = record {
      cursor = cursor;
      group_id = params.group_id;
      opaque_message = params.opaque_message;
      created_at = params.created_at;
    } in
    if not (leb cursor max_safe_integer) || leb cursor 0
    then err unable_to_allocate_cursor
    else (insert_group_message message tables.group_messages >>= λ rows. ok (
      message,
      record {
        group_routing = Map.set params.group_id cursor tables.group_routing;
        group_messages = rows;
      },
    ))

unfoldable pub fetch_group_messages :
    FetchGroupMessagesInput → GroupTables → List GroupMessageRecord
fetch_group_messages input tables = elim input.after_cursor [
  | none ↦ order_by_cursor (filter (in_group input.group_id) tables.group_messages)
  | some after_cursor ↦
      order_by_cursor
        (filter (λ r. in_group input.group_id r && ltb after_cursor r.cursor) tables.group_messages)
]

-- The join of the requested groups, each with its cursor, with the table, ordered by the place of the
-- group and then by `cursor`.
abbrev pub select_many_group_messages : List (String × ℕ) → GroupTables → List GroupMessageRecord
select_many_group_messages requested tables =
    flat_map
      (λ request.
        order_by_cursor
          (filter (λ r. in_group request.0 r && ltb request.1 r.cursor) tables.group_messages))
      requested

-- `afterCursor ?? 0`
abbrev pub requested : FetchGroupMessagesInput → String × ℕ
requested input = (input.group_id, get_or input.after_cursor 0)

unfoldable pub fetch_many_group_messages :
    List FetchGroupMessagesInput → GroupTables → List GroupMessageRecord
fetch_many_group_messages inputs tables = select_many_group_messages (map requested inputs) tables

unfoldable pub get_group_routing : String → GroupTables → Option GroupRoutingRecord
get_group_routing group_id tables = elim (Map.get group_id tables.group_routing) [
  | none ↦ none
  | some cursor ↦ some (record { group_id = group_id; last_message_cursor = cursor })
]
