-- ===== src/Storage/Groups.antt =====
-- The group logs of `InMemoryCoordinatorStorage` (packages/coordinator/src/storage/
-- inMemoryStorage.ts). A message is opaque: a list of bytes.
pub mod Log
use cordn.Prelude.{
  ℕ, String, Option, none, some, get_or, List, [], ◌∷◌, ◌++◌, ◌+◌, ltb, filter, flat_map, string_eq,
}
use cordn.Prelude.Map
use cordn.Prelude.Map.{Map}
use mathlib.Core.Option

pub record GroupMessageRecord : Type 0 where
  pub cursor : ℕ
  pub group_id : String
  pub opaque_message : List ℕ
  pub created_at : ℕ

pub record GroupRoutingRecord : Type 0 where
  pub group_id : String
  pub last_message_cursor : ℕ

pub record GroupLog : Type 0 where
  pub next_cursor : ℕ
  pub routing : GroupRoutingRecord
  pub messages : List GroupMessageRecord

pub record AppendGroupMessageParams : Type 0 where
  pub group_id : String
  pub opaque_message : List ℕ
  pub created_at : ℕ

pub record FetchGroupMessagesInput : Type 0 where
  pub group_id : String
  pub after_cursor : Option ℕ

abbrev pub Groups : Type 0
Groups = Map String GroupLog

unfoldable pub create_group_log : String → GroupLog
create_group_log group_id = record {
  next_cursor = 1;
  routing = record { group_id = group_id; last_message_cursor = 0 };
  messages = [];
}

-- The record of a message that goes to the end of a log, and the log with it.
unfoldable pub next_message : AppendGroupMessageParams → GroupLog → GroupMessageRecord
next_message params group = record {
  cursor = group.next_cursor;
  group_id = params.group_id;
  opaque_message = params.opaque_message;
  created_at = params.created_at;
}

unfoldable pub push_message : GroupMessageRecord → GroupLog → GroupLog
push_message message group = record {
  next_cursor = group.next_cursor + 1;
  routing = record { group_id = group.routing.group_id; last_message_cursor = message.cursor };
  messages = group.messages ++ message ∷ [];
}

unfoldable pub append_group_message :
    AppendGroupMessageParams → Groups → GroupMessageRecord × Groups
append_group_message params m =
    let group = get_or (Map.get params.group_id m) (create_group_log params.group_id) in
    let message = next_message params group in
    (message, Map.set params.group_id (push_message message group) m)

-- `this.groups.get(groupId)?.messages ?? []`
unfoldable pub messages_of : String → Groups → List GroupMessageRecord
messages_of group_id m = elim (Map.get group_id m) [ none ↦ [] | some group ↦ group.messages ]

unfoldable pub fetch_group_messages : FetchGroupMessagesInput → Groups → List GroupMessageRecord
fetch_group_messages input m = elim input.after_cursor [
  | none ↦ messages_of input.group_id m
  | some after_cursor ↦
      filter (λ message. ltb after_cursor message.cursor) (messages_of input.group_id m)
]

unfoldable pub fetch_many_group_messages :
    List FetchGroupMessagesInput → Groups → List GroupMessageRecord
fetch_many_group_messages inputs m = flat_map (λ input. fetch_group_messages input m) inputs

unfoldable pub get_group_routing : String → Groups → Option GroupRoutingRecord
get_group_routing group_id m = Option.map (λ (group : GroupLog). group.routing) (Map.get group_id m)
