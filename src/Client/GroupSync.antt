-- ===== src/Client/GroupSync.antt =====
-- `ingestGroupMessages` of packages/cli/src/groupSync.ts: the messages of a group, in the order of
-- their cursors, against the state that the client holds. `S` is the type of MLS group states.
pub mod Ingest
pub mod Cursors
pub mod Runs
pub mod Authority
use cordn.Prelude.{
  ℕ, max, String, Bool, true, false, ◌&&◌, ◌||◌, not, Option, none, some, get_or, List, [], ◌∷◌,
  ◌++◌, if◌then◌else◌, ◌==◌, any, string_eq, nat_eq,
}
use cordn.Prelude.Map
use cordn.Prelude.Map.{Map}
use cordn.Result.{Result, Error}
use cordn.Core.LastResortKeyPackage.{CustomExtension}
use cordn.Client.GroupMetadata.{Platform}
use cordn.Client.AdminPolicy.{
  GroupMetadata, GroupMember, ProposalTypes, Incoming, commit, proposal, Action, accept, reject,
  authorize,
}
use Prim.Native.String.{find}

pub record RawGroupMessage : Type 0 where
  pub cursor : ℕ
  pub created_at : ℕ
  pub opaque_message : String

pub data Direction : Type 0 where
  inbound outbound : Direction

-- The event inside an application message.
pub record MessageEvent : Type 0 where
  pub pubkey : String
  pub id : String
  pub kind : ℕ
  pub tags : List (List String)
  pub content : String

pub record StoredMessage : Type 0 where
  pub cursor : ℕ
  pub created_at : ℕ
  pub direction : Direction
  pub sender : String
  pub event : MessageEvent

pub record SyncIssue : Type 0 where
  pub cursor : ℕ
  pub created_at : ℕ
  pub detail : String

pub data GroupStatus : Type 0 where
  active removed : GroupStatus

pub record SkippedCommit : Type 0 where
  pub epoch : String
  pub cursor : ℕ

-- The fields of `GroupSessionState` that ingestion reads or writes.
pub record GroupSessionState (S : Type 0) : Type 0 where
  pub alias : String
  pub state : S
  pub metadata : Option GroupMetadata
  pub status : GroupStatus
  pub removed_at_cursor : Option ℕ
  pub last_cursor : ℕ
  pub fetch_cursor : ℕ
  pub skipped_sibling_commit : Option SkippedCommit
  pub messages : List StoredMessage
  pub sync_issues : List SyncIssue

-- What `processMessageBase64` does: it throws, or gives a new state with the action that the callback
-- took, or an application message with its authenticated data.
pub data Outcome (S : Type 0) : Type 0 where
  thrown : String → Outcome S
  new_state : S → Option Action → Outcome S
  application_message : S → List ℕ → List ℕ → Outcome S

-- `presented` are the commits and proposals that went to the callback, in order.
pub record Processing (S : Type 0) : Type 0 where
  pub presented : List Incoming
  pub outcome : Outcome S

-- What ingestion takes from ts-mls and from the text codecs: processing under a callback, the members
-- of a state (`listGroupMembers`), the extensions of its group context, whether it is
-- `removedFromGroup`, and its epoch; what reading the metadata calls of the platform; the sender in
-- authenticated data, and the event in a payload, `none` when its decoding throws.
pub record Mls (S : Type 0) : Type 0 where
  pub types : ProposalTypes
  pub process : S → String → (Incoming → Result Action) → Processing S
  pub members : S → List GroupMember
  pub extensions : S → List CustomExtension
  pub platform : Platform
  pub is_removed : S → Bool
  pub epoch_of : S → String
  pub decode_sender : List ℕ → String
  pub decode_event : List ℕ → Option MessageEvent

-- Why ingestion throws.
pub data IngestionError : Type 0 where
  processing_failed : String → IngestionError
  metadata_failed : Error → IngestionError
  missing_sender invalid_event sender_mismatch : IngestionError

-- The group, `localStateApplied` of the pending operations that have it, by their number, and what is
-- returned.
pub record Ingestion (S : Type 0) : Type 0 where
  pub group : GroupSessionState S
  pub local_state_applied : Map ℕ Bool
  pub received : List StoredMessage
  pub issues : List SyncIssue
  pub applied_pending_commits : List String
  pub rejected_pending_commits : List String
  pub removed_local_member : Bool

abbrev pub is_former_epoch_issue : String → Bool
is_former_epoch_issue detail =
    (detail == "Cannot process commit or proposal from former epoch")
    || (detail == "Cannot process message, epoch too old")

abbrev pub is_stale_generation_issue : String → Bool
is_stale_generation_issue detail = detail == "Desired gen in the past"

-- `detail.startsWith(…)`: the prefix is found at the start.
abbrev pub is_undecryptable_stale_message_issue : String → Bool
is_undecryptable_stale_message_issue detail =
    find detail "OperationError: The operation failed" == 0

abbrev pub is_removed_member_commit_issue : String → Bool
is_removed_member_commit_issue detail =
    (detail == "Could not find common ancestor")
    || (detail
        == "This error should never occur, if you see this please submit a bug report. Message: No overlap between provided private keys and update path")

abbrev pub is_known_issue : String → Bool
is_known_issue detail =
    is_former_epoch_issue detail
    || is_stale_generation_issue detail
    || is_undecryptable_stale_message_issue detail
    || is_removed_member_commit_issue detail

-- `set.add(text)`
unfoldable pub add_text : String → List String → List String
add_text text texts = if any (λ t. t == text) texts then texts else texts ++ text ∷ []

-- The leaf that the capturing callback holds after these calls.
unfoldable pub captured : List Incoming → Option ℕ → Option ℕ
captured [] leaf = leaf
captured (commit proposals sender ∷ rest) leaf = captured rest sender
captured (proposal type sender ∷ rest) leaf = captured rest leaf

abbrev pub is_reject : Option Action → Bool
is_reject (some reject) = true
is_reject (some accept) = false
is_reject none = false

abbrev pub is_outbound_at : ℕ → StoredMessage → Bool
is_outbound_at cursor stored =
    (elim stored.direction [ outbound ↦ true | inbound ↦ false ]) && (stored.cursor == cursor)

module _ {S : Type 0} where
  -- `group.fetchCursor` and `group.lastCursor` at a message
  unfoldable pub advance : RawGroupMessage → Ingestion S → Ingestion S
  advance message i = record i {
    group = record (i.group) {
      fetch_cursor = message.cursor;
      last_cursor = max i.group.last_cursor message.cursor;
    };
  }

  unfoldable pub mark_removed : RawGroupMessage → Ingestion S → Ingestion S
  mark_removed message i = record i {
    group = record (i.group) { status = removed; removed_at_cursor = some message.cursor };
    removed_local_member = true;
  }

  unfoldable pub push_issue : RawGroupMessage → String → Ingestion S → Ingestion S
  push_issue message detail i =
      let issue : SyncIssue = record {
        cursor = message.cursor;
        created_at = message.created_at;
        detail = detail;
      } in
      record i {
        group = record (i.group) { sync_issues = i.group.sync_issues ++ issue ∷ [] };
        issues = i.issues ++ issue ∷ [];
      }

  -- The pending operation of a message that the group has applied.
  unfoldable pub mark_applied : RawGroupMessage → ℕ → Ingestion S → Ingestion S
  mark_applied message operation i = record i {
    local_state_applied = Map.set operation true i.local_state_applied;
    applied_pending_commits = add_text message.opaque_message i.applied_pending_commits;
  }

  unfoldable pub mark_rejected : RawGroupMessage → Option ℕ → Ingestion S → Ingestion S
  mark_rejected message none i = i
  mark_rejected message (some operation) i = record i {
    rejected_pending_commits = add_text message.opaque_message i.rejected_pending_commits;
  }

  -- `pendingOperation && pendingOperation.localStateApplied !== false`
  unfoldable pub is_applied_locally : Option ℕ → Ingestion S → Bool
  is_applied_locally none i = false
  is_applied_locally (some operation) i = get_or (Map.get operation i.local_state_applied) true
