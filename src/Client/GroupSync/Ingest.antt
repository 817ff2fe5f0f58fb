-- ===== src/Client/GroupSync/Ingest.antt =====
-- The loop of `ingestGroupMessages`. A message that throws leaves what was written before the throw.
use cordn.Prelude.{
  ℕ, String, Bool, true, false, ◌||◌, not, Option, none, some, List, [], ◌∷◌, ◌++◌, if◌then◌else◌,
  ◌==◌, any, find?, string_eq, nat_eq,
}
use Prim.Native.String as Text
use cordn.Result.{Result, ok, err, ◌>>=◌}
use cordn.Client.GroupMetadata.{get_cordn_group_metadata_extension}
use cordn.Client.AdminPolicy.{GroupMetadata, Incoming, Action, authorize}
use cordn.Client.GroupSync.{
  RawGroupMessage, StoredMessage, MessageEvent, GroupSessionState, thrown, new_state,
  application_message, Processing, Mls, IngestionError, processing_failed, metadata_failed,
  missing_sender, invalid_event, sender_mismatch, Ingestion, inbound, is_former_epoch_issue,
  is_removed_member_commit_issue, is_known_issue, captured, is_reject, advance, mark_removed,
  push_issue, mark_applied, mark_rejected, is_applied_locally, is_outbound_at, add_text,
}

-- What the handling of a message leaves, with the error if it throws.
abbrev pub Ingested : Type 0 → Type 0
Ingested S = Ingestion S × Option IngestionError

-- What follows, unless an error was thrown.
abbrev pub and_then : {S : Type 0} → Ingested S → (Ingestion S → Ingested S) → Ingested S
and_then (i, none) rest = rest i
and_then (i, some e) rest = (i, some e)

abbrev pub is_some : Option ℕ → Bool
is_some none = false
is_some (some n) = true

-- `leaf !== undefined && mine >= 0 && leaf === mine`
abbrev pub same_leaf : Option ℕ → Option ℕ → Bool
same_leaf (some leaf) (some mine) = leaf == mine
same_leaf (some leaf) none = false
same_leaf none mine = false

module _ {S : Type 0} (mls : Mls S) (local_stable_pubkey : String) where
  -- `findMemberLeafIndexByStablePubkey`; `none` is -1
  unfoldable pub find_member_leaf_index : S → Option ℕ
  find_member_leaf_index state =
      elim (find? (λ member. member.stable_pubkey == local_stable_pubkey) (mls.members state)) [
        | none ↦ none
        | some member ↦ some member.leaf_index
      ]

  -- The callback, and what processing under it gives.
  abbrev pub callback : GroupSessionState S → Incoming → Result Action
  callback group incoming = authorize mls.types group.metadata (mls.members group.state) incoming

  abbrev pub processed : RawGroupMessage → GroupSessionState S → Processing S
  processed message group = mls.process group.state message.opaque_message (callback group)

  -- A Commit of a sibling device is skipped and remembered; any other is a removal.
  unfoldable pub skip_or_remove : RawGroupMessage → List Incoming → Ingestion S → Ingestion S
  skip_or_remove message presented i =
      if same_leaf (captured presented none) (find_member_leaf_index i.group.state)
      then record i {
        group = record (i.group) {
          skipped_sibling_commit =
              some (record { epoch = mls.epoch_of i.group.state; cursor = message.cursor });
        };
      }
      else mark_removed message i

  -- The known issues, after the cursor has moved.
  unfoldable pub settle_thrown :
      RawGroupMessage → Option ℕ → List Incoming → String → Ingestion S → Ingestion S
  settle_thrown message (some operation) presented detail i =
      if is_removed_member_commit_issue detail || is_former_epoch_issue detail
      then mark_applied message operation i
      else push_issue message detail (mark_rejected message (some operation) i)
  settle_thrown message none presented detail i =
      if is_removed_member_commit_issue detail
      then skip_or_remove message presented i
      else push_issue message detail i

  unfoldable pub on_thrown :
      RawGroupMessage → Option ℕ → List Incoming → String → Ingestion S → Ingested S
  on_thrown message pending presented detail i =
      if is_known_issue detail
      then (settle_thrown message pending presented detail (advance message i), none)
      else (i, some (processing_failed detail))

  unfoldable pub rejection_detail : GroupSessionState S → String
  rejection_detail group = Text.◌++◌ "Rejected unauthorized admin action in group " group.alias

  unfoldable pub on_rejected : RawGroupMessage → Option ℕ → Ingestion S → Ingestion S
  on_rejected message pending i =
      push_issue message (rejection_detail i.group)
        (mark_rejected message pending (advance message i))

  -- `getCordnGroupMetadataExtension`, with the one field that the policy reads
  unfoldable pub read_metadata : S → Result (Option GroupMetadata)
  read_metadata state =
      get_cordn_group_metadata_extension mls.platform (mls.extensions state) >>= λ found.
      elim found [
        | none ↦ ok none
        | some metadata ↦ ok (some (record { admin_pubkeys = metadata.admin_pubkeys }))
      ]

  unfoldable pub set_state : S → Ingestion S → Ingestion S
  set_state state i = record i { group = record (i.group) { state = state } }

  -- `group.state = newState; group.metadata = …`, where reading the metadata may throw
  unfoldable pub adopt : S → Ingestion S → Ingested S
  adopt state i = elim (read_metadata state) [
    | err e ↦ (set_state state i, some (metadata_failed e))
    | ok metadata ↦
        let adopted = set_state state i in
        (record adopted { group = record (adopted.group) { metadata = metadata } }, none)
  ]

  unfoldable pub store : RawGroupMessage → String → MessageEvent → Ingestion S → Ingestion S
  store message sender event i =
      let stored : StoredMessage = record {
        cursor = message.cursor;
        created_at = message.created_at;
        direction = inbound;
        sender = sender;
        event = event;
      } in
      record i {
        group = record (i.group) { messages = i.group.messages ++ stored ∷ [] };
        received = i.received ++ stored ∷ [];
      }

  unfoldable pub on_event :
      RawGroupMessage → String → Option MessageEvent → Ingestion S → Ingested S
  on_event message sender none i = (i, some invalid_event)
  on_event message sender (some event) i =
      if not (event.pubkey == sender)
      then (i, some sender_mismatch)
      else (advance message (store message sender event i), none)

  unfoldable pub on_payload : RawGroupMessage → S → List ℕ → List ℕ → Ingestion S → Ingested S
  on_payload message state payload aad i =
      if mls.is_removed state then (advance message (mark_removed message i), none) else elim aad [
        | [] ↦ (i, some missing_sender)
        | byte ∷ bytes ↦
            on_event message (mls.decode_sender (byte ∷ bytes)) (mls.decode_event payload) i
      ]

  -- The state is adopted before the payload is looked at.
  unfoldable pub on_application_message :
      RawGroupMessage → S → List ℕ → List ℕ → Ingestion S → Ingested S
  on_application_message message state payload aad i =
      and_then (adopt state i) (on_payload message state payload aad)

  unfoldable pub confirm_own : RawGroupMessage → Option ℕ → Ingestion S → Ingestion S
  confirm_own message none i = i
  confirm_own message (some operation) i = mark_applied message operation i

  unfoldable pub settle_membership : RawGroupMessage → S → Ingestion S → Ingested S
  settle_membership message state i =
      if mls.is_removed state || not (is_some (find_member_leaf_index state))
      then (mark_removed message i, none)
      else (i, none)

  -- The cursors have moved by the time the metadata is read.
  unfoldable pub on_new_state : RawGroupMessage → Option ℕ → S → Ingestion S → Ingested S
  on_new_state message pending state i =
      and_then (adopt state (confirm_own message pending (advance message i)))
        (settle_membership message state)

  unfoldable pub on_processed : RawGroupMessage → Option ℕ → Processing S → Ingestion S → Ingested S
  on_processed message pending processing i = elim processing.outcome [
    | thrown detail ↦ on_thrown message pending processing.presented detail i
    | new_state state action ↦
        if is_reject action
        then (on_rejected message pending i, none)
        else on_new_state message pending state i
    | application_message state payload aad ↦ on_application_message message state payload aad i
  ]

  module _ (get_pending_epoch_operation : String → Option ℕ) where
    -- One turn of the loop.
    unfoldable pub ingest_message : RawGroupMessage → Ingestion S → Ingested S
    ingest_message message i =
        let pending = get_pending_epoch_operation message.opaque_message in
        if is_applied_locally pending i
        then (
          record (advance message i) {
            applied_pending_commits = add_text message.opaque_message i.applied_pending_commits;
          },
          none,
        )
        else if any (is_outbound_at message.cursor) i.group.messages
        then (advance message i, none)
        else on_processed message pending (processed message i.group) i

    unfoldable pub ingest_group_messages : List RawGroupMessage → Ingestion S → Ingested S
    ingest_group_messages [] i = (i, none)
    ingest_group_messages (message ∷ messages) i =
        let (next, thrown_error) = ingest_message message i in
        let rest = ingest_group_messages messages next in
        elim thrown_error [ some e ↦ (next, some e) | none ↦ rest ]
