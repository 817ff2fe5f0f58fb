-- ===== src/Tests/Epochs.antt =====
-- Pending epoch operations of the client.
use cordn.Prelude.{
  ℕ, String, ◌≡◌, refl, Bool, true, false, none, some, [], ◌∷◌, filter, any, string_eq,
  String_discrete,
}
use cordn.Prelude.Map
use cordn.Storage.Inbox.{pending, put}
use cordn.Client.PendingEpochOperations.{
  PendingEpochOperation, PendingEpochOperationKind, add_member, remove_member, waiting, Operations,
  is_confirmed, confirm_seen, finalize, finalize_each, confirm_pending_epoch_operations,
}
use cordn.Client.PendingEpochOperations.Delivery.{
  without, marked, confirm_pending_epoch_operations-pending, confirm_pending_epoch_operations-sent,
}

abbrev operation : ℕ → PendingEpochOperationKind → String → PendingEpochOperation
operation identity kind message = record {
  identity = identity;
  kind = kind;
  group_alias = "team";
  group_id = "g";
  commit_message_base64 = message;
  posted_msg_base64 = none;
  local_state_applied = none;
  status = waiting;
}

abbrev operations : Operations
operations =
    (
      "team",
      operation 1 (add_member "kp" "bob" "w" (some 4)) "m1"
          ∷ operation 2 (remove_member "carol") "m2"
          ∷ [],
    )
    ∷ []

abbrev reachable : PendingEpochOperation → Bool
reachable _ = true

abbrev unreachable : PendingEpochOperation → Bool
unreachable _ = false

confirm_pending_epoch_operations-pending_example :
    pending "team" (confirm_pending_epoch_operations unreachable "team" ("m1" ∷ []) operations).2
    ≡ without
        (confirm_pending_epoch_operations unreachable "team" ("m1" ∷ []) operations).0
        (marked "team" ("m1" ∷ []) operations)
confirm_pending_epoch_operations-pending_example =
    confirm_pending_epoch_operations-pending unreachable "team" ("m1" ∷ []) operations

confirm_pending_epoch_operations-sent_example :
    (confirm_pending_epoch_operations reachable "team" ("m1" ∷ []) operations).0
    ≡ filter is_confirmed (marked "team" ("m1" ∷ []) operations)
unfolding confirm_pending_epoch_operations finalize_each finalize is_confirmed confirm_seen pending
    put Map.get Map.set Map.delete any filter String_discrete
confirm_pending_epoch_operations-sent_example =
    confirm_pending_epoch_operations-sent reachable "team" ("m1" ∷ []) operations refl
