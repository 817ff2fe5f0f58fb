-- ===== src/Client/PendingEpochOperations.antt =====
-- packages/cli/src/pendingEpochOperations.ts: the commits that a client has posted and not seen come
-- back yet, by group. An operation is an object that the client holds once; its identity is a number,
-- which `!==` compares. `accepts` says whether the client's StoreWelcome succeeds; the code throws
-- where it does not.
pub mod Delivery
use cordn.Prelude.{
  ℕ, String, Bool, true, false, not, Option, List, [], ◌∷◌, ◌++◌, if◌then◌else◌, ◌==◌, filter, any,
  find?, string_eq, nat_eq,
}
use cordn.Storage.Inbox.{Inbox, pending, put}
use cordn.Prelude.Map
use mathlib.Core.List.{map}

pub data PendingEpochOperationKind : Type 0 where
  -- the key package reference, the target, the welcome and the cursor to join after
  add_member : String → String → String → Option ℕ → PendingEpochOperationKind
  -- the target
  remove_member : String → PendingEpochOperationKind
  update_group_metadata : PendingEpochOperationKind

pub data PendingEpochOperationStatus : Type 0 where
  waiting confirmed rejected : PendingEpochOperationStatus

pub record PendingEpochOperation : Type 0 where
  pub identity : ℕ
  pub kind : PendingEpochOperationKind
  pub group_alias : String
  pub group_id : String
  pub commit_message_base64 : String
  pub posted_msg_base64 : Option String
  pub local_state_applied : Option Bool
  pub status : PendingEpochOperationStatus

abbrev pub Operations : Type 0
Operations = Inbox String PendingEpochOperation

unfoldable pub is_confirmed : PendingEpochOperation → Bool
is_confirmed operation = elim (operation.status) [ confirmed ↦ true | _ ↦ false ]

-- `finalizePendingEpochOperation`: only an added member is sent a welcome.
unfoldable pub finalize : (PendingEpochOperation → Bool) → PendingEpochOperation → Bool
finalize accepts operation = elim (operation.kind) [
  | add_member ref target welcome after_cursor ↦ accepts operation
  | _ ↦ true
]

-- `seen.has(operation.commitMessageBase64)`
abbrev pub is_seen : List String → PendingEpochOperation → Bool
is_seen messages operation = any (λ message. message == operation.commit_message_base64) messages

unfoldable pub enqueue_pending_epoch_operation : PendingEpochOperation → Operations → Operations
enqueue_pending_epoch_operation operation m =
    Map.set operation.group_alias (pending operation.group_alias m ++ operation ∷ []) m

unfoldable pub confirm_seen : List String → PendingEpochOperation → PendingEpochOperation
confirm_seen messages operation =
    if is_seen messages operation then record operation { status = confirmed } else operation

-- `candidate !== operation`
abbrev pub is_same : PendingEpochOperation → PendingEpochOperation → Bool
is_same operation candidate = candidate.identity == operation.identity

-- The loop of `confirmPendingEpochOperations` over the copy of the list: the operations that are
-- finalized, whether the loop ended with an error, and the map. Each finalized operation leaves the
-- map at once.
unfoldable pub finalize_each :
    (PendingEpochOperation → Bool)
    → String
    → List PendingEpochOperation
    → Operations
    → List PendingEpochOperation × Bool × Operations
finalize_each accepts group_alias [] m = ([], false, m)
finalize_each accepts group_alias (operation ∷ operations) m =
    let remaining = filter (λ c. not (is_same operation c)) (pending group_alias m) in
    let rest = finalize_each accepts group_alias operations (put group_alias remaining m) in
    let skipped = finalize_each accepts group_alias operations m in
    if is_confirmed operation
    then (if finalize accepts operation
        then (operation ∷ rest.0, rest.1, rest.2)
        else ([], true, m))
    else skipped

unfoldable pub confirm_pending_epoch_operations :
    (PendingEpochOperation → Bool)
    → String
    → List String
    → Operations
    → List PendingEpochOperation × Bool × Operations
confirm_pending_epoch_operations accepts group_alias messages m = elim (pending group_alias m) [
  | [] ↦ ([], false, m)
  | operation ∷ operations ↦
      let marked = map (confirm_seen messages) (operation ∷ operations) in
      finalize_each accepts group_alias marked (Map.set group_alias marked m)
]

unfoldable pub get_pending_epoch_operation :
    String → String → Operations → Option PendingEpochOperation
get_pending_epoch_operation group_alias message m =
    find? (λ operation. operation.commit_message_base64 == message) (pending group_alias m)

unfoldable pub adds : String → PendingEpochOperation → Bool
adds target operation = elim (operation.kind) [
  | add_member ref added welcome after_cursor ↦ added == target
  | _ ↦ false
]

unfoldable pub drop_pending_add_member_for_target : String → String → Operations → Operations
drop_pending_add_member_for_target group_alias target m = elim (pending group_alias m) [
  | [] ↦ m
  | operation ∷ operations ↦
      put group_alias (filter (λ c. not (adds target c)) (operation ∷ operations)) m
]

-- The rejected operations leave the map; no one reads the status that they get.
unfoldable pub reject_pending_epoch_operations : String → List String → Operations → Operations
reject_pending_epoch_operations group_alias [] m = m
reject_pending_epoch_operations group_alias (message ∷ messages) m = elim (pending group_alias m) [
  | [] ↦ m
  | operation ∷ operations ↦
      put group_alias (filter (λ c. not (is_seen (message ∷ messages) c)) (operation ∷ operations))
        m
]
