-- ===== src/Storage/JoinRequests.antt =====
-- The join requests of `InMemoryCoordinatorStorage` (packages/coordinator/src/storage/
-- inMemoryStorage.ts): a map from the group to its queue; and `partitionConsumedJoinRequests` of
-- storage.ts.
pub mod Bounds
pub mod Placement
use cordn.Prelude.{
  ℕ, String, Bool, ◌&&◌, none, some, get_or, List, [], ◌∷◌, ◌++◌, if◌then◌else◌, leb, ◌==◌, length,
  find?, string_eq, nat_eq,
}
use cordn.Prelude.Map
use cordn.Prelude.Map.{Map}
use cordn.Result.{Result, ok, err, too_many_join_requests}
use cordn.Storage.Inbox.{Inbox, pending, fetch, delete_expired}

abbrev pub max_pending_join_requests_per_group : ℕ
max_pending_join_requests_per_group = 100

pub record JoinRequestRecord : Type 0 where
  pub group_id : String
  pub requester_stable_pubkey : String
  pub key_package_ref : String
  pub created_at : ℕ

pub record ConsumedJoinRequestRef : Type 0 where
  pub requester_stable_pubkey : String
  pub created_at : ℕ

pub record ConsumedJoinRequestWithGroupRef : Type 0 where
  pub ref : ConsumedJoinRequestRef
  pub group_id : String

abbrev pub JoinRequestInbox : Type 0
JoinRequestInbox = Inbox String JoinRequestRecord

abbrev pub names_request : ConsumedJoinRequestRef → JoinRequestRecord → Bool
names_request c r =
    (c.requester_stable_pubkey == r.requester_stable_pubkey) && (c.created_at == r.created_at)

abbrev pub requested_by : String → JoinRequestRecord → Bool
requested_by pubkey r = r.requester_stable_pubkey == pubkey

-- The first request of the same requester takes the new reference and the new time.
unfoldable pub refresh : JoinRequestRecord → List JoinRequestRecord → List JoinRequestRecord
refresh new [] = []
refresh new (r ∷ rs) =
    if requested_by new.requester_stable_pubkey r
    then record r { key_package_ref = new.key_package_ref; created_at = new.created_at } ∷ rs
    else r ∷ refresh new rs

unfoldable pub store_join_request :
    JoinRequestRecord → JoinRequestInbox → Result (JoinRequestRecord × JoinRequestInbox)
store_join_request new m =
    let existing = pending new.group_id m in
    elim (find? (requested_by new.requester_stable_pubkey) existing) [
      | some duplicate ↦ ok (
        record duplicate { key_package_ref = new.key_package_ref; created_at = new.created_at },
        Map.set new.group_id (refresh new existing) m,
      )
      | none ↦
          if leb max_pending_join_requests_per_group (length existing)
          then err too_many_join_requests
          else ok (new, Map.set new.group_id (existing ++ new ∷ []) m)
    ]

unfoldable pub fetch_pending_join_requests :
    String
    → List ConsumedJoinRequestRef
    → JoinRequestInbox
    → List JoinRequestRecord × JoinRequestInbox
fetch_pending_join_requests group_id consumed m = fetch names_request group_id consumed m

unfoldable pub partition_consumed :
    List ConsumedJoinRequestWithGroupRef
    → Map String (List ConsumedJoinRequestRef)
    → Map String (List ConsumedJoinRequestRef)
partition_consumed [] by_group = by_group
partition_consumed (item ∷ items) by_group =
    partition_consumed items
      (Map.set item.group_id (get_or (Map.get item.group_id by_group) [] ++ item.ref ∷ []) by_group)

-- The `flatMap` over the groups, each fetch after the writes of the one before.
unfoldable pub fetch_each :
    Map String (List ConsumedJoinRequestRef)
    → List String
    → JoinRequestInbox
    → List JoinRequestRecord × JoinRequestInbox
fetch_each consumed [] m = ([], m)
fetch_each consumed (g ∷ gs) m =
    let (records, m') = fetch_pending_join_requests g (get_or (Map.get g consumed) []) m in
    let (rest, m'') = fetch_each consumed gs m' in (records ++ rest, m'')

unfoldable pub fetch_many_pending_join_requests :
    List String
    → List ConsumedJoinRequestWithGroupRef
    → JoinRequestInbox
    → List JoinRequestRecord × JoinRequestInbox
fetch_many_pending_join_requests groups consumed m =
    fetch_each (partition_consumed consumed []) groups m

unfoldable pub delete_expired_join_requests : ℕ → JoinRequestInbox → ℕ × JoinRequestInbox
delete_expired_join_requests threshold m = delete_expired (λ r. r.created_at) threshold m
