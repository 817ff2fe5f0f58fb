-- ===== src/Storage/Sqlite/JoinRequests.antt =====
-- The join requests of `SqliteCoordinatorStorage` (packages/coordinator/src/storage/
-- sqliteStorage.ts): the table `join_requests`.
pub mod Refinement
pub mod Runs
use cordn.Prelude.{
  ℕ, String, Bool, ◌&&◌, Option, none, some, get_or, List, [], ◌∷◌, if◌then◌else◌, ltb, leb, ◌==◌,
  length, filter, find?, flat_map, string_eq, nat_eq,
}
use cordn.Prelude.Map
use cordn.Prelude.Map.{Map}
use cordn.Result.{Result, ok, err, too_many_join_requests}
use cordn.Storage.JoinRequests.{
  JoinRequestRecord, ConsumedJoinRequestRef, ConsumedJoinRequestWithGroupRef,
  max_pending_join_requests_per_group, names_request, requested_by, partition_consumed,
}
use cordn.Storage.Sqlite.{insert, delete_where, delete_each, update_where}

abbrev pub JoinRequestTable : Type 0
JoinRequestTable = List JoinRequestRecord

-- `WHERE group_id = ?`
abbrev pub in_group : String → JoinRequestRecord → Bool
in_group group_id r = r.group_id == group_id

-- `findPendingJoinRequestStatement`
unfoldable pub find_pending_join_request :
    String → String → JoinRequestTable → Option JoinRequestRecord
find_pending_join_request group_id pubkey rows =
    find? (λ r. in_group group_id r && requested_by pubkey r) rows

-- `updateJoinRequestOnReRequestStatement`
unfoldable pub update_join_request : JoinRequestRecord → JoinRequestTable → JoinRequestTable
update_join_request new rows =
    update_where (λ r. in_group new.group_id r && requested_by new.requester_stable_pubkey r)
      (λ r. record r { key_package_ref = new.key_package_ref; created_at = new.created_at }) rows

-- `countJoinRequestsStatement`
unfoldable pub count_join_requests : String → JoinRequestTable → ℕ
count_join_requests group_id rows = length (filter (in_group group_id) rows)

-- `storeJoinRequestTransaction`
unfoldable pub store_join_request :
    JoinRequestRecord → JoinRequestTable → Result (JoinRequestRecord × JoinRequestTable)
store_join_request new rows =
    elim (find_pending_join_request new.group_id new.requester_stable_pubkey rows) [
      | some existing ↦ ok (new, update_join_request new rows)
      | none ↦
          if leb max_pending_join_requests_per_group (count_join_requests new.group_id rows)
          then err too_many_join_requests
          else ok (new, insert new rows)
    ]

-- `deleteConsumedJoinRequestStatement` for each reference
unfoldable pub retire : String → List ConsumedJoinRequestRef → JoinRequestTable → JoinRequestTable
retire group_id consumed rows =
    delete_each (λ c r. in_group group_id r && names_request c r) consumed rows

-- `fetchPendingJoinRequestsTransaction`
unfoldable pub fetch_pending_join_requests :
    String
    → List ConsumedJoinRequestRef
    → JoinRequestTable
    → List JoinRequestRecord × JoinRequestTable
fetch_pending_join_requests group_id consumed rows =
    let left = retire group_id consumed rows in (filter (in_group group_id) left, left)

unfoldable pub retire_each :
    Map String (List ConsumedJoinRequestRef) → List String → JoinRequestTable → JoinRequestTable
retire_each consumed [] rows = rows
retire_each consumed (g ∷ gs) rows =
    retire_each consumed gs (retire g (get_or (Map.get g consumed) []) rows)

-- The join of the requested groups with the table, ordered by the place of the group and then by
-- `id`.
abbrev pub select_many_pending_join_requests :
    List String → JoinRequestTable → List JoinRequestRecord
select_many_pending_join_requests groups rows = flat_map (λ g. filter (in_group g) rows) groups

-- `fetchManyPendingJoinRequestsTransaction`
unfoldable pub fetch_many_pending_join_requests :
    List String
    → List ConsumedJoinRequestWithGroupRef
    → JoinRequestTable
    → List JoinRequestRecord × JoinRequestTable
fetch_many_pending_join_requests groups consumed rows =
    let left = retire_each (partition_consumed consumed []) groups rows in
    (select_many_pending_join_requests groups left, left)

unfoldable pub delete_expired_join_requests : ℕ → JoinRequestTable → ℕ × JoinRequestTable
delete_expired_join_requests threshold rows =
    if leb threshold 0 then (0, rows) else delete_where (λ r. ltb r.created_at threshold) rows
