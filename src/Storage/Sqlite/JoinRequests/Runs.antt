-- ===== src/Storage/Sqlite/JoinRequests/Runs.antt =====
-- The calls that fetch and clean up, and runs of calls.
use cordn.Prelude.{
  ℕ, String, ◌≡◌, refl, sym, ap, ◌∙◌, inl, inr, true, not, get_or, List, [], ◌∷◌, ◌++◌, arith, ltb,
  leb, ◌==◌, Bool-cases, ==-refl, eq_of_==, any, flat_map, filter_idem, string_eq, nat_eq,
}
use mathlib.Core.Path.{ap₂, fun_ext}
use cordn.Storage.Simulation.{answers, answers_same}
use cordn.Prelude.Map
use cordn.Prelude.Map.{Map}
use cordn.Result.{Result, ok, err}
use cordn.Storage.Inbox.{pending, unconsumed, delete_expired}
use cordn.Storage.Inbox.Laws.{pending-fetch, fetch-result}
use cordn.Storage.JoinRequests as Memory
use cordn.Storage.JoinRequests.{
  JoinRequestRecord, JoinRequestInbox, ConsumedJoinRequestRef, ConsumedJoinRequestWithGroupRef,
  names_request, partition_consumed, fetch_each,
}
use cordn.Storage.JoinRequests.Bounds as Bounds
use cordn.Storage.Sqlite.Table.{
  Represents-delete_each, Represents-delete_where, changes-delete_where, select-delete_each,
}
use cordn.Storage.Sqlite.JoinRequests
use cordn.Storage.Sqlite.JoinRequests.{JoinRequestTable, in_group, retire, retire_each}
use cordn.Storage.Sqlite.JoinRequests.Refinement.{
  Agrees, refused, accepted, store-Stores, Stores, group_of,
}

retire-Agrees :
    (g : String) (cs : List ConsumedJoinRequestRef) (rows : JoinRequestTable) (m : JoinRequestInbox)
    → Agrees rows m
    → Agrees (retire g cs rows) (Memory.fetch_pending_join_requests g cs m).1
unfolding retire Memory.fetch_pending_join_requests
retire-Agrees g cs rows m a = record {
  same = Represents-delete_each (λ r. r.group_id) names_request g cs rows m a.same;
  valid = Bounds.fetch-IsValid g cs m a.valid;
}

fetch-result_same :
    (g : String) (cs : List ConsumedJoinRequestRef) (rows : JoinRequestTable) (m : JoinRequestInbox)
    → Agrees rows m
    → (JoinRequests.fetch_pending_join_requests g cs rows).0
      ≡ (Memory.fetch_pending_join_requests g cs m).0
unfolding JoinRequests.fetch_pending_join_requests Memory.fetch_pending_join_requests retire
fetch-result_same g cs rows m a =
    select-delete_each (λ r. r.group_id) names_request g cs rows m a.same

-- After its fetch, a queue holds nothing that its references name, and stays as it is.
abbrev IsSettled : String → List ConsumedJoinRequestRef → JoinRequestInbox → Type 0
IsSettled g cs m = unconsumed names_request cs (pending g m) ≡ pending g m

fetch-IsSettled :
    (g : String) (cs : List ConsumedJoinRequestRef) (m : JoinRequestInbox)
    → IsSettled g cs (Memory.fetch_pending_join_requests g cs m).1
unfolding Memory.fetch_pending_join_requests unconsumed
fetch-IsSettled g cs m =
    rw (pending-fetch, ==-refl g)
      (filter_idem (λ r. not (any (λ c. names_request c r) cs)) (pending g m))

module _ (consumed : Map String (List ConsumedJoinRequestRef)) where
  abbrev refs_of : String → List ConsumedJoinRequestRef
  refs_of g = get_or (Map.get g consumed) []

  pending-fetch_one :
      (g k : String) (m : JoinRequestInbox)
      → IsSettled g (refs_of g) m
      → pending g (Memory.fetch_pending_join_requests k (refs_of k) m).1 ≡ pending g m
  unfolding Memory.fetch_pending_join_requests
  pending-fetch_one g k m h = elim (Bool-cases (k == g)) [
    | inl here ↦ rw (pending-fetch, here) (rw (eq_of_== k g here) h)
    | inr other ↦ rw (pending-fetch, other) refl
  ]

  pending-fetch_each :
      (g : String) (gs : List String) (m : JoinRequestInbox)
      → IsSettled g (refs_of g) m
      → pending g (fetch_each consumed gs m).1 ≡ pending g m
  unfolding fetch_each
  pending-fetch_each g [] m h = refl
  pending-fetch_each g (k ∷ gs) m h =
      let m' = (Memory.fetch_pending_join_requests k (refs_of k) m).1 in
      let kept : pending g m' ≡ pending g m = pending-fetch_one g k m h in
      pending-fetch_each g gs m' (ap (unconsumed names_request (refs_of g)) kept ∙ h ∙ sym kept)
      ∙ kept

  fetched :
      (g : String) (m : JoinRequestInbox)
      → (Memory.fetch_pending_join_requests g (refs_of g) m).0
        ≡ pending g (Memory.fetch_pending_join_requests g (refs_of g) m).1
  unfolding Memory.fetch_pending_join_requests
  fetched g m = rw (fetch-result, pending-fetch, ==-refl g)

  -- Each group is answered with what its queue holds at the end.
  fetch_each-pending :
      (gs : List String) (m : JoinRequestInbox)
      → (fetch_each consumed gs m).0 ≡ flat_map (λ g. pending g (fetch_each consumed gs m).1) gs
  unfolding fetch_each flat_map
  fetch_each-pending [] m = refl
  fetch_each-pending (g ∷ gs) m =
      let m' = (Memory.fetch_pending_join_requests g (refs_of g) m).1 in
      ap₂ ◌++◌ (fetched g m ∙ sym (pending-fetch_each g gs m' (fetch-IsSettled g (refs_of g) m)))
        (fetch_each-pending gs m')

  retire_each-Agrees :
      (gs : List String) (rows : JoinRequestTable) (m : JoinRequestInbox)
      → Agrees rows m
      → Agrees (retire_each consumed gs rows) (fetch_each consumed gs m).1
  unfolding retire_each fetch_each
  retire_each-Agrees [] rows m a = a
  retire_each-Agrees (g ∷ gs) rows m a =
      retire_each-Agrees gs (retire g (refs_of g) rows)
        (Memory.fetch_pending_join_requests g (refs_of g) m).1
        (retire-Agrees g (refs_of g) rows m a)

fetch_many-same :
    (gs : List String) (cs : List ConsumedJoinRequestWithGroupRef) (rows : JoinRequestTable)
    (m : JoinRequestInbox)
    → Agrees rows m
    → (JoinRequests.fetch_many_pending_join_requests gs cs rows).0
      ≡ (Memory.fetch_many_pending_join_requests gs cs m).0
unfolding JoinRequests.fetch_many_pending_join_requests Memory.fetch_many_pending_join_requests
fetch_many-same gs cs rows m a =
    let consumed = partition_consumed cs [] in
    ap (λ f. flat_map f gs) (fun_ext ((retire_each-Agrees consumed gs rows m a).same.queues))
    ∙ sym (fetch_each-pending consumed gs m)

pub data Call : Type 0 where
  stores : JoinRequestRecord → Call
  fetches : String → List ConsumedJoinRequestRef → Call
  fetches_many : List String → List ConsumedJoinRequestWithGroupRef → Call
  expires : ℕ → Call

pub data Answer : Type 0 where
  stored : Result JoinRequestRecord → Answer
  listed : List JoinRequestRecord → Answer
  counted : ℕ → Answer

-- A call that fails changes nothing.
abbrev settle : {S : Type 0} → S → Result (JoinRequestRecord × S) → Answer × S
settle s (ok (kept, s')) = (stored (ok kept), s')
settle s (err e) = (stored (err e), s)

unfoldable pub sqlite_step : Call → JoinRequestTable → Answer × JoinRequestTable
sqlite_step (stores new) rows = settle rows (JoinRequests.store_join_request new rows)
sqlite_step (fetches g cs) rows =
    let r = JoinRequests.fetch_pending_join_requests g cs rows in (listed r.0, r.1)
sqlite_step (fetches_many gs cs) rows =
    let r = JoinRequests.fetch_many_pending_join_requests gs cs rows in (listed r.0, r.1)
sqlite_step (expires threshold) rows =
    let r = JoinRequests.delete_expired_join_requests threshold rows in (counted r.0, r.1)

unfoldable pub memory_step : Call → JoinRequestInbox → Answer × JoinRequestInbox
memory_step (stores new) m = settle m (Memory.store_join_request new m)
memory_step (fetches g cs) m =
    let r = Memory.fetch_pending_join_requests g cs m in (listed r.0, r.1)
memory_step (fetches_many gs cs) m =
    let r = Memory.fetch_many_pending_join_requests gs cs m in (listed r.0, r.1)
memory_step (expires threshold) m =
    let r = Memory.delete_expired_join_requests threshold m in (counted r.0, r.1)

store_step :
    (new : JoinRequestRecord) (rows : JoinRequestTable) (m : JoinRequestInbox) (a : Agrees rows m)
    → Stores rows m a new
    → ((settle rows (JoinRequests.store_join_request new rows)).0
        ≡ (settle m (Memory.store_join_request new m)).0)
      × Agrees
          (settle rows (JoinRequests.store_join_request new rows)).1
          (settle m (Memory.store_join_request new m)).1
store_step new rows m a (refused e f) = rw (e, f) (refl, a)
store_step new rows m a (accepted kept rows' m' e f a') = rw (e, f) (refl, a')

expire_step :
    (threshold : ℕ) (rows : JoinRequestTable) (m : JoinRequestInbox)
    → Agrees rows m
    → ((JoinRequests.delete_expired_join_requests threshold rows).0
        ≡ (Memory.delete_expired_join_requests threshold m).0)
      × Agrees
          (JoinRequests.delete_expired_join_requests threshold rows).1
          (Memory.delete_expired_join_requests threshold m).1
unfolding JoinRequests.delete_expired_join_requests Memory.delete_expired_join_requests
expire_step threshold rows m a = elim (Bool-cases (leb threshold 0)) [
  | inl off ↦ unfold delete_expired in rw off (refl, a)
  | inr on ↦
      let positive : ltb 0 threshold ≡ true = ground (arith, on) in
      rw on (
        changes-delete_where group_of (λ r. r.created_at) threshold rows m a.same positive,
        record {
          same =
              Represents-delete_where group_of (λ r. r.created_at) threshold rows m a.same positive;
          valid = Bounds.delete_expired-IsValid threshold m a.same.distinct a.valid;
        },
      )
]

step-Agrees :
    (c : Call) (rows : JoinRequestTable) (m : JoinRequestInbox)
    → Agrees rows m
    → ((sqlite_step c rows).0 ≡ (memory_step c m).0)
      × Agrees (sqlite_step c rows).1 (memory_step c m).1
unfolding sqlite_step memory_step
step-Agrees (stores new) rows m a = store_step new rows m a (store-Stores rows m a new)
step-Agrees (fetches g cs) rows m a = (
  ap listed (fetch-result_same g cs rows m a),
  unfold JoinRequests.fetch_pending_join_requests in retire-Agrees g cs rows m a,
)
step-Agrees (fetches_many gs cs) rows m a = (
  ap listed (fetch_many-same gs cs rows m a),
  unfold JoinRequests.fetch_many_pending_join_requests Memory.fetch_many_pending_join_requests in
      retire_each-Agrees (partition_consumed cs []) gs rows m a,
)
step-Agrees (expires threshold) rows m a =
    let (same, next) = expire_step threshold rows m a in (ap counted same, next)

-- On every sequence of calls that store, fetch and delete expired join requests, the SQLite storage
-- gives the same answers and errors as the storage in memory, if the rows of each group are, in
-- order, the requests of its inbox, no group has two inboxes, no inbox is over its limit, and no
-- requester has two requests in an inbox.
pub answers-sqlite :
    (calls : List Call) (rows : JoinRequestTable) (m : JoinRequestInbox)
    → Agrees rows m
    → answers sqlite_step calls rows ≡ answers memory_step calls m
answers-sqlite = answers_same (λ n. Agrees) sqlite_step memory_step (λ n. step-Agrees)
