-- ===== src/Storage/Sqlite/JoinRequests/Refinement.antt =====
-- The table answers every sequence of calls as the storage in memory does.
use cordn.Prelude.{
  String, ◌≡◌, refl, ap, ◌∙◌, inl, inr, Bool, true, false, ◌&&◌, none, some, List, [], ◌∷◌, ◌++◌,
  arith, if◌then◌else◌, leb, ◌==◌, Bool-cases, Option-cases, ==-refl, eq_of_==, length, filter,
  find?, string_eq, nat_eq,
}
use cordn.Prelude.Map
use cordn.Prelude.Map.{Map}
use cordn.Result.{ok, err, too_many_join_requests}
use cordn.Storage.Inbox.{pending}
use cordn.Storage.Inbox.Laws.{pending-set}
use cordn.Storage.JoinRequests as Memory
use cordn.Storage.JoinRequests.{
  JoinRequestRecord, JoinRequestInbox, ConsumedJoinRequestRef, ConsumedJoinRequestWithGroupRef,
  max_pending_join_requests_per_group, names_request, requested_by, refresh, partition_consumed,
  fetch_each,
}
use cordn.Storage.JoinRequests.Bounds as Bounds
use cordn.Storage.JoinRequests.Bounds.{OnePerRequester}
use cordn.Storage.Sqlite.{insert, update_where}
use cordn.Storage.Sqlite.Table.{Represents, Represents-insert}
use cordn.Storage.Sqlite.JoinRequests.{
  JoinRequestTable, in_group, find_pending_join_request, update_join_request, count_join_requests,
  store_join_request,
}

abbrev pub group_of : JoinRequestRecord → String
group_of r = r.group_id

-- The table and the inbox hold the same requests, and each requester has one to a group.
pub record Agrees (rows : JoinRequestTable) (m : JoinRequestInbox) : Type 0 where
  pub same : Represents group_of rows m
  pub valid : Bounds.IsValid m

find?-filter-and :
    (p q : JoinRequestRecord → Bool) (rows : JoinRequestTable)
    → find? (λ r. p r && q r) rows ≡ find? q (filter p rows)
unfolding find? filter
find?-filter-and p q [] = refl
find?-filter-and p q (r ∷ rows) = ground (arith, find?-filter-and p q rows)

find_pending-pending :
    (g pubkey : String) (rows : JoinRequestTable) (m : JoinRequestInbox)
    → Represents group_of rows m
    → find_pending_join_request g pubkey rows ≡ find? (requested_by pubkey) (pending g m)
unfolding find_pending_join_request
find_pending-pending g pubkey rows m s =
    find?-filter-and (in_group g) (requested_by pubkey) rows
    ∙ ap (find? (requested_by pubkey)) (s.queues g)

update_absent :
    (new : JoinRequestRecord) (rs : List JoinRequestRecord)
    → find? (requested_by new.requester_stable_pubkey) (filter (in_group new.group_id) rs) ≡ none
    → filter (in_group new.group_id) (update_join_request new rs)
      ≡ filter (in_group new.group_id) rs
unfolding update_join_request update_where filter find?
update_absent new [] h = refl
update_absent new (r ∷ rs) h = ground (arith, update_absent new rs)

update-refresh :
    (new : JoinRequestRecord) (rs : List JoinRequestRecord)
    → OnePerRequester (filter (in_group new.group_id) rs)
    → filter (in_group new.group_id) (update_join_request new rs)
      ≡ refresh new (filter (in_group new.group_id) rs)
unfolding update_join_request update_where filter refresh
update-refresh new [] d = refl
update-refresh new (r ∷ rs) d = elim (Bool-cases (in_group new.group_id r)) [
  | inr away ↦ ground (arith, away, update-refresh new rs (rw away at d))
  | inl here ↦
      let (first, rest) = rw here at d in
      elim (Bool-cases (requested_by new.requester_stable_pubkey r)) [
        | inr other ↦ ground (arith, here, other, update-refresh new rs rest)
        | inl same ↦ ground (
          arith,
          here,
          same,
          update_absent new rs
              (rw (eq_of_== r.requester_stable_pubkey new.requester_stable_pubkey same) at first),
        )
      ]
]

update_other :
    (new : JoinRequestRecord) (g : String) (rs : List JoinRequestRecord)
    → (new.group_id == g) ≡ false
    → filter (in_group g) (update_join_request new rs) ≡ filter (in_group g) rs
unfolding update_join_request update_where filter
update_other new g [] d = refl
update_other new g (r ∷ rs) d =
    ground (arith, update_other new g rs d, eq_of_== r.group_id new.group_id, eq_of_== r.group_id g)

find?-holds :
    (p : JoinRequestRecord → Bool) (rs : List JoinRequestRecord) (r : JoinRequestRecord)
    → find? p rs ≡ some r
    → p r ≡ true
unfolding find?
find?-holds p [] r h = cc
find?-holds p (x ∷ rs) r h = ground (arith, find?-holds p rs r)

find?-filter :
    (p q : JoinRequestRecord → Bool) (rs : List JoinRequestRecord) (r : JoinRequestRecord)
    → find? p (filter q rs) ≡ some r
    → q r ≡ true
unfolding find? filter
find?-filter p q [] r h = cc
find?-filter p q (x ∷ rs) r h = ground (arith, find?-filter p q rs r)

renewed :
    (new r : JoinRequestRecord)
    → r.group_id ≡ new.group_id
    → r.requester_stable_pubkey ≡ new.requester_stable_pubkey
    → record r { key_package_ref = new.key_package_ref; created_at = new.created_at } ≡ new
renewed new r e f = λ i. record {
  group_id = e i;
  requester_stable_pubkey = f i;
  key_package_ref = new.key_package_ref;
  created_at = new.created_at;
}

module _ (rows : JoinRequestTable) (m : JoinRequestInbox) (a : Agrees rows m) where
  update-Represents :
      (new r : JoinRequestRecord)
      → find? (requested_by new.requester_stable_pubkey) (pending new.group_id m) ≡ some r
      → Represents group_of
          (update_join_request new rows)
          (Map.set new.group_id (refresh new (pending new.group_id m)) m)
  update-Represents new r h = record {
    queues = λ g. elim (Bool-cases (new.group_id == g)) [
      | inl here ↦ rw (← eq_of_== new.group_id g here) (
          rw (pending-set, ==-refl new.group_id)
            (update-refresh new rows
                (rw (a.same.queues new.group_id) (a.valid.queues new.group_id).single)
              ∙ ap (refresh new) (a.same.queues new.group_id)))
      | inr other ↦ rw (pending-set, other) (update_other new g rows other ∙ a.same.queues g)
    ];
    distinct =
        Map.set-IsDistinct new.group_id (refresh new (pending new.group_id m)) m a.same.distinct;
  }

  count-pending : (g : String) → count_join_requests g rows ≡ length (pending g m)
  unfolding count_join_requests
  count-pending g = ap length (a.same.queues g)

  stored_again :
      (new r : JoinRequestRecord)
      → find? (requested_by new.requester_stable_pubkey) (pending new.group_id m) ≡ some r
      → store_join_request new rows ≡ ok (new, update_join_request new rows)
  unfolding store_join_request
  stored_again new r e = rw (
    store_join_request,
    find_pending-pending new.group_id new.requester_stable_pubkey rows m a.same,
    e,
  )

  memory_again :
      (new r : JoinRequestRecord)
      → find? (requested_by new.requester_stable_pubkey) (pending new.group_id m) ≡ some r
      → Memory.store_join_request new m
        ≡ ok (new, Map.set new.group_id (refresh new (pending new.group_id m)) m)
  unfolding Memory.store_join_request
  memory_again new r e =
      rw (Memory.store_join_request, e)
        (ap (λ kept. ok (kept, Map.set new.group_id (refresh new (pending new.group_id m)) m))
          (renewed new r
            (eq_of_== r.group_id new.group_id (
              find?-filter (requested_by new.requester_stable_pubkey) (in_group new.group_id) rows r
                (ap (find? (requested_by new.requester_stable_pubkey)) (a.same.queues new.group_id)
                  ∙ e)))
            (eq_of_== r.requester_stable_pubkey new.requester_stable_pubkey (
              find?-holds (requested_by new.requester_stable_pubkey) (pending new.group_id m) r
                e))))

  -- A requester without a pending request: the counts decide.
  module _ (new : JoinRequestRecord)
      (e : find? (requested_by new.requester_stable_pubkey) (pending new.group_id m) ≡ none) where
    new_stored : store_join_request new rows ≡ (
        if leb max_pending_join_requests_per_group (length (pending new.group_id m))
        then err too_many_join_requests
        else ok (new, insert new rows))
    unfolding store_join_request
    new_stored = rw (
      store_join_request,
      find_pending-pending new.group_id new.requester_stable_pubkey rows m a.same,
      e,
      count-pending new.group_id,
    )

    memory_new : Memory.store_join_request new m ≡ (
        if leb max_pending_join_requests_per_group (length (pending new.group_id m))
        then err too_many_join_requests
        else ok (new, Map.set new.group_id (pending new.group_id m ++ new ∷ []) m))
    unfolding Memory.store_join_request
    memory_new = rw (Memory.store_join_request, e)

  -- Both storages answer a request alike.
  pub data Stores (new : JoinRequestRecord) : Type 0 where
    refused :
        store_join_request new rows ≡ err too_many_join_requests
        → Memory.store_join_request new m ≡ err too_many_join_requests
        → Stores new
    accepted :
        (kept : JoinRequestRecord) (rows' : JoinRequestTable) (m' : JoinRequestInbox)
        → store_join_request new rows ≡ ok (kept, rows')
        → Memory.store_join_request new m ≡ ok (kept, m')
        → Agrees rows' m'
        → Stores new

  pub store-Stores : (new : JoinRequestRecord) → Stores new
  store-Stores new =
      elim (Option-cases
        (find? (requested_by new.requester_stable_pubkey) (pending new.group_id m))) [
          | inr (r, e) ↦
              accepted new (update_join_request new rows)
                (Map.set new.group_id (refresh new (pending new.group_id m)) m)
                (stored_again new r e) (memory_again new r e)
                (record {
                  same = update-Represents new r e;
                  valid =
                      Bounds.store_join_request-IsValid new new m _ a.valid (memory_again new r e);
                })
          | inl e ↦
              elim (Bool-cases
                (leb max_pending_join_requests_per_group (length (pending new.group_id m)))) [
                  | inl full ↦
                      refused (rw full at (new_stored new e)) (rw full at (memory_new new e))
                  | inr room ↦
                      accepted new (insert new rows)
                        (Map.set new.group_id (pending new.group_id m ++ new ∷ []) m)
                        (rw room at (new_stored new e)) (rw room at (memory_new new e))
                        (record {
                          same = Represents-insert group_of new rows m a.same;
                          valid =
                              Bounds.store_join_request-IsValid new new m _ a.valid
                                (rw room at (memory_new new e));
                        })
                ]
        ]
