-- ===== src/Coordinator/JoinRequests/Renewal.antt =====
-- A request of a requester that has one pending renews it.
use cordn.Prelude.Map.{get-set}
use cordn.Prelude.{
  ℕ, max, ◌≡◌, inl, inr, Bool, some, List, [], ◌∷◌, arith, ◌+◌, ◌<◌, ◌≤◌, Bool-cases, filter, any,
  find?, string_eq, nat_eq,
}
use cordn.Prelude.Map
use cordn.Storage.JoinRequests.{
  JoinRequestRecord, JoinRequestInbox, ConsumedJoinRequestRef, names_request, requested_by, refresh,
  store_join_request, fetch_pending_join_requests,
}
use cordn.Coordinator.Welcomes.{next_created_at}
use cordn.Coordinator.Welcomes.Acknowledgement.{next_created_at-ge-now}
use cordn.Coordinator.JoinRequests.{StoreJoinRequestInput, new_request, submit_join_request}
use cordn.Storage.Inbox.{pending, unconsumed}
use cordn.Storage.Inbox.Laws.{fetch-result, pending-set_same}
use cordn.Result.{ok}

-- The acknowledgement of a record.
abbrev pub ack : JoinRequestRecord → ConsumedJoinRequestRef
ack r = record { requester_stable_pubkey = r.requester_stable_pubkey; created_at = r.created_at }

-- The record `r` with what the request `new` brings.
abbrev pub renewal : JoinRequestRecord → JoinRequestRecord → JoinRequestRecord
renewal new r = record r { key_package_ref = new.key_package_ref; created_at = new.created_at }

next_created_at-later :
    (p : JoinRequestRecord → Bool) (now : ℕ) (rs : List JoinRequestRecord) (r : JoinRequestRecord)
    → find? p rs ≡ some r
    → r.created_at < next_created_at (λ x. x.created_at) now (filter p rs)
unfolding next_created_at find? filter
next_created_at-later p now [] r h = cc
next_created_at-later p now (x ∷ rs) r h = elim (Bool-cases (p x)) [
  | inl here ↦ ground (
    arith,
    here,
    h,
    next_created_at-ge-now (λ (y : JoinRequestRecord). y.created_at) (max now (x.created_at + 1))
        (filter p rs),
  )
  | inr other ↦ rw other (next_created_at-later p now rs r (rw other at h))
]

-- The renewed request survives the acknowledgement of the record that it renews.
find?-unconsumed-refresh :
    (new r : JoinRequestRecord) (rs : List JoinRequestRecord)
    → find? (requested_by new.requester_stable_pubkey) rs ≡ some r
    → r.created_at < new.created_at
    → find?
        (requested_by new.requester_stable_pubkey)
        (unconsumed names_request (ack r ∷ []) (refresh new rs))
      ≡ some (renewal new r)
unfolding find? filter unconsumed refresh any
find?-unconsumed-refresh new r [] h later = cc
find?-unconsumed-refresh new r (x ∷ rs) h later =
    elim (Bool-cases (requested_by new.requester_stable_pubkey x)) [
      | inl here ↦ ground (arith, here, h)
      | inr other ↦ ground (arith, other, h, find?-unconsumed-refresh new r rs)
    ]

store_join_request-renews :
    (new r : JoinRequestRecord) (m : JoinRequestInbox)
    → find? (requested_by new.requester_stable_pubkey) (pending new.group_id m) ≡ some r
    → store_join_request new m
      ≡ ok (renewal new r, Map.set new.group_id (refresh new (pending new.group_id m)) m)
unfolding store_join_request
store_join_request-renews new r m h = rw (h, store_join_request)

fetch_renewed :
    (new r : JoinRequestRecord) (m : JoinRequestInbox)
    → find? (requested_by new.requester_stable_pubkey) (pending new.group_id m) ≡ some r
    → r.created_at < new.created_at
    → find?
        (requested_by new.requester_stable_pubkey)
        (fetch_pending_join_requests new.group_id
          (ack r ∷ [])
          (Map.set new.group_id (refresh new (pending new.group_id m)) m)).0
      ≡ some (renewal new r)
unfolding fetch_pending_join_requests
fetch_renewed new r m h later =
    rw (fetch-result, pending-set_same)
      (find?-unconsumed-refresh new r (pending new.group_id m) h later)

-- A requester that has a request pending and asks again is answered with it under the reference that
-- it now names and at a time that is later than the earlier one and not before the clock's, and an
-- acknowledgement of the earlier request leaves this renewed one pending.
pub submit_join_request-renewal :
    (input : StoreJoinRequestInput) (now : ℕ) (m : JoinRequestInbox) (r : JoinRequestRecord)
    → find? (requested_by input.requester_stable_pubkey) (pending input.group_id m) ≡ some r
    → (at : ℕ) × (m' : JoinRequestInbox) × (submit_join_request input now m
        ≡ ok (record r { key_package_ref = input.key_package_ref; created_at = at }, m'))
      × (r.created_at < at)
      × (now ≤ at)
      × (find?
            (requested_by input.requester_stable_pubkey)
            (fetch_pending_join_requests input.group_id (ack r ∷ []) m').0
          ≡ some (record r { key_package_ref = input.key_package_ref; created_at = at }))
unfolding submit_join_request new_request
submit_join_request-renewal input now m r h =
    let new = new_request input now (pending input.group_id m) in
    let mine = filter (requested_by input.requester_stable_pubkey) (pending input.group_id m) in
    let later =
      next_created_at-later (requested_by input.requester_stable_pubkey) now
        (pending input.group_id m) r h in
    (
      new.created_at,
      Map.set input.group_id (refresh new (pending input.group_id m)) m,
      store_join_request-renews new r m h,
      later,
      next_created_at-ge-now (λ (y : JoinRequestRecord). y.created_at) now mine,
      fetch_renewed new r m h later,
    )
