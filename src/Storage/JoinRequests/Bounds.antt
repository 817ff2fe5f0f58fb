-- ===== src/Storage/JoinRequests/Bounds.antt =====
-- No group holds more than the maximum of pending join requests, nor two of one requester.
use cordn.Prelude.{
  ℕ, String, ◌≡◌, refl, inl, inr, Bool, true, false, none, some, List, [], ◌∷◌, ◌++◌, arith, ◌≤◌,
  ◌<◌, if◌then◌else◌, ◌==◌, Bool-cases, Option-cases, length, filter, find?, length-append,
  length-filter-le, string_eq, nat_eq,
}
use cordn.Prelude.Map.{IsDistinct}
use cordn.Result.{ok}
use cordn.Storage.Inbox.{pending, unconsumed, fetch, delete_expired}
use cordn.Storage.Inbox.Laws.{pending-set, pending-fetch, pending-delete_expired}
use cordn.Storage.JoinRequests.{
  ConsumedJoinRequestRef, names_request, JoinRequestRecord, JoinRequestInbox,
  max_pending_join_requests_per_group, requested_by, refresh, store_join_request,
}

-- No two requests have one requester.
abbrev pub OnePerRequester : List JoinRequestRecord → Type 0
OnePerRequester [] = Unit
OnePerRequester (r ∷ rs) =
    (find? (requested_by r.requester_stable_pubkey) rs ≡ none) × OnePerRequester rs

pub record IsBounded (rs : List JoinRequestRecord) : Type 0 where
  pub few : length rs ≤ max_pending_join_requests_per_group
  pub single : OnePerRequester rs

pub record IsValid (m : JoinRequestInbox) : Type 0 where
  pub queues : (g : String) → IsBounded (pending g m)

length-refresh :
    (new : JoinRequestRecord) (rs : List JoinRequestRecord) → length (refresh new rs) ≡ length rs
unfolding refresh
length-refresh new [] = refl
length-refresh new (r ∷ rs) = ground (arith, length-refresh new rs)

find?-refresh :
    (new : JoinRequestRecord) (pubkey : String) (rs : List JoinRequestRecord)
    → find? (requested_by pubkey) rs ≡ none
    → find? (requested_by pubkey) (refresh new rs) ≡ none
unfolding refresh find?
find?-refresh new pubkey [] h = refl
find?-refresh new pubkey (r ∷ rs) h = ground (arith, find?-refresh new pubkey rs)

refresh-single :
    (new : JoinRequestRecord) (rs : List JoinRequestRecord)
    → OnePerRequester rs
    → OnePerRequester (refresh new rs)
unfolding refresh
refresh-single new [] h = tt
refresh-single new (r ∷ rs) h =
    ground (arith, refresh-single new rs h.1, find?-refresh new r.requester_stable_pubkey rs h.0)

find?-append :
    (new : JoinRequestRecord) (pubkey : String) (rs : List JoinRequestRecord)
    → find? (requested_by pubkey) rs ≡ none
    → requested_by pubkey new ≡ false
    → find? (requested_by pubkey) (rs ++ new ∷ []) ≡ none
unfolding find?
find?-append new pubkey [] h e = ground arith
find?-append new pubkey (r ∷ rs) h e = ground (arith, find?-append new pubkey rs)

append-single :
    (new : JoinRequestRecord) (rs : List JoinRequestRecord)
    → OnePerRequester rs
    → find? (requested_by new.requester_stable_pubkey) rs ≡ none
    → OnePerRequester (rs ++ new ∷ [])
unfolding find?
append-single new [] h e = (refl, tt)
append-single new (r ∷ rs) h e =
    ground (arith, append-single new rs h.1, find?-append new r.requester_stable_pubkey rs h.0)

-- The queue of the request's group after it is stored.
stored : JoinRequestRecord → List JoinRequestRecord → List JoinRequestRecord
stored new rs = elim (find? (requested_by new.requester_stable_pubkey) rs) [
  | some _ ↦ refresh new rs
  | none ↦ rs ++ new ∷ []
]

store_join_request-pending :
    (new kept : JoinRequestRecord) (m m' : JoinRequestInbox) (g : String)
    → store_join_request new m ≡ ok (kept, m')
    → pending g m' ≡ (if new.group_id == g then stored new (pending g m) else pending g m)
unfolding store_join_request stored
store_join_request-pending new kept m m' g h = ground (
  arith,
  pending-set new.group_id g (refresh new (pending new.group_id m)) m,
  pending-set new.group_id g (pending new.group_id m ++ new ∷ []) m,
)

stored-IsBounded :
    (new : JoinRequestRecord) (rs : List JoinRequestRecord)
    → IsBounded rs
    → (find? (requested_by new.requester_stable_pubkey) rs ≡ none
        → length rs < max_pending_join_requests_per_group)
    → IsBounded (stored new rs)
unfolding stored
stored-IsBounded new rs v h =
    elim (Option-cases (find? (requested_by new.requester_stable_pubkey) rs)) [
      | inl e ↦
          rw (e, stored)
            (record {
              few = omega (arith, h e, length-append rs (new ∷ []));
              single = append-single new rs v.single e;
            })
      | inr (r, e) ↦
          rw (e, stored)
            (record {
              few = omega (arith, v.few, length-refresh new rs);
              single = refresh-single new rs v.single;
            })
    ]

store_join_request-room :
    (new kept : JoinRequestRecord) (m m' : JoinRequestInbox) (g : String)
    → store_join_request new m ≡ ok (kept, m')
    → (new.group_id == g) ≡ true
    → find? (requested_by new.requester_stable_pubkey) (pending g m) ≡ none
    → length (pending g m) < max_pending_join_requests_per_group
unfolding store_join_request
store_join_request-room new kept m m' g h e missing = ground arith

-- Storing a request keeps every group's queue within the maximum, with one request to a requester.
pub store_join_request-IsValid :
    (new kept : JoinRequestRecord) (m m' : JoinRequestInbox)
    → IsValid m
    → store_join_request new m ≡ ok (kept, m')
    → IsValid m'
store_join_request-IsValid new kept m m' v h = record {
  queues = λ g.
      rw (store_join_request-pending new kept m m' g h) (elim (Bool-cases (new.group_id == g)) [
        | inl here ↦ rw here (
            stored-IsBounded new (pending g m) (v.queues g)
              (store_join_request-room new kept m m' g h here))
        | inr other ↦ rw other (v.queues g)
      ]);
}

filter-missing :
    (p : JoinRequestRecord → Bool) (pubkey : String) (rs : List JoinRequestRecord)
    → find? (requested_by pubkey) rs ≡ none
    → find? (requested_by pubkey) (filter p rs) ≡ none
unfolding find? filter
filter-missing p pubkey [] h = refl
filter-missing p pubkey (r ∷ rs) h = ground (arith, filter-missing p pubkey rs)

filter-OnePerRequester :
    (p : JoinRequestRecord → Bool) (rs : List JoinRequestRecord)
    → OnePerRequester rs
    → OnePerRequester (filter p rs)
unfolding filter
filter-OnePerRequester p [] d = tt
filter-OnePerRequester p (r ∷ rs) d =
    ground
      (arith, filter-OnePerRequester p rs d.1, filter-missing p r.requester_stable_pubkey rs d.0)

pub filter-IsBounded :
    (p : JoinRequestRecord → Bool) (rs : List JoinRequestRecord)
    → IsBounded rs
    → IsBounded (filter p rs)
filter-IsBounded p rs b = record {
  few = omega (arith, b.few, length-filter-le p rs);
  single = filter-OnePerRequester p rs b.single;
}

-- Acknowledgements keep the bounds.
pub fetch-IsValid :
    (g : String) (consumed : List ConsumedJoinRequestRef) (m : JoinRequestInbox)
    → IsValid m
    → IsValid (fetch names_request g consumed m).1
unfolding unconsumed
fetch-IsValid g consumed m v = record {
  queues = λ k. rw pending-fetch (elim (Bool-cases (g == k)) [
    | inl here ↦ rw here (filter-IsBounded _ (pending g m) (v.queues g))
    | inr other ↦ rw other (v.queues k)
  ]);
}

-- So does a cleanup.
pub delete_expired-IsValid :
    (threshold : ℕ) (m : JoinRequestInbox)
    → IsDistinct m
    → IsValid m
    → IsValid (delete_expired (λ r. r.created_at) threshold m).1
delete_expired-IsValid threshold m d v = record {
  queues = λ k.
      rw (pending-delete_expired (λ (r : JoinRequestRecord). r.created_at) threshold k m d)
        (filter-IsBounded _ (pending k m) (v.queues k));
}
