-- ===== src/Storage/JoinRequests/Placement.antt =====
-- What a join request that is stored leaves to be found.
use cordn.Prelude.{
  String, ◌≡◌, refl, ap, ◌∙◌, inl, inr, ◌&&◌, Option, none, some, List, [], ◌∷◌, ◌++◌, arith,
  if◌then◌else◌, ◌==◌, Bool-cases, Option-cases, find?, eq_of_==, string_eq, nat_eq,
}
use cordn.Result.{ok}
use cordn.Prelude.Map
use cordn.Storage.Inbox.{pending}
use cordn.Storage.Inbox.Laws.{pending-set}
use cordn.Storage.JoinRequests.{
  JoinRequestRecord, JoinRequestInbox, requested_by, refresh, store_join_request,
}

-- The request of a requester in a queue, after one of its is stored.
abbrev renewed : JoinRequestRecord → Option JoinRequestRecord → JoinRequestRecord
renewed new none = new
renewed new (some r) = record r {
  key_package_ref = new.key_package_ref;
  created_at = new.created_at;
}

find?-refresh :
    (new r : JoinRequestRecord) (p : String) (rs : List JoinRequestRecord)
    → find? (requested_by new.requester_stable_pubkey) rs ≡ some r
    → find? (requested_by p) (refresh new rs) ≡ (
        if new.requester_stable_pubkey == p
        then some (renewed new (some r))
        else find? (requested_by p) rs)
unfolding refresh find?
find?-refresh new r p [] h = cc
find?-refresh new r p (x ∷ rs) h =
    elim (Bool-cases (x.requester_stable_pubkey == new.requester_stable_pubkey)) [
      | inl here ↦ ground (
        arith,
        here,
        h,
        ap (λ k. k == p) (eq_of_== x.requester_stable_pubkey new.requester_stable_pubkey here),
      )
      | inr other ↦ elim (Bool-cases (new.requester_stable_pubkey == p)) [
        | inl own ↦ ground (
          arith,
          other,
          own,
          h,
          ap (λ k. x.requester_stable_pubkey == k) (eq_of_== new.requester_stable_pubkey p own),
          find?-refresh new r p rs,
        )
        | inr foreign ↦ ground (arith, other, foreign, h, find?-refresh new r p rs)
      ]
    ]

find?-added :
    (new : JoinRequestRecord) (p : String) (rs : List JoinRequestRecord)
    → find? (requested_by new.requester_stable_pubkey) rs ≡ none
    → find? (requested_by p) (rs ++ new ∷ [])
      ≡ (if new.requester_stable_pubkey == p then some new else find? (requested_by p) rs)
unfolding find?
find?-added new p [] h = ground arith
find?-added new p (x ∷ rs) h = elim (Bool-cases (new.requester_stable_pubkey == p)) [
  | inl own ↦ ground (
    arith,
    own,
    h,
    ap (λ k. x.requester_stable_pubkey == k) (eq_of_== new.requester_stable_pubkey p own),
    find?-added new p rs,
  )
  | inr foreign ↦ ground (arith, foreign, h, find?-added new p rs)
]

find?-set :
    (group_id requester g p : String) (queue : List JoinRequestRecord)
    (found : Option JoinRequestRecord) (m : JoinRequestInbox)
    → find? (requested_by p) queue
      ≡ (if requester == p then found else find? (requested_by p) (pending group_id m))
    → find? (requested_by p) (pending g (Map.set group_id queue m)) ≡ (
        if (group_id == g) && (requester == p) then found else find? (requested_by p) (pending g m))
find?-set group_id requester g p queue found m h = elim (Bool-cases (group_id == g)) [
  | inl here ↦ ground (
    arith,
    here,
    h,
    pending-set group_id g queue m,
    ap (λ k. find? (requested_by p) (pending k m)) (eq_of_== group_id g here),
  )
  | inr other ↦ ground (arith, other, pending-set group_id g queue m)
]

-- Storing a request answers with it or with its requester's, and puts that in the queue.
store_join_request-placed :
    (new kept : JoinRequestRecord) (m m' : JoinRequestInbox)
    → store_join_request new m ≡ ok (kept, m')
    → (found : Option JoinRequestRecord) × (find?
          (requested_by new.requester_stable_pubkey)
          (pending new.group_id m)
        ≡ found)
      × (kept ≡ renewed new found)
      × (m'
          ≡ Map.set new.group_id
              (elim found [
                | none ↦ pending new.group_id m ++ new ∷ []
                | some r ↦ refresh new (pending new.group_id m)
              ])
              m)
unfolding store_join_request
store_join_request-placed new kept m m' h =
    elim (Option-cases
      (find? (requested_by new.requester_stable_pubkey) (pending new.group_id m))) [
        | inl e ↦ (none, e, ground arith, ground arith)
        | inr (r, e) ↦ (some r, e, ground arith, ground arith)
      ]

placed-find :
    (new kept : JoinRequestRecord) (m m' : JoinRequestInbox) (g p : String)
    (found : Option JoinRequestRecord)
    → find? (requested_by new.requester_stable_pubkey) (pending new.group_id m) ≡ found
    → kept ≡ renewed new found
    → m'
      ≡ Map.set new.group_id
          (elim found [
            | none ↦ pending new.group_id m ++ new ∷ []
            | some r ↦ refresh new (pending new.group_id m)
          ])
          m
    → find? (requested_by p) (pending g m') ≡ (
        if (new.group_id == g) && (new.requester_stable_pubkey == p)
        then some kept
        else find? (requested_by p) (pending g m))
placed-find new kept m m' g p none e k q =
    rw (q, k)
      (find?-set new.group_id new.requester_stable_pubkey g p (pending new.group_id m ++ new ∷ [])
        (some new) m (find?-added new p (pending new.group_id m) e))
placed-find new kept m m' g p (some r) e k q =
    rw (q, k)
      (find?-set new.group_id new.requester_stable_pubkey g p (refresh new (pending new.group_id m))
        (some (renewed new (some r))) m (find?-refresh new r p (pending new.group_id m) e))

renewed-brings :
    (new : JoinRequestRecord) (found : Option JoinRequestRecord)
    → ((renewed new found).key_package_ref ≡ new.key_package_ref)
      × ((renewed new found).created_at ≡ new.created_at)
renewed-brings new none = (refl, refl)
renewed-brings new (some r) = (refl, refl)

-- The request that is answered is the one that its requester has in the group, every other requester
-- has what it had, and so has everyone in every other group.
pub store_join_request-find :
    (new kept : JoinRequestRecord) (m m' : JoinRequestInbox)
    → store_join_request new m ≡ ok (kept, m')
    → (kept.key_package_ref ≡ new.key_package_ref)
      × (kept.created_at ≡ new.created_at)
      × ((g p : String)
          → find? (requested_by p) (pending g m') ≡ (
              if (new.group_id == g) && (new.requester_stable_pubkey == p)
              then some kept
              else find? (requested_by p) (pending g m)))
store_join_request-find new kept m m' h =
    let (found, e, k, q) = store_join_request-placed new kept m m' h in
    let brings = renewed-brings new found in
    (
      ap (λ r. r.key_package_ref) k ∙ brings.0,
      ap (λ r. r.created_at) k ∙ brings.1,
      λ g p. placed-find new kept m m' g p found e k q,
    )
