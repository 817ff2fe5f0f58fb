-- ===== src/Server/Methods/Authorisation.antt =====
-- Who may do what: the methods on key packages and join requests act for the caller only.
use cordn.Prelude.{
  ℕ, String, ◌≡◌, refl, subst, ◌⊎◌, inl, inr, Bool, ◌&&◌, Option, none, some, List, [], ◌∷◌, map,
  arith, if◌then◌else◌, ◌==◌, Bool-cases, Option-cases, any, find?, All, string_eq, nat_eq,
}
use cordn.Result.{ok, err, Result-cases, Error, missing_client_pubkey}
use cordn.Storage.KeyPackages.{
  PublishedKeyPackageRecord, KeyPackageIndex, get_key_package, remove_key_package,
}
use cordn.Storage.KeyPackages.Uniqueness.{
  IsValid, remove_key_package-IsValid, get-remove_key_package-other,
}
use cordn.Storage.KeyPackages.Consumption.{get_key_package-ref}
use cordn.Storage.Inbox.{pending}
use cordn.Storage.JoinRequests
use cordn.Storage.JoinRequests.{JoinRequestRecord, JoinRequestInbox, requested_by}
use cordn.Storage.JoinRequests.Placement.{store_join_request-find}
use cordn.Coordinator.JoinRequests.{new_request, submit_join_request}
use cordn.Server.Methods.{
  KeyPackageQuota, require_client_pubkey, authorise, remove_each, remove_key_packages,
  store_join_request, verify_binding, new_key_package, publish,
}

-- The identity that published a reference.
unfoldable pub owner_of : {P E : Type 0} → KeyPackageIndex P E → String → Option String
owner_of m ref = elim (get_key_package ref m) [ some r ↦ some r.stable_pubkey | none ↦ none ]

module _ {P E : Type 0} where
  authorise-owner_of :
      (client : String) (refs : List String) (m : KeyPackageIndex P E)
      (rs : List (PublishedKeyPackageRecord P E))
      → authorise client refs m ≡ ok rs
      → All (λ ref. owner_of m ref ≡ some client) refs × (map (λ r. r.key_package_ref) rs ≡ refs)
  unfolding authorise owner_of
  authorise-owner_of client [] m rs h = ground arith
  authorise-owner_of client (ref ∷ refs) m rs h = elim (Result-cases (authorise client refs m)) [
    | inr (e, failed) ↦ absurd (ground arith)
    | inl (rs', e) ↦ elim (Option-cases (get_key_package ref m)) [
      | inl missing ↦ absurd (ground arith)
      | inr (r, found) ↦
          let named = get_key_package-ref ref m r found in
          let rest = authorise-owner_of client refs m rs' e in
          ((ground arith, rest.0), ground (arith, named, rest.1))
    ]
  ]

  -- Each of the records is removed by its reference, and nothing else is.
  get-remove_each :
      (ref : String) (rs : List (PublishedKeyPackageRecord P E)) (m : KeyPackageIndex P E)
      → IsValid m
      → get_key_package ref (remove_each rs m) ≡ (
          if any (λ k. k == ref) (map (λ r. r.key_package_ref) rs)
          then none
          else get_key_package ref m)
  unfolding remove_each any
  get-remove_each ref [] m v = refl
  get-remove_each ref (r ∷ rs) m v =
      let m' = (remove_key_package r.key_package_ref m).1 in
      ground (
        arith,
        get-remove_each ref rs m' (remove_key_package-IsValid r.key_package_ref m v),
        get-remove_key_package-other r.key_package_ref ref m v,
      )

  -- In a valid map, a removal of key packages fails and changes nothing, or every reference names a
  -- package of the caller, the references are the answer, and just their packages are gone: a lookup
  -- of any other reference finds what it found before.
  pub remove_key_packages-owner_of :
      (pubkey : String) (refs : List String) (m : KeyPackageIndex P E)
      → IsValid m
      → ((e : Error) × (remove_key_packages (some pubkey) refs m ≡ (err e, m)))
        ⊎ ((m' : KeyPackageIndex P E) × (remove_key_packages (some pubkey) refs m ≡ (ok refs, m'))
            × All (λ ref. owner_of m ref ≡ some pubkey) refs
            × ((ref : String)
                → get_key_package ref m'
                  ≡ (if any (λ k. k == ref) refs then none else get_key_package ref m)))
  unfolding remove_key_packages require_client_pubkey
  remove_key_packages-owner_of pubkey refs m v = elim (Bool-cases (pubkey == "")) [
    | inl empty ↦ inl (missing_client_pubkey, ground arith)
    | inr named ↦ elim (Result-cases (authorise pubkey refs m)) [
      | inr (e, failed) ↦ inl (e, ground arith)
      | inl (rs, e) ↦
          let (owned, same) = authorise-owner_of pubkey refs m rs e in
          inr (
            remove_each rs m,
            ground arith,
            owned,
            λ ref.
                subst
                  (λ ks.
                    get_key_package ref (remove_each rs m)
                    ≡ (if any (λ k. k == ref) ks then none else get_key_package ref m))
                  same (get-remove_each ref rs m v),
          )
    ]
  ]

  -- A join request is stored for the owner of the key package that it names: it is the request of
  -- the caller that its group then has, with that reference and the time that is answered, and
  -- everyone has else what they had.
  pub store_join_request-owner_of :
      (pubkey group_id ref : String) (now at : ℕ) (packages : KeyPackageIndex P E)
      (m m' : JoinRequestInbox)
      → store_join_request (some pubkey) group_id ref now packages m ≡ ok (at, m')
      → (owner_of packages ref ≡ some pubkey)
        × ((kept : JoinRequestRecord) × (kept.key_package_ref ≡ ref)
            × (kept.created_at ≡ at)
            × ((g p : String)
                → find? (requested_by p) (pending g m') ≡ (
                    if (group_id == g) && (pubkey == p)
                    then some kept
                    else find? (requested_by p) (pending g m))))
  unfolding store_join_request require_client_pubkey owner_of submit_join_request new_request
  store_join_request-owner_of pubkey group_id ref now at packages m m' h =
      let new : JoinRequestRecord =
        new_request
          (record { group_id = group_id; requester_stable_pubkey = pubkey; key_package_ref = ref })
          now (pending group_id m) in
      elim (Result-cases (JoinRequests.store_join_request new m)) [
        | inr (e, failed) ↦ absurd (ground arith)
        | inl ((kept, n), e) ↦
            let (named, timed, placed) = store_join_request-find new kept m n e in
            let last : n ≡ m' = ground arith in
            (
              ground arith,
              (
                kept,
                named,
                ground arith,
                λ g p.
                    subst
                      (λ x. find? (requested_by p) (pending g x) ≡ (
                        if (group_id == g) && (pubkey == p)
                        then some kept
                        else find? (requested_by p) (pending g m)))
                      last (placed g p),
              ),
            )
      ]

  module _ (decode_key_package : String → Option P) (identity : P → Option String)
      (is_last_resort : P → Bool) (signer : E → String) where
    -- What is published is bound to one identity: the caller, the signer of the event and the
    -- credential of the key package, whose last-resort mark is kept.
    pub publish-bound :
        (quota : KeyPackageQuota) (client : Option String) (kp_64 ref : String) (event : Option E)
        (now : ℕ) (m m' : KeyPackageIndex P E) (r : PublishedKeyPackageRecord P E)
        → publish decode_key_package identity is_last_resort signer quota client kp_64 ref event now
            m
          ≡ (ok r, m')
        → (client ≡ some r.stable_pubkey)
          × (identity r.key_package ≡ some r.stable_pubkey)
          × (signer r.publication_event ≡ r.stable_pubkey)
          × (r.is_last_resort ≡ is_last_resort r.key_package)
    unfolding publish require_client_pubkey verify_binding new_key_package
    publish-bound quota client kp_64 ref event now m m' r h = ground arith
