-- ===== src/Server/Methods.antt =====
-- Methods of `CoordinatorAdapter` (packages/server/src/coordinatorMethods.ts), over the in-memory
-- storage. A method that may throw returns its result beside the store, since what it changed before
-- the throw stays. The decoding of base64 and MLS, and what is read from a key package and from an
-- event, are parameters: ts-mls, nostr-tools and packages/core.
pub mod Authorisation
pub mod Quota
use cordn.Prelude.{
  ℕ, min, String, Bool, ◌&&◌, Option, none, some, List, [], ◌∷◌, ◌+◌, ◌-◌, if◌then◌else◌, ltb, leb,
  ◌==◌, length, take, filter, string_eq, nat_eq,
}
use mathlib.Core.List.{map}
use cordn.Result
use cordn.Result.{
  Result, ok, err, missing_client_pubkey, missing_publication_event, rate_limit_exceeded,
  key_package_quota_exceeded, invalid_kp, unsupported_credential, signer_mismatch,
  identity_mismatch, unknown_key_package, unauthorized_key_package,
}
use cordn.Storage.Inbox.{pending}
use cordn.Storage.KeyPackages.{
  PublishedKeyPackageRecord, KeyPackageIndex, publish_key_package, list_key_packages_for_identity,
  get_key_package, remove_key_package, consume_key_package,
}
use cordn.Storage.JoinRequests.{JoinRequestInbox}
use cordn.Coordinator.JoinRequests.{StoreJoinRequestInput, submit_join_request}
use cordn.Server.RateLimit
use cordn.Server.RateLimit.{TokenBucketRateLimitConfig, Buckets}

pub record KeyPackageQuota : Type 0 where
  pub max_per_identity : ℕ
  pub max_last_resort_per_identity : ℕ

-- `requireClientPubkey`: the public key that the transport injects, if there is one
unfoldable pub require_client_pubkey : Option String → Result String
require_client_pubkey none = err missing_client_pubkey
require_client_pubkey (some pubkey) = if pubkey == "" then err missing_client_pubkey else ok pubkey

-- `withRateLimit`: a method behind the limiter. `now` is the reading of the clock.
unfoldable pub with_rate_limit {ℓ} :
    {S A : Type ℓ}
    → TokenBucketRateLimitConfig
    → Option String
    → ℕ
    → (S → Result A × S)
    → S × Buckets
    → Result A × (S × Buckets)
with_rate_limit config client now method (s, buckets) = elim (require_client_pubkey client) [
  | err e ↦ (err e, (s, buckets))
  | ok pubkey ↦
      let checked = RateLimit.check config pubkey now buckets in
      let done = method s in
      if checked.0 then (done.0, (done.1, checked.1)) else (err rate_limit_exceeded, (s, checked.1))
]

module _ {P E : Type 0} where
  -- The loop that removes old last-resort packages.
  unfoldable pub remove_each :
      List (PublishedKeyPackageRecord P E) → KeyPackageIndex P E → KeyPackageIndex P E
  remove_each [] m = m
  remove_each (r ∷ rs) m = remove_each rs (remove_key_package r.key_package_ref m).1

  -- The last-resort packages of an identity that make room for one more.
  unfoldable pub superseded :
      KeyPackageQuota → List (PublishedKeyPackageRecord P E) → List (PublishedKeyPackageRecord P E)
  superseded quota last_resorts =
      if ltb 0 quota.max_last_resort_per_identity
        && leb quota.max_last_resort_per_identity (length last_resorts)
      then take (length last_resorts - quota.max_last_resort_per_identity + 1) last_resorts
      else []

  -- The array `records` is the store's own, so its length is read again after the removals. The
  -- source's test is `nonLastResortCount + min(existing, maxLastResort - 1) + 1 > max`, where
  -- the count is `records.length - existing` and may be negative: the sides are moved to have
  -- no subtraction.
  unfoldable pub enforce_key_package_quota :
      KeyPackageQuota → String → Bool → KeyPackageIndex P E → Result {0} Unit × KeyPackageIndex P E
  enforce_key_package_quota quota stable_pubkey incoming_is_last_resort m =
      let records = list_key_packages_for_identity stable_pubkey m in
      let existing = filter (λ r. r.is_last_resort) records in
      let m' = remove_each (superseded quota existing) m in
      let left = list_key_packages_for_identity stable_pubkey m' in
      if incoming_is_last_resort
      then (if ltb 0 quota.max_per_identity
            && ltb (quota.max_per_identity + length existing)
                (length left + min (length existing + 1) quota.max_last_resort_per_identity)
          then (err key_package_quota_exceeded, m')
          else (ok tt, m'))
      else if ltb 0 quota.max_per_identity && leb quota.max_per_identity (length records)
      then (err key_package_quota_exceeded, m)
      else (ok tt, m)

  -- The loop of `removeKeyPackages` that looks every reference up before any is removed.
  unfoldable pub authorise :
      String → List String → KeyPackageIndex P E → Result (List (PublishedKeyPackageRecord P E))
  authorise client [] m = ok []
  authorise client (ref ∷ refs) m = elim (get_key_package ref m) [
    | none ↦ err unknown_key_package
    | some r ↦
        let rest = authorise client refs m in
        if r.stable_pubkey == client
        then elim rest [ ok rs ↦ ok (r ∷ rs) | err e ↦ err e ]
        else err unauthorized_key_package
  ]

  unfoldable pub remove_key_packages :
      Option String → List String → KeyPackageIndex P E → Result (List String) × KeyPackageIndex P E
  remove_key_packages client refs m = elim (require_client_pubkey client) [
    | err e ↦ (err e, m)
    | ok pubkey ↦ elim (authorise pubkey refs m) [
      | err e ↦ (err e, m)
      | ok rs ↦ (ok (map (λ r. r.key_package_ref) rs), remove_each rs m)
    ]
  ]

  -- `storeJoinRequest`: the key package must be the caller's own.
  unfoldable pub store_join_request :
      Option String
      → String
      → String
      → ℕ
      → KeyPackageIndex P E
      → JoinRequestInbox
      → Result (ℕ × JoinRequestInbox)
  store_join_request client group_id ref now packages m = elim (require_client_pubkey client) [
    | err e ↦ err e
    | ok pubkey ↦ elim (get_key_package ref packages) [
      | none ↦ err unknown_key_package
      | some r ↦
          if r.stable_pubkey == pubkey
          then (elim (submit_join_request
              (record {
                group_id = group_id;
                requester_stable_pubkey = pubkey;
                key_package_ref = ref;
              })
              now m) [ err e ↦ err e | ok (stored, m') ↦ ok (stored.created_at, m') ])
          else err unauthorized_key_package
    ]
  ]

  module _ (decode_key_package : String → Option P) (identity : P → Option String)
      (is_last_resort : P → Bool) (signer : E → String) where
    -- `verifyPublishedKeyPackageBinding`
    unfoldable pub verify_binding : String → E → P → Result String
    verify_binding client event key_package =
        if signer event == client
        then (elim (identity key_package) [
          | none ↦ err unsupported_credential
          | some stable_pubkey ↦
              if stable_pubkey == signer event then ok stable_pubkey else err identity_mismatch
        ])
        else err signer_mismatch

    -- `publishKeyPackage` of the coordinator
    unfoldable pub new_key_package : String → String → P → E → ℕ → PublishedKeyPackageRecord P E
    new_key_package stable_pubkey ref key_package event now = record {
      stable_pubkey = stable_pubkey;
      key_package = key_package;
      key_package_ref = ref;
      is_last_resort = is_last_resort key_package;
      published_at = now;
      publication_event = event;
    }

    unfoldable pub publish :
        KeyPackageQuota
        → Option String
        → String
        → String
        → Option E
        → ℕ
        → KeyPackageIndex P E
        → Result (PublishedKeyPackageRecord P E) × KeyPackageIndex P E
    publish quota client kp_64 ref publication_event now m = elim (require_client_pubkey client) [
      | err e ↦ (err e, m)
      | ok pubkey ↦ elim (decode_key_package kp_64) [
        | none ↦ (err invalid_kp, m)
        | some key_package ↦ elim publication_event [
          | none ↦ (err missing_publication_event, m)
          | some event ↦ elim (verify_binding pubkey event key_package) [
            | err e ↦ (err e, m)
            | ok stable_pubkey ↦
                let checked =
                  enforce_key_package_quota quota stable_pubkey (is_last_resort key_package) m in
                elim checked.0 [
                  | err e ↦ (err e, checked.1)
                  | ok _ ↦
                      let published = new_key_package stable_pubkey ref key_package event now in
                      (ok published, publish_key_package published checked.1)
                ]
          ]
        ]
      ]
    ]
