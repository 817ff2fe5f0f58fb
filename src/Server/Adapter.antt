-- ===== src/Server/Adapter.antt =====
-- `CoordinatorAdapter` as a whole (packages/server/src/coordinatorMethods.ts): a request of a client,
-- behind the rate limiter, runs one handler over the coordinator's state, and so do the end of a
-- stream, a read of it, and the coordinator's cleanup timer.
pub mod Counts
pub mod Inboxes
pub mod Invariant
use cordn.Prelude.{
  ℕ, String, Bool, Option, none, some, List, [], ◌∷◌, map, ◌-◌, if◌then◌else◌, ltb, string_eq,
}
use cordn.Result.{Result, ok, err, invalid_welcome, invalid_msg}
use cordn.Storage.KeyPackages.{
  PublishedKeyPackageRecord, KeyPackageIndex, list_all_key_packages, consume_key_package,
}
use cordn.Storage.Welcomes.{
  WelcomeQueueRecord, WelcomeInbox, ConsumedWelcomeRef, fetch_pending_welcomes,
  delete_expired_welcomes,
}
use cordn.Storage.JoinRequests.{
  JoinRequestRecord, JoinRequestInbox, ConsumedJoinRequestWithGroupRef,
  fetch_many_pending_join_requests, delete_expired_join_requests,
}
use cordn.Storage.Groups.{GroupMessageRecord, FetchGroupMessagesInput, fetch_many_group_messages}
use cordn.Coordinator.Subscriptions.{
  Hub, post_group_message, read_next, subscribe_many_group_messages, unsubscribe,
}
use cordn.Coordinator.Welcomes.{submit_welcome}
use cordn.Server.RateLimit.{TokenBucketRateLimitConfig, Buckets}
use cordn.Server.Methods.{
  KeyPackageQuota, require_client_pubkey, with_rate_limit, remove_key_packages, publish,
}
use cordn.Server.Methods as Methods

-- What the methods call outside: ts-mls, nostr-tools and base64. Welcomes are decoded from base64 and
-- encoded to it; `welcome_bytes` is the serialisation by which two welcomes are compared.
pub record Library (P E W : Type 0) : Type 0 where
  pub decode_key_package : String → Option P
  pub identity : P → Option String
  pub is_last_resort : P → Bool
  pub signer : E → String
  pub decode_welcome : String → Option W
  pub encode_welcome : W → String
  pub welcome_bytes : W → List ℕ
  pub decode_base64 : String → Option (List ℕ)
  pub encode_base64 : List ℕ → String

pub record Config : Type 0 where
  pub rate_limit : TokenBucketRateLimitConfig
  pub key_package_quota : KeyPackageQuota
  pub max_age_ms : ℕ

-- What the coordinator keeps.
pub record Store (P E W : Type 0) : Type 0 where
  pub key_packages : KeyPackageIndex P E
  pub welcomes : WelcomeInbox W
  pub join_requests : JoinRequestInbox
  pub hub : Hub

-- The tools, with their inputs. A publication comes with the event of the request, if it resolves.
pub data Method (E : Type 0) : Type 0 where
  publish_key_package : String → String → Option E → Method E
  consume : String → Method E
  list_available : Method E
  remove : List String → Method E
  fetch_welcomes : List ConsumedWelcomeRef → Method E
  store_welcome : String → String → String → Option ℕ → Method E
  store_join_request : String → String → Method E
  fetch_join_requests : List String → List ConsumedJoinRequestWithGroupRef → Method E
  post_message : String → String → Method E
  fetch_messages : List FetchGroupMessagesInput → Method E
  subscribe_many : List FetchGroupMessagesInput → Method E

-- The formats of the answers.
pub record AvailableKeyPackage : Type 0 where
  pub pk : String
  pub kp_ref : String
  pub last_resort : Bool
  pub at : ℕ

pub record PendingWelcome : Type 0 where
  pub kp_ref : String
  pub welcome_64 : String
  pub at : ℕ
  pub after : Option ℕ

pub record PendingRequest : Type 0 where
  pub gid : String
  pub pk : String
  pub kp_ref : String
  pub at : ℕ

pub record GroupMessage : Type 0 where
  pub cursor : ℕ
  pub gid : String
  pub msg_64 : String
  pub at : ℕ

pub data Answer (E : Type 0) : Type 0 where
  published : String → Bool → ℕ → Answer E
  consumed : Option (AvailableKeyPackage × E) → Answer E
  available : List AvailableKeyPackage → Answer E
  removed : List String → Answer E
  welcomes : List PendingWelcome → Answer E
  stored : ℕ → Answer E
  requests : List PendingRequest → Answer E
  posted : ℕ → String → ℕ → Answer E
  messages : List GroupMessage → Answer E
  subscribed : ℕ → Answer E

unfoldable pub map_request : JoinRequestRecord → PendingRequest
map_request r = record {
  gid = r.group_id;
  pk = r.requester_stable_pubkey;
  kp_ref = r.key_package_ref;
  at = r.created_at;
}

-- An answer of a method that may have changed its part of the store before it threw.
unfoldable pub answer {ℓ} : {A B : Type ℓ} → (A → B) → Result A → Result B
answer f (ok a) = ok (f a)
answer f (err e) = err e

unfoldable pub map_available_key_package :
    {P E : Type 0} → PublishedKeyPackageRecord P E → AvailableKeyPackage
map_available_key_package r = record {
  pk = r.stable_pubkey;
  kp_ref = r.key_package_ref;
  last_resort = r.is_last_resort;
  at = r.published_at;
}

-- What may happen next, at a reading of the clock.
pub data Event (E : Type 0) : Type 0 where
  request : Method E → Option String → ℕ → Event E
  reads : ℕ → ℕ → Event E
  ends : List String → ℕ → Event E
  ticks : ℕ → Event E

module _ {P E W : Type 0} where
  module _ (library : Library P E W) where
    unfoldable pub map_welcome : WelcomeQueueRecord W → PendingWelcome
    map_welcome r = record {
      kp_ref = r.key_package_reference;
      welcome_64 = library.encode_welcome r.welcome;
      at = r.created_at;
      after = r.join_after_cursor;
    }

    unfoldable pub map_group_message : GroupMessageRecord → GroupMessage
    map_group_message r = record {
      cursor = r.cursor;
      gid = r.group_id;
      msg_64 = library.encode_base64 r.opaque_message;
      at = r.created_at;
    }

    unfoldable pub fetch_pending_welcomes_method :
        Option String → List ConsumedWelcomeRef → Store P E W → Result (Answer E) × Store P E W
    fetch_pending_welcomes_method client refs s = elim (require_client_pubkey client) [
      | err e ↦ (err e, s)
      | ok pubkey ↦
          let fetched = fetch_pending_welcomes pubkey refs s.welcomes in
          (ok (welcomes (map map_welcome fetched.0)), record s { welcomes = fetched.1 })
    ]

    unfoldable pub store_welcome_method :
        String → String → String → Option ℕ → ℕ → Store P E W → Result (Answer E) × Store P E W
    store_welcome_method target ref welcome_64 after now s =
        elim (library.decode_welcome welcome_64) [
          | none ↦ (err invalid_welcome, s)
          | some welcome ↦
              let done =
                submit_welcome library.welcome_bytes
                  (record {
                    target_stable_pubkey = target;
                    key_package_reference = ref;
                    welcome = welcome;
                    join_after_cursor = after;
                  })
                  now s.welcomes in
              (ok (stored done.0.created_at), record s { welcomes = done.1 })
        ]

    unfoldable pub store_join_request_method :
        Option String → String → String → ℕ → Store P E W → Result (Answer E) × Store P E W
    store_join_request_method client gid ref now s =
        elim (Methods.store_join_request client gid ref now s.key_packages s.join_requests) [
          | err e ↦ (err e, s)
          | ok (at, m) ↦ (ok (stored at), record s { join_requests = m })
        ]

    unfoldable pub post_group_message_method :
        String → String → ℕ → Store P E W → Result (Answer E) × Store P E W
    post_group_message_method gid msg_64 now s = elim (library.decode_base64 msg_64) [
      | none ↦ (err invalid_msg, s)
      | some bytes ↦
          let done =
            post_group_message (record { group_id = gid; opaque_message = bytes; created_at = now })
              s.hub in
          (ok (posted done.0.cursor done.0.group_id done.0.created_at), record s { hub = done.2 })
    ]

    unfoldable pub publish_key_package_method :
        KeyPackageQuota
        → Option String
        → String
        → String
        → Option E
        → ℕ
        → Store P E W
        → Result (Answer E) × Store P E W
    publish_key_package_method quota client kp_64 ref event now s =
        let done =
          publish library.decode_key_package library.identity library.is_last_resort library.signer
            quota client kp_64 ref event now s.key_packages in
        (
          answer (λ r. published r.key_package_ref r.is_last_resort r.published_at) done.0,
          record s { key_packages = done.1 },
        )

    unfoldable pub consume_key_package_method :
        String → Store P E W → Result (Answer E) × Store P E W
    consume_key_package_method id s =
        let done = consume_key_package id s.key_packages in
        (
          ok (
              consumed (elim done.0 [
                | none ↦ none
                | some r ↦ some (map_available_key_package r, r.publication_event)
              ])),
          record s { key_packages = done.1 },
        )

    unfoldable pub list_available_key_packages_method :
        Store P E W → Result (Answer E) × Store P E W
    list_available_key_packages_method s =
        (ok (available (map map_available_key_package (list_all_key_packages s.key_packages))), s)

    unfoldable pub fetch_many_pending_join_requests_method :
        List String
        → List ConsumedJoinRequestWithGroupRef
        → Store P E W
        → Result (Answer E) × Store P E W
    fetch_many_pending_join_requests_method groups refs s =
        let done = fetch_many_pending_join_requests groups refs s.join_requests in
        (ok (requests (map map_request done.0)), record s { join_requests = done.1 })

    unfoldable pub fetch_many_group_messages_method :
        List FetchGroupMessagesInput → Store P E W → Result (Answer E) × Store P E W
    fetch_many_group_messages_method inputs s =
        (ok (messages (map map_group_message (fetch_many_group_messages inputs s.hub.groups))), s)

    -- The handler of a tool. A subscription starts here; how its stream ends is `ends` below.
    unfoldable pub handle :
        KeyPackageQuota
        → Method E
        → Option String
        → ℕ
        → Store P E W
        → Result (Answer E) × Store P E W
    handle quota (publish_key_package kp_64 ref event) client now s =
        publish_key_package_method quota client kp_64 ref event now s
    handle quota (consume id) client now s = consume_key_package_method id s
    handle quota list_available client now s = list_available_key_packages_method s
    handle quota (remove refs) client now s =
        let done = remove_key_packages client refs s.key_packages in
        (answer removed done.0, record s { key_packages = done.1 })
    handle quota (fetch_welcomes refs) client now s = fetch_pending_welcomes_method client refs s
    handle quota (store_welcome target ref welcome_64 after) client now s =
        store_welcome_method target ref welcome_64 after now s
    handle quota (store_join_request gid ref) client now s =
        store_join_request_method client gid ref now s
    handle quota (fetch_join_requests groups refs) client now s =
        fetch_many_pending_join_requests_method groups refs s
    handle quota (post_message gid msg_64) client now s = post_group_message_method gid msg_64 now s
    handle quota (fetch_messages inputs) client now s = fetch_many_group_messages_method inputs s
    handle quota (subscribe_many inputs) client now s =
        let done = subscribe_many_group_messages inputs s.hub in
        (ok (subscribed done.0), record s { hub = done.1 })

    -- `registerCoordinatorMethods`: every tool runs behind the limiter.
    unfoldable pub serve :
        Config
        → Method E
        → Option String
        → ℕ
        → Store P E W × Buckets
        → Result (Answer E) × (Store P E W × Buckets)
    serve config method client now s =
        with_rate_limit config.rate_limit client now
          (handle config.key_package_quota method client now) s

  -- The callback of the coordinator's timer. A threshold before the epoch, which the model stops at
  -- 0, deletes nothing, as the source's negative one does.
  unfoldable pub cleanup : ℕ → ℕ → Store P E W → Store P E W
  cleanup max_age_ms now s =
      let threshold = if ltb 0 max_age_ms then now - max_age_ms else 0 in
      record s {
        welcomes = (delete_expired_welcomes threshold s.welcomes).1;
        join_requests = (delete_expired_join_requests threshold s.join_requests).1;
      }

  module _ (library : Library P E W) where
    unfoldable pub step : Config → Event E → Store P E W × Buckets → Store P E W × Buckets
    step config (request method client now) s = (serve library config method client now s).1
    step config (reads id promise) (s, buckets) =
        (record s { hub = (read_next id promise s.hub).1 }, buckets)
    step config (ends group_ids id) (s, buckets) =
        (record s { hub = unsubscribe group_ids id s.hub }, buckets)
    step config (ticks now) (s, buckets) = (cleanup config.max_age_ms now s, buckets)

    unfoldable pub run : Config → List (Event E) → Store P E W × Buckets → Store P E W × Buckets
    run config [] s = s
    run config (e ∷ es) s = run config es (step config e s)
