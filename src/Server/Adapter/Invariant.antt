-- ===== src/Server/Adapter/Invariant.antt =====
-- What holds of the coordinator's state through any events.
use cordn.Prelude.{
  ℕ, String, ◌≡◌, subst, inl, inr, Option, none, List, [], ◌∷◌, arith, Bool-cases, Option-cases,
  string_eq,
}
use cordn.Result.{ok, Result-cases}
use cordn.Storage.KeyPackages.{get_key_package}
use cordn.Coordinator.Subscriptions.Calls as Calls
use cordn.Coordinator.Subscriptions.Stream.{subscribe_many-IsValid}
use cordn.Coordinator.Subscriptions.Departure.{unsubscribe-IsValid}
use cordn.Coordinator.JoinRequests.{StoreJoinRequestInput, new_request, submit_join_request}
use cordn.Storage.Inbox.{pending}
use cordn.Server.RateLimit as RateLimit
use cordn.Server.RateLimit.{Buckets}
use cordn.Server.Methods as Methods
use cordn.Server.Methods.{KeyPackageQuota, require_client_pubkey, with_rate_limit}
use cordn.Server.Methods.Quota.{IsLimiting}
use cordn.Server.Adapter.{
  Library, Config, Store, Method, publish_key_package, consume, list_available, remove,
  fetch_welcomes, store_welcome, store_join_request, fetch_join_requests, post_message,
  fetch_messages, subscribe_many, Event, request, reads, ends, ticks, handle, serve, cleanup, step,
  run, store_welcome_method, fetch_pending_welcomes_method, store_join_request_method,
  post_group_message_method, publish_key_package_method, consume_key_package_method,
  list_available_key_packages_method, fetch_many_pending_join_requests_method,
  fetch_many_group_messages_method, ConsumedWelcomeRef, JoinRequestInbox,
  consume_key_package_method, list_available_key_packages_method,
  fetch_many_pending_join_requests_method,
}
use cordn.Server.Adapter.Counts.{
  IsWithin, Shrunk-IsWithin, consume_key_package-Shrunk, remove_key_packages-Shrunk,
  publish-IsWithin,
}
use cordn.Server.Adapter.Inboxes.{
  IsNamed, IsBounded, fetch-IsNamed, cleanup-IsNamed, submit_welcome-IsNamed,
  store_join_request-IsBounded, fetch_many-IsBounded, cleanup-IsBounded,
}

module _ {P E W : Type 0} where
  -- Every identity is within its quota, a reference names one key package, no acknowledgement names
  -- two welcomes, no group has more join requests than allowed or two of one requester, and every
  -- group's cursors count its messages.
  pub record IsValid (quota : KeyPackageQuota) (s : Store P E W) : Type 0 where
    pub key_packages : IsWithin quota s.key_packages
    pub welcomes : IsNamed s.welcomes
    pub join_requests : IsBounded s.join_requests
    pub hub : Calls.IsValid s.hub

  -- A publication brings a reference that is not there.
  abbrev pub IsFresh : Method E → Store P E W → Type 0
  IsFresh (publish_key_package kp_64 ref event) s = get_key_package ref s.key_packages ≡ none
  IsFresh method s = Unit

  module _ (library : Library P E W) where
    welcome-IsValid :
        (quota : KeyPackageQuota) (target ref welcome_64 : String) (after : Option ℕ) (now : ℕ)
        (s : Store P E W)
        → IsValid quota s
        → IsValid quota (store_welcome_method library target ref welcome_64 after now s).1
    unfolding store_welcome_method
    welcome-IsValid quota target ref welcome_64 after now s v =
        elim (Option-cases (library.decode_welcome welcome_64)) [
          | inl e ↦ rw (e, store_welcome_method) v
          | inr (w, e) ↦
              rw (e, store_welcome_method)
                (record {
                  key_packages = v.key_packages;
                  welcomes =
                      submit_welcome-IsNamed library.welcome_bytes _ now s.welcomes v.welcomes;
                  join_requests = v.join_requests;
                  hub = v.hub;
                })
        ]

    fetch-IsValid :
        (quota : KeyPackageQuota) (client : Option String) (refs : List ConsumedWelcomeRef)
        (s : Store P E W)
        → IsValid quota s
        → IsValid quota (fetch_pending_welcomes_method library client refs s).1
    unfolding fetch_pending_welcomes_method
    fetch-IsValid quota client refs s v = elim (Result-cases (require_client_pubkey client)) [
      | inr (x, e) ↦ rw (e, fetch_pending_welcomes_method) v
      | inl (pubkey, e) ↦
          rw (e, fetch_pending_welcomes_method)
            (record {
              key_packages = v.key_packages;
              welcomes = fetch-IsNamed pubkey refs s.welcomes v.welcomes;
              join_requests = v.join_requests;
              hub = v.hub;
            })
    ]

    -- A join request that is stored went through `submit_join_request`.
    stored-IsBounded :
        (client : Option String) (gid ref : String) (now at : ℕ) (s : Store P E W)
        (m' : JoinRequestInbox)
        → IsBounded s.join_requests
        → Methods.store_join_request client gid ref now s.key_packages s.join_requests ≡ ok (at, m')
        → IsBounded m'
    unfolding Methods.store_join_request
    stored-IsBounded client gid ref now at s m' b h =
        elim (Result-cases (require_client_pubkey client)) [
          | inr (x, e) ↦ absurd (ground arith)
          | inl (pubkey, e) ↦
              let input : StoreJoinRequestInput = record {
                group_id = gid;
                requester_stable_pubkey = pubkey;
                key_package_ref = ref;
              } in
              let new = new_request input now (pending gid s.join_requests) in
              elim (Result-cases (submit_join_request input now s.join_requests)) [
                | inr (x, f) ↦ absurd (ground arith)
                | inl ((kept, m''), f) ↦
                    let same : m'' ≡ m' = ground arith in
                    subst IsBounded same (
                      store_join_request-IsBounded new kept s.join_requests m'' b
                        (unfold submit_join_request in f))
              ]
        ]

    join_request-IsValid :
        (quota : KeyPackageQuota) (client : Option String) (gid ref : String) (now : ℕ)
        (s : Store P E W)
        → IsValid quota s
        → IsValid quota (store_join_request_method library client gid ref now s).1
    unfolding store_join_request_method
    join_request-IsValid quota client gid ref now s v =
        elim (Result-cases
          (Methods.store_join_request client gid ref now s.key_packages s.join_requests)) [
            | inr (x, e) ↦ rw (e, store_join_request_method) v
            | inl ((at, m'), e) ↦
                rw (e, store_join_request_method)
                  (record {
                    key_packages = v.key_packages;
                    welcomes = v.welcomes;
                    join_requests = stored-IsBounded client gid ref now at s m' v.join_requests e;
                    hub = v.hub;
                  })
          ]

    post-IsValid :
        (quota : KeyPackageQuota) (gid msg_64 : String) (now : ℕ) (s : Store P E W)
        → IsValid quota s
        → IsValid quota (post_group_message_method library gid msg_64 now s).1
    unfolding post_group_message_method Calls.step
    post-IsValid quota gid msg_64 now s v = elim (Option-cases (library.decode_base64 msg_64)) [
      | inl e ↦ rw (e, post_group_message_method) v
      | inr (bytes, e) ↦
          rw (e, post_group_message_method)
            (record {
              key_packages = v.key_packages;
              welcomes = v.welcomes;
              join_requests = v.join_requests;
              hub =
                  Calls.step-IsValid 0
                    (Calls.posts
                      (record { group_id = gid; opaque_message = bytes; created_at = now }))
                    s.hub v.hub;
            })
    ]

    handle-IsValid :
        (quota : KeyPackageQuota) (method : Method E) (client : Option String) (now : ℕ)
        (s : Store P E W)
        → IsLimiting quota
        → IsValid quota s
        → IsFresh method s
        → IsValid quota (handle library quota method client now s).1
    unfolding handle publish_key_package_method consume_key_package_method
        list_available_key_packages_method fetch_many_pending_join_requests_method
        fetch_many_group_messages_method
    handle-IsValid quota (publish_key_package kp_64 ref event) client now s limits v fresh =
        record {
          key_packages =
              publish-IsWithin library.decode_key_package library.identity library.is_last_resort
                library.signer quota client kp_64 ref event now s.key_packages limits v.key_packages
                fresh;
          welcomes = v.welcomes;
          join_requests = v.join_requests;
          hub = v.hub;
        }
    handle-IsValid quota (consume id) client now s limits v fresh = record {
      key_packages =
          Shrunk-IsWithin quota _ _ v.key_packages
            (consume_key_package-Shrunk id s.key_packages v.key_packages.valid);
      welcomes = v.welcomes;
      join_requests = v.join_requests;
      hub = v.hub;
    }
    handle-IsValid quota list_available client now s limits v fresh = v
    handle-IsValid quota (remove refs) client now s limits v fresh = record {
      key_packages =
          Shrunk-IsWithin quota _ _ v.key_packages
            (remove_key_packages-Shrunk client refs s.key_packages v.key_packages.valid);
      welcomes = v.welcomes;
      join_requests = v.join_requests;
      hub = v.hub;
    }
    handle-IsValid quota (fetch_welcomes refs) client now s limits v fresh =
        fetch-IsValid quota client refs s v
    handle-IsValid quota (store_welcome target ref welcome_64 after) client now s limits v fresh =
        welcome-IsValid quota target ref welcome_64 after now s v
    handle-IsValid quota (store_join_request gid ref) client now s limits v fresh =
        join_request-IsValid quota client gid ref now s v
    handle-IsValid quota (fetch_join_requests groups refs) client now s limits v fresh = record {
      key_packages = v.key_packages;
      welcomes = v.welcomes;
      join_requests = fetch_many-IsBounded groups refs s.join_requests v.join_requests;
      hub = v.hub;
    }
    handle-IsValid quota (post_message gid msg_64) client now s limits v fresh =
        post-IsValid quota gid msg_64 now s v
    handle-IsValid quota (fetch_messages inputs) client now s limits v fresh = v
    handle-IsValid quota (subscribe_many inputs) client now s limits v fresh = record {
      key_packages = v.key_packages;
      welcomes = v.welcomes;
      join_requests = v.join_requests;
      hub = subscribe_many-IsValid inputs s.hub v.hub;
    }

    -- A request that the limiter refuses changes nothing, and another runs its handler.
    serve-IsValid :
        (config : Config) (method : Method E) (client : Option String) (now : ℕ) (s : Store P E W)
        (buckets : Buckets)
        → IsLimiting config.key_package_quota
        → IsValid config.key_package_quota s
        → IsFresh method s
        → IsValid config.key_package_quota (serve library config method client now (s, buckets)).1.0
    unfolding serve with_rate_limit
    serve-IsValid config method client now s buckets limits v fresh =
        elim (Result-cases (require_client_pubkey client)) [
          | inr (x, e) ↦ rw (e, with_rate_limit) v
          | inl (pubkey, e) ↦
              elim (Bool-cases (RateLimit.check config.rate_limit pubkey now buckets).0) [
                | inl granted ↦
                    rw (e, with_rate_limit)
                      (rw granted (
                        handle-IsValid config.key_package_quota method client now s limits v fresh))
                | inr refused ↦ rw (e, with_rate_limit) (rw refused v)
              ]
        ]

  -- The publication of an event, if it is one, brings a new reference.
  abbrev pub IsFreshEvent : Event E → Store P E W → Type 0
  IsFreshEvent (request method client now) s = IsFresh method s
  IsFreshEvent event s = Unit

  module _ (library : Library P E W) (config : Config) where
    -- Every publication of the events brings a reference that is not there at its turn.
    abbrev pub AllFresh : List (Event E) → Store P E W × Buckets → Type 0
    AllFresh [] s = Unit
    AllFresh (e ∷ es) s = IsFreshEvent e s.0 × AllFresh es (step library config e s)

    step-IsValid :
        (event : Event E) (s : Store P E W) (buckets : Buckets)
        → IsLimiting config.key_package_quota
        → IsValid config.key_package_quota s
        → IsFreshEvent event s
        → IsValid config.key_package_quota (step library config event (s, buckets)).0
    unfolding step cleanup Calls.step
    step-IsValid (request method client now) s buckets limits v fresh =
        serve-IsValid library config method client now s buckets limits v fresh
    step-IsValid (reads id promise) s buckets limits v fresh = record {
      key_packages = v.key_packages;
      welcomes = v.welcomes;
      join_requests = v.join_requests;
      hub = Calls.step-IsValid 0 (Calls.reads id promise) s.hub v.hub;
    }
    step-IsValid (ends group_ids id) s buckets limits v fresh = record {
      key_packages = v.key_packages;
      welcomes = v.welcomes;
      join_requests = v.join_requests;
      hub = unsubscribe-IsValid group_ids id s.hub v.hub;
    }
    step-IsValid (ticks now) s buckets limits v fresh = record {
      key_packages = v.key_packages;
      welcomes = cleanup-IsNamed _ s.welcomes v.welcomes;
      join_requests = cleanup-IsBounded _ s.join_requests v.join_requests;
      hub = v.hub;
    }

    -- Through any requests of any clients, reads and ends of subscriptions and runs of the cleanup
    -- timer, at any readings of the clock, the coordinator's state stays valid under a quota that
    -- limits both counts, if every publication that is asked for brings a new reference.
    pub run-IsValid :
        (events : List (Event E)) (s : Store P E W) (buckets : Buckets)
        → IsLimiting config.key_package_quota
        → IsValid config.key_package_quota s
        → AllFresh events (s, buckets)
        → IsValid config.key_package_quota (run library config events (s, buckets)).0
    unfolding run
    run-IsValid [] s buckets limits v fresh = v
    run-IsValid (e ∷ es) s buckets limits v fresh =
        let next = step library config e (s, buckets) in
        run-IsValid es next.0 next.1 limits (step-IsValid e s buckets limits v fresh.0) fresh.1
