-- ===== src/Tests/Requests.antt =====
-- Join requests and the rate limiter.
use cordn.Prelude.{
  ℕ, String, ◌≡◌, refl, inr, ◌&&◌, ◌==◌, if◌then◌else◌, ◌<◌, nat_eq, true, false, some, [], ◌∷◌,
  arith, ◌+◌, ◌-◌, ◌*◌, ◌≤◌, get_elem?, filter, find?, string_eq, String_discrete, nat_eq,
}
use cordn.Prelude.Map
use cordn.Result.{ok}
use cordn.Storage.Inbox.{pending}
use cordn.Storage.JoinRequests.{
  JoinRequestRecord, JoinRequestInbox, requested_by, store_join_request,
  fetch_pending_join_requests,
}
use cordn.Storage.JoinRequests.Bounds
use cordn.Storage.JoinRequests.Bounds.{store_join_request-IsValid}
use cordn.Coordinator.JoinRequests.{StoreJoinRequestInput, submit_join_request, new_request}
use cordn.Coordinator.JoinRequests.Renewal.{ack, submit_join_request-renewal}
use cordn.Coordinator.Welcomes.{next_created_at}
use cordn.Server.RateLimit.{TokenBucketRateLimitConfig, one}
use cordn.Server.RateLimit.Bound.{Calls, last_time, granted, granted-burst}
use cordn.Server.Methods
use cordn.Server.Methods.{require_client_pubkey}
use cordn.Server.Methods.Authorisation.{owner_of, store_join_request-owner_of}
use cordn.Storage.KeyPackages.{KeyPackageIndex, get_key_package, find_key_package, find_index}

abbrev request : JoinRequestRecord
request = record {
  group_id = "g";
  requester_stable_pubkey = "carol";
  key_package_ref = "c1";
  created_at = 5;
}

abbrev one_request : JoinRequestInbox
one_request = ("g", request ∷ []) ∷ []

no_requests-IsValid : Bounds.IsValid []
unfolding pending Map.get
no_requests-IsValid = record { queues = λ g. record { few = omega arith; single = tt } }

store_join_request-IsValid_example : Bounds.IsValid one_request
unfolding store_join_request pending Map.get Map.set find?
store_join_request-IsValid_example =
    store_join_request-IsValid request request [] one_request no_requests-IsValid refl

abbrev again : StoreJoinRequestInput
again = record { group_id = "g"; requester_stable_pubkey = "carol"; key_package_ref = "c2" }

submit_join_request-renewal_example :
    (at : ℕ) × (m' : JoinRequestInbox) × (submit_join_request again 5 one_request
      ≡ ok (record request { key_package_ref = "c2"; created_at = at }, m'))
    × (5 < at)
    × (5 ≤ at)
    × (find? (requested_by "carol") (fetch_pending_join_requests "g" (ack request ∷ []) m').0
        ≡ some (record request { key_package_ref = "c2"; created_at = at }))
unfolding pending Map.get find? String_discrete
submit_join_request-renewal_example = submit_join_request-renewal again 5 one_request request refl

abbrev packages : KeyPackageIndex String String
packages =
    (
      "carol",
      record {
        stable_pubkey = "carol";
        key_package = "kp";
        key_package_ref = "c1";
        is_last_resort = false;
        published_at = 1;
        publication_event = "e";
      }
          ∷ [],
    )
    ∷ []

store_join_request-owner_of_example :
    (owner_of packages "c1" ≡ some "carol")
    × ((kept : JoinRequestRecord) × (kept.key_package_ref ≡ "c1")
        × (kept.created_at ≡ 5)
        × ((g p : String)
            → find? (requested_by p) (pending g one_request) ≡ (
                if ("g" == g) && ("carol" == p)
                then some kept
                else find? (requested_by p) (pending g []))))
unfolding Methods.store_join_request submit_join_request store_join_request new_request
    next_created_at require_client_pubkey get_key_package find_key_package find_index get_elem?
    pending Map.get Map.set find? filter String_discrete
store_join_request-owner_of_example =
    store_join_request-owner_of "carol" "g" "c1" 5 5 packages [] one_request refl

abbrev config : TokenBucketRateLimitConfig
config = record { enabled = true; refill_per_minute = 60; burst = 2; idle_ttl_ms = 60000 }

abbrev requests : Calls
requests = ("eve", 100) ∷ ("bob", 100) ∷ ("eve", 101) ∷ ("eve", 102) ∷ ("eve", 70000) ∷ []

granted-burst_example :
    granted config "eve" requests [] * one
    ≤ config.burst * one + (last_time 100 requests - 100) * config.refill_per_minute
granted-burst_example =
    granted-burst config "eve" 100 requests refl (record { refilled = inr (omega arith) })
      (omega arith, (omega arith, (omega arith, (omega arith, (omega arith, tt)))))
