-- ===== src/Tests/Adapter.antt =====
-- The coordinator's methods on a run of a few events.
use cordn.Prelude.{String, refl, true, false, none, some, List, [], ◌∷◌, arith, string_eq, nat_eq}
use cordn.Prelude.Map
use cordn.Storage.Inbox.{pending}
use cordn.Storage.KeyPackages.{get_key_package, find_key_package, list_all_key_packages}
use cordn.Coordinator.Subscriptions.{Hub}
use cordn.Server.Adapter.{
  Library, Config, Store, Event, request, reads, ends, ticks, publish_key_package, consume,
  post_message, subscribe_many, run,
}
use cordn.Server.Adapter.Invariant.{IsValid, run-IsValid}

-- A key package, an event and a welcome are texts, and name the identity that they are of.
abbrev library : Library String String String
library = record {
  decode_key_package = λ t. some t;
  identity = λ t. some t;
  is_last_resort = λ t. false;
  signer = λ t. t;
  decode_welcome = λ t. some t;
  encode_welcome = λ t. t;
  welcome_bytes = λ t. [];
  decode_base64 = λ t. some (1 ∷ []);
  encode_base64 = λ bytes. "AQ==";
}

abbrev config : Config
config = record {
  rate_limit = record { enabled = true; refill_per_minute = 60; burst = 2; idle_ttl_ms = 60000 };
  key_package_quota = record { max_per_identity = 2; max_last_resort_per_identity = 1 };
  max_age_ms = 1000;
}

abbrev empty_hub : Hub
empty_hub = record {
  groups = [];
  group_subscribers = [];
  subscriber_refcounts = [];
  subscribers = [];
  next_subscriber = 0;
}

abbrev empty_store : Store String String String
empty_store = record { key_packages = []; welcomes = []; join_requests = []; hub = empty_hub }

empty_store-IsValid : IsValid config.key_package_quota empty_store
unfolding pending Map.get list_all_key_packages
empty_store-IsValid = record {
  key_packages = record {
    valid = record { distinct = tt; unique = tt };
    counts = λ k. omega arith;
  };
  welcomes = record { distinct = tt; named = record { named = λ k. tt } };
  join_requests = record {
    distinct = tt;
    bounded = record { queues = λ g. record { few = omega arith; single = tt } };
  };
  hub = record { groups = record { logs = λ g group h. cc }; sets = λ g. tt };
}

-- Alice publishes a key package, Bob consumes it, subscribes and posts, and a cleanup runs.
abbrev events : List (Event String)
events =
    request (publish_key_package "alice" "r1" (some "alice")) (some "alice") 10
    ∷ request (consume "alice") (some "bob") 20
    ∷ request (subscribe_many (record { group_id = "g"; after_cursor = none } ∷ [])) (some "bob") 30
    ∷ request (post_message "g" "AQ==") (some "bob") 40
    ∷ reads 0 0
    ∷ ends ("g" ∷ []) 0
    ∷ ticks 5000
    ∷ []

run-IsValid_example :
    IsValid config.key_package_quota (run library config events (empty_store, [])).0
unfolding get_key_package find_key_package
run-IsValid_example =
    run-IsValid library config events empty_store []
      (record { total = omega arith; last_resorts = omega arith }) empty_store-IsValid
      (refl, (tt, (tt, (tt, (tt, (tt, (tt, tt)))))))
