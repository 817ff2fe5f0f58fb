-- ===== src/Tests/Sqlite.antt =====
-- Runs on the two storages.
use cordn.Prelude.{
  zero, suc, Option, length, ℕ, String, ◌≡◌, refl, Bool, true, false, none, some, List, [], ◌∷◌,
  arith, length, filter, string_eq, nat_eq,
}
use cordn.Prelude.Map
use cordn.Result.{ok}
use cordn.Core.MlsCodec.{
  Codec, Messages, MlsMessage, mls_welcome, other_wireformat, ProtocolVersion, mls10, other_version,
}
use cordn.Core.MlsCodec.Roundtrip.{IsLossless}
use cordn.Storage.Inbox.{pending}
use cordn.Storage.Simulation.{answers}
use cordn.Storage.JoinRequests.{JoinRequestRecord, ConsumedJoinRequestRef}
use cordn.Storage.Groups.{messages_of}
use cordn.Storage.KeyPackages.{PublishedKeyPackageRecord, list_all_key_packages}
use cordn.Storage.Sqlite.JoinRequests.Refinement as Requests
use cordn.Storage.Sqlite.JoinRequests.Runs as RequestRuns
use cordn.Storage.Sqlite.JoinRequests.Runs.{answers-sqlite}
use cordn.Storage.Sqlite.Groups.{GroupTables}
use cordn.Storage.Sqlite.Groups.Refinement as Groups
use cordn.Storage.Sqlite.Groups.Runs as GroupRuns
use cordn.Storage.Sqlite.Groups.Runs.{answers-groups}
use cordn.Storage.Sqlite.Welcomes.Refinement as Welcomes
use cordn.Storage.Sqlite.Welcomes.Runs as WelcomeRuns
use cordn.Storage.Sqlite.Welcomes.Runs.{answers-welcomes}
use cordn.Storage.Sqlite.KeyPackages.{KeyPackageTable, RowFormat}
use cordn.Storage.Sqlite.KeyPackages.Rows.{RestoresRows}
use cordn.Storage.Sqlite.KeyPackages.Refinement as Packages
use cordn.Storage.Sqlite.KeyPackages.Runs as PackageRuns
use cordn.Storage.Sqlite.KeyPackages.Runs.{answers-packages}

abbrev request : String → String → ℕ → JoinRequestRecord
request group who at = record {
  group_id = group;
  requester_stable_pubkey = who;
  key_package_ref = "kp";
  created_at = at;
}

abbrev handled : ConsumedJoinRequestRef
handled = record { requester_stable_pubkey = "alice"; created_at = 10 }

abbrev request_calls : List RequestRuns.Call
request_calls =
    RequestRuns.stores (request "g" "alice" 10)
    ∷ RequestRuns.stores (request "g" "bob" 11)
    ∷ RequestRuns.stores (request "h" "alice" 12)
    ∷ RequestRuns.fetches "g" (handled ∷ [])
    ∷ RequestRuns.fetches_many ("h" ∷ "g" ∷ []) (record { ref = handled; group_id = "g" } ∷ [])
    ∷ RequestRuns.expires 12
    ∷ []

no_requests-Agrees : Requests.Agrees [] []
unfolding pending Map.get filter
no_requests-Agrees = record {
  same = record { queues = λ k. refl; distinct = tt };
  valid = record { queues = λ g. record { few = omega arith; single = tt } };
}

answers-sqlite_example :
    answers RequestRuns.sqlite_step request_calls []
    ≡ answers RequestRuns.memory_step request_calls []
answers-sqlite_example = answers-sqlite request_calls [] [] no_requests-Agrees

abbrev no_messages : GroupTables
no_messages = record { group_routing = []; group_messages = [] }

abbrev group_calls : List GroupRuns.Call
group_calls =
    GroupRuns.appends (record { group_id = "g"; opaque_message = 1 ∷ []; created_at = 10 })
    ∷ GroupRuns.appends (record { group_id = "h"; opaque_message = 2 ∷ []; created_at = 11 })
    ∷ GroupRuns.appends (record { group_id = "g"; opaque_message = 3 ∷ []; created_at = 12 })
    ∷ GroupRuns.fetches (record { group_id = "g"; after_cursor = some 1 })
    ∷ GroupRuns.fetches_many (
        record { group_id = "h"; after_cursor = none }
        ∷ record { group_id = "g"; after_cursor = none }
        ∷ [])
    ∷ GroupRuns.routes "g"
    ∷ []

no_messages-Agrees : Groups.Agrees (length group_calls) no_messages []
unfolding messages_of Map.get filter
no_messages-Agrees = record {
  rows = λ g. refl;
  routing = λ g. refl;
  valid = record { logs = λ g group e. cc };
  room = λ g. omega arith;
}

answers-groups_example :
    answers GroupRuns.sqlite_step group_calls no_messages
    ≡ answers GroupRuns.memory_step group_calls []
answers-groups_example = answers-groups group_calls no_messages [] no_messages-Agrees

-- Welcomes and packages that are numbers, each its own one byte.
abbrev byte_codec : Codec ℕ
byte_codec = record {
  encode = λ w. w ∷ [];
  decoder = λ bytes offset. elim bytes [ [] ↦ none | w ∷ rest ↦ some (w, 1) ];
}

-- Messages of three bytes: the version, the wire format and the content.
abbrev version_of : ℕ → ProtocolVersion
version_of zero = mls10
version_of (suc n) = other_version n

abbrev message_of : ProtocolVersion → ℕ → ℕ → MlsMessage ℕ ℕ
message_of version zero content = other_wireformat version content
message_of version (suc n) content = mls_welcome version content

abbrev version_byte : ProtocolVersion → ℕ
version_byte mls10 = 0
version_byte (other_version n) = suc n

abbrev message_bytes : MlsMessage ℕ ℕ → List ℕ
message_bytes (mls_welcome version w) = version_byte version ∷ 1 ∷ w ∷ []
message_bytes (other_wireformat version b) = version_byte version ∷ 0 ∷ b ∷ []

abbrev read_message : List ℕ → Option (MlsMessage ℕ ℕ × ℕ)
read_message [] = none
read_message (v ∷ []) = none
read_message (v ∷ t ∷ []) = none
read_message (v ∷ t ∷ c ∷ rest) = some (message_of (version_of v) t c, 3)

abbrev byte_messages : Messages ℕ ℕ
byte_messages = record { encode = message_bytes; decoder = λ bytes offset. read_message bytes }

read-message_bytes :
    (message : MlsMessage ℕ ℕ)
    → read_message (message_bytes message) ≡ some (message, length (message_bytes message))
read-message_bytes (mls_welcome mls10 w) = refl
read-message_bytes (mls_welcome (other_version n) w) = refl
read-message_bytes (other_wireformat mls10 b) = refl
read-message_bytes (other_wireformat (other_version n) b) = refl

byte_messages-IsLossless : IsLossless byte_messages
byte_messages-IsLossless = record { decodes = read-message_bytes }

byte_codec-IsLossless : IsLossless byte_codec
byte_codec-IsLossless = record { decodes = λ w. refl }

abbrev welcome_calls : List (WelcomeRuns.Call ℕ)
welcome_calls =
    WelcomeRuns.stores (record {
      target_stable_pubkey = "bob";
      key_package_reference = "kp";
      welcome = 5;
      created_at = 10;
      join_after_cursor = some 3;
    })
    ∷ WelcomeRuns.stores (record {
      target_stable_pubkey = "bob";
      key_package_reference = "kp";
      welcome = 6;
      created_at = 11;
      join_after_cursor = none;
    })
    ∷ WelcomeRuns.fetches "bob" (record { key_package_reference = "kp"; created_at = 10 } ∷ [])
    ∷ WelcomeRuns.expires 12
    ∷ []

no_welcomes-Agrees : Welcomes.Agrees byte_messages [] []
unfolding pending Map.get filter
no_welcomes-Agrees = record {
  kept = [];
  encoded = refl;
  same = record { queues = λ k. refl; distinct = tt };
}

answers-welcomes_example :
    answers (WelcomeRuns.sqlite_step byte_messages) welcome_calls []
    ≡ answers WelcomeRuns.memory_step welcome_calls []
answers-welcomes_example =
    answers-welcomes byte_messages welcome_calls [] [] byte_messages-IsLossless no_welcomes-Agrees

abbrev text_format : RowFormat ℕ String
text_format = record { codec = byte_codec; stringify = λ e. e; parse = λ s. ok s }

text_format-RestoresRows : RestoresRows text_format
text_format-RestoresRows = record { lossless = byte_codec-IsLossless; parses = λ e. refl }

abbrev kp_record : String → Bool → PublishedKeyPackageRecord ℕ String
kp_record ref last_resort = record {
  stable_pubkey = "alice";
  key_package = 9;
  key_package_ref = ref;
  is_last_resort = last_resort;
  published_at = 10;
  publication_event = ref;
}

abbrev package_calls : List (PackageRuns.Call ℕ String)
package_calls =
    PackageRuns.publishes (kp_record "a1" true)
    ∷ PackageRuns.publishes (kp_record "a2" false)
    ∷ PackageRuns.publishes (kp_record "a2" false)
    ∷ PackageRuns.consumes "alice"
    ∷ PackageRuns.consumes "alice"
    ∷ PackageRuns.gets "a1"
    ∷ PackageRuns.removes "a1"
    ∷ PackageRuns.lists "alice"
    ∷ []

abbrev no_packages : KeyPackageTable
no_packages = record { next_id = 1; rows = [] }

no_packages-Agrees : Packages.Agrees text_format no_packages []
unfolding pending Map.get filter list_all_key_packages
no_packages-Agrees = record {
  kept = [];
  encoded = refl;
  ordered = tt;
  unique = tt;
  queues = λ k. refl;
  owners = tt;
  valid = record { distinct = tt; unique = tt };
}

answers-packages_example :
    answers (PackageRuns.sqlite_step text_format) package_calls no_packages
    ≡ answers PackageRuns.memory_step package_calls []
answers-packages_example =
    answers-packages text_format package_calls no_packages [] text_format-RestoresRows
      no_packages-Agrees
