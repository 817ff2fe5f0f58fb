-- ===== src/Coordinator/JoinRequests.antt =====
-- `storeJoinRequest` of `Coordinator` (packages/coordinator/src/coordinator.ts). `now` is the
-- reading of the clock.
pub mod Renewal
use cordn.Storage.JoinRequests.{
  JoinRequestRecord, JoinRequestInbox, requested_by, store_join_request,
}
use cordn.Result.{Result}
use cordn.Coordinator.Welcomes.{next_created_at}
use cordn.Storage.Inbox.{pending}
use cordn.Prelude.{ℕ, String, List, filter, string_eq}

pub record StoreJoinRequestInput : Type 0 where
  pub group_id : String
  pub requester_stable_pubkey : String
  pub key_package_ref : String

unfoldable pub new_request : StoreJoinRequestInput → ℕ → List JoinRequestRecord → JoinRequestRecord
new_request input now rs = record {
  group_id = input.group_id;
  requester_stable_pubkey = input.requester_stable_pubkey;
  key_package_ref = input.key_package_ref;
  created_at =
      next_created_at (λ r. r.created_at) now
        (filter (requested_by input.requester_stable_pubkey) rs);
}

unfoldable pub submit_join_request :
    StoreJoinRequestInput → ℕ → JoinRequestInbox → Result (JoinRequestRecord × JoinRequestInbox)
submit_join_request input now m =
    store_join_request (new_request input now (pending input.group_id m)) m
