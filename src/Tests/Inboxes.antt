-- ===== src/Tests/Inboxes.antt =====
-- Welcomes, and the parts that inboxes share.
use cordn.Prelude.{
  ◌↔◌, ◌⊎◌, ◌==◌, false, All, Contains, ℕ, String, ◌≡◌, refl, none, some, List, [], ◌∷◌, leb,
  filter, string_eq, nat_eq,
}
use cordn.Prelude.Map
use cordn.Storage.Inbox.{pending, fetch, delete_expired}
use cordn.Storage.Inbox.Laws.{pending-delete_expired}
use cordn.Storage.Inbox.Handled.{fetch-leaves}
use cordn.Storage.Welcomes.{names_welcome, WelcomeQueueRecord, WelcomeInbox, ConsumedWelcomeRef}
use cordn.Coordinator.Welcomes.{StoreWelcomeInput, submit_welcome}
use cordn.Coordinator.Welcomes.Acknowledgement
use cordn.Coordinator.Welcomes.Acknowledgement.{submit_welcome-IsValid, submit_welcome_again}

abbrev encode : ℕ → List ℕ
encode w = w ∷ []

abbrev invitation : StoreWelcomeInput ℕ
invitation = record {
  target_stable_pubkey = "bob";
  key_package_reference = "kp";
  welcome = 5;
  join_after_cursor = some 3;
}

abbrev first : WelcomeQueueRecord ℕ
first = record {
  target_stable_pubkey = "bob";
  key_package_reference = "kp";
  welcome = 4;
  created_at = 100;
  join_after_cursor = none;
}

abbrev inbox : WelcomeInbox ℕ
inbox = ("bob", first ∷ []) ∷ []

submit_welcome_again_example :
    submit_welcome encode invitation 101 (submit_welcome encode invitation 100 inbox).1
    ≡ submit_welcome encode invitation 100 inbox
submit_welcome_again_example = submit_welcome_again encode invitation 100 101 inbox

no_welcomes-IsValid : Acknowledgement.IsValid {W = ℕ} []
unfolding Map.get pending
no_welcomes-IsValid = record { named = λ target. tt }

submit_welcome-IsValid_example :
    Acknowledgement.IsValid
      (submit_welcome encode invitation 100 (submit_welcome encode invitation 100 []).1).1
submit_welcome-IsValid_example =
    submit_welcome-IsValid encode invitation 100 (submit_welcome encode invitation 100 []).1
      (submit_welcome-IsValid encode invitation 100 [] no_welcomes-IsValid)

abbrev handled : List ConsumedWelcomeRef
handled = record { key_package_reference = "kp"; created_at = 100 } ∷ []

abbrev bob : String
bob = "bob"

pending-delete_expired_example :
    pending "bob" (delete_expired (λ (r : WelcomeQueueRecord ℕ). r.created_at) 101 inbox).1
    ≡ filter (λ r. leb 101 r.created_at) (pending "bob" inbox)
unfolding Map.get
pending-delete_expired_example =
    pending-delete_expired (λ r. r.created_at) 101 "bob" inbox (refl, tt)

fetch-leaves_example :
    (Contains first (pending bob (fetch names_welcome bob handled inbox).1) ↔ (
      Contains first (pending bob inbox)
      × (((bob == bob) ≡ false) ⊎ All (λ c. names_welcome c first ≡ false) handled)))
    × ((fetch names_welcome bob handled inbox).0
        ≡ pending bob (fetch names_welcome bob handled inbox).1)
fetch-leaves_example = fetch-leaves names_welcome first bob bob handled inbox
