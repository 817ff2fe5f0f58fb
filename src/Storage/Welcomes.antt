-- ===== src/Storage/Welcomes.antt =====
-- The welcomes of `InMemoryCoordinatorStorage` (packages/coordinator/src/storage/inMemoryStorage.ts):
-- a map from the target identity to its queue. `W` is the type of MLS welcomes, of ts-mls.
use cordn.Prelude.{ℕ, String, Bool, ◌&&◌, Option, List, [], ◌∷◌, ◌++◌, ◌==◌, string_eq, nat_eq}
use cordn.Prelude.Map
use cordn.Storage.Inbox.{Inbox, pending, fetch, delete_expired}

pub record WelcomeQueueRecord (W : Type 0) : Type 0 where
  pub target_stable_pubkey : String
  pub key_package_reference : String
  pub welcome : W
  pub created_at : ℕ
  pub join_after_cursor : Option ℕ

pub record ConsumedWelcomeRef : Type 0 where
  pub key_package_reference : String
  pub created_at : ℕ

abbrev pub WelcomeInbox : Type 0 → Type 0
WelcomeInbox W = Inbox String (WelcomeQueueRecord W)

abbrev pub names_welcome : {W : Type 0} → ConsumedWelcomeRef → WelcomeQueueRecord W → Bool
names_welcome c r =
    (c.key_package_reference == r.key_package_reference) && (c.created_at == r.created_at)

unfoldable pub store_welcome : {W : Type 0} → WelcomeQueueRecord W → WelcomeInbox W → WelcomeInbox W
store_welcome record_ m =
    Map.set record_.target_stable_pubkey (pending record_.target_stable_pubkey m ++ record_ ∷ []) m

unfoldable pub fetch_pending_welcomes :
    {W : Type 0}
    → String
    → List ConsumedWelcomeRef
    → WelcomeInbox W
    → List (WelcomeQueueRecord W) × WelcomeInbox W
unfolding fetch
fetch_pending_welcomes target consumed m = fetch names_welcome target consumed m

unfoldable pub delete_expired_welcomes : {W : Type 0} → ℕ → WelcomeInbox W → ℕ × WelcomeInbox W
delete_expired_welcomes threshold m = delete_expired (λ r. r.created_at) threshold m
