-- ===== src/Client/AdminPolicy.antt =====
-- packages/cli/src/adminPolicy.ts: who may administer a group.
pub mod Authorisation
use cordn.Prelude.{
  ℕ, String, Bool, true, false, ◌||◌, not, Option, none, some, get_or, List, [], ◌∷◌, if◌then◌else◌,
  ◌==◌, any, find?, string_eq, nat_eq,
}
use cordn.Result.{Result, Error, ok, err, ◌>>=◌, unauthorized_admin_action}
use cordn.Client.Pubkey.{normalize_pubkey}
use cordn.Client.GroupMetadata.{normalize_each}

-- The one field of `CordnGroupMetadata` that the policy reads; `none` when it is absent.
pub record GroupMetadata : Type 0 where
  pub admin_pubkeys : Option (List String)

-- What `listGroupMembers` gives.
pub record GroupMember : Type 0 where
  pub leaf_index : ℕ
  pub stable_pubkey : String

-- The numbers of `defaultProposalTypes`, of ts-mls.
pub record ProposalTypes : Type 0 where
  pub add : ℕ
  pub remove : ℕ
  pub group_context_extensions : ℕ

-- What ts-mls hands to the callback: the types of the proposals, and the sender's leaf if it is known.
pub data Incoming : Type 0 where
  commit : List ℕ → Option ℕ → Incoming
  proposal : ℕ → Option ℕ → Incoming

pub data Action : Type 0 where
  accept : Action
  reject : Action

-- `metadata?.adminPubkeys ?? []`
abbrev pub listed_admins : Option GroupMetadata → List String
listed_admins none = []
listed_admins (some metadata) = get_or metadata.admin_pubkeys []

unfoldable pub get_group_admin_pubkeys : Option GroupMetadata → Result (List String)
get_group_admin_pubkeys metadata = normalize_each (listed_admins metadata)

abbrev pub is_empty : List String → Bool
is_empty [] = true
is_empty (p ∷ ps) = false

unfoldable pub is_egalitarian_group : Option GroupMetadata → Result Bool
is_egalitarian_group metadata = get_group_admin_pubkeys metadata >>= λ admins. ok (is_empty admins)

unfoldable pub is_group_admin : Option GroupMetadata → String → Result Bool
is_group_admin metadata stable_pubkey = normalize_pubkey stable_pubkey >>= λ pubkey.
    get_group_admin_pubkeys metadata >>= λ admins.
    ok (is_empty admins || any (λ admin. admin == pubkey) admins)

unfoldable pub assert_can_administer_group : Option GroupMetadata → String → Result {0} Unit
assert_can_administer_group metadata stable_pubkey =
    is_group_admin metadata stable_pubkey >>= λ admin.
    if not admin then err unauthorized_admin_action else ok tt

module _ (types : ProposalTypes) where
  unfoldable pub is_admin_proposal_type : ℕ → Bool
  is_admin_proposal_type type =
      (type == types.add) || (type == types.remove) || (type == types.group_context_extensions)

  -- `commitRequiresAdmin` and `proposalRequiresAdmin`
  unfoldable pub requires_admin : Incoming → Bool
  requires_admin (commit proposals sender) = any is_admin_proposal_type proposals
  requires_admin (proposal type sender) = is_admin_proposal_type type

  abbrev pub sender_leaf_index : Incoming → Option ℕ
  sender_leaf_index (commit proposals sender) = sender
  sender_leaf_index (proposal type sender) = sender

  -- The decision on a known sender.
  unfoldable pub authorize_sender : Option GroupMetadata → List GroupMember → ℕ → Result Action
  authorize_sender metadata members leaf_index =
      elim (find? (λ member. member.leaf_index == leaf_index) members) [
        | none ↦ ok reject
        | some sender ↦ is_group_admin metadata sender.stable_pubkey >>= λ admin.
            ok (if admin then accept else reject)
      ]

  -- The callback of `createAdminAuthorizationCallback`.
  unfoldable pub authorize : Option GroupMetadata → List GroupMember → Incoming → Result Action
  authorize metadata members incoming =
      if not (requires_admin incoming) then ok accept else elim (sender_leaf_index incoming) [
        | none ↦ ok reject
        | some leaf_index ↦ authorize_sender metadata members leaf_index
      ]
