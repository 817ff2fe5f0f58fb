-- ===== src/Tests/Sync.antt =====
-- Ingestion over a group state that is a number, and the admin policy.
use cordn.Prelude.{
  ℕ_discrete, ℕ, suc, String, ◌≡◌, refl, inl, inr, false, Option, none, some, List, [], ◌∷◌, arith,
  if◌then◌else◌, ◌==◌, Bool-cases, any, find?, Contains, string_eq, nat_eq, String_discrete,
}
use cordn.Result.{Result, ok, err, unexpected_end_of_uint16}
use cordn.Client.Pubkey.{normalize_pubkey, is_hex, lower_hex}
use cordn.Client.AdminPolicy.{
  GroupMetadata, GroupMember, ProposalTypes, Incoming, commit, Action, accept, reject,
  get_group_admin_pubkeys, is_group_admin, is_admin_proposal_type, requires_admin,
  sender_leaf_index, authorize_sender, authorize,
}
use cordn.Client.GroupMetadata.{
  normalize_each, get_cordn_group_metadata_extension, decode_cordn_group_metadata, decode_uint16,
}
use cordn.Client.AdminPolicy.Authorisation.{Administers, authorize-Administers}
use cordn.Client.GroupSync.{
  metadata_failed, RawGroupMessage, Outcome, thrown, new_state, application_message, Mls, Ingestion,
  active, advance, is_applied_locally,
}
use cordn.Client.GroupSync.Ingest.{
  Ingested, set_state, read_metadata, settle_membership, find_member_leaf_index, adopt, confirm_own,
  on_new_state, on_processed, ingest_message, ingest_group_messages,
}
use cordn.Client.GroupSync.Runs.{Resumable, ingest_group_messages-Resumable}
use cordn.Client.GroupSync.Authority.{Adopts, AsksFirst, Authorised, ingest_message-Authorised}

abbrev alice : String
alice = "aaaaaaaaaaaaaaaaaaaaaaaaaaaaaaaaaaaaaaaaaaaaaaaaaaaaaaaaaaaaaaaa"

abbrev alice_upper : String
alice_upper = "AAAAAAAAAAAAAAAAAAAAAAAAAAAAAAAAAAAAAAAAAAAAAAAAAAAAAAAAAAAAAAAA"

abbrev bob : String
bob = "bbbbbbbbbbbbbbbbbbbbbbbbbbbbbbbbbbbbbbbbbbbbbbbbbbbbbbbbbbbbbbbb"

abbrev rfc_types : ProposalTypes
rfc_types = record { add = 1; remove = 3; group_context_extensions = 7 }

abbrev ruled_by_alice : Option GroupMetadata
ruled_by_alice = some (record { admin_pubkeys = some (alice_upper ∷ []) })

abbrev two_members : List GroupMember
two_members =
    record { leaf_index = 0; stable_pubkey = alice }
    ∷ record { leaf_index = 1; stable_pubkey = bob }
    ∷ []

abbrev add_by_alice : Incoming
add_by_alice = commit (2 ∷ 1 ∷ []) (some 0)

authorize-Administers_example :
    (sender : GroupMember) × Contains sender two_members
    × (sender_leaf_index rfc_types add_by_alice ≡ some sender.leaf_index)
    × Administers ruled_by_alice sender.stable_pubkey
unfolding authorize authorize_sender requires_admin is_admin_proposal_type is_group_admin
    get_group_admin_pubkeys normalize_each normalize_pubkey is_hex lower_hex find? any
    String_discrete ℕ_discrete
authorize-Administers_example =
    authorize-Administers rfc_types ruled_by_alice two_members add_by_alice refl refl

bob_is_refused :
    authorize rfc_types ruled_by_alice two_members (commit (1 ∷ []) (some 1)) ≡ ok reject
unfolding authorize authorize_sender requires_admin is_admin_proposal_type is_group_admin
    get_group_admin_pubkeys normalize_each normalize_pubkey is_hex lower_hex find? any
    String_discrete ℕ_discrete
bob_is_refused = refl

-- What the small MLS does once the callback has answered.
abbrev reply : ℕ → Result Action → Outcome ℕ
reply s (ok accept) = new_state (suc s) (some accept)
reply s (ok reject) = new_state s (some reject)
reply s (err e) = thrown "callback"

abbrev counter : Mls ℕ
counter = record {
  types = rfc_types;
  process = λ s text ask.
      if text == "commit"
      then record { presented = add_by_alice ∷ []; outcome = reply s (ask add_by_alice) }
      else if text == "hello"
      then record { presented = []; outcome = application_message s (1 ∷ []) (7 ∷ []) }
      else record { presented = []; outcome = thrown "Desired gen in the past" };
  members = λ s. two_members;
  extensions = λ s. [];
  platform = record {
    utf8_encode = λ t. [];
    utf8_decode = λ bytes. none;
    hex_to_bytes = λ t. [];
    bytes_to_hex = λ bytes. "";
    trim = λ t. t;
  };
  is_removed = λ s. false;
  epoch_of = λ s. "epoch";
  decode_sender = λ aad. alice;
  decode_event =
      λ payload. some (record { pubkey = alice; id = "id"; kind = 9; tags = []; content = "hi" });
}

reply-accepts : (s : ℕ) (r : Result Action) → Adopts (reply s r) → r ≡ ok accept
reply-accepts s (ok accept) a = refl
reply-accepts s (ok reject) a = cc
reply-accepts s (err e) a = absurd a

counter-AsksFirst : AsksFirst counter
counter-AsksFirst = record {
  accepted = λ s text ask adopts. elim (Bool-cases (text == "commit")) [
    | inl e ↦ rw e (reply-accepts s (ask add_by_alice) (rw e at adopts), tt)
    | inr e ↦ elim (Bool-cases (text == "hello")) [ inl f ↦ rw (e, f) tt | inr f ↦ rw (e, f) tt ]
  ];
}

abbrev raw : ℕ → String → RawGroupMessage
raw n text = record { cursor = n; created_at = n; opaque_message = text }

abbrev start : Ingestion ℕ
start = record {
  group = record {
    alias = "g";
    state = 5;
    metadata = ruled_by_alice;
    status = active;
    removed_at_cursor = none;
    last_cursor = 3;
    fetch_cursor = 3;
    skipped_sibling_commit = none;
    messages = [];
    sync_issues = [];
  };
  local_state_applied = [];
  received = [];
  issues = [];
  applied_pending_commits = [];
  rejected_pending_commits = [];
  removed_local_member = false;
}

abbrev no_operation : String → Option ℕ
no_operation text = none

abbrev batch : List RawGroupMessage
batch = raw 4 "commit" ∷ raw 5 "old" ∷ raw 6 "hello" ∷ []

ingest_group_messages-Resumable_example :
    Resumable batch start (ingest_group_messages counter bob no_operation batch start)
ingest_group_messages-Resumable_example =
    ingest_group_messages-Resumable counter bob no_operation batch start

ingest_message-Authorised_example : Authorised counter start.group add_by_alice
unfolding authorize authorize_sender requires_admin is_admin_proposal_type is_group_admin
    get_group_admin_pubkeys normalize_each normalize_pubkey is_hex lower_hex find? any
    String_discrete ℕ_discrete ingest_message is_applied_locally on_processed on_new_state
    confirm_own advance adopt set_state read_metadata get_cordn_group_metadata_extension
    settle_membership find_member_leaf_index
ingest_message-Authorised_example =
    ingest_message-Authorised counter bob (raw 4 "commit") no_operation start counter-AsksFirst
      (λ e. omega (arith, e)) add_by_alice (inl refl) refl

-- The members' metadata cannot be read: a commit fails with its cursor passed.
abbrev unreadable : Mls ℕ
unreadable = record counter {
  extensions = λ s. record { extension_type = 49229; extension_data = [] } ∷ [];
}

abbrev stopped : Ingested ℕ
stopped =
    ingest_group_messages unreadable bob no_operation (raw 4 "commit" ∷ raw 5 "old" ∷ []) start

unreadable_commit_is_passed :
    (stopped.1 ≡ some (metadata_failed unexpected_end_of_uint16))
    × (stopped.0.group.fetch_cursor ≡ 4)
    × (stopped.0.group.state ≡ 6)
unfolding authorize authorize_sender requires_admin is_admin_proposal_type is_group_admin
    get_group_admin_pubkeys normalize_each normalize_pubkey is_hex lower_hex find? any
    String_discrete ℕ_discrete ingest_message is_applied_locally on_processed on_new_state
    confirm_own advance adopt set_state read_metadata get_cordn_group_metadata_extension
    settle_membership find_member_leaf_index ingest_group_messages decode_cordn_group_metadata
    decode_uint16
unreadable_commit_is_passed = (refl, refl, refl)
