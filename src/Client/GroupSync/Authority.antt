-- ===== src/Client/GroupSync/Authority.antt =====
-- Only authorised commits and proposals change the group.
use cordn.Prelude.{
  ℕ, String, ◌≡◌, refl, inl, inr, true, false, ◌||◌, Option, none, some, List, Bool-cases, any, All,
  All-Contains, Contains, string_eq, nat_eq,
}
use cordn.Result.{Result, ok}
use cordn.Client.AdminPolicy.{
  GroupMember, Incoming, Action, accept, requires_admin, sender_leaf_index,
}
use cordn.Client.AdminPolicy.Authorisation.{Administers, authorize-Administers}
use cordn.Client.GroupSync.{
  RawGroupMessage, GroupSessionState, Outcome, thrown, new_state, application_message, Processing,
  Mls, Ingestion, is_known_issue, is_removed_member_commit_issue, is_former_epoch_issue, captured,
  is_reject, advance, mark_removed, push_issue, mark_applied, mark_rejected, is_applied_locally,
  is_outbound_at,
}
use cordn.Client.GroupSync.Ingest.{
  same_leaf, find_member_leaf_index, callback, processed, skip_or_remove, settle_thrown, on_thrown,
  on_rejected, on_processed, ingest_message,
}

-- Processing gives a state to adopt.
abbrev pub Adopts : {S : Type 0} → Outcome S → Type 0
Adopts (thrown detail) = ⊥
Adopts (new_state state action) = is_reject action ≡ false
Adopts (application_message state payload aad) = Unit

-- ts-mls gives a state to adopt only when the callback accepted all that it was asked about.
pub record AsksFirst {S : Type 0} (mls : Mls S) : Type 0 where
  pub accepted :
      (state : S) (opaque_message : String) (ask : Incoming → Result Action)
      → Adopts (mls.process state opaque_message ask).outcome
      → All (λ incoming. ask incoming ≡ ok accept) (mls.process state opaque_message ask).presented

-- Its sender stands in the group and is one of its admins, unless it has none.
abbrev pub Authorised : {S : Type 0} → Mls S → GroupSessionState S → Incoming → Type 0
Authorised mls group incoming =
    (sender : GroupMember) × Contains sender (mls.members group.state)
    × (sender_leaf_index mls.types incoming ≡ some sender.leaf_index)
    × Administers group.metadata sender.stable_pubkey

module _ {S : Type 0} (mls : Mls S) (me : String) (message : RawGroupMessage) where
  settle_thrown-state :
      (pending : Option ℕ) (presented : List Incoming) (detail : String) (i : Ingestion S)
      → (settle_thrown mls me message pending presented detail i).group.state ≡ i.group.state
  unfolding settle_thrown mark_applied push_issue mark_rejected skip_or_remove mark_removed
  settle_thrown-state (some operation) presented detail i =
      elim (Bool-cases (is_removed_member_commit_issue detail || is_former_epoch_issue detail)) [
        | inl e ↦ rw e refl
        | inr e ↦ rw e refl
      ]
  settle_thrown-state none presented detail i =
      elim (Bool-cases (is_removed_member_commit_issue detail)) [
        | inl e ↦
            elim (Bool-cases
              (same_leaf (captured presented none) (find_member_leaf_index mls me i.group.state))) [
                | inl f ↦ rw (e, f) refl
                | inr f ↦ rw (e, f) refl
              ]
        | inr e ↦ rw e refl
      ]

  on_thrown-state :
      (pending : Option ℕ) (presented : List Incoming) (detail : String) (i : Ingestion S)
      → (on_thrown mls me message pending presented detail i).0.group.state ≡ i.group.state
  unfolding on_thrown advance
  on_thrown-state pending presented detail i = elim (Bool-cases (is_known_issue detail)) [
    | inl e ↦ rw e (settle_thrown-state pending presented detail (advance message i))
    | inr e ↦ rw e refl
  ]

  on_rejected-state :
      (pending : Option ℕ) (i : Ingestion S)
      → (on_rejected mls me message pending i).group.state ≡ i.group.state
  unfolding on_rejected push_issue mark_rejected advance
  on_rejected-state none i = refl
  on_rejected-state (some operation) i = refl

  -- A state that changes was given to adopt.
  on_processed-Adopts :
      (pending : Option ℕ) (processing : Processing S) (i : Ingestion S)
      → ¬ ((on_processed mls me message pending processing i).0.group.state ≡ i.group.state)
      → Adopts processing.outcome
  unfolding on_processed
  on_processed-Adopts pending processing i = go processing.outcome
    where
      go :
          (outcome : Outcome S)
          → ¬ (
              (on_processed mls me message pending
                (record processing { outcome = outcome })
                i).0.group.state
              ≡ i.group.state)
          → Adopts outcome
      go (thrown detail) h = h (on_thrown-state pending processing.presented detail i)
      go (new_state state action) h = elim (Bool-cases (is_reject action)) [
        | inl e ↦ absurd ((rw e at h) (on_rejected-state pending i))
        | inr e ↦ e
      ]
      go (application_message state payload aad) h = tt

  module _ (get_pending : String → Option ℕ) where
    -- If the handling of a message changes the MLS state of the group, then every commit and proposal
    -- of it that adds or removes a member or changes the group's settings was sent by a member who is
    -- an admin under the state and the metadata before, unless the group has no admins. ts-mls must
    -- give a state to adopt only when the callback accepted all that it was asked about.
    pub ingest_message-Authorised :
        (i : Ingestion S)
        → AsksFirst mls
        → ¬ ((ingest_message mls me get_pending message i).0.group.state ≡ i.group.state)
        → (incoming : Incoming) → Contains incoming (processed mls me message i.group).presented
        → requires_admin mls.types incoming ≡ true
        → Authorised mls i.group incoming
    unfolding ingest_message advance
    ingest_message-Authorised i asks h incoming c r =
        let pending = get_pending message.opaque_message in
        elim (Bool-cases (is_applied_locally pending i)) [
          | inl e ↦ absurd ((rw e at h) refl)
          | inr e ↦ elim (Bool-cases (any (is_outbound_at message.cursor) i.group.messages)) [
            | inl f ↦ absurd ((rw (e, f) at h) refl)
            | inr f ↦
                let adopts =
                  on_processed-Adopts pending (processed mls me message i.group) i
                    (rw (e, f) at h) in
                let accepted =
                  All-Contains (λ x. callback mls me i.group x ≡ ok accept) incoming
                    (processed mls me message i.group).presented
                    (asks.accepted i.group.state message.opaque_message (callback mls me i.group)
                      adopts)
                    c in
                authorize-Administers mls.types i.group.metadata (mls.members i.group.state)
                  incoming accepted r
          ]
        ]
