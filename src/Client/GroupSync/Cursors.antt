-- ===== src/Client/GroupSync/Cursors.antt =====
-- Where ingestion leaves the cursors, whether it throws or not.
use cordn.Prelude.{
  ℕ, max, String, ◌≡◌, refl, ap, ◌∙◌, ◌⊎◌, inl, inr, ◌||◌, not, Option, none, some, List, [], ◌∷◌,
  ◌==◌, Bool-cases, any, string_eq, nat_eq,
}
use cordn.Result.{Result-cases}
use cordn.Client.AdminPolicy.{Incoming}
use cordn.Client.GroupSync.{
  RawGroupMessage, MessageEvent, Outcome, thrown, new_state, application_message, Processing, Mls,
  IngestionError, metadata_failed, Ingestion, is_known_issue, is_removed_member_commit_issue,
  is_former_epoch_issue, captured, is_reject, advance, mark_removed, push_issue, mark_applied,
  mark_rejected, is_applied_locally, is_outbound_at,
}
use cordn.Client.GroupSync.Ingest.{
  Ingested, and_then, set_state, read_metadata, on_payload, settle_membership, is_some, same_leaf,
  find_member_leaf_index, processed, skip_or_remove, settle_thrown, on_thrown, on_rejected, adopt,
  store, on_event, on_application_message, confirm_own, on_new_state, on_processed, ingest_message,
}

abbrev pub OnMetadata : IngestionError → Type 0
OnMetadata (metadata_failed e) = Unit
OnMetadata _ = ⊥

module _ {S : Type 0} where
  abbrev pub fetched : Ingestion S → ℕ
  fetched i = i.group.fetch_cursor

  abbrev pub highest : Ingestion S → ℕ
  highest i = i.group.last_cursor

  abbrev pub SameCursors : Ingestion S → Ingestion S → Type 0
  SameCursors i j = (fetched j ≡ fetched i) × (highest j ≡ highest i)

  -- The cursors stand at the message.
  abbrev pub At : RawGroupMessage → Ingestion S → Ingestion S → Type 0
  At message i j = (fetched j ≡ message.cursor) × (highest j ≡ max (highest i) message.cursor)

  -- The cursors stand at the message. If its handling throws they stand where they were, but may
  -- have moved when it is the metadata that cannot be read.
  abbrev pub Moves : RawGroupMessage → Ingestion S → Ingested S → Type 0
  Moves message i (j, none) = At message i j
  Moves message i (j, some e) = SameCursors i j ⊎ (OnMetadata e × At message i j)

  -- What adoption may leave.
  abbrev pub Adopted : Ingestion S → Ingested S → Type 0
  Adopted i (j, none) = SameCursors i j
  Adopted i (j, some e) = SameCursors i j × OnMetadata e

module _ {S : Type 0} (mls : Mls S) (me : String) (message : RawGroupMessage) where
  skip_or_remove-SameCursors :
      (presented : List Incoming) (i : Ingestion S)
      → SameCursors i (skip_or_remove mls me message presented i)
  unfolding skip_or_remove mark_removed
  skip_or_remove-SameCursors presented i =
      elim (Bool-cases
        (same_leaf (captured presented none) (find_member_leaf_index mls me i.group.state))) [
          | inl e ↦ rw e (refl, refl)
          | inr e ↦ rw e (refl, refl)
        ]

  settle_thrown-SameCursors :
      (pending : Option ℕ) (presented : List Incoming) (detail : String) (i : Ingestion S)
      → SameCursors i (settle_thrown mls me message pending presented detail i)
  unfolding settle_thrown mark_applied push_issue mark_rejected
  settle_thrown-SameCursors (some operation) presented detail i =
      elim (Bool-cases (is_removed_member_commit_issue detail || is_former_epoch_issue detail)) [
        | inl e ↦ rw e (refl, refl)
        | inr e ↦ rw e (refl, refl)
      ]
  settle_thrown-SameCursors none presented detail i =
      elim (Bool-cases (is_removed_member_commit_issue detail)) [
        | inl e ↦ rw e (skip_or_remove-SameCursors presented i)
        | inr e ↦ rw e (refl, refl)
      ]

  on_thrown-Moves :
      (pending : Option ℕ) (presented : List Incoming) (detail : String) (i : Ingestion S)
      → Moves message i (on_thrown mls me message pending presented detail i)
  unfolding on_thrown
  on_thrown-Moves pending presented detail i = elim (Bool-cases (is_known_issue detail)) [
    | inl e ↦
        rw e
          (unfold advance in settle_thrown-SameCursors pending presented detail (advance message i))
    | inr e ↦ rw e (inl (refl, refl))
  ]

  on_rejected-Moves :
      (pending : Option ℕ) (i : Ingestion S)
      → Moves message i (on_rejected mls me message pending i, none)
  unfolding on_rejected push_issue mark_rejected advance
  on_rejected-Moves none i = (refl, refl)
  on_rejected-Moves (some operation) i = (refl, refl)

  on_event-Moves :
      (sender : String) (event : Option MessageEvent) (i : Ingestion S)
      → Moves message i (on_event mls me message sender event i)
  unfolding on_event advance store
  on_event-Moves sender none i = inl (refl, refl)
  on_event-Moves sender (some event) i = elim (Bool-cases (event.pubkey == sender)) [
    | inl e ↦ rw e (refl, refl)
    | inr e ↦ rw e (inl (refl, refl))
  ]

  -- Adoption moves no cursor, and fails on the metadata only.
  adopt-Adopted : (state : S) (i : Ingestion S) → Adopted i (adopt mls me state i)
  unfolding adopt set_state
  adopt-Adopted state i = elim (Result-cases (read_metadata mls me state)) [
    | inl (metadata, e) ↦ rw (e, adopt) (refl, refl)
    | inr (x, e) ↦ rw (e, adopt) ((refl, refl), tt)
  ]

  on_payload-Moves :
      (state : S) (payload aad : List ℕ) (i : Ingestion S)
      → Moves message i (on_payload mls me message state payload aad i)
  unfolding on_payload advance mark_removed
  on_payload-Moves state payload [] i = elim (Bool-cases (mls.is_removed state)) [
    | inl e ↦ rw e (refl, refl)
    | inr e ↦ rw e (inl (refl, refl))
  ]
  on_payload-Moves state payload (byte ∷ bytes) i = elim (Bool-cases (mls.is_removed state)) [
    | inl e ↦ rw e (refl, refl)
    | inr e ↦ rw e (on_event-Moves (mls.decode_sender (byte ∷ bytes)) (mls.decode_event payload) i)
  ]

  -- From the same cursors the handling goes as far.
  Moves-same :
      (i j : Ingestion S) (r : Ingested S) → SameCursors i j → Moves message j r → Moves message i r
  Moves-same i j (k, none) (f, h) (g, l) = (g, l ∙ ap (λ c. max c message.cursor) h)
  Moves-same i j (k, some e) (f, h) (inl (g, l)) = inl (g ∙ f, l ∙ h)
  Moves-same i j (k, some e) (f, h) (inr (m, a)) =
      inr (m, (a.0, a.1 ∙ ap (λ c. max c message.cursor) h))

  then_payload-Moves :
      (state : S) (payload aad : List ℕ) (i : Ingestion S) (r : Ingested S)
      → Adopted i r
      → Moves message i (and_then r (on_payload mls me message state payload aad))
  then_payload-Moves state payload aad i (j, none) same =
      Moves-same i j (on_payload mls me message state payload aad j) same
        (on_payload-Moves state payload aad j)
  then_payload-Moves state payload aad i (j, some x) (same, m) = inl same

  on_application_message-Moves :
      (state : S) (payload aad : List ℕ) (i : Ingestion S)
      → Moves message i (on_application_message mls me message state payload aad i)
  unfolding on_application_message
  on_application_message-Moves state payload aad i =
      then_payload-Moves state payload aad i (adopt mls me state i) (adopt-Adopted state i)

  confirmed :
      (pending : Option ℕ) (i : Ingestion S) → SameCursors i (confirm_own mls me message pending i)
  unfolding confirm_own mark_applied
  confirmed none i = (refl, refl)
  confirmed (some operation) i = (refl, refl)

  settle_membership-Moves :
      (state : S) (i j : Ingestion S)
      → At message i j
      → Moves message i (settle_membership mls me message state j)
  unfolding settle_membership mark_removed
  settle_membership-Moves state i j at =
      elim (Bool-cases
        (mls.is_removed state || not (is_some (find_member_leaf_index mls me state)))) [
          | inl e ↦ rw e at
          | inr e ↦ rw e at
        ]

  then_membership-Moves :
      (state : S) (i j : Ingestion S) (r : Ingested S)
      → At message i j
      → Adopted j r
      → Moves message i (and_then r (settle_membership mls me message state))
  then_membership-Moves state i j (k, none) at same =
      settle_membership-Moves state i k (same.0 ∙ at.0, same.1 ∙ at.1)
  then_membership-Moves state i j (k, some x) at (same, m) = inr (m, (same.0 ∙ at.0, same.1 ∙ at.1))

  on_new_state-Moves :
      (pending : Option ℕ) (state : S) (i : Ingestion S)
      → Moves message i (on_new_state mls me message pending state i)
  unfolding on_new_state advance
  on_new_state-Moves pending state i =
      let own = confirm_own mls me message pending (advance message i) in
      then_membership-Moves state i own (adopt mls me state own)
        (confirmed pending (advance message i)) (adopt-Adopted state own)

  on_processed-Moves :
      (pending : Option ℕ) (processing : Processing S) (i : Ingestion S)
      → Moves message i (on_processed mls me message pending processing i)
  unfolding on_processed
  on_processed-Moves pending processing i = go processing.outcome
    where
      go :
          (outcome : Outcome S)
          → Moves message i
              (on_processed mls me message pending (record processing { outcome = outcome }) i)
      go (thrown detail) = on_thrown-Moves pending processing.presented detail i
      go (new_state state action) = elim (Bool-cases (is_reject action)) [
        | inl e ↦ rw e (on_rejected-Moves pending i)
        | inr e ↦ rw e (on_new_state-Moves pending state i)
      ]
      go (application_message state payload aad) = on_application_message-Moves state payload aad i

  module _ (get_pending : String → Option ℕ) where
    pub ingest_message-Moves :
        (i : Ingestion S) → Moves message i (ingest_message mls me get_pending message i)
    unfolding ingest_message advance
    ingest_message-Moves i =
        let pending = get_pending message.opaque_message in
        elim (Bool-cases (is_applied_locally pending i)) [
          | inl e ↦ rw e (refl, refl)
          | inr e ↦ elim (Bool-cases (any (is_outbound_at message.cursor) i.group.messages)) [
            | inl f ↦ rw (e, f) (refl, refl)
            | inr f ↦ rw (e, f) (on_processed-Moves pending (processed mls me message i.group) i)
          ]
        ]
