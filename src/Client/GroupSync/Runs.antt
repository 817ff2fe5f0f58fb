-- ===== src/Client/GroupSync/Runs.antt =====
-- A whole ingestion: how far it comes, and where its cursors stand.
use cordn.Prelude.{
  ℕ, max, String, ◌≡◌, ◌⊎◌, refl, sym, ap, ◌∙◌, subst, inl, inr, Option, none, some, List, [], ◌∷◌,
  ◌++◌, Option-cases, string_eq, nat_eq,
}
use cordn.Client.GroupSync.{RawGroupMessage, Mls, Ingestion, IngestionError}
use cordn.Client.GroupSync.Ingest.{Ingested, ingest_message, ingest_group_messages}
use cordn.Client.GroupSync.Cursors.{fetched, highest, OnMetadata, Moves, ingest_message-Moves}

-- The cursor of the last message, or `c` when there is none.
abbrev pub last_of : List RawGroupMessage → ℕ → ℕ
last_of [] c = c
last_of (m ∷ ms) c = last_of ms m.cursor

-- The greatest of `c` and the cursors.
abbrev pub greatest_of : List RawGroupMessage → ℕ → ℕ
greatest_of [] c = c
greatest_of (m ∷ ms) c = greatest_of ms (max c m.cursor)

-- A run that throws leaves a message, and one that does not leaves none.
abbrev pub Stops : List RawGroupMessage → Option IngestionError → Type 0
Stops [] none = Unit
Stops (m ∷ ms) none = ⊥
Stops [] (some e) = ⊥
Stops (m ∷ ms) (some e) = Unit

-- The messages that the cursors have passed: those handled, and perhaps the one that stopped the run,
-- if it was its metadata that could not be read.
abbrev pub Passed :
    List RawGroupMessage
    → List RawGroupMessage
    → List RawGroupMessage
    → Option IngestionError
    → Type 0
Passed handled left passed error =
    (passed ≡ handled)
    ⊎ ((m : RawGroupMessage) × (ms : List RawGroupMessage) × (e : IngestionError) × (left ≡ m ∷ ms)
        × (passed ≡ handled ++ m ∷ [])
        × (error ≡ some e)
        × OnMetadata e)

pub record Resumable {S : Type 0} (messages : List RawGroupMessage) (i : Ingestion S)
    (r : Ingested S) : Type 0 where
  pub handled : List RawGroupMessage
  pub left : List RawGroupMessage
  pub passed : List RawGroupMessage
  pub all : messages ≡ handled ++ left
  pub stops : Stops left r.1
  pub past : Passed handled left passed r.1
  pub fetch : fetched r.0 ≡ last_of passed (fetched i)
  pub last : highest r.0 ≡ greatest_of passed (highest i)

Passed-cons :
    (m : RawGroupMessage) (handled left passed : List RawGroupMessage)
    (error : Option IngestionError)
    → Passed handled left passed error
    → Passed (m ∷ handled) left (m ∷ passed) error
Passed-cons m handled left passed error (inl e) = inl (ap (λ xs. m ∷ xs) e)
Passed-cons m handled left passed error (inr (k, ks, x, l, p, e, on)) =
    inr (k, ks, x, l, ap (λ xs. m ∷ xs) p, e, on)

module _ {S : Type 0} where
  moved :
      (m : RawGroupMessage) (i : Ingestion S) (r : Ingested S)
      → Moves m i r
      → r.1 ≡ none
      → (fetched r.0 ≡ m.cursor) × (highest r.0 ≡ max (highest i) m.cursor)
  moved m i (j, none) h e = h
  moved m i (j, some x) h e = cc

  stopped :
      (m : RawGroupMessage) (ms : List RawGroupMessage) (i : Ingestion S) (r : Ingested S)
      (x : IngestionError)
      → Moves m i r
      → r.1 ≡ some x
      → Resumable (m ∷ ms) i r
  stopped m ms i (j, none) x h e = cc
  stopped m ms i (j, some y) x (inl (f, l)) e = record {
    handled = [];
    left = m ∷ ms;
    passed = [];
    all = refl;
    stops = tt;
    past = inl refl;
    fetch = f;
    last = l;
  }
  stopped m ms i (j, some y) x (inr (on, a)) e = record {
    handled = [];
    left = m ∷ ms;
    passed = m ∷ [];
    all = refl;
    stops = tt;
    past = inr (m, ms, y, refl, refl, refl, on);
    fetch = a.0;
    last = a.1;
  }

module _ {S : Type 0} (mls : Mls S) (me : String) (get_pending : String → Option ℕ) where
  abbrev turn : (m : RawGroupMessage) (i : Ingestion S) → Ingested S
  turn m i = ingest_message mls me get_pending m i

  ingest-next :
      (m : RawGroupMessage) (ms : List RawGroupMessage) (i : Ingestion S)
      → (turn m i).1 ≡ none
      → ingest_group_messages mls me get_pending (m ∷ ms) i
        ≡ ingest_group_messages mls me get_pending ms (turn m i).0
  unfolding ingest_group_messages
  ingest-next m ms i e = rw (ingest_group_messages, e) refl

  ingest-stop :
      (m : RawGroupMessage) (ms : List RawGroupMessage) (i : Ingestion S) (x : IngestionError)
      → (turn m i).1 ≡ some x
      → ingest_group_messages mls me get_pending (m ∷ ms) i ≡ ((turn m i).0, some x)
  unfolding ingest_group_messages
  ingest-stop m ms i x e = rw (ingest_group_messages, e) refl

  -- Ingestion handles the messages up to one whose handling throws, or all of them: the fetch cursor
  -- is then that of the last message it passed, or the old one, and the last cursor is the greatest
  -- of the old one and theirs. It passed the messages that it handled, so that a client that fetches
  -- after the cursor gets just what is left, unless it stopped at a message whose new metadata cannot
  -- be read: it may have passed that one too.
  pub ingest_group_messages-Resumable :
      (messages : List RawGroupMessage) (i : Ingestion S)
      → Resumable messages i (ingest_group_messages mls me get_pending messages i)
  unfolding ingest_group_messages
  ingest_group_messages-Resumable [] i = record {
    handled = [];
    left = [];
    passed = [];
    all = refl;
    stops = tt;
    past = inl refl;
    fetch = refl;
    last = refl;
  }
  ingest_group_messages-Resumable (m ∷ ms) i =
      let r = turn m i in
      let moves = ingest_message-Moves mls me m get_pending i in
      elim (Option-cases r.1) [
        | inl e ↦
            let rest = ingest_group_messages-Resumable ms r.0 in
            let (f, l) = moved m i r moves e in
            subst (Resumable (m ∷ ms) i) (sym (ingest-next m ms i e)) (record {
              handled = m ∷ rest.handled;
              left = rest.left;
              passed = m ∷ rest.passed;
              all = ap (λ xs. m ∷ xs) rest.all;
              stops = rest.stops;
              past = Passed-cons m rest.handled rest.left rest.passed _ rest.past;
              fetch = rest.fetch ∙ ap (last_of rest.passed) f;
              last = rest.last ∙ ap (greatest_of rest.passed) l;
            })
        | inr (x, e) ↦
            subst (Resumable (m ∷ ms) i) (sym (ingest-stop m ms i x e))
              (subst (λ o. Resumable (m ∷ ms) i (r.0, o)) e (stopped m ms i r x moves e))
      ]
