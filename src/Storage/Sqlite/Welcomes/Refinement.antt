-- ===== src/Storage/Sqlite/Welcomes/Refinement.antt =====
-- A table of encoded welcomes behaves as the table of the welcomes.
use cordn.Prelude.{
  ℕ, suc, String, ◌≡◌, refl, sym, ap, ◌∙◌, inl, inr, Bool, true, ◌&&◌, not, List, [], ◌∷◌, map,
  map-append, arith, ltb, leb, ◌==◌, Bool-cases, length, filter, string_eq, nat_eq,
}
use cordn.Result.{ok}
use cordn.Core.MlsCodec.{Messages}
use cordn.Core.MlsCodec.Roundtrip.{IsLossless, decode_welcome-encode_welcome}
use cordn.Storage.Inbox.{fetch, delete_expired}
use cordn.Storage.Welcomes as Memory
use cordn.Storage.Welcomes.{WelcomeQueueRecord, WelcomeInbox, ConsumedWelcomeRef, names_welcome}
use cordn.Storage.Sqlite.{insert, delete_where, delete_each}
use cordn.Storage.Sqlite.Table.{
  Represents, Represents-insert, Represents-delete_each, Represents-delete_where,
  changes-delete_where, select-delete_each,
}
use cordn.Storage.Sqlite.Welcomes
use cordn.Storage.Sqlite.Welcomes.{
  WelcomeRow, for_target, names_row, to_welcome_row, map_welcome_row, map_welcome_rows,
}

module _ {ℓ κ} {A : Type ℓ} {B : Type κ} (f : A → B) where
  filter-map_on :
      (p : B → Bool) (q : A → Bool) (xs : List A)
      → ((x : A) → p (f x) ≡ q x)
      → filter p (map f xs) ≡ map f (filter q xs)
  unfolding filter
  filter-map_on p q [] h = refl
  filter-map_on p q (x ∷ xs) h = ground (arith, h x, filter-map_on p q xs h)

  length-map : (xs : List A) → length (map f xs) ≡ length xs
  length-map [] = refl
  length-map (x ∷ xs) = ap suc (length-map xs)

  delete_each-map {ι} :
      {C : Type ι} (p : C → B → Bool) (q : C → A → Bool) (cs : List C) (xs : List A)
      → ((c : C) (x : A) → p c (f x) ≡ q c x)
      → delete_each p cs (map f xs) ≡ map f (delete_each q cs xs)
  unfolding delete_each delete_where
  delete_each-map p q [] xs h = refl
  delete_each-map p q (c ∷ cs) xs h =
      ap (delete_each p cs)
        (filter-map_on (λ r. not (p c r)) (λ r. not (q c r)) xs (λ x. ap not (h c x)))
      ∙ delete_each-map p q cs (filter (λ r. not (q c r)) xs) h

module _ {W M : Type 0} (messages : Messages W M) where
  abbrev target_of : WelcomeQueueRecord W → String
  target_of w = w.target_stable_pubkey

  map_welcome_rows-to_welcome_row :
      (ws : List (WelcomeQueueRecord W))
      → IsLossless messages
      → map_welcome_rows messages (map (to_welcome_row messages) ws) ≡ ok ws
  unfolding map_welcome_rows map_welcome_row to_welcome_row
  map_welcome_rows-to_welcome_row [] c = refl
  map_welcome_rows-to_welcome_row (w ∷ ws) c =
      rw (decode_welcome-encode_welcome messages w.welcome c, map_welcome_rows-to_welcome_row ws c)
        refl

  -- The rows are the encodings of records that stand for the inbox.
  pub record Agrees (rows : List WelcomeRow) (m : WelcomeInbox W) : Type 0 where
    pub kept : List (WelcomeQueueRecord W)
    pub encoded : rows ≡ map (to_welcome_row messages) kept
    pub same : Represents target_of kept m

  pub store-Agrees :
      (w : WelcomeQueueRecord W) (rows : List WelcomeRow) (m : WelcomeInbox W)
      → Agrees rows m
      → Agrees (Welcomes.store_welcome messages w rows) (Memory.store_welcome w m)
  unfolding Welcomes.store_welcome Memory.store_welcome
  store-Agrees w rows m a = record {
    kept = insert w a.kept;
    encoded =
        ap (insert (to_welcome_row messages w)) a.encoded
        ∙ sym (map-append (to_welcome_row messages) a.kept (w ∷ []));
    same = Represents-insert target_of w a.kept m a.same;
  }

  abbrev retired :
      String → List ConsumedWelcomeRef → List (WelcomeQueueRecord W) → List (WelcomeQueueRecord W)
  retired target cs ws =
      delete_each (λ c r. (r.target_stable_pubkey == target) && names_welcome c r) cs ws

  retire_rows :
      (target : String) (cs : List ConsumedWelcomeRef) (ws : List (WelcomeQueueRecord W))
      → delete_each
          (λ c r. for_target target r && names_row c r)
          cs
          (map (to_welcome_row messages) ws)
        ≡ map (to_welcome_row messages) (retired target cs ws)
  unfolding to_welcome_row
  retire_rows target cs ws =
      delete_each-map (to_welcome_row messages) (λ c r. for_target target r && names_row c r)
        (λ c r. (r.target_stable_pubkey == target) && names_welcome c r) cs ws (λ c x. refl)

  pub fetch-Agrees :
      (target : String) (cs : List ConsumedWelcomeRef) (rows : List WelcomeRow) (m : WelcomeInbox W)
      → IsLossless messages
      → Agrees rows m
      → ((Welcomes.fetch_pending_welcomes messages target cs rows).0
          ≡ ok (Memory.fetch_pending_welcomes target cs m).0)
        × Agrees
            (Welcomes.fetch_pending_welcomes messages target cs rows).1
            (Memory.fetch_pending_welcomes target cs m).1
  unfolding Welcomes.fetch_pending_welcomes Memory.fetch_pending_welcomes fetch to_welcome_row
  fetch-Agrees target cs rows m c a =
      let left : delete_each (λ c r. for_target target r && names_row c r) cs rows
          ≡ map (to_welcome_row messages) (retired target cs a.kept) =
        ap (delete_each (λ c r. for_target target r && names_row c r) cs) a.encoded
        ∙ retire_rows target cs a.kept in
      (
        ap (λ rs. map_welcome_rows messages (filter (for_target target) rs)) left
            ∙ ap (map_welcome_rows messages) (
                filter-map_on (to_welcome_row messages) (for_target target)
                  (λ r. r.target_stable_pubkey == target) (retired target cs a.kept) (λ x. refl))
            ∙ map_welcome_rows-to_welcome_row _ c
            ∙ ap ok (select-delete_each target_of names_welcome target cs a.kept m a.same),
        record {
          kept = retired target cs a.kept;
          encoded = left;
          same = Represents-delete_each target_of names_welcome target cs a.kept m a.same;
        },
      )

  expire_kept :
      (threshold : ℕ) (ws : List (WelcomeQueueRecord W))
      → delete_where (λ r. ltb r.created_at threshold) (map (to_welcome_row messages) ws) ≡ (
        length (filter (λ w. ltb w.created_at threshold) ws),
        map (to_welcome_row messages) (filter (λ w. not (ltb w.created_at threshold)) ws),
      )
  unfolding delete_where to_welcome_row
  expire_kept threshold ws =
      rw
        (
          filter-map_on (to_welcome_row messages) (λ r. ltb r.created_at threshold)
              (λ w. ltb w.created_at threshold) ws (λ x. refl),
          filter-map_on (to_welcome_row messages) (λ r. not (ltb r.created_at threshold))
              (λ w. not (ltb w.created_at threshold)) ws (λ x. refl),
          length-map (to_welcome_row messages) (filter (λ w. ltb w.created_at threshold) ws),
        )
        refl

  pub expire-Agrees :
      (threshold : ℕ) (rows : List WelcomeRow) (m : WelcomeInbox W)
      → Agrees rows m
      → ((Welcomes.delete_expired_welcomes threshold rows).0
          ≡ (Memory.delete_expired_welcomes threshold m).0)
        × Agrees
            (Welcomes.delete_expired_welcomes threshold rows).1
            (Memory.delete_expired_welcomes threshold m).1
  unfolding Welcomes.delete_expired_welcomes Memory.delete_expired_welcomes delete_where
  expire-Agrees threshold rows m a = elim (Bool-cases (leb threshold 0)) [
    | inl off ↦ unfold delete_expired in rw off (refl, a)
    | inr on ↦
        let positive : ltb 0 threshold ≡ true = ground (arith, on) in
        let encoded =
          ap (delete_where (λ r. ltb r.created_at threshold)) a.encoded
          ∙ expire_kept threshold a.kept in
        let changes =
          changes-delete_where target_of (λ w. w.created_at) threshold a.kept m a.same positive in
        let same =
          Represents-delete_where target_of (λ w. w.created_at) threshold a.kept m a.same
            positive in
        rw on (
          ap (λ r. r.0) encoded ∙ changes,
          record {
            kept = filter (λ w. not (ltb w.created_at threshold)) a.kept;
            encoded = ap (λ r. r.1) encoded;
            same = same;
          },
        )
  ]
