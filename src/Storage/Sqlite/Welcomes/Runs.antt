-- ===== src/Storage/Sqlite/Welcomes/Runs.antt =====
-- Runs of calls on the welcomes.
use cordn.Prelude.{ℕ, String, ◌≡◌, refl, ap, List, string_eq, nat_eq}
use cordn.Result.{Result, ok}
use cordn.Core.MlsCodec.{Messages}
use cordn.Core.MlsCodec.Roundtrip.{IsLossless}
use cordn.Storage.Simulation.{answers, answers_same}
use cordn.Storage.Welcomes as Memory
use cordn.Storage.Welcomes.{WelcomeQueueRecord, WelcomeInbox, ConsumedWelcomeRef}
use cordn.Storage.Sqlite.Welcomes
use cordn.Storage.Sqlite.Welcomes.{WelcomeRow}
use cordn.Storage.Sqlite.Welcomes.Refinement.{Agrees, store-Agrees, fetch-Agrees, expire-Agrees}

pub data Call (W : Type 0) : Type 0 where
  stores : WelcomeQueueRecord W → Call W
  fetches : String → List ConsumedWelcomeRef → Call W
  expires : ℕ → Call W

pub data Answer (W : Type 0) : Type 0 where
  stored : WelcomeQueueRecord W → Answer W
  listed : Result (List (WelcomeQueueRecord W)) → Answer W
  counted : ℕ → Answer W

unfoldable pub memory_step : {W : Type 0} → Call W → WelcomeInbox W → Answer W × WelcomeInbox W
memory_step (stores w) m = (stored w, Memory.store_welcome w m)
memory_step (fetches target cs) m =
    let r = Memory.fetch_pending_welcomes target cs m in (listed (ok r.0), r.1)
memory_step (expires threshold) m =
    let r = Memory.delete_expired_welcomes threshold m in (counted r.0, r.1)

module _ {W M : Type 0} (messages : Messages W M) where
  unfoldable pub sqlite_step : Call W → List WelcomeRow → Answer W × List WelcomeRow
  sqlite_step (stores w) rows = (stored w, Welcomes.store_welcome messages w rows)
  sqlite_step (fetches target cs) rows =
      let r = Welcomes.fetch_pending_welcomes messages target cs rows in (listed r.0, r.1)
  sqlite_step (expires threshold) rows =
      let r = Welcomes.delete_expired_welcomes threshold rows in (counted r.0, r.1)

  step-Agrees :
      IsLossless messages
      → (n : ℕ) (c : Call W) (rows : List WelcomeRow) (m : WelcomeInbox W) → Agrees messages rows m
      → ((sqlite_step c rows).0 ≡ (memory_step c m).0)
        × Agrees messages (sqlite_step c rows).1 (memory_step c m).1
  unfolding sqlite_step memory_step
  step-Agrees l n (stores w) rows m a = (refl, store-Agrees messages w rows m a)
  step-Agrees l n (fetches target cs) rows m a =
      let (same, next) = fetch-Agrees messages target cs rows m l a in (ap listed same, next)
  step-Agrees l n (expires threshold) rows m a =
      let (same, next) = expire-Agrees messages threshold rows m a in (ap counted same, next)

  -- On every sequence of calls that store, fetch and delete expired welcomes, the SQLite storage
  -- gives the same answers as the storage in memory, and no stored welcome fails to decode, if the
  -- rows of each target are, in order, the encodings of the welcomes of its inbox, no target has two
  -- inboxes, the library's message codec is lossless, and a message made of a welcome carries it.
  pub answers-welcomes :
      (calls : List (Call W)) (rows : List WelcomeRow) (m : WelcomeInbox W)
      → IsLossless messages
      → Agrees messages rows m
      → answers sqlite_step calls rows ≡ answers memory_step calls m
  answers-welcomes calls rows m l =
      answers_same (λ n. Agrees messages) sqlite_step memory_step (step-Agrees l) calls rows m
