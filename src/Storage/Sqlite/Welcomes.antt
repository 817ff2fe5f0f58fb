-- ===== src/Storage/Sqlite/Welcomes.antt =====
-- The welcomes of `SqliteCoordinatorStorage` (packages/coordinator/src/storage/sqliteStorage.ts): the
-- table `welcomes`, which keeps a welcome as its encoding.
pub mod Refinement
pub mod Runs
use cordn.Prelude.{
  ℕ, String, Bool, ◌&&◌, Option, List, [], ◌∷◌, if◌then◌else◌, ltb, leb, ◌==◌, filter, string_eq,
  nat_eq,
}
use cordn.Result.{Result, ok, err, ◌>>=◌}
use cordn.Core.MlsCodec.{Messages, encode_welcome, decode_welcome}
use cordn.Storage.Welcomes.{WelcomeQueueRecord, ConsumedWelcomeRef}
use cordn.Storage.Sqlite.{insert, delete_where, delete_each}

pub record WelcomeRow : Type 0 where
  pub target_stable_pubkey : String
  pub key_package_reference : String
  pub welcome_bytes : List ℕ
  pub created_at : ℕ
  pub join_after_cursor : Option ℕ

-- `WHERE target_stable_pubkey = ?`
abbrev pub for_target : String → WelcomeRow → Bool
for_target target r = r.target_stable_pubkey == target

-- `AND key_package_reference = ? AND created_at = ?`
abbrev pub names_row : ConsumedWelcomeRef → WelcomeRow → Bool
names_row c r =
    (c.key_package_reference == r.key_package_reference) && (c.created_at == r.created_at)

module _ {W M : Type 0} (messages : Messages W M) where
  -- The values that `storeWelcome` inserts.
  unfoldable pub to_welcome_row : WelcomeQueueRecord W → WelcomeRow
  to_welcome_row w = record {
    target_stable_pubkey = w.target_stable_pubkey;
    key_package_reference = w.key_package_reference;
    welcome_bytes = encode_welcome messages w.welcome;
    created_at = w.created_at;
    join_after_cursor = w.join_after_cursor;
  }

  unfoldable pub map_welcome_row : WelcomeRow → Result (WelcomeQueueRecord W)
  map_welcome_row row = decode_welcome messages row.welcome_bytes >>= λ welcome. ok (record {
    target_stable_pubkey = row.target_stable_pubkey;
    key_package_reference = row.key_package_reference;
    welcome = welcome;
    created_at = row.created_at;
    join_after_cursor = row.join_after_cursor;
  })

  -- `rows.map((row) => this.mapWelcomeRow(row))`
  unfoldable pub map_welcome_rows : List WelcomeRow → Result (List (WelcomeQueueRecord W))
  map_welcome_rows [] = ok []
  map_welcome_rows (row ∷ rows) =
      map_welcome_row row >>= λ w. map_welcome_rows rows >>= λ ws. ok (w ∷ ws)

  unfoldable pub store_welcome : WelcomeQueueRecord W → List WelcomeRow → List WelcomeRow
  store_welcome w rows = insert (to_welcome_row w) rows

  -- The transaction is over when the rows are decoded.
  unfoldable pub fetch_pending_welcomes :
      String
      → List ConsumedWelcomeRef
      → List WelcomeRow
      → Result (List (WelcomeQueueRecord W)) × List WelcomeRow
  fetch_pending_welcomes target consumed rows =
      let left = delete_each (λ c r. for_target target r && names_row c r) consumed rows in
      (map_welcome_rows (filter (for_target target) left), left)

unfoldable pub delete_expired_welcomes : ℕ → List WelcomeRow → ℕ × List WelcomeRow
delete_expired_welcomes threshold rows =
    if leb threshold 0 then (0, rows) else delete_where (λ r. ltb r.created_at threshold) rows
