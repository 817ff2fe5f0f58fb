-- ===== src/Storage/Sqlite/KeyPackages.antt =====
-- The key packages of `SqliteCoordinatorStorage` (packages/coordinator/src/storage/sqliteStorage.ts):
-- the table `key_packages`, with its `AUTOINCREMENT` id and its unique `key_package_ref`. `P` is the
-- type of MLS key packages and `E` that of Nostr events, of ts-mls and nostr-tools.
pub mod Order
pub mod Rows
pub mod Refinement
pub mod Publication
pub mod Changes
pub mod Runs
use cordn.Prelude.{
  ℕ, String, Bool, Option, none, some, List, [], ◌∷◌, ◌+◌, if◌then◌else◌, ltb, leb, ◌==◌, filter,
  any, find?, string_eq, nat_eq,
}
use cordn.Result.{Result, ok, err, unique_constraint_failed, ◌>>=◌}
use cordn.Core.MlsCodec.{Codec, encode_key_package, decode_key_package}
use cordn.Storage.KeyPackages.{PublishedKeyPackageRecord}
use cordn.Storage.Sqlite.{insert, delete_where, order_by}

pub record KeyPackageRow : Type 0 where
  pub id : ℕ
  pub stable_pubkey : String
  pub key_package_ref : String
  pub key_package_bytes : List ℕ
  pub is_last_resort : ℕ
  pub published_at : ℕ
  pub publication_event_json : String

-- The rows, and the id that the next one gets.
pub record KeyPackageTable : Type 0 where
  pub next_id : ℕ
  pub rows : List KeyPackageRow

-- `JSON.stringify` and `JSON.parse` on events, and the codec of key packages.
pub record RowFormat (P E : Type 0) : Type 0 where
  pub codec : Codec P
  pub stringify : E → String
  pub parse : String → Result E

-- `WHERE key_package_ref = ?`
abbrev pub row_ref : String → KeyPackageRow → Bool
row_ref ref row = row.key_package_ref == ref

-- `WHERE stable_pubkey = ?`
abbrev pub row_owner : String → KeyPackageRow → Bool
row_owner stable_pubkey row = row.stable_pubkey == stable_pubkey

-- `!row.is_last_resort`
abbrev pub is_regular_row : KeyPackageRow → Bool
is_regular_row row = row.is_last_resort == 0

-- `is_last_resort ASC, CASE WHEN is_last_resort = 0 THEN id END ASC,
-- CASE WHEN is_last_resort = 1 THEN id END DESC`: of two rows with the same flag, one of the cases
-- is NULL for both.
unfoldable pub consumed_before : KeyPackageRow → KeyPackageRow → Bool
consumed_before r x =
    if r.is_last_resort == x.is_last_resort
    then (if is_regular_row r then leb r.id x.id else leb x.id r.id)
    else ltb r.is_last_resort x.is_last_resort

-- `LIMIT 1` of an ordered selection
unfoldable pub first {ℓ} : {R : Type ℓ} → List R → Option R
first [] = none
first (r ∷ rs) = some r

-- `deleteKeyPackageStatement`
unfoldable pub delete_key_package : ℕ → KeyPackageTable → KeyPackageTable
delete_key_package id table = record table {
  rows = (delete_where (λ row. row.id == id) table.rows).1;
}

-- What both consuming transactions do with the row that they select.
unfoldable pub take_row :
    Option KeyPackageRow → KeyPackageTable → Option KeyPackageRow × KeyPackageTable
take_row none table = (none, table)
take_row (some row) table =
    (some row, if is_regular_row row then delete_key_package row.id table else table)

-- `consumeKeyPackageByReferenceTransaction`
unfoldable pub consume_by_reference :
    String → KeyPackageTable → Option KeyPackageRow × KeyPackageTable
consume_by_reference ref table = take_row (find? (row_ref ref) table.rows) table

-- `consumeKeyPackageByIdentityTransaction`
unfoldable pub consume_by_identity :
    String → KeyPackageTable → Option KeyPackageRow × KeyPackageTable
consume_by_identity stable_pubkey table =
    take_row (first (order_by consumed_before (filter (row_owner stable_pubkey) table.rows))) table

module _ {P E : Type 0} (format : RowFormat P E) where
  -- The values that `publishKeyPackage` inserts.
  unfoldable pub to_key_package_row : ℕ → PublishedKeyPackageRecord P E → KeyPackageRow
  to_key_package_row id r = record {
    id = id;
    stable_pubkey = r.stable_pubkey;
    key_package_ref = r.key_package_ref;
    key_package_bytes = encode_key_package format.codec r.key_package;
    is_last_resort = if r.is_last_resort then 1 else 0;
    published_at = r.published_at;
    publication_event_json = format.stringify r.publication_event;
  }

  unfoldable pub map_key_package_row : KeyPackageRow → Result (PublishedKeyPackageRecord P E)
  map_key_package_row row = decode_key_package format.codec row.key_package_bytes >>= λ key_package.
      format.parse row.publication_event_json >>= λ publication_event. ok (record {
        stable_pubkey = row.stable_pubkey;
        key_package = key_package;
        key_package_ref = row.key_package_ref;
        is_last_resort = row.is_last_resort == 1;
        published_at = row.published_at;
        publication_event = publication_event;
      })

  -- `rows.map((row) => this.mapKeyPackageRow(row))`
  unfoldable pub map_key_package_rows :
      List KeyPackageRow → Result (List (PublishedKeyPackageRecord P E))
  map_key_package_rows [] = ok []
  map_key_package_rows (row ∷ rows) =
      map_key_package_row row >>= λ r. map_key_package_rows rows >>= λ rs. ok (r ∷ rs)

  -- `row ? this.mapKeyPackageRow(row) : null`
  unfoldable pub map_found : Option KeyPackageRow → Result (Option (PublishedKeyPackageRecord P E))
  map_found none = ok none
  map_found (some row) = map_key_package_row row >>= λ r. ok (some r)

  -- The unique index on the reference makes the INSERT throw.
  unfoldable pub publish_key_package :
      PublishedKeyPackageRecord P E
      → KeyPackageTable
      → Result (PublishedKeyPackageRecord P E × KeyPackageTable)
  publish_key_package r table =
      if any (row_ref r.key_package_ref) table.rows
      then err unique_constraint_failed
      else ok (
        r,
        record {
          next_id = table.next_id + 1;
          rows = insert (to_key_package_row table.next_id r) table.rows;
        },
      )

  unfoldable pub list_key_packages_for_identity :
      String → KeyPackageTable → Result (List (PublishedKeyPackageRecord P E))
  list_key_packages_for_identity stable_pubkey table =
      map_key_package_rows (filter (row_owner stable_pubkey) table.rows)

  unfoldable pub list_all_key_packages :
      KeyPackageTable → Result (List (PublishedKeyPackageRecord P E))
  list_all_key_packages table = map_key_package_rows table.rows

  unfoldable pub get_key_package :
      String → KeyPackageTable → Result (Option (PublishedKeyPackageRecord P E))
  get_key_package ref table = map_found (find? (row_ref ref) table.rows)

  unfoldable pub remove_key_package :
      String → KeyPackageTable → Result (Option (PublishedKeyPackageRecord P E)) × KeyPackageTable
  remove_key_package ref table = elim (find? (row_ref ref) table.rows) [
    | none ↦ (ok none, table)
    | some row ↦ (map_found (some row), delete_key_package row.id table)
  ]

  -- The transaction is over when the row is decoded.
  unfoldable pub consume_key_package :
      String → KeyPackageTable → Result (Option (PublishedKeyPackageRecord P E)) × KeyPackageTable
  consume_key_package identifier table =
      let (direct, table') = consume_by_reference identifier table in
      elim direct [
        | some row ↦ (map_found (some row), table')
        | none ↦
            let (by_identity, table'') = consume_by_identity identifier table' in
            (map_found by_identity, table'')
      ]
