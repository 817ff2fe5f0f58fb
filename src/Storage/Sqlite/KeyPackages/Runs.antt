-- ===== src/Storage/Sqlite/KeyPackages/Runs.antt =====
-- Runs of calls on the key packages.
use cordn.Prelude.{
  ℕ, String, ◌≡◌, refl, ap, inl, inr, Option, none, some, List, Option-cases, string_eq,
}
use cordn.Result.{Result, ok, err, unique_constraint_failed}
use cordn.Storage.KeyPackages as Memory
use cordn.Storage.KeyPackages.{PublishedKeyPackageRecord, KeyPackageIndex}
use cordn.Storage.Simulation.{answers, answers_same}
use cordn.Storage.Sqlite.KeyPackages
use cordn.Storage.Sqlite.KeyPackages.{KeyPackageTable, RowFormat}
use cordn.Storage.Sqlite.KeyPackages.Rows.{RestoresRows}
use cordn.Storage.Sqlite.KeyPackages.Refinement.{Agrees, get-same, list-same}
use cordn.Storage.Sqlite.KeyPackages.Changes.{remove-same, consume-same}
use cordn.Storage.Sqlite.KeyPackages.Publication.{publish-ok, publish-Agrees, publish_refused}

pub data Call (P E : Type 0) : Type 0 where
  publishes : PublishedKeyPackageRecord P E → Call P E
  lists : String → Call P E
  gets : String → Call P E
  removes : String → Call P E
  consumes : String → Call P E

pub data Answer (P E : Type 0) : Type 0 where
  published : Result (PublishedKeyPackageRecord P E) → Answer P E
  listed : Result (List (PublishedKeyPackageRecord P E)) → Answer P E
  found : Result (Option (PublishedKeyPackageRecord P E)) → Answer P E

module _ {P E : Type 0} where
  -- The storage in memory behind a check that refuses a reference it holds.
  unfoldable pub publish_once :
      PublishedKeyPackageRecord P E → KeyPackageIndex P E → Answer P E × KeyPackageIndex P E
  publish_once r m = elim (Memory.get_key_package r.key_package_ref m) [
    | some held ↦ (published (err unique_constraint_failed), m)
    | none ↦ (published (ok r), Memory.publish_key_package r m)
  ]

  unfoldable pub memory_step : Call P E → KeyPackageIndex P E → Answer P E × KeyPackageIndex P E
  memory_step (publishes r) m = publish_once r m
  memory_step (lists k) m = (listed (ok (Memory.list_key_packages_for_identity k m)), m)
  memory_step (gets ref) m = (found (ok (Memory.get_key_package ref m)), m)
  memory_step (removes ref) m = let r = Memory.remove_key_package ref m in (found (ok r.0), r.1)
  memory_step (consumes id) m = let r = Memory.consume_key_package id m in (found (ok r.0), r.1)

-- A call that fails changes nothing.
abbrev settle :
    {P E : Type 0}
    → KeyPackageTable
    → Result (PublishedKeyPackageRecord P E × KeyPackageTable)
    → Answer P E × KeyPackageTable
settle table (ok (r, table')) = (published (ok r), table')
settle table (err e) = (published (err e), table)

module _ {P E : Type 0} (format : RowFormat P E) where
  unfoldable pub sqlite_step : Call P E → KeyPackageTable → Answer P E × KeyPackageTable
  sqlite_step (publishes r) table = settle table (KeyPackages.publish_key_package format r table)
  sqlite_step (lists k) table =
      (listed (KeyPackages.list_key_packages_for_identity format k table), table)
  sqlite_step (gets ref) table = (found (KeyPackages.get_key_package format ref table), table)
  sqlite_step (removes ref) table =
      let r = KeyPackages.remove_key_package format ref table in (found r.0, r.1)
  sqlite_step (consumes id) table =
      let r = KeyPackages.consume_key_package format id table in (found r.0, r.1)

  step-Agrees :
      RestoresRows format
      → (n : ℕ) (c : Call P E) (table : KeyPackageTable) (m : KeyPackageIndex P E)
      → Agrees format table m
      → ((sqlite_step c table).0 ≡ (memory_step c m).0)
        × Agrees format (sqlite_step c table).1 (memory_step c m).1
  unfolding sqlite_step memory_step publish_once
  step-Agrees l n (publishes r) table m a =
      elim (Option-cases (Memory.get_key_package r.key_package_ref m)) [
        | inl h ↦
            rw (publish-ok format table m a r h, publish_once, h)
              (refl, publish-Agrees format table m a r h)
        | inr (x, h) ↦ rw (publish_refused format table m a r x h, publish_once, h) (refl, a)
      ]
  step-Agrees l n (lists k) table m a = (ap listed (list-same format table m a k l), a)
  step-Agrees l n (gets ref) table m a = (ap found (get-same format table m a ref l), a)
  step-Agrees l n (removes ref) table m a =
      let (same, next) = remove-same format table m a ref l in (ap found same, next)
  step-Agrees l n (consumes id) table m a =
      let (same, next) = consume-same format table m a id l in (ap found same, next)

  -- On every sequence of calls that publish, list for an identity, get, remove and consume key
  -- packages, the SQLite storage gives the same answers as the storage in memory behind a check that
  -- refuses a reference it already holds. The rows
  -- must encode, by rising id, packages that are for each identity and in order those in memory, with
  -- no reference twice, and the library's key package codec and JSON must give back what was stored.
  pub answers-packages :
      (calls : List (Call P E)) (table : KeyPackageTable) (m : KeyPackageIndex P E)
      → RestoresRows format
      → Agrees format table m
      → answers sqlite_step calls table ≡ answers memory_step calls m
  answers-packages calls table m l =
      answers_same (λ n. Agrees format) sqlite_step memory_step (step-Agrees l) calls table m
