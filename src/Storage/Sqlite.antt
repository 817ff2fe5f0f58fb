-- ===== src/Storage/Sqlite.antt =====
-- `SqliteCoordinatorStorage` (packages/coordinator/src/storage/sqliteStorage.ts). A table is the list
-- of its rows by ascending `id`: AUTOINCREMENT gives a new row the greatest id, so INSERT appends,
-- `ORDER BY id ASC` is the order of the list, and `SELECT … WHERE` is `filter`, with LIMIT 1 `find?`.
-- A transaction is one step.
pub mod Table
pub mod JoinRequests
pub mod Groups
pub mod Welcomes
pub mod KeyPackages
use cordn.Prelude.{ℕ, Bool, not, List, [], ◌∷◌, ◌++◌, if◌then◌else◌, length, filter, string_eq}

-- `INSERT INTO`
abbrev pub insert {ℓ} : {R : Type ℓ} → R → List R → List R
insert row rows = rows ++ row ∷ []

-- `DELETE … WHERE`, with `changes`, the number of rows that go.
unfoldable pub delete_where {ℓ} : {R : Type ℓ} → (R → Bool) → List R → ℕ × List R
delete_where test rows = (length (filter test rows), filter (λ r. not (test r)) rows)

-- The loop of DELETEs over the consumed references.
unfoldable pub delete_each {ℓ κ} :
    {R : Type ℓ} {C : Type κ} → (C → R → Bool) → List C → List R → List R
delete_each names [] rows = rows
delete_each names (c ∷ cs) rows = delete_each names cs (delete_where (names c) rows).1

-- `UPDATE … SET … WHERE`
unfoldable pub update_where {ℓ} : {R : Type ℓ} → (R → Bool) → (R → R) → List R → List R
update_where test set [] = []
update_where test set (r ∷ rs) = (if test r then set r else r) ∷ update_where test set rs

unfoldable pub place_by {ℓ} : {R : Type ℓ} → (R → R → Bool) → R → List R → List R
place_by before r [] = r ∷ []
place_by before r (x ∷ xs) = if before r x then r ∷ x ∷ xs else x ∷ place_by before r xs

-- `ORDER BY`: `before r x` when `r` may stand before `x`.
unfoldable pub order_by {ℓ} : {R : Type ℓ} → (R → R → Bool) → List R → List R
order_by before [] = []
order_by before (r ∷ rs) = place_by before r (order_by before rs)
