-- ===== src/Inventory/Table.antt =====
-- A table of rows with a key, as the statements of storage/database.go use it: `First`, `Create`,
-- `Updates` and `Delete` under `WHERE key = ?`. The key is unique: it is the primary key.
use singboxconfig.Prelude.{
  Bool, true, false, not, List, [], ◌∷◌, ◌++◌, Option, none, some, any, keep, if◌then◌else◌,
}

-- The equality of keys, and the key of a row.
pub record Keyed (K A : Type 0) : Type 0 where
  pub same_key : K → K → Bool
  pub key : A → K

-- A statement that writes, and whether it could: a duplicate key is refused, and a statement for
-- a key is void where no row has it (`RowsAffected == 0`).
pub data Command (K A : Type 0) : Type 0 where
  create : A → Command K A
  change : K → (A → A) → Command K A
  erase : K → Command K A

module _ {K A : Type 0} (t : Keyed K A) where
  -- a row of the key
  abbrev pub is_row : K → A → Bool
  is_row k row = t.same_key (t.key row) k

  unfoldable pub find : K → List A → Option A
  find k [] = none
  find k (row ∷ rows) = if is_row k row then some row else find k rows

  unfoldable pub update : K → (A → A) → List A → List A
  update k f [] = []
  update k f (row ∷ rows) = (if is_row k row then f row else row) ∷ update k f rows

  unfoldable pub run : Command K A → List A → List A × Bool
  unfolding update
  run (create row) rows =
      if any (is_row (t.key row)) rows then (rows, false) else (rows ++ (row ∷ []), true)
  run (change k f) rows = (update k f rows, any (is_row k) rows)
  run (erase k) rows = (keep (λ row. not (is_row k row)) rows, any (is_row k) rows)
