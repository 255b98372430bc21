-- ===== src/Tables.antt =====
-- Database tables as src/opencode_a2a/server/state_store.py uses them: a table is a dictionary from the
-- primary key to a record of the other columns, and a statement is a function on it.
pub mod Laws
use opencode_a2a_serve.Base.Names.{Bool, Option, none, some, List, [], ◌∷◌, ◌++◌}
use opencode_a2a_serve.Base.Equality.{Eq, ◌==◌, if◌then◌else◌}
use opencode_a2a_serve.Base.Dict.{Dict, lookup}

-- Statements on a table, for any primary key.
module _ {K V : Type 0} ⦃e : Eq K⦄ where
  -- `insert(table).values(...)`; `none` is the `IntegrityError` of a key that is taken
  unfoldable pub insert_row : K → V → Dict K V → Option (Dict K V)
  insert_row key row table = elim (lookup key table) [
    | none ↦ some (table ++ (key, row) ∷ [])
    | some _ ↦ none
  ]

  -- `update(table).where(key).values(...)`, for all columns outside the key
  unfoldable pub update_row : K → V → Dict K V → Dict K V
  update_row key row [] = []
  update_row key row ((k, r) ∷ table) =
      (k, (if key == k then row else r)) ∷ update_row key row table

  -- `_insert_then_update_on_conflict`
  unfoldable pub insert_then_update : K → V → Dict K V → Dict K V
  unfolding insert_row update_row
  insert_then_update key row table = elim (insert_row key row table) [
    | some table' ↦ table'
    | none ↦ update_row key row table
  ]

  -- `delete(table).where(p)`
  unfoldable pub delete_where : (K → V → Bool) → Dict K V → Dict K V
  delete_where p [] = []
  delete_where p ((k, r) ∷ table) =
      let rest = delete_where p table in if p k r then rest else (k, r) ∷ rest
