-- ===== src/Database.antt =====
-- potdb/db.go: one interface for the statements of MySQL and PostgreSQL.
pub mod Params
pub mod Pool
mod Tests
use passwd_pot.Common.{
  ℕ, zero, suc, ◌+◌, ◌==◌, Bytes, codes, itoa, contains, Bool, true, false, not, List, [], ◌∷◌,
  ◌++◌, Option, none, some, Result, ok, err, if◌then◌else◌, length, ◌≡◌, ◌↔◌, refl, ◌⊎◌, inl, inr,
  Result-cases, ◌∙◌, sym,
}
use passwd_pot.Resolver.{Err}

-- `strings.Replace(sql, "?", new, 1)`; 63 is the question mark.
unfoldable pub replace_first : Bytes → Bytes → Bytes
replace_first new [] = []
replace_first new (c ∷ sql) =
    let rest = replace_first new sql in if c == 63 then new ++ sql else c ∷ rest

-- `fmt.Sprintf("$%d", pos)`
abbrev pub param : ℕ → Bytes
param position = 36 ∷ itoa position

-- The loop of `replaceParams`, on fuel.
unfoldable pub replace_loop : ℕ → ℕ → Bytes → Bytes
unfolding contains replace_first itoa
replace_loop zero position sql = sql
replace_loop (suc f) position sql =
    let rest = replace_loop f (position + 1) (replace_first (param position) sql) in
    if contains sql (63 ∷ []) then rest else sql

-- A round for each byte is enough, and one for the end.
unfoldable pub replace_params : Bool → Bytes → Bytes
unfolding replace_loop
replace_params mysql sql = if mysql then sql else replace_loop (length sql + 1) 1 sql

-- `sql.DB` under a driver, at a statement and its arguments: the result of `Exec` by its
-- `LastInsertId`, and the rows of `Query`: none, or a first one with what scanning its id gives.
pub record Driver (Args : Type 0) : Type 0 where
  pub exec : Bytes → Args → Result Err (Result Err ℕ)
  pub query : Bytes → Args → Result Err (Option (Result Err ℕ))

-- `Open`: which dialect the name of the data source asks for.
unfoldable pub is_mysql : Bytes → Bool
unfolding contains
is_mysql dsn = not (contains dsn (codes "postgres"))

-- `Insert` behind the query of PostgreSQL.
abbrev pub inserted : Bytes → Result Err (Option (Result Err ℕ)) → Result Err (Result Err ℕ)
inserted psql_query (err e) = err e
inserted psql_query (ok none) = err (codes "Failed inserting " ++ psql_query)
inserted psql_query (ok (some (err e))) = err e
inserted psql_query (ok (some (ok id))) = ok (ok id)

module _ {Args : Type 0} where
  -- `Insert`: the error, or the result by its `LastInsertId`.
  unfoldable pub insert : Bool → Driver Args → Bytes → Args → Result Err (Result Err ℕ)
  unfolding replace_params
  insert mysql db query args =
      let psql_query = replace_params false query ++ codes " RETURNING ID" in
      if mysql then db.exec query args else inserted psql_query (db.query psql_query args)
