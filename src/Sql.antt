-- ===== src/Sql.antt =====
-- The errors that PostgreSQL reports, and `Scan` of one row.
use go_pay.Prelude.{String, Option, none, some, [], ◌∷◌, concat}
use go_pay.Errors.{GoError, no_rows, driver, Result, ok, err}

-- `Scan` of a row that may be missing.
abbrev pub scan : {A : Type 0} → Option A → Result A
scan none = err no_rows
scan (some a) = ok a

-- SQL state 23505, a unique constraint.
abbrev pub duplicate_key : String → GoError
duplicate_key constraint =
    let message : String =
      concat ("duplicate key value violates unique constraint \"" ∷ constraint ∷ "\"" ∷ []) in
    driver "23505" constraint message (concat ("pq: " ∷ message ∷ []))

-- SQL state 42601, a `SET` without assignments.
abbrev pub syntax_error : GoError
syntax_error =
    driver "42601" "" "syntax error at or near \"WHERE\"" "pq: syntax error at or near \"WHERE\""

-- SQL state 23503, a foreign key.
abbrev pub missing_key : String → String → GoError
missing_key table constraint =
    let message : String = concat (
      "insert or update on table \"" ∷ table ∷ "\" violates foreign key constraint \"" ∷ constraint
      ∷ "\"" ∷ []) in
    driver "23503" constraint message (concat ("pq: " ∷ message ∷ []))
