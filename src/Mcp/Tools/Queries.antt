-- ===== src/Mcp/Tools/Queries.antt =====
-- internal/mcp/tools/sql_query.go: the guards of a query, and what is asked of the database. A
-- transaction is read-only; the driver is a parameter.
use agent_exec_engine.Prelude.{
  String, Bool, false, not, List, [], ◌∷◌, Option, none, some, if◌then◌else◌, ◌==◌, Map, lookup,
  insert, Result, ok, err, ◌>>=◌, ◌>>◌, fail_if,
}
use agent_exec_engine.Prelude.Texts.{trim_space, has_prefix}
use agent_exec_engine.Prelude.Int.{pos}
use agent_exec_engine.Types.{Value, text, ToolDefinition}

abbrev sql_query_definition : ToolDefinition
sql_query_definition = record {
  name = "sql_query";
  description = "Execute a read-only SQL query against the database.";
  input_schema = record {
    type = "object";
    properties =
        ("sql", record { type = "string"; description = "SQL SELECT query"; enum = [] }) ∷ [];
    required = "sql" ∷ [];
  };
  category = "data";
  sandboxed = false;
  rate_limit = pos 20;
}

pub data QueryError : Type 0 where
  sql_required select_only dsn_missing : QueryError
  open_failed begin_failed query_failed scan_failed commit_failed marshal_failed :
      String → QueryError

-- A column's value as the driver scans it: bytes, or anything else.
pub data Scanned : Type 0 where
  bytes : String → Scanned
  plain : Value → Scanned

-- sql.Open, BeginTx of a read-only transaction, the query with its rows, and Commit. A row may fail
-- to be scanned; the columns' names come with the rows.
pub record Database : Type 0 where
  pub open_db : String → Result String (Unit {0})
  pub begin_read_only : Result String (Unit {0})
  pub query : String → Result String (List String × List (Result String (List Scanned)))
  -- The error that ended the iteration, if any.
  pub rows_err : Option String
  pub commit : Result String (Unit {0})
  pub marshal : List (Map Value) → Result String String
  -- strings.ToUpper
  pub to_upper : String → String

abbrev pub text_of : Option Value → Option String
text_of (some (text s)) = some s
text_of _ = none

unfoldable normalize_sql_value : Scanned → Value
normalize_sql_value (bytes s) = text s
normalize_sql_value (plain value) = value

-- The loop over a row's columns; a later column of the same name replaces an earlier one.
unfoldable record_of : List String → List Scanned → Map Value → Map Value
unfolding normalize_sql_value
record_of (column ∷ columns) (value ∷ values) r =
    record_of columns values (insert column (normalize_sql_value value) r)
record_of _ _ r = r

unfoldable scan_rows :
    List String
    → List (Result String (List Scanned))
    → Option String
    → Result QueryError (List (Map Value))
unfolding record_of
scan_rows columns [] none = ok []
scan_rows columns [] (some e) = err (scan_failed e)
scan_rows columns (err e ∷ rows) last = err (scan_failed e)
scan_rows columns (ok values ∷ rows) last = do
  records ← scan_rows columns rows last
  ok (record_of columns values [] ∷ records)

module _ {A : Type 0} where
  abbrev pub with_error : (String → QueryError) → Result String A → Result QueryError A
  with_error wrap (ok a) = ok a
  with_error wrap (err e) = err (wrap e)

module _ (db : Database) where
  unfoldable is_select_query : String → Bool
  is_select_query statement = has_prefix (trim_space (db.to_upper statement)) "SELECT"

  unfoldable statement_of : Map Value → Result QueryError String
  statement_of input = elim (text_of (lookup "sql" input)) [
    | none ↦ err sql_required
    | some statement ↦ if trim_space statement == "" then err sql_required else ok statement
  ]

  -- What follows the guards.
  unfoldable run_query : String → String → Result QueryError String
  unfolding scan_rows
  run_query dsn statement = do
    with_error open_failed (db.open_db dsn)
    with_error begin_failed db.begin_read_only
    (columns, rows) ← with_error query_failed (db.query statement)
    records ← scan_rows columns rows db.rows_err
    with_error commit_failed db.commit
    with_error marshal_failed (db.marshal records)

  unfoldable pub handle : String → Map Value → Result QueryError String
  unfolding is_select_query statement_of run_query
  handle dsn input = do
    statement ← statement_of input
    fail_if (not (is_select_query statement)) select_only
    fail_if (trim_space dsn == "") dsn_missing
    run_query dsn statement
