-- ===== src/Sql.antt =====
-- SQLRepository of internal/store/sql.go, over database/sql with the driver of PostgreSQL or SQLite.
-- The engine is a parameter; the statements that it is sent, and their parameters, are the program's.
pub mod Columns
pub mod Statement
pub mod Events
pub mod Exports
pub mod Bound
pub mod Injection
pub mod Committed
use evidra_gitops.Base.{
  ℕ, String, ◌<>◌, Option, none, some, List, ◌==◌, if◌then◌else◌, trim_space, to_lower,
}
use evidra_gitops.Result.{Error, Result, ok, err, other}
use evidra_gitops.Store.Query.{SubjectInfo}

pub data Dialect : Type 0 where
  postgres sqlite : Dialect

-- A parameter of a statement, as an `interface{}`.
pub data Param : Type 0 where
  null : Param
  text : String → Param
  time : ℕ → Param
  number : ℕ → Param

-- A column that is scanned into an `interface{}`.
pub data Column : Type 0 where
  absent : Column
  bytes : String → Column
  text : String → Column
  time : ℕ → Column
  foreign : Column

-- A row of the table `events` that was scanned; a subject that is NULL is `none`.
pub record EventRow : Type 0 where
  pub id : String
  pub type : String
  pub source : String
  pub subject : Option String
  pub event_time : Column
  pub extensions : Column
  pub payload : Column
  pub integrity_hash : String
  pub ingested_at : Column

-- A row of the table `exports`.
pub record ExportRow : Type 0 where
  pub id : String
  pub status : String
  pub format : String
  pub filter : Column
  pub artifact_uri : Option String
  pub error_message : Option String
  pub created_at : Column
  pub completed_at : Column

-- The rows of an answer, each with the result of its Scan, and `rows.Err` behind the last.
pub record Rows (A : Type 0) : Type 0 where
  pub rows : List (Result A)
  pub failure : Option Error

-- `*sql.DB` with a state `D`, and `*sql.Tx` with a state `X`. `none` is sql.ErrNoRows.
pub record Engine (D X : Type 0) : Type 0 where
  pub query_event : String → List Param → D → Result (Option EventRow)
  pub query_events : String → List Param → D → Result (Rows EventRow)
  pub query_subjects : String → List Param → D → Result (Rows SubjectInfo)
  pub query_export : String → List Param → D → Result (Option ExportRow)
  -- the number of rows that were affected
  pub exec : String → List Param → D → Result ℕ × D
  pub begin : D → Result X
  pub tx_query_event : String → List Param → X → Result (Option EventRow)
  pub tx_exec : String → List Param → X → Result X
  pub commit : X → D → Result (Unit {0}) × D

-- "%d", and `time.Parse` with a layout
pub record SqlFormats : Type 0 where
  pub decimal : ℕ → String
  pub parse_layout : String → String → Option ℕ

-- NewSQLRepository; a nil database is `none`.
unfoldable pub new_sql_repository : {A : Type 0} → Option A → String → Result (A × Dialect)
new_sql_repository none dialect = err (other "nil db")
new_sql_repository (some db) dialect =
    let d = to_lower (trim_space dialect) in
    if d == ""
    then err (other "empty dialect")
    else if d == "postgres"
    then ok (db, postgres)
    else if d == "sqlite"
    then ok (db, sqlite)
    else err (other ("unsupported dialect: " <> dialect))
