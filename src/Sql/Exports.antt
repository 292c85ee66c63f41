-- ===== src/Sql/Exports.antt =====
-- The operations of internal/store/sql.go on the table `exports`.
use evidra_gitops.Base.{ℕ, String, ◌<>◌, Option, none, some, [], ◌∷◌, ◌==◌, if◌then◌else◌, eqb}
use evidra_gitops.Base.Dict.{Dict}
use evidra_gitops.Result.{Result, ok, err, not_found, other, ◌>>=◌}
use evidra_gitops.Value.{Value}
use evidra_gitops.Event.{is_zero_time}
use evidra_gitops.Event.Platform.{Platform}
use evidra_gitops.Sql.{Dialect, Param, Column, ExportRow, Engine, SqlFormats}
use evidra_gitops.Sql.Columns.{ts_value, bytes_from, string_or_empty, parse_time_raw}
use evidra_gitops.Sql.Statement.{Statement, ph}

-- model.ExportJob as the table holds it: its status is the text of the column.
pub record SqlExportJob : Type 0 where
  pub id : String
  pub status : String
  pub format : String
  pub filter : Dict Value
  pub artifact_uri : String
  pub error : String
  pub created_at : ℕ
  pub completed_at : Option ℕ

module _ (f : SqlFormats) (dialect : Dialect) where
  unfoldable pub insert_export : String → String → String → Statement
  unfolding ph
  insert_export id format filter = record {
    sql =
        "INSERT INTO exports (id, status, format, filter_json) VALUES ("
        <> (ph f dialect 1
            <> (","
                <> (ph f dialect 2
                    <> ("," <> (ph f dialect 3 <> ("," <> (ph f dialect 4 <> ")")))))));
    params = Param.text id ∷ Param.text "pending" ∷ Param.text format ∷ Param.text filter ∷ [];
  }

  -- The statement of SetExportCompleted and SetExportFailed, which write a column each.
  unfoldable pub update_export : Platform → String → String → ℕ → String → String → Statement
  unfolding ph ts_value
  update_export p column status now id info = record {
    sql =
        "UPDATE exports SET status = "
        <> (ph f dialect 1
            <> (", "
                <> (column
                    <> (" = "
                        <> (ph f dialect 2
                            <> (", completed_at = "
                                <> (ph f dialect 3 <> (" WHERE id = " <> ph f dialect 4))))))));
    params = Param.text status ∷ Param.text info ∷ ts_value p dialect now ∷ Param.text id ∷ [];
  }

  unfoldable pub select_export : String → Statement
  unfolding ph
  select_export id = record {
    sql =
        "SELECT id, status, format, filter_json, artifact_uri, error_message, created_at, completed_at FROM exports WHERE id = "
        <> ph f dialect 1;
    params = Param.text id ∷ [];
  }

module _ (p : Platform) (f : SqlFormats) where
  -- `json.Unmarshal` into the filter, where the column holds bytes.
  unfoldable pub scanned_filter : String → Result (Dict Value)
  scanned_filter b =
      if b == ""
      then ok []
      else elim (p.unmarshal_object b) [ none ↦ err (other "unmarshal") | some filter ↦ ok filter ]

  unfoldable pub dated : Result ℕ → Option ℕ
  dated (err failure) = none
  dated (ok t) = if is_zero_time t then none else some t

  -- The time of the completion: NULL, an error and the zero time give none.
  unfoldable pub scanned_completion : Column → Option ℕ
  unfolding dated parse_time_raw
  scanned_completion column = dated (parse_time_raw p f column)

  -- GetExport, behind its Scan
  unfoldable pub scan_export_row : ExportRow → Result SqlExportJob
  unfolding scanned_filter scanned_completion parse_time_raw
  scan_export_row row = do
    filter ← scanned_filter (bytes_from row.filter)
    created_at ← parse_time_raw p f row.created_at
    ok (record {
      id = row.id;
      status = row.status;
      format = row.format;
      filter = filter;
      artifact_uri = string_or_empty row.artifact_uri;
      error = string_or_empty row.error_message;
      created_at = created_at;
      completed_at = scanned_completion row.completed_at;
    })

module _ {D X : Type 0} (p : Platform) (f : SqlFormats) (dialect : Dialect) (db : Engine D X) where
  unfoldable pub found_export : Result (Option ExportRow) → Result SqlExportJob
  found_export (err failure) = err failure
  found_export (ok none) = err not_found
  found_export (ok (some row)) = scan_export_row p f row

  -- GetExport
  unfoldable pub get_export : String → D → Result SqlExportJob
  unfolding found_export
  get_export id d =
      let st = select_export f dialect id in found_export (db.query_export st.sql st.params d)

  -- The insert of CreateExport, and the row that is read back.
  unfoldable pub insert_and_get : String → String → String → D → Result SqlExportJob × D
  unfolding get_export
  insert_and_get id format filter d =
      let st = insert_export f dialect id format filter in
      let (inserted, after) = db.exec st.sql st.params d in
      elim inserted [ err failure ↦ (err failure, after) | ok n ↦ (get_export id after, after) ]

  -- CreateExport, with the time that it reads and `json.Marshal` of a filter that may be nil
  unfoldable pub create_export :
      (Option (Dict Value) → Option String)
      → ℕ
      → String
      → Option (Dict Value)
      → D
      → Result SqlExportJob × D
  unfolding insert_and_get
  create_export marshal_filter nanos format filter d = elim (marshal_filter filter) [
    | none ↦ (err (other "marshal"), d)
    | some filter_json ↦
        insert_and_get ("exp_" <> p.unix_nano nanos) (if format == "" then "json" else format)
          filter_json d
  ]

  -- An update of one export by its id.
  unfoldable pub updated : Statement → D → Result (Unit {0}) × D
  updated st d =
      let (result, after) = db.exec st.sql st.params d in
      elim result [
        | err failure ↦ (err failure, after)
        | ok affected ↦ if eqb affected 0 then (err not_found, after) else (ok tt, after)
      ]

  -- SetExportCompleted
  unfoldable pub set_export_completed : ℕ → String → String → D → Result (Unit {0}) × D
  unfolding updated update_export
  set_export_completed now id artifact_uri d =
      updated (update_export f dialect p "artifact_uri" "completed" now id artifact_uri) d

  -- SetExportFailed
  unfoldable pub set_export_failed : ℕ → String → String → D → Result (Unit {0}) × D
  unfolding updated update_export
  set_export_failed now id message d =
      updated (update_export f dialect p "error_message" "failed" now id message) d
