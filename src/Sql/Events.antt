-- ===== src/Sql/Events.antt =====
-- The operations of internal/store/sql.go on the table `events`.
use evidra_gitops.Base.{
  ℕ, String, ◌<>◌, not, ◌||◌, Option, none, some, List, [], ◌∷◌, ◌==◌, if◌then◌else◌,
}
use evidra_gitops.Base.Int.{ℤ}
use evidra_gitops.Base.Dict.{Dict}
use evidra_gitops.Result.{
  Error, Result, ok, err, not_found, conflict, invalid_input, append_only, other, ◌>>=◌,
}
use evidra_gitops.Value.{Value}
use evidra_gitops.Event.{StoredEvent}
use evidra_gitops.Event.Platform.{Platform}
use evidra_gitops.Store.{IngestStatus, accepted, duplicate, validate_stored_event, hashed}
use evidra_gitops.Store.Cursor.{decode_cursor}
use evidra_gitops.Store.Query.{
  TimelineQuery, TimelineResult, timeline_limit, page, SubjectInfo, extension_limit,
}
use evidra_gitops.Sql.{Dialect, postgres, sqlite, Param, EventRow, Rows, Engine, SqlFormats}
use evidra_gitops.Sql.Columns.{scan_event_row}
use evidra_gitops.Sql.Statement.{
  Statement, is_valid_extension_key, sanitize_key, dialect_expr_key, timeline_columns, ph,
  select_event, insert_event, select_timeline, select_subjects,
}

-- The extensions as JSON: those of a nil map are written like those of an empty one.
unfoldable pub extensions_json : Platform → Dict Value → Option String
extensions_json p [] = some "{}"
extensions_json p (e ∷ extensions) = p.marshal_object (e ∷ extensions)

abbrev pub payload_json : String → String
payload_json payload = if payload == "" then "{}" else payload

-- The results of a loop over rows, up to the first error.
unfoldable pub collected {ℓ} : {A : Type ℓ} → List (Result A) → Result (List A)
collected [] = ok []
collected (r ∷ rs) = r >>= λ a. (collected rs >>= λ as'. ok (a ∷ as'))

module _ {D X : Type 0} (p : Platform) (f : SqlFormats) (dialect : Dialect) (db : Engine D X) where
  -- A row by its id, in a query or in a transaction.
  unfoldable pub scan_found : Result (Option EventRow) → Result (Option (StoredEvent × ℕ))
  scan_found (err failure) = err failure
  scan_found (ok none) = ok none
  scan_found (ok (some row)) = scan_event_row p f row >>= λ found. ok (some found)

  -- getEventTx
  unfoldable pub get_event_tx : String → X → Result (Option (StoredEvent × ℕ))
  unfolding scan_found
  get_event_tx id x =
      let st = select_event f dialect id in scan_found (db.tx_query_event st.sql st.params x)

  unfoldable pub after_commit :
      Result (IngestStatus × ℕ) → Result (Unit {0}) × D → Result (IngestStatus × ℕ) × D
  after_commit answer (err failure, after) = (err failure, after)
  after_commit answer (ok _, after) = (answer, after)

  -- The commit, and the answer if it succeeds.
  unfoldable pub commit_as : Result (IngestStatus × ℕ) → X → D → Result (IngestStatus × ℕ) × D
  unfolding after_commit
  commit_as answer x d = after_commit answer (db.commit x d)

  unfoldable pub insert_row : ℕ → StoredEvent → X → D → Result (IngestStatus × ℕ) × D
  unfolding commit_as
  insert_row now e x d = elim (extensions_json p e.extensions) [
    | none ↦ (err (other "marshal"), d)
    | some extensions ↦
        let st = insert_event f dialect p e extensions (payload_json e.payload) in
        elim (db.tx_exec st.sql st.params x) [
          | err failure ↦ (err failure, d)
          | ok x' ↦ commit_as (ok (accepted, now)) x' d
        ]
  ]

  -- IngestEvent, of an event with its hash; `now` is the time that is read at its end.
  unfoldable pub ingest_hashed : ℕ → StoredEvent → D → Result (IngestStatus × ℕ) × D
  unfolding insert_row commit_as
  ingest_hashed now e d = elim (db.begin d) [
    | err failure ↦ (err failure, d)
    | ok x ↦ elim (get_event_tx e.id x) [
      | err failure ↦ (err failure, d)
      | ok none ↦ insert_row now e x d
      | ok (some (existing, ingested_at)) ↦
          if existing.integrity_hash == e.integrity_hash
          then commit_as (ok (duplicate, ingested_at)) x d
          else (err conflict, d)
    ]
  ]

  -- IngestEvent
  unfoldable pub ingest_event : ℕ → StoredEvent → D → Result (IngestStatus × ℕ) × D
  unfolding ingest_hashed
  ingest_event now e d = elim (validate_stored_event e) [
    | err failure ↦ (err failure, d)
    | ok _ ↦ elim (hashed p e) [
      | none ↦ (err (other "marshal"), d)
      | some h ↦ ingest_hashed now h d
    ]
  ]

  unfoldable pub found_event : Result (Option (StoredEvent × ℕ)) → Result StoredEvent
  found_event (err failure) = err failure
  found_event (ok none) = err not_found
  found_event (ok (some (e, ingested_at))) = ok e

  -- GetEvent
  unfoldable pub get_event : String → D → Result StoredEvent
  unfolding scan_found found_event
  get_event id d =
      let st = select_event f dialect id in
      found_event (scan_found (db.query_event st.sql st.params d))

  unfoldable pub scanned : List (Result EventRow) → List (Result StoredEvent)
  scanned [] = []
  scanned (r ∷ rs) =
      (r >>= λ row. (scan_event_row p f row >>= λ (e, ingested_at). ok e)) ∷ scanned rs

  unfoldable pub answered_rows : Option Error → List StoredEvent → Result (List StoredEvent)
  answered_rows none items = ok items
  answered_rows (some failure) items = err failure

  -- The loop over the rows of events, and `rows.Err` behind it.
  unfoldable pub events_of_rows : Result (Rows EventRow) → Result (List StoredEvent)
  unfolding collected scanned answered_rows
  events_of_rows rows = rows >>= λ answer.
      (collected (scanned answer.rows) >>= λ items. answered_rows answer.failure items)

  -- QueryTimeline
  unfoldable pub query_timeline : TimelineQuery → D → Result TimelineResult
  unfolding events_of_rows
  query_timeline q d = decode_cursor p q.cursor >>= λ (ts, id).
      let st = select_timeline f dialect p q ts id in
      (events_of_rows (db.query_events st.sql st.params d) >>= λ items.
      ok (page p (timeline_limit q.limit) items))

  -- ListSubjects
  unfoldable pub list_subjects : D → Result (List SubjectInfo)
  unfolding collected
  list_subjects d =
      let st = select_subjects f dialect in
      db.query_subjects st.sql st.params d >>= λ answer.
      (collected answer.rows >>= λ out. elim answer.failure [
        | none ↦ ok out
        | some failure ↦ err failure
      ])

  -- The statement of EventsByExtension; `none` is an error of `json.Marshal`.
  unfoldable pub select_by_extension : String → String → ℕ → Option Statement
  select_by_extension key value limit = elim dialect [
    | postgres ↦ elim (p.marshal_object ((key, Value.text value) ∷ [])) [
      | none ↦ none
      | some filter ↦ some (record {
        sql =
            "SELECT "
            <> (timeline_columns
                <> (" FROM events e WHERE e.extensions @> "
                    <> (ph f postgres 1
                        <> ("::jsonb ORDER BY e.event_time ASC, e.id ASC LIMIT "
                            <> ph f postgres 2))));
        params = Param.text filter ∷ Param.number limit ∷ [];
      })
    ]
    | sqlite ↦ some (record {
      sql =
          "SELECT "
          <> (timeline_columns
              <> (" FROM events e WHERE "
                  <> (dialect_expr_key sqlite "e.extensions" (sanitize_key key)
                      <> (" = "
                          <> (ph f sqlite 1
                              <> (" ORDER BY e.event_time ASC, e.id ASC LIMIT "
                                  <> ph f sqlite 2))))));
      params = Param.text value ∷ Param.number limit ∷ [];
    })
  ]

  -- EventsByExtension
  unfoldable pub events_by_extension : String → String → ℤ → D → Result (List StoredEvent)
  unfolding select_by_extension events_of_rows
  events_by_extension key value limit d =
      if key == "" || value == ""
      then err invalid_input
      else if not (is_valid_extension_key key)
      then err invalid_input
      else elim (select_by_extension key value (extension_limit limit)) [
        | none ↦ err (other "marshal")
        | some st ↦ events_of_rows (db.query_events st.sql st.params d)
      ]

  -- DeleteEvent
  unfoldable pub delete_event : String → D → Result (Unit {0}) × D
  delete_event id d = (err append_only, d)
