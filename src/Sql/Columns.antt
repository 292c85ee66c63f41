-- ===== src/Sql/Columns.antt =====
-- How internal/store/sql.go writes values and reads columns: tsValue, nullable, bytesFrom,
-- parseTimeRaw, parseTimeString and scanEventRow.
use evidra_gitops.Base.{
  ℕ, String, Option, none, some, List, [], ◌∷◌, ◌==◌, ◌<>◌, if◌then◌else◌, trim_space, ◌||◌,
}
use evidra_gitops.Base.Dict.{Dict}
use evidra_gitops.Result.{Result, ok, err, other, ◌>>=◌}
use evidra_gitops.Value.{Value}
use evidra_gitops.Event.{StoredEvent}
use evidra_gitops.Event.Platform.{Platform}
use evidra_gitops.Sql.{Dialect, postgres, sqlite, Param, Column, EventRow, SqlFormats}

-- tsValue
unfoldable pub ts_value : Platform → Dialect → ℕ → Param
ts_value p postgres t = Param.time t
ts_value p sqlite t = Param.text (p.format_nano t)

-- nullable
unfoldable pub nullable : String → Param
nullable s = if trim_space s == "" then Param.null else Param.text s

-- bytesFrom, with the empty text for nil
unfoldable pub bytes_from : Column → String
bytes_from (Column.bytes s) = s
bytes_from (Column.text s) = s
bytes_from Column.absent = ""
bytes_from (Column.time t) = ""
bytes_from Column.foreign = ""

unfoldable pub string_or_empty : Option String → String
string_or_empty none = ""
string_or_empty (some s) = s

module _ (p : Platform) (f : SqlFormats) where
  -- The loop over the layouts.
  unfoldable pub first_parsed : List (String → Option ℕ) → String → Result ℕ
  first_parsed [] s = err (other ("invalid time format: " <> s))
  first_parsed (parse ∷ rest) s = elim (parse s) [ some t ↦ ok t | none ↦ first_parsed rest s ]

  -- parseTimeString
  unfoldable pub parse_time_string : String → Result ℕ
  unfolding first_parsed
  parse_time_string s =
      if trim_space s == ""
      then ok 0
      else first_parsed
          (p.parse_nano
            ∷ p.parse_rfc3339
            ∷ f.parse_layout "2006-01-02 15:04:05.999999-07:00"
            ∷ f.parse_layout "2006-01-02 15:04:05-07:00"
            ∷ f.parse_layout "2006-01-02 15:04:05"
            ∷ [])
          (trim_space s)

  -- parseTimeRaw
  unfoldable pub parse_time_raw : Column → Result ℕ
  unfolding parse_time_string
  parse_time_raw (Column.time t) = ok t
  parse_time_raw (Column.bytes s) = parse_time_string s
  parse_time_raw (Column.text s) = parse_time_string s
  parse_time_raw Column.absent = ok 0
  parse_time_raw Column.foreign = err (other "unsupported time type")

  -- The extensions of a row; without any, a nil map, from which nothing is read.
  unfoldable pub scanned_extensions : String → Result (Dict Value)
  scanned_extensions b =
      if b == "" || b == "{}"
      then ok []
      else elim (p.unmarshal_object b) [ none ↦ err (other "unmarshal") | some m ↦ ok m ]

  -- scanEventRow, behind its Scan
  unfoldable pub scan_event_row : EventRow → Result (StoredEvent × ℕ)
  scan_event_row row = do
    ts ← parse_time_raw row.event_time
    extensions ← scanned_extensions (bytes_from row.extensions)
    ingested_at ← parse_time_raw row.ingested_at
    ok (
      record {
        id = row.id;
        type = row.type;
        source = row.source;
        subject = string_or_empty row.subject;
        time = ts;
        extensions = extensions;
        payload = bytes_from row.payload;
        integrity_hash = row.integrity_hash;
        ingested_at = ingested_at;
      },
      ingested_at,
    )
