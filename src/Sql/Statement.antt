-- ===== src/Sql/Statement.antt =====
-- The statements of internal/store/sql.go and their parameters: ph, dialectExprKey, dialectCoalesce,
-- isValidExtensionKey, sanitizeKey and the texts that the operations build.
use Prim.Native.Char.{code}
use Prim.Native.String.{[], ◌∷◌}
use evidra_gitops.Base.{
  ℕ, ◌+◌, String, ◌<>◌, Bool, true, false, not, ◌&&◌, ◌||◌, List, [], ◌∷◌, ◌++◌, ◌==◌,
  if◌then◌else◌, leb, eqb, length,
}
use evidra_gitops.Event.{StoredEvent, is_zero_time}
use evidra_gitops.Event.Platform.{Platform}
use evidra_gitops.Store.Query.{TimelineQuery, timeline_limit}
use evidra_gitops.Sql.{Dialect, postgres, sqlite, Param, SqlFormats}
use evidra_gitops.Sql.Columns.{ts_value, nullable}

pub record Statement : Type 0 where
  pub sql : String
  pub params : List Param

unfoldable pub is_key_char : ℕ → Bool
is_key_char c =
    (leb b'a' c && leb c b'z')
    || (leb b'A' c && leb c b'Z')
    || (leb b'0' c && leb c b'9')
    || eqb c b'_'
    || eqb c b'-'

unfoldable pub has_key_chars : String → Bool
unfolding is_key_char
has_key_chars [] = true
has_key_chars (c ∷ s) = let rest = has_key_chars s in if is_key_char (code c) then rest else false

-- isValidExtensionKey
unfoldable pub is_valid_extension_key : String → Bool
is_valid_extension_key key = has_key_chars key && not (key == "")

-- sanitizeKey
abbrev pub sanitize_key : String → String
sanitize_key key = key

-- dialectExprKey
unfoldable pub dialect_expr_key : Dialect → String → String → String
dialect_expr_key postgres col key = col <> ("->>'" <> (key <> "'"))
dialect_expr_key sqlite col key = "json_extract(" <> (col <> (", '$." <> (key <> "')")))

-- dialectCoalesce
unfoldable pub dialect_coalesce : Dialect → String → String → String → String
dialect_coalesce dialect col key fallback =
    "COALESCE(" <> (dialect_expr_key dialect col key <> (", '" <> (fallback <> "')")))

abbrev pub event_columns : String
event_columns =
    "id, type, source, subject, event_time, extensions, data, integrity_hash, ingested_at"

abbrev pub timeline_columns : String
timeline_columns =
    "e.id, e.type, e.source, e.subject, e.event_time, e.extensions, e.data, e.integrity_hash, e.ingested_at"

-- The statement that QueryTimeline begins with.
abbrev pub all_events : Statement
all_events = record {
  sql = "SELECT " <> (timeline_columns <> " FROM events e WHERE 1=1");
  params = [];
}

module _ (f : SqlFormats) (dialect : Dialect) where
  -- ph
  unfoldable pub ph : ℕ → String
  ph n = elim dialect [ postgres ↦ "$" <> f.decimal n | sqlite ↦ "?" ]

  -- The statement of GetEvent and getEventTx.
  unfoldable pub select_event : String → Statement
  unfolding ph
  select_event id = record {
    sql = "SELECT " <> (event_columns <> (" FROM events WHERE id = " <> ph 1));
    params = Param.text id ∷ [];
  }

  -- The statement of IngestEvent.
  unfoldable pub insert_event : Platform → StoredEvent → String → String → Statement
  unfolding ph
  insert_event p e extensions payload = record {
    sql =
        "INSERT INTO events (id, type, source, subject, event_time, extensions, data, integrity_hash) VALUES ("
        <> (ph 1
            <> (","
                <> (ph 2
                    <> (","
                        <> (ph 3
                            <> (","
                                <> (ph 4
                                    <> (","
                                        <> (ph 5
                                            <> (","
                                                <> (ph 6
                                                    <> (","
                                                        <> (ph 7
                                                            <> ("," <> (ph 8 <> ")")))))))))))))));
    params =
        Param.text e.id
        ∷ Param.text e.type
        ∷ Param.text e.source
        ∷ nullable e.subject
        ∷ ts_value p dialect e.time
        ∷ Param.text extensions
        ∷ Param.text payload
        ∷ Param.text e.integrity_hash
        ∷ [];
  }

  -- A text, a value and a text: the value becomes the next parameter, its placeholder stands between
  -- the texts.
  unfoldable pub bind : String → Param → String → Statement → Statement
  unfolding ph
  bind before value after s = record {
    sql = s.sql <> (before <> (ph (length s.params + 1) <> after));
    params = s.params ++ (value ∷ []);
  }

  -- A condition that is added only if a test holds.
  unfoldable pub bind_if : Bool → String → Param → Statement → Statement
  unfolding bind
  bind_if test before value s = if test then bind before value "" s else s

  -- The conditions on the subject, its cluster and its namespace.
  unfoldable pub of_subject : TimelineQuery → Statement → Statement
  unfolding bind_if dialect_expr_key
  of_subject q s =
      bind_if (not (q.subject == "") && not (q.namespace == ""))
        (" AND " <> (dialect_expr_key dialect "e.extensions" "namespace" <> " = "))
        (Param.text q.namespace)
        (bind_if (not (q.subject == "") && not (q.cluster == ""))
          (" AND " <> (dialect_expr_key dialect "e.extensions" "cluster" <> " = "))
          (Param.text q.cluster)
          (bind_if (not (q.subject == "")) " AND e.subject = " (Param.text q.subject) s))

  abbrev pub without_supporting : String
  without_supporting = elim dialect [
    | postgres ↦ " AND COALESCE(e.extensions->>'supporting_observation', 'false') != 'true'"
    | sqlite ↦ " AND COALESCE(json_extract(e.extensions, '$.supporting_observation'), 0) = 0"
  ]

  unfoldable pub of_supporting : TimelineQuery → Statement → Statement
  of_supporting q s =
      if q.include_supporting then s else record s { sql = s.sql <> without_supporting }

  unfoldable pub of_cursor : Platform → ℕ → String → Statement → Statement
  unfolding bind
  of_cursor p ts id s =
      if is_zero_time ts
      then s
      else bind " AND e.id > " (Param.text id) "))" (
          bind " OR (e.event_time = " (ts_value p dialect ts) ""
            (bind " AND (e.event_time > " (ts_value p dialect ts) "" s))

  abbrev pub of_correlation : TimelineQuery → Statement → Statement
  of_correlation q s =
      bind_if (not (q.correlation_key == "") && not (q.correlation_value == ""))
        (" AND "
          <> (dialect_expr_key dialect "e.extensions" (sanitize_key q.correlation_key) <> " = "))
        (Param.text q.correlation_value) s

  -- The statement of QueryTimeline, for a cursor that was decoded.
  unfoldable pub select_timeline : Platform → TimelineQuery → ℕ → String → Statement
  unfolding bind bind_if of_subject of_supporting of_cursor
  select_timeline p q ts id =
      let s1 =
        bind_if (not (is_zero_time q.from)) " AND e.event_time >= " (ts_value p dialect q.from)
          all_events in
      let s2 =
        bind_if (not (is_zero_time q.to)) " AND e.event_time <= " (ts_value p dialect q.to) s1 in
      let s3 = of_subject q s2 in
      let s4 = bind_if (not (q.source == "")) " AND e.source = " (Param.text q.source) s3 in
      let s5 = bind_if (not (q.type == "")) " AND e.type = " (Param.text q.type) s4 in
      let s6 = of_correlation q s5 in
      let s7 = of_cursor p ts id (of_supporting q s6) in
      bind " ORDER BY e.event_time ASC, e.id ASC LIMIT " (Param.number (timeline_limit q.limit + 1))
        "" s7

  -- The statement of ListSubjects.
  unfoldable pub select_subjects : Statement
  unfolding dialect_coalesce
  select_subjects = record {
    sql =
        "SELECT DISTINCT subject, "
        <> (dialect_coalesce dialect "extensions" "cluster" ""
            <> (", "
                <> (dialect_coalesce dialect "extensions" "namespace" ""
                    <> " FROM events WHERE subject IS NOT NULL ORDER BY 1, 2, 3")));
    params = [];
  }
