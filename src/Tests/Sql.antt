-- ===== src/Tests/Sql.antt =====
-- The statements of internal/store/sql.go at concrete queries.
use evidra_gitops.Base.{◌≡◌, refl, true, Option, none, some, length, List, [], String, ◌∷◌}
use evidra_gitops.Base.Int.{pos}
use evidra_gitops.Base.Dict.{Dict, lookup, insert}
use evidra_gitops.Result.{Error, ok, err}
use evidra_gitops.Event.{StoredEvent}
use evidra_gitops.Store.{accepted, hashed}
use evidra_gitops.Store.Query.{TimelineQuery}
use evidra_gitops.Sql.{postgres, sqlite, SqlFormats, Param, Engine, EventRow, Column}
use evidra_gitops.Sql.Events
use evidra_gitops.Sql.Statement.{select_timeline}
use evidra_gitops.Event.Platform.{EncodesAll}
use evidra_gitops.Sql.Committed.{Outcome, ingest_event_committed}
use evidra_gitops.Sql.Injection.{StandsIn, select_timeline-key}
use evidra_gitops.Sql.Bound.{SameShape, select_timeline-Alike}
use evidra_gitops.Tests.Standard.{standard, tally, first}

abbrev sql_formats : SqlFormats
sql_formats = record { decimal = tally; parse_layout = λ layout s. none }

pub encodes_all : EncodesAll standard
encodes_all = record { encoded = λ m. ("{}", refl) }

abbrev text_of : Param → String
text_of Param.null = ""
text_of (Param.text s) = s
text_of (Param.time t) = ""
text_of (Param.number n) = ""

abbrev first_text : List Param → String
first_text [] = ""
first_text (v ∷ vs) = text_of v

-- The row of the columns that the statement inserts.
row_of : List Param → Option EventRow
row_of (id ∷ type ∷ source ∷ subject ∷ event_time ∷ extensions ∷ payload ∷ hash ∷ []) =
    some (record {
      id = text_of id;
      type = text_of type;
      source = text_of source;
      subject = some (text_of subject);
      event_time = Column.text (text_of event_time);
      extensions = Column.text (text_of extensions);
      payload = Column.text (text_of payload);
      integrity_hash = text_of hash;
      ingested_at = Column.time 9;
    })
row_of params = none

-- A database that keeps the rows that it is told to insert.
abbrev engine : Engine (Dict EventRow) (Dict EventRow)
engine = record {
  query_event = λ sql params d. ok (lookup (first_text params) d);
  query_events = λ sql params d. ok (record { rows = []; failure = none });
  query_subjects = λ sql params d. ok (record { rows = []; failure = none });
  query_export = λ sql params d. ok none;
  exec = λ sql params d. (ok 1, d);
  begin = λ d. ok d;
  tx_query_event = λ sql params x. ok (lookup (first_text params) x);
  tx_exec = λ sql params x. elim (row_of params) [
    | none ↦ err (Error.other "arity")
    | some row ↦ ok (insert row.id row x)
  ];
  commit = λ x d. (ok tt, x);
}

ingested_first :
    (Events.ingest_event standard sql_formats sqlite engine 9 first []).0 ≡ ok (accepted, 9)
unfolding Events.ingest_event evidra_gitops.Store.validate_stored_event
    evidra_gitops.Store.is_valid_event evidra_gitops.Tests.Standard.sample hashed
    evidra_gitops.Event.Hash.compute_integrity_hash evidra_gitops.Tests.Standard.empty_canonical
    Events.get_event_tx lookup Events.extensions_json row_of
    evidra_gitops.Sql.Statement.insert_event
ingested_first = refl

ingest_event_committed_example :
    (h : StoredEvent) × (hashed standard first ≡ some h)
    × Outcome standard sql_formats engine 9 h [] accepted 9
        (Events.ingest_event standard sql_formats sqlite engine 9 first []).1
ingest_event_committed_example =
    ingest_event_committed standard sql_formats engine 9 first [] accepted 9 ingested_first

abbrev keyed : TimelineQuery
keyed = record {
  subject = "";
  cluster = "";
  namespace = "";
  from = 0;
  to = 0;
  source = "";
  type = "";
  correlation_key = "x' OR '1'='1";
  correlation_value = "v";
  include_supporting = true;
  limit = pos 1;
  cursor = "";
}

select_timeline-key_example :
    StandsIn "x' OR '1'='1" (select_timeline sql_formats postgres standard keyed 0 "").sql
select_timeline-key_example = select_timeline-key sql_formats postgres keyed refl refl standard 0 ""

alike :
    SameShape (record keyed { source = "a"; to = 4 }) (record keyed { source = "b' --"; to = 7 })
alike = record {
  from = refl;
  to = refl;
  subject = refl;
  cluster = refl;
  namespace = refl;
  source = refl;
  type = refl;
  correlation_key = refl;
  correlation_value = refl;
  include_supporting = refl;
}

select_timeline-Alike_example :
    ((select_timeline sql_formats postgres standard
        (record keyed { source = "a"; to = 4 })
        0
        "").sql
      ≡ (select_timeline sql_formats postgres standard
          (record keyed { source = "b' --"; to = 7 })
          0
          "").sql)
    × (length
          (select_timeline sql_formats postgres standard
            (record keyed { source = "a"; to = 4 })
            0
            "").params
        ≡ length
            (select_timeline sql_formats postgres standard
              (record keyed { source = "b' --"; to = 7 })
              0
              "").params)
select_timeline-Alike_example =
    select_timeline-Alike sql_formats postgres (record keyed { source = "a"; to = 4 })
      (record keyed { source = "b' --"; to = 7 }) alike standard 0 0 "" "" refl

-- The text that the injected key gives.
injected :
    (select_timeline sql_formats postgres standard keyed 0 "").sql
    ≡ "SELECT e.id, e.type, e.source, e.subject, e.event_time, e.extensions, e.data, e.integrity_hash, e.ingested_at FROM events e WHERE 1=1 AND e.extensions->>'x' OR '1'='1' = $1 ORDER BY e.event_time ASC, e.id ASC LIMIT $11"
unfolding select_timeline tally
injected = refl
