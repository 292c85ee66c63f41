-- ===== src/Sql/Injection.antt =====
-- The correlation key in the statement of QueryTimeline of internal/store/sql.go.
use text.Mathlib.TextLemmas.{append_assoc, nil-append}
use evidra_gitops.Base.{ℕ, String, ◌<>◌, ◌≡◌, sym, ap, ◌∙◌, false, ◌==◌, Bool-cases, inl, inr, ◌+◌}
use evidra_gitops.Event.{is_zero_time}
use evidra_gitops.Event.Platform.{Platform}
use evidra_gitops.Store.Query.{TimelineQuery, timeline_limit}
use evidra_gitops.Sql.{Dialect, postgres, sqlite, Param, SqlFormats}
use evidra_gitops.Sql.Columns.{ts_value}
use evidra_gitops.Sql.Statement.{
  Statement, dialect_expr_key, bind, bind_if, of_supporting, of_cursor, of_correlation,
  select_timeline,
}

-- A text stands in another.
abbrev pub StandsIn : String → String → Type 0
StandsIn k s = (before : String) × (after : String) × (s ≡ before <> (k <> after))

module _ (k s t : String) (h : StandsIn k s) where
  StandsIn-right : StandsIn k (s <> t)
  StandsIn-right = (
    h.0,
    h.1 <> t,
    ap (λ x. x <> t) h.2
        ∙ append_assoc h.0 (k <> h.1) t
        ∙ ap (λ x. h.0 <> x) (append_assoc k h.1 t),
  )

  StandsIn-left : StandsIn k (t <> s)
  StandsIn-left = (t <> h.0, h.1, ap (λ x. t <> x) h.2 ∙ sym (append_assoc t h.0 (k <> h.1)))

StandsIn-key :
    (dialect : Dialect) (col key : String) → StandsIn key (dialect_expr_key dialect col key)
unfolding dialect_expr_key
StandsIn-key postgres col key =
    StandsIn-left key _ col (StandsIn-left key _ "->>'" ("", "'", sym (nil-append _)))
StandsIn-key sqlite col key =
    StandsIn-left key _ "json_extract("
      (StandsIn-left key _ col (StandsIn-left key _ ", '$." ("", "')", sym (nil-append _))))

module _ (f : SqlFormats) (dialect : Dialect) (k : String) where
  StandsIn-bind :
      (before after : String) (v : Param) (s : Statement)
      → StandsIn k s.sql
      → StandsIn k (bind f dialect before v after s).sql
  unfolding bind
  StandsIn-bind before after v s h = StandsIn-right k s.sql _ h

  StandsIn-of_supporting :
      (q : TimelineQuery) (s : Statement)
      → StandsIn k s.sql
      → StandsIn k (of_supporting f dialect q s).sql
  unfolding of_supporting
  StandsIn-of_supporting q s h = elim (Bool-cases q.include_supporting) [
    | inl all ↦ rw all h
    | inr some_only ↦ rw some_only (StandsIn-right k s.sql _ h)
  ]

  StandsIn-of_cursor :
      (p : Platform) (ts : ℕ) (id : String) (s : Statement)
      → StandsIn k s.sql
      → StandsIn k (of_cursor f dialect p ts id s).sql
  unfolding of_cursor
  StandsIn-of_cursor p ts id s h = elim (Bool-cases (is_zero_time ts)) [
    | inl none_given ↦ rw none_given h
    | inr given ↦ rw given (
        StandsIn-bind _ _ (Param.text id) _ (
          StandsIn-bind _ _ (ts_value p dialect ts) _
            (StandsIn-bind _ _ (ts_value p dialect ts) s h)))
  ]

module _ (f : SqlFormats) (dialect : Dialect) (q : TimelineQuery)
    (keyed : (q.correlation_key == "") ≡ false) (valued : (q.correlation_value == "") ≡ false) where
  StandsIn-of_correlation :
      (s : Statement) → StandsIn q.correlation_key (of_correlation f dialect q s).sql
  unfolding bind_if bind
  StandsIn-of_correlation s =
      rw (keyed, valued)
        (StandsIn-left q.correlation_key _ s.sql (
          StandsIn-right q.correlation_key _ _ (
            StandsIn-left q.correlation_key _ " AND " (
              StandsIn-right q.correlation_key _ " = "
                (StandsIn-key dialect "e.extensions" q.correlation_key)))))

  -- A correlation key that comes with a value stands in the text of the statement as it is.
  pub select_timeline-key :
      (p : Platform) (ts : ℕ) (id : String)
      → StandsIn q.correlation_key (select_timeline f dialect p q ts id).sql
  unfolding select_timeline
  select_timeline-key p ts id =
      StandsIn-bind f dialect q.correlation_key " ORDER BY e.event_time ASC, e.id ASC LIMIT " ""
        (Param.number (timeline_limit q.limit + 1)) _
        (StandsIn-of_cursor f dialect q.correlation_key p ts id _
          (StandsIn-of_supporting f dialect q.correlation_key q _ (StandsIn-of_correlation _)))
