-- ===== src/Sql/Bound.antt =====
-- What of a query of QueryTimeline in internal/store/sql.go gets into the text of its statement.
use evidra_gitops.Base.{
  ℕ, ◌+◌, String, ◌<>◌, ◌≡◌, refl, sym, ap, ◌∙◌, Bool, true, false, not, ◌&&◌, [], ◌∷◌, ◌==◌,
  length, length-append, arith, Bool-cases, inl, inr,
}
use evidra_gitops.Event.{is_zero_time}
use evidra_gitops.Event.Platform.{Platform}
use evidra_gitops.Store.Query.{TimelineQuery, timeline_limit}
use evidra_gitops.Sql.{Dialect, Param, SqlFormats}
use evidra_gitops.Sql.Columns.{ts_value}
use evidra_gitops.Sql.Statement.{
  Statement, dialect_expr_key, bind, bind_if, of_subject, of_supporting, of_cursor, of_correlation,
  all_events, select_timeline, without_supporting,
}

-- Two queries set the same fields, and ask with the same correlation key.
pub record SameShape (q r : TimelineQuery) : Type 0 where
  pub from : is_zero_time q.from ≡ is_zero_time r.from
  pub to : is_zero_time q.to ≡ is_zero_time r.to
  pub subject : (q.subject == "") ≡ (r.subject == "")
  pub cluster : (q.cluster == "") ≡ (r.cluster == "")
  pub namespace : (q.namespace == "") ≡ (r.namespace == "")
  pub source : (q.source == "") ≡ (r.source == "")
  pub type : (q.type == "") ≡ (r.type == "")
  pub correlation_key : q.correlation_key ≡ r.correlation_key
  pub correlation_value : (q.correlation_value == "") ≡ (r.correlation_value == "")
  pub include_supporting : q.include_supporting ≡ r.include_supporting

module _ (f : SqlFormats) (dialect : Dialect) where
  -- The same text, and as many parameters.
  abbrev Alike : Statement → Statement → Type 0
  Alike s t = (s.sql ≡ t.sql) × (length s.params ≡ length t.params)

  bind-Alike :
      (before after : String) (v w : Param) (s t : Statement)
      → Alike s t
      → Alike (bind f dialect before v after s) (bind f dialect before w after t)
  unfolding bind
  bind-Alike before after v w s t (same, many) = (
    rw (same, many) refl,
    length-append s.params (v ∷ []) ∙ ap (λ n. n + 1) many ∙ sym (length-append t.params (w ∷ [])),
  )

  bind_if-Alike :
      (b c : Bool) (before before' : String) (v w : Param) (s t : Statement)
      → b ≡ c
      → before ≡ before'
      → Alike s t
      → Alike (bind_if f dialect b before v s) (bind_if f dialect c before' w t)
  unfolding bind_if
  bind_if-Alike true true before before' v w s t same e h = rw e (bind-Alike before' "" v w s t h)
  bind_if-Alike false false before before' v w s t same e h = h
  bind_if-Alike true false before before' v w s t same e h = absurd (ground arith)
  bind_if-Alike false true before before' v w s t same e h = absurd (ground arith)

  of_cursor-Alike :
      (p : Platform) (ts us : ℕ) (id jd : String) (s t : Statement)
      → is_zero_time ts ≡ is_zero_time us
      → Alike s t
      → Alike (of_cursor f dialect p ts id s) (of_cursor f dialect p us jd t)
  unfolding of_cursor
  of_cursor-Alike p ts us id jd s t same h = elim (Bool-cases (is_zero_time us)) [
    | inl none_given ↦ rw (same ∙ none_given) (rw none_given h)
    | inr given ↦ rw (same ∙ given) (
        rw given (
          bind-Alike " AND e.id > " "))" (Param.text id) (Param.text jd) _ _ (
            bind-Alike " OR (e.event_time = " "" _ _ _ _
              (bind-Alike " AND (e.event_time > " "" _ _ s t h))))
  ]

  module _ (q r : TimelineQuery) (h : SameShape q r) where
    given : (u v : Bool) → u ≡ v → not u ≡ not v
    given u v e = ap not e

    both : (a b c d : Bool) → a ≡ c → b ≡ d → (not a && not b) ≡ (not c && not d)
    both a b c d e k = rw (e, k) refl

    of_subject-Alike :
        (s t : Statement) → Alike s t → Alike (of_subject f dialect q s) (of_subject f dialect r t)
    unfolding of_subject
    of_subject-Alike s t k =
        bind_if-Alike _ _ _ _ _ _ _ _ (both _ _ _ _ h.subject h.namespace) refl (
          bind_if-Alike _ _ _ _ _ _ _ _ (both _ _ _ _ h.subject h.cluster) refl
            (bind_if-Alike _ _ _ _ _ _ _ _ (given _ _ h.subject) refl k))

    of_supporting-Alike :
        (s t : Statement)
        → Alike s t
        → Alike (of_supporting f dialect q s) (of_supporting f dialect r t)
    unfolding of_supporting
    of_supporting-Alike s t k = elim (Bool-cases r.include_supporting) [
      | inl all ↦ rw (h.include_supporting ∙ all) (rw all k)
      | inr some_only ↦
          rw (h.include_supporting ∙ some_only)
            (rw some_only (ap (λ sql. sql <> without_supporting f dialect) k.0, k.1))
    ]

    of_correlation-Alike :
        (s t : Statement)
        → Alike s t
        → Alike (of_correlation f dialect q s) (of_correlation f dialect r t)
    of_correlation-Alike s t k =
        bind_if-Alike _ _ _ _ _ _ _ _
          (both _ _ _ _ (ap (λ key. key == "") h.correlation_key) h.correlation_value)
          (ap (λ key. " AND " <> (dialect_expr_key dialect "e.extensions" key <> " = "))
            h.correlation_key)
          k

    -- Queries that set the same fields and have the same correlation key give the same text, with as
    -- many parameters: of subjects, sources, types, values and cursors nothing gets into the text.
    pub select_timeline-Alike :
        (p : Platform) (ts us : ℕ) (id jd : String)
        → is_zero_time ts ≡ is_zero_time us
        → ((select_timeline f dialect p q ts id).sql ≡ (select_timeline f dialect p r us jd).sql)
          × (length (select_timeline f dialect p q ts id).params
              ≡ length (select_timeline f dialect p r us jd).params)
    unfolding select_timeline
    select_timeline-Alike p ts us id jd same =
        bind-Alike " ORDER BY e.event_time ASC, e.id ASC LIMIT " ""
          (Param.number (timeline_limit q.limit + 1)) (Param.number (timeline_limit r.limit + 1)) _
          _
          (of_cursor-Alike p ts us id jd _ _ same (
            of_supporting-Alike _ _ (
              of_correlation-Alike _ _ (
                bind_if-Alike _ _ " AND e.type = " _ (Param.text q.type) (Param.text r.type) _ _
                  (given _ _ h.type) refl
                  (bind_if-Alike _ _ " AND e.source = " _ (Param.text q.source)
                    (Param.text r.source) _ _ (given _ _ h.source) refl
                    (of_subject-Alike _ _ (
                      bind_if-Alike _ _ " AND e.event_time <= " _ (ts_value p dialect q.to)
                        (ts_value p dialect r.to) _ _ (given _ _ h.to) refl
                        (bind_if-Alike _ _ " AND e.event_time >= " _ (ts_value p dialect q.from)
                          (ts_value p dialect r.from) all_events all_events (given _ _ h.from) refl
                          (refl, refl)))))))))
