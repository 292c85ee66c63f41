-- ===== src/Api/Reads/Sound.antt =====
-- What stands behind an answer of handleTimeline of internal/api/handlers_query.go.
use mathlib.Core.Path.{subst}
use evidra_gitops.Base.{
  ℕ, String, ◌≡◌, ◌≢◌, ◌⊎◌, refl, ◌∙◌, ◌==◌, eq_iff, to_lower, equal_fold, ap, inl, inr, true,
  Option, some, [], ◌∷◌, arith, Bool-cases, Option-cases, trim_space,
}
use evidra_gitops.Base.Int.{ℤ}
use evidra_gitops.Result.{Result, ok, err, Result-cases}
use evidra_gitops.Changes.Filter.{ParsedSubject}
use evidra_gitops.Event.Platform.{Platform}
use evidra_gitops.Store.Query.{TimelineQuery, TimelineResult}
use evidra_gitops.App.{Repository, parse_subject}
use evidra_gitops.Api.{Request, Failure}
use evidra_gitops.Api.Limiter.{AuthRateLimiter}
use evidra_gitops.Api.Auth.{Crypto, AuthConfig, authorize_read, bearer_passes}
use evidra_gitops.Api.Auth.Soundness.{IsInRole, authorize_read_sound}
use evidra_gitops.Api.Guard.{store_answer, guarded_sound}
use evidra_gitops.Api.Reads.{
  TimelinePage, about, with_subject, is_scoped, scoped, timeline_params, page_of, timeline_answer,
  handle_timeline, query_from, limit_param,
}

abbrev left_of : {A B : Type 0} → A → A ⊎ B → A
left_of d (inl a) = a
left_of d (inr b) = d

-- A query asks what the parameters of a request say: the window, the filters, the page and the subject,
-- whose parts are those of the parameter where it is not empty.
pub record IsAsked (p : Platform) (scan : String → Option ℤ) (r : Request) (q : TimelineQuery)
    : Type 0 where
  pub from : p.parse_rfc3339 (r.query "from") ≡ some q.from
  pub to : p.parse_rfc3339 (r.query "to") ≡ some q.to
  pub source : q.source ≡ r.query "source"
  pub type : q.type ≡ r.query "type"
  pub correlation_key : q.correlation_key ≡ r.query "correlation_key"
  pub correlation_value : q.correlation_value ≡ r.query "correlation_value"
  pub supporting :
      q.include_supporting ≡ (to_lower (trim_space (r.query "include_supporting")) == "true")
  pub limit : q.limit ≡ limit_param scan (r.query "limit")
  pub cursor : q.cursor ≡ r.query "cursor"
  pub subject :
      ((r.query "subject" ≡ "") × (q.subject ≡ "") × (q.namespace ≡ "") × (q.cluster ≡ ""))
      ⊎ (parse_subject (r.query "subject")
          ≡ ok (record { app = q.subject; environment = q.namespace; cluster = q.cluster }))
  pub named : (q.subject ≢ "") ⊎ ((q.correlation_key ≢ "") × (q.correlation_value ≢ ""))

named_by :
    (q : TimelineQuery)
    → is_scoped q ≡ true
    → (q.subject ≢ "") ⊎ ((q.correlation_key ≢ "") × (q.correlation_value ≢ ""))
unfolding is_scoped
named_by q h = elim (Bool-cases (q.subject == "")) [
  | inr written ↦ inl (λ e. absurd (ground (arith, written, (eq_iff q.subject "").1 e)))
  | inl blank ↦ inr (
    (λ e. absurd (ground (arith, h, blank, (eq_iff q.correlation_key "").1 e))),
    (λ e. absurd (ground (arith, h, blank, (eq_iff q.correlation_value "").1 e))),
  )
]

scoped_returns :
    (q : TimelineQuery ⊎ Failure) (q' : TimelineQuery)
    → scoped q ≡ inl q'
    → (q ≡ inl q') × (is_scoped q' ≡ true)
unfolding scoped
scoped_returns (inr failure) q' h = absurd (ground arith)
scoped_returns (inl q) q' h = elim (Bool-cases (is_scoped q)) [
  | inl good ↦
      let same = ap (left_of q) (rw good at h) in
      (ap inl same, subst (λ x. is_scoped x ≡ true) same good)
  | inr bad ↦ absurd (ground (arith, bad, h))
]

module _ (p : Platform) (scan : String → Option ℤ) (r : Request) where
  plain_asks :
      (from to : ℕ)
      → p.parse_rfc3339 (r.query "from") ≡ some from
      → p.parse_rfc3339 (r.query "to") ≡ some to
      → r.query "subject" ≡ ""
      → is_scoped (query_from scan r from to) ≡ true
      → IsAsked p scan r (query_from scan r from to)
  unfolding query_from equal_fold to_lower
  plain_asks from to has_from has_to blank good = record {
    from = has_from;
    to = has_to;
    source = refl;
    type = refl;
    correlation_key = refl;
    correlation_value = refl;
    supporting = refl;
    limit = refl;
    cursor = refl;
    subject = inl (blank, refl, refl, refl);
    named = named_by _ good;
  }

  about_asks :
      (from to : ℕ) (subject : ParsedSubject)
      → p.parse_rfc3339 (r.query "from") ≡ some from
      → p.parse_rfc3339 (r.query "to") ≡ some to
      → parse_subject (r.query "subject") ≡ ok subject
      → is_scoped (about subject (query_from scan r from to)) ≡ true
      → IsAsked p scan r (about subject (query_from scan r from to))
  unfolding query_from equal_fold to_lower
  about_asks from to subject has_from has_to parsed good = record {
    from = has_from;
    to = has_to;
    source = refl;
    type = refl;
    correlation_key = refl;
    correlation_value = refl;
    supporting = refl;
    limit = refl;
    cursor = refl;
    subject = inr parsed;
    named = named_by _ good;
  }

  with_subject_asks :
      (from to : ℕ) (q : TimelineQuery)
      → p.parse_rfc3339 (r.query "from") ≡ some from
      → p.parse_rfc3339 (r.query "to") ≡ some to
      → with_subject (r.query "subject") (query_from scan r from to) ≡ inl q
      → is_scoped q ≡ true
      → IsAsked p scan r q
  unfolding with_subject
  with_subject_asks from to q has_from has_to h good = elim (Bool-cases (r.query "subject" == "")) [
    | inl blank ↦
        let same = ap (left_of q) (rw blank at h) in
        subst (IsAsked p scan r) same (
          plain_asks from to has_from has_to ((eq_iff (r.query "subject") "").0 blank)
            (ap is_scoped same ∙ good))
    | inr written ↦ elim (Result-cases (parse_subject (r.query "subject"))) [
      | inr (failure, failed) ↦ absurd (ground (arith, written, failed, h))
      | inl (subject, parsed) ↦
          let same = ap (left_of q) (rw parsed at rw written at h) in
          subst (IsAsked p scan r) same
            (about_asks from to subject has_from has_to parsed (ap is_scoped same ∙ good))
    ]
  ]

  timeline_params-IsAsked :
      (q : TimelineQuery) → timeline_params p scan r ≡ inl q → IsAsked p scan r q
  unfolding timeline_params
  timeline_params-IsAsked q h = elim (Option-cases (p.parse_rfc3339 (r.query "from"))) [
    | inl no_from ↦ absurd (ground (arith, no_from, h))
    | inr (from, has_from) ↦ elim (Option-cases (p.parse_rfc3339 (r.query "to"))) [
      | inl no_to ↦ absurd (ground (arith, has_from, no_to, h))
      | inr (to, has_to) ↦
          let (made, good) =
            scoped_returns (with_subject (r.query "subject") (query_from scan r from to)) q
              (rw (has_to, timeline_params) at rw (has_from, timeline_params) at h) in
          with_subject_asks from to q has_from has_to made good
    ]
  ]

module _ {R : Type 0} (p : Platform) (repository : Repository R) where
  -- A page is what the repository answers to a query.
  unfoldable pub IsPage : TimelineQuery → TimelinePage → R → Type 0
  IsPage q page repo =
      repository.query_timeline q repo
      ≡ ok (record { items = page.items; next_cursor = page.next_cursor })

  page_IsPage :
      (q : TimelineQuery) (r : Result TimelineResult) (page : TimelinePage)
      → page_of q (store_answer r) ≡ inl page
      → r ≡ ok (record { items = page.items; next_cursor = page.next_cursor })
  unfolding page_of store_answer
  page_IsPage q (ok res) page h =
      ap
        (λ x.
          ok
            (record { items = (left_of page x).items; next_cursor = (left_of page x).next_cursor }))
        h
  page_IsPage q (err failure) page h = absurd (ground arith)

  timeline_query_answered :
      (asked : TimelineQuery ⊎ Failure) (repo : R) (page : TimelinePage)
      → timeline_answer p repository asked repo ≡ inl page
      → (q : TimelineQuery) × (asked ≡ inl q) × IsPage q page repo
  unfolding timeline_answer IsPage
  timeline_query_answered (inr failure) repo page h = absurd (ground arith)
  timeline_query_answered (inl q) repo page h =
      (q, refl, page_IsPage q (repository.query_timeline q repo) page h)

  -- A page of the timeline is answered only to a reader, an exporter or an administrator where roles are
  -- enforced, with the configured token; and it is what the repository answers to the query that the
  -- parameters of the request ask: their window, filters, page and subject. A subject or a correlation is
  -- named.
  pub handle_timeline_sound :
      (c : Crypto) (auth : AuthConfig) (now_window : ℕ) (r : Request) (l : Option AuthRateLimiter)
      (repo : R) (scan : String → Option ℤ) (page : TimelinePage)
      → (handle_timeline p repository c auth now_window r l repo scan).0 ≡ inl page
      → IsInRole c auth r ("reader" ∷ "exporter" ∷ "admin" ∷ [])
        × (bearer_passes (trim_space auth.read_token) r ≡ true)
        × (q : TimelineQuery) × IsAsked p scan r q
        × IsPage q page repo
  unfolding handle_timeline
  handle_timeline_sound c auth now_window r l repo scan page h =
      let (allowed, answer) =
        guarded_sound "GET" r (authorize_read c auth now_window r l) l
          (timeline_answer p repository (timeline_params p scan r) repo) page h in
      let (role, token) = authorize_read_sound c auth r now_window l allowed in
      let (q, made, listed) = timeline_query_answered (timeline_params p scan r) repo page answer in
      (role, token, q, timeline_params-IsAsked p scan r q made, listed)
