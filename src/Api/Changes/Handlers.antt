-- ===== src/Api/Changes/Handlers.antt =====
-- handleChanges and handleChangeByID of internal/api/handlers_changes.go. A query of changes may fill
-- the service's cache, so the handlers return the service after them.
use evidra_gitops.Base.{
  ℕ, String, ◌⊎◌, inl, inr, false, Option, List, ◌==◌, if◌then◌else◌, trim_space,
}
use evidra_gitops.Base.Int.{ℤ}
use evidra_gitops.Result.{Error, Result, ok, err}
use evidra_gitops.Event.{StoredEvent}
use evidra_gitops.Event.Platform.{Platform}
use evidra_gitops.Changes.{Change, ChangeDetail}
use evidra_gitops.Changes.Filter.{ChangeQuery, ChangeListResult}
use evidra_gitops.App.{Repository, Cache, Service}
use evidra_gitops.App.Queries.{
  ChangeEvidence, list_changes, get_change, get_change_timeline, get_change_evidence,
}
use evidra_gitops.Api.{Request, Failure, handle_store_err, unauthorized}
use evidra_gitops.Api.Limiter.{AuthRateLimiter}
use evidra_gitops.Api.Auth.{Crypto, AuthConfig, authorize_read}
use evidra_gitops.Api.Guard.{method_not_allowed, bad_request}
use evidra_gitops.Api.Changes.{
  View, detail, timeline, evidence, unknown, parse_change_path, parse_change_query,
}

-- The answer of handleChanges.
pub record ChangesPage : Type 0 where
  pub items : List Change
  pub limit : ℤ
  pub next_cursor : String

-- The three answers of handleChangeByID.
pub data ChangeAnswer : Type 0 where
  a_change : ChangeDetail → ChangeAnswer
  a_timeline : List StoredEvent → ChangeAnswer
  an_evidence : ChangeEvidence → ChangeAnswer

-- The answer to an error of ListChanges.
unfoldable pub list_failure : Error → Failure
list_failure e = elim e [
  | Error.invalid_change_cursor ↦ bad_request "INVALID_CURSOR"
  | Error.not_found ↦ handle_store_err Error.not_found
  | Error.conflict ↦ handle_store_err Error.conflict
  | Error.invalid_input ↦ handle_store_err Error.invalid_input
  | Error.append_only ↦ handle_store_err Error.append_only
  | Error.invalid_cursor ↦ handle_store_err Error.invalid_cursor
  | Error.rate_limited ↦ handle_store_err Error.rate_limited
  | Error.other text ↦ handle_store_err (Error.other text)
]

module _ {R C : Type 0} where
  unfoldable pub changes_page :
      ChangeQuery → Result ChangeListResult × Service R C → (ChangesPage ⊎ Failure) × Service R C
  changes_page q (ok res, s) =
      (inl (record { items = res.items; limit = q.limit; next_cursor = res.next_cursor }), s)
  changes_page q (err failure, s) = (inr (list_failure failure), s)

  -- The answer of a method of the service.
  unfoldable pub change_answer :
      {A : Type 0}
      → (A → ChangeAnswer)
      → Result A × Service R C
      → (ChangeAnswer ⊎ Failure) × Service R C
  change_answer wrap (ok a, s) = (inl (wrap a), s)
  change_answer wrap (err failure, s) = (inr (handle_store_err failure), s)

  -- The method and the authorization in front of both handlers.
  unfoldable pub served :
      {A : Type 0}
      → Request
      → Result (Unit {0}) × Option AuthRateLimiter
      → Option AuthRateLimiter
      → (A ⊎ Failure) × Service R C
      → Service R C
      → (A ⊎ Failure) × Option AuthRateLimiter × Service R C
  served r (allowed, after) l (answer, last) s =
      if r.method == "GET"
      then elim allowed [
        | err failure ↦ (inr (unauthorized failure), after, s)
        | ok _ ↦ (answer, after, last)
      ]
      else (inr method_not_allowed, l, s)

  module _ (p : Platform) (repository : Repository R) (cache : Cache C) (scan : String → Option ℤ)
      (now : ℕ) where
    unfoldable pub changes_answer :
        Result ChangeQuery → Service R C → (ChangesPage ⊎ Failure) × Service R C
    changes_answer (err failure) s = (inr (bad_request "INVALID_QUERY"), s)
    changes_answer (ok q) s = changes_page q (list_changes p repository cache now q s)

    -- The `switch` on the view.
    unfoldable pub view_answer :
        View → String → ChangeQuery → Service R C → (ChangeAnswer ⊎ Failure) × Service R C
    view_answer timeline id q s =
        change_answer a_timeline (get_change_timeline p repository cache now id q s)
    view_answer evidence id q s =
        change_answer an_evidence (get_change_evidence p repository cache now id q s)
    view_answer detail id q s = change_answer a_change (get_change p repository cache now id q s)
    view_answer unknown id q s =
        (inr (record { status = 404; code = "NOT_FOUND"; retryable = false }), s)

    unfoldable pub change_by_id_answer :
        View → String → Result ChangeQuery → Service R C → (ChangeAnswer ⊎ Failure) × Service R C
    change_by_id_answer view id (err failure) s = (inr (bad_request "INVALID_QUERY"), s)
    change_by_id_answer view id (ok q) s = view_answer view id q s

    module _ (c : Crypto) (auth : AuthConfig) (now_window : ℕ) (r : Request)
        (l : Option AuthRateLimiter) (s : Service R C) where
      -- handleChanges
      unfoldable pub handle_changes : (ChangesPage ⊎ Failure) × Option AuthRateLimiter × Service R C
      handle_changes =
          served r (authorize_read c auth now_window r l) l
            (changes_answer (parse_change_query p scan r) s) s

      -- handleChangeByID
      unfoldable pub handle_change_by_id :
          (ChangeAnswer ⊎ Failure) × Option AuthRateLimiter × Service R C
      handle_change_by_id =
          let (id, view) = parse_change_path r.path in
          served r (authorize_read c auth now_window r l) l
            (if trim_space id == ""
              then (inr (bad_request "INVALID_CHANGE_ID"), s)
              else change_by_id_answer view id (parse_change_query p scan r) s)
            s
