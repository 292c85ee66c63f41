-- ===== src/Argo/Client/Stable.antt =====
-- When toSourceEvents of internal/ingest/argo/client_fetch_argocd.go reads no clock.
use evidra_gitops.Base.{
  ℕ, ◌+◌, ◌≡◌, refl, false, List, [], ◌∷◌, Option, none, some, arith, if◌then◌else◌, ltb,
}
use evidra_gitops.Event.{is_zero_time}
use evidra_gitops.Argo.Client.Keys.{Formats, time_from_meta}
use evidra_gitops.Argo.Client.{
  RevisionHistory, OperationState, Application, Phases, latest, most_recent_time,
  history_occurred_at,
}
use evidra_gitops.Argo.Client.Fetch.{
  history_events, operation_events, operation_finished_at, health_events, observed_at,
  to_source_events,
}

-- The latest of some times is dated if one of them is.
pub latest-dated :
    (best : ℕ) (ts : List ℕ) → is_zero_time best ≡ false → is_zero_time (latest best ts) ≡ false
unfolding latest
latest-dated best [] dated = dated
latest-dated best (t ∷ ts) dated =
    latest-dated (if is_zero_time t then best else if ltb best t then t else best) ts (ground arith)

latest-first :
    (t : ℕ) (ts : List ℕ) → is_zero_time t ≡ false → is_zero_time (latest 0 (t ∷ ts)) ≡ false
unfolding latest
latest-first t ts dated =
    latest-dated (if is_zero_time t then 0 else if ltb 0 t then t else 0) ts (ground arith)

module _ (app : Application) (dated : is_zero_time (time_from_meta app.reconciled_at) ≡ false) where
  most_recent_time-stable : (now later : ℕ) → most_recent_time now app ≡ most_recent_time later app
  unfolding most_recent_time
  most_recent_time-stable now later = rw (latest-first _ _ dated) refl

  history_occurred_at-stable :
      (now later : ℕ) (h : RevisionHistory)
      → history_occurred_at now h app ≡ history_occurred_at later h app
  unfolding history_occurred_at
  history_occurred_at-stable now later h = rw (most_recent_time-stable now later) refl

  history_events-stable :
      (f : Formats) (c : Phases) (clock later : ℕ → ℕ) (n : ℕ) (hs : List RevisionHistory)
      → history_events f c clock n app hs ≡ history_events f c later n app hs
  unfolding history_events
  history_events-stable f c clock later n [] = refl
  history_events-stable f c clock later n (h ∷ hs) =
      rw (history_occurred_at-stable (clock n) (later n) h)
        (rw (history_events-stable f c clock later (n + 1) hs) refl)

  operation_events-stable :
      (f : Formats) (c : Phases) (now later : ℕ) (o : Option OperationState)
      → operation_events f c now app o ≡ operation_events f c later app o
  unfolding operation_events operation_finished_at
  operation_events-stable f c now later none = refl
  operation_events-stable f c now later (some o) = rw (most_recent_time-stable now later) refl

  health_events-stable :
      (f : Formats) (c : Phases) (now later : ℕ)
      → health_events f c now app ≡ health_events f c later app
  unfolding health_events observed_at
  health_events-stable f c now later = rw dated refl

  -- An Application that Argo CD has reconciled has the same events whenever they are fetched.
  pub to_source_events-stable :
      (f : Formats) (c : Phases) (clock later : ℕ → ℕ)
      → to_source_events f c clock app ≡ to_source_events f c later app
  unfolding to_source_events
  to_source_events-stable f c clock later =
      rw
        (
          history_events-stable f c clock later 2 app.history,
          operation_events-stable f c (clock 0) (later 0) app.operation_state,
          health_events-stable f c (clock 1) (later 1),
        )
        refl
