-- ===== src/Api/Events.antt =====
-- handleEvents of internal/api/handlers_events.go: a batch of events is ingested one by one, and the
-- first event that fails ends it. `clock n` is the time that the n-th ingest reads, `parsing n` the
-- time that the parser reads for the n-th event.
pub mod Stored
use evidra_gitops.Base.{
  ◌⊎◌, inl, inr, ℕ, ◌+◌, String, ◌≡◌, true, false, not, Option, List, [], ◌∷◌, ◌==◌, if◌then◌else◌,
}
use evidra_gitops.Result.{Error, Result, ok, err}
use evidra_gitops.Event.{StoredEvent}
use evidra_gitops.Event.Platform.{Platform}
use evidra_gitops.Event.Parse.{parse_request}
use evidra_gitops.Store.{IngestStatus, accepted, duplicate}
use evidra_gitops.App.{Repository, Cache, Service, ingest_event}
use evidra_gitops.Api.{Request, Failure, handle_store_err, unauthorized}
use evidra_gitops.Api.Limiter.{AuthRateLimiter}
use evidra_gitops.Api.Auth.{Crypto, AuthConfig, authorize_ingest}

-- An entry of the answer.
pub record Ingestion : Type 0 where
  pub id : String
  pub status : IngestStatus
  pub ingested_at : ℕ

-- The answer: its status, and an entry for each event.
pub record Answer : Type 0 where
  pub code : ℕ
  pub results : List Ingestion

-- The code of one event's answer.
unfoldable pub code_of_status : IngestStatus → ℕ
code_of_status accepted = 202
code_of_status duplicate = 200

-- writeJSON at the end: one event answers with its own code, several with 202.
unfoldable pub answer_of : List Ingestion → Answer
answer_of [] = record { code = 202; results = [] }
answer_of (one ∷ []) = record { code = code_of_status one.status; results = one ∷ [] }
answer_of (one ∷ two ∷ rest) = record { code = 202; results = one ∷ two ∷ rest }

-- The body of the request, as readBodyLimited leaves it.
pub data Body : Type 0 where
  read : String → Body
  too_large unreadable : Body

module _ {R C : Type 0} (p : Platform) (repository : Repository R) (cache : Cache C) where
  -- The loop over the events, with the entries that it appends to `results`.
  unfoldable pub ingest_events :
      (ℕ → ℕ) → ℕ → List StoredEvent → Service R C → Result (List Ingestion) × Service R C
  ingest_events clock n [] s = (ok [], s)
  ingest_events clock n (e ∷ es) s =
      let (answer, after) = ingest_event repository cache (clock n) e s in
      let (rest, last) = ingest_events clock (n + 1) es after in
      elim answer [
        | err failure ↦ (err failure, after)
        | ok (status, at) ↦ elim rest [
          | err failure ↦ (err failure, last)
          | ok entries ↦
              (ok (record { id = e.id; status = status; ingested_at = at } ∷ entries), last)
        ]
      ]

  unfoldable pub answered : Result (List Ingestion) × Service R C → (Answer ⊎ Failure) × Service R C
  answered (ok entries, s) = (inl (answer_of entries), s)
  answered (err failure, s) = (inr (handle_store_err failure), s)

  -- handleEvents behind its authorization
  unfoldable pub handle_body :
      (ℕ → ℕ) → (ℕ → ℕ) → String → String → Service R C → (Answer ⊎ Failure) × Service R C
  handle_body parsing clock content_type body s = elim (parse_request p parsing content_type body) [
    | err failure ↦
        (inr (record { status = 400; code = "INVALID_CLOUDEVENT"; retryable = false }), s)
    | ok events ↦ answered (ingest_events clock 0 events s)
  ]

  -- handleEvents
  unfoldable pub handle_events :
      Crypto
      → AuthConfig
      → (ℕ → ℕ)
      → (ℕ → ℕ)
      → ℕ
      → Request
      → Body
      → Option AuthRateLimiter
      → Service R C
      → (Answer ⊎ Failure) × Option AuthRateLimiter × Service R C
  handle_events c auth parsing clock now_window r body l s =
      if not (r.method == "POST")
      then (inr (record { status = 405; code = "METHOD_NOT_ALLOWED"; retryable = false }), l, s)
      else elim body [
        | too_large ↦
            (inr (record { status = 413; code = "PAYLOAD_TOO_LARGE"; retryable = false }), l, s)
        | unreadable ↦
            (inr (record { status = 400; code = "INVALID_BODY"; retryable = false }), l, s)
        | read text ↦
            let (allowed, after) = authorize_ingest c auth now_window text r l in
            elim allowed [
              | err failure ↦ (inr (unauthorized failure), after, s)
              | ok _ ↦
                  let (answer, last) = handle_body parsing clock (r.header "Content-Type") text s in
                  (answer, after, last)
            ]
      ]
