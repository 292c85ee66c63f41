-- ===== src/Api/Guard.antt =====
-- What the handlers of internal/api that read have in common: the method, then authorization, then the
-- answer, or the answer to an error of the service.
use evidra_gitops.Base.{
  String, ◌≡◌, ◌⊎◌, refl, false, Option, ◌==◌, arith, inl, inr, Bool-cases, if◌then◌else◌,
}
use evidra_gitops.Result.{Result, ok, err}
use evidra_gitops.Api.{Request, Failure, handle_store_err, unauthorized}
use evidra_gitops.Api.Limiter.{AuthRateLimiter}

abbrev pub method_not_allowed : Failure
method_not_allowed = record { status = 405; code = "METHOD_NOT_ALLOWED"; retryable = false }

abbrev pub bad_request : String → Failure
bad_request code = record { status = 400; code = code; retryable = false }

-- An error of the service is answered by handleStoreErr.
unfoldable pub store_answer : {A : Type 0} → Result A → A ⊎ Failure
store_answer (ok a) = inl a
store_answer (err failure) = inr (handle_store_err failure)

-- The answer behind a check with the limiter after it.
unfoldable pub checked_answer :
    {A : Type 0}
    → Result (Unit {0}) × Option AuthRateLimiter
    → A ⊎ Failure
    → (A ⊎ Failure) × Option AuthRateLimiter
checked_answer (ok _, l) answer = (answer, l)
checked_answer (err failure, l) answer = (inr (unauthorized failure), l)

-- The handlers of one method.
unfoldable pub guarded :
    {A : Type 0}
    → String
    → Request
    → Result (Unit {0}) × Option AuthRateLimiter
    → Option AuthRateLimiter
    → A ⊎ Failure
    → (A ⊎ Failure) × Option AuthRateLimiter
guarded method r checked l answer =
    if r.method == method then checked_answer checked answer else (inr method_not_allowed, l)

pub checked_sound :
    {A : Type 0} (checked : Result (Unit {0}) × Option AuthRateLimiter) (answer : A ⊎ Failure)
    (a : A)
    → (checked_answer checked answer).0 ≡ inl a
    → (checked.0 ≡ ok tt) × (answer ≡ inl a)
unfolding checked_answer
checked_sound (ok tt, l) answer a h = (refl, h)
checked_sound (err failure, l) answer a h = absurd (ground arith)

-- What is answered passed the check.
pub guarded_sound :
    {A : Type 0} (method : String) (r : Request)
    (checked : Result (Unit {0}) × Option AuthRateLimiter) (l : Option AuthRateLimiter)
    (answer : A ⊎ Failure) (a : A)
    → (guarded method r checked l answer).0 ≡ inl a
    → (checked.0 ≡ ok tt) × (answer ≡ inl a)
unfolding guarded
guarded_sound method r checked l answer a h = elim (Bool-cases (r.method == method)) [
  | inl right ↦ checked_sound checked answer a (rw right at h)
  | inr wrong ↦ absurd (ground (arith, wrong, h))
]
