-- ===== src/App/Interleaved/Answers.antt =====
-- Which answers the calls of internal/app/changes.go give, in whatever order their steps, ingests and purges
-- take turns.
use mathlib.Core.Path.{subst}
use evidra_gitops.Base.{
  ℕ, ◌≡◌, refl, sym, ap, none, some, List, [], ◌∷◌, arith, inl, inr, Option-cases,
}
use evidra_gitops.Result.{Result, ok, err, Result-cases}
use evidra_gitops.Event.{StoredEvent}
use evidra_gitops.Event.Platform.{Platform}
use evidra_gitops.Store.{IngestStatus}
use evidra_gitops.Changes.Filter.{ChangeQuery}
use evidra_gitops.App.{Repository, Cache, Service, ingest_event}
use evidra_gitops.App.Queries.{change_query_cache_key, asked, fetched, events_for_change_query}
use evidra_gitops.App.Interleaved.{
  Phase, idle, missed, answered, Shared, Step, Answer, looking, asking, adding, storing, purging,
  at, look, ask_in, add_in, take, take_all, repos_of, quiet,
}
use evidra_gitops.App.Interleaved.Given.{
  IsCache, IsOneOf, IsGivenBy, given_same, IsKnown, take-IsKnown,
}

query_in : Answer → ChangeQuery → ChangeQuery
query_in none q = q
query_in (some (q', answer)) q = q'

answer_in : Answer → Result (List StoredEvent) → Result (List StoredEvent)
answer_in none answer = answer
answer_in (some (q', answer')) answer = answer'

events_in : Result (List StoredEvent) → List StoredEvent
events_in (ok events) = events
events_in (err failure) = []

module _ {R C : Type 0} (p : Platform) (repository : Repository R) (cache : Cache C)
    (k : IsCache cache) (Seen : R → Type 0) where
  given_in :
      (q q' : ChangeQuery) (events events' : List StoredEvent)
      → ◌≡◌ {A = Answer} (some (q, ok events)) (some (q', ok events'))
      → IsGivenBy p repository cache Seen (change_query_cache_key p q) events
      → IsGivenBy p repository cache Seen (change_query_cache_key p q') events'
  unfolding query_in answer_in events_in
  given_in q q' events events' same given =
      given_same p repository cache Seen (change_query_cache_key p q) (change_query_cache_key p q')
        events events' (ap (λ a. change_query_cache_key p (query_in a q)) (sym same))
        (ap (λ a. events_in (answer_in a (ok events))) (sym same)) given

  -- A call that is answered, is answered with what is known.
  look_given :
      (now call : ℕ) (q q' : ChangeQuery) (events : List StoredEvent) (s : Shared R C)
      → IsKnown p repository cache k Seen s
      → (look p repository cache now call q s).0 ≡ some (q', ok events)
      → IsGivenBy p repository cache Seen (change_query_cache_key p q') events
  unfolding look
  look_given now call q q' events s known h =
      elim (Option-cases (cache.get now (change_query_cache_key p q) s.change_cache).0) [
        | inl miss ↦ absurd (ground (arith, rw (miss, look) at h))
        | inr (found, hit) ↦ given_in q q' found events (rw (hit, look) at h) (
            known.cached _ found
              (k.get-Holds now (change_query_cache_key p q) s.change_cache found hit))
      ]

  ask_in_given :
      (call : ℕ) (phase : Phase) (q' : ChangeQuery) (events : List StoredEvent) (s : Shared R C)
      → ¬ (ask_in p repository cache call phase s).0 ≡ some (q', ok events)
  unfolding ask_in
  ask_in_given call idle q' events s h = ground (arith, h)
  ask_in_given call (answered q found) q' events s h = ground (arith, h)
  ask_in_given call (missed q) q' events s h =
      elim (Result-cases (asked p repository cache q s.repo)) [
        | inl (found, given) ↦ ground (arith, rw (given, ask_in) at h)
        | inr (failure, failed) ↦ ground (arith, rw (failed, ask_in) at h)
      ]

  add_in_given :
      (now call : ℕ) (phase : Phase) (q' : ChangeQuery) (events : List StoredEvent) (s : Shared R C)
      → s.phase call ≡ phase
      → IsKnown p repository cache k Seen s
      → (add_in p repository cache now call phase s).0 ≡ some (q', ok events)
      → IsGivenBy p repository cache Seen (change_query_cache_key p q') events
  unfolding add_in
  add_in_given now call idle q' events s stands known h = absurd (ground (arith, h))
  add_in_given now call (missed q) q' events s stands known h = absurd (ground (arith, h))
  add_in_given now call (answered q found) q' events s stands known h =
      given_in q q' found events h (known.pending call q found stands)

  take_given :
      (step : Step) (q' : ChangeQuery) (events : List StoredEvent) (s : Shared R C)
      → IsKnown p repository cache k Seen s
      → (take p repository cache step s).0 ≡ some (q', ok events)
      → IsGivenBy p repository cache Seen (change_query_cache_key p q') events
  unfolding take
  take_given (looking now call q) q' events s known h = look_given now call q q' events s known h
  take_given (asking call) q' events s known h =
      absurd (ask_in_given call (s.phase call) q' events s h)
  take_given (adding now call) q' events s known h =
      add_in_given now call (s.phase call) q' events s refl known h
  take_given (storing now e) q' events s known h = absurd (ground (arith, h))
  take_given purging q' events s known h = absurd (ground (arith, h))

module _ {R C : Type 0} (p : Platform) (repository : Repository R) (cache : Cache C) where
  first_repo :
      (steps : List Step) (s : Shared R C) → IsOneOf s.repo (repos_of p repository cache steps s)
  unfolding IsOneOf repos_of
  first_repo [] s = inl refl
  first_repo (step ∷ steps) s = inl refl

  at_call : (call : ℕ) (phase : Phase) (phases : ℕ → Phase) → at call phase phases call ≡ phase
  unfolding at
  at_call call phase phases = ground arith

  -- With nothing between its steps, a call leaves what eventsForChangeQuery leaves.
  take_all_uninterrupted :
      (now call : ℕ) (q : ChangeQuery) (s : Service R C)
      → ((take_all p repository cache
            (looking now call q ∷ asking call ∷ adding now call ∷ [])
            (quiet p repository cache s)).repo
          ≡ (events_for_change_query p repository cache now q s).1.repo)
        × ((take_all p repository cache
              (looking now call q ∷ asking call ∷ adding now call ∷ [])
              (quiet p repository cache s)).change_cache
            ≡ (events_for_change_query p repository cache now q s).1.change_cache)
  unfolding take_all take look ask_in add_in events_for_change_query fetched
  take_all_uninterrupted now call q s =
      elim (Option-cases (cache.get now (change_query_cache_key p q) s.change_cache).0) [
        | inr (events, hit) ↦
            rw (hit, take_all, take, look, ask_in, add_in, events_for_change_query) (refl, refl)
        | inl miss ↦ elim (Result-cases (asked p repository cache q s.repo)) [
          | inl (events, given) ↦
              rw (miss, take_all, take, look, events_for_change_query)
                (rw (at_call, given, ask_in, fetched) (rw (at_call, add_in) (refl, refl)))
          | inr (failure, failed) ↦
              rw (miss, take_all, take, look, events_for_change_query)
                (rw (at_call, failed, ask_in, fetched) (rw (at_call, add_in) (refl, refl)))
        ]
      ]

  module _ (k : IsCache cache) (Seen : R → Type 0) where
    take_all-IsKnown :
        (steps : List Step) (s : Shared R C)
        → ((r : R) → IsOneOf r (repos_of p repository cache steps s) → Seen r)
        → IsKnown p repository cache k Seen s
        → IsKnown p repository cache k Seen (take_all p repository cache steps s)
    unfolding take_all repos_of IsOneOf
    take_all-IsKnown [] s seen known = known
    take_all-IsKnown (step ∷ steps) s seen known =
        let after = (take p repository cache step s).1 in
        take_all-IsKnown steps after (λ r one. seen r (inr one))
          (take-IsKnown p repository cache k Seen step s
            (seen after.repo (inr (first_repo steps after))) known)

    -- An ingest that succeeds leaves nothing in the cache.
    ingest_event-purges :
        (now : ℕ) (e : StoredEvent) (s : Service R C) (done : IngestStatus × ℕ)
        → (ingest_event repository cache now e s).0 ≡ ok done
        → (ingest_event repository cache now e s).1.change_cache ≡ cache.purge s.change_cache
    unfolding ingest_event
    ingest_event-purges now e s done h =
        elim (Result-cases (repository.ingest_event now e s.repo).0) [
          | inl (status, stored) ↦ rw (stored, ingest_event) refl
          | inr (failure, failed) ↦ absurd (ground (arith, rw (failed, ingest_event) at h))
        ]

    quiet-IsKnown :
        (s : Service R C) (before : C)
        → s.change_cache ≡ cache.purge before
        → Seen s.repo
        → IsKnown p repository cache k Seen (quiet p repository cache s)
    quiet-IsKnown s before purged seen = record {
      current = seen;
      cached = λ key events h.
          absurd (k.Holds-purge before key events (subst (λ c. k.Holds c key events) purged h));
      pending = λ call q events h. absurd (ground (arith, h));
    }

  -- After an ingest that succeeds while no query is under way, whatever steps of calls, ingests and purges
  -- follow: if a call is answered with events, these are the answer of the repository, in one of its
  -- states from this ingest on, to the query of the call or to one with the same cache key.
  pub take_all_given :
      (k : IsCache cache)
      → (now : ℕ) (e : StoredEvent) (s : Service R C) (done : IngestStatus × ℕ)
      → (ingest_event repository cache now e s).0 ≡ ok done
      → (steps : List Step) (step : Step) (q : ChangeQuery) (events : List StoredEvent)
      → (take p repository cache step (
          take_all p repository cache steps
            (quiet p repository cache (ingest_event repository cache now e s).1))).0
        ≡ some (q, ok events)
      → (q' : ChangeQuery) × (change_query_cache_key p q' ≡ change_query_cache_key p q)
        × (r' : R) × IsOneOf r' (
            repos_of p repository cache steps
              (quiet p repository cache (ingest_event repository cache now e s).1))
        × (asked p repository cache q' r' ≡ ok events)
  unfolding IsGivenBy
  take_all_given k now e s done stored steps step q events h =
      let start = quiet p repository cache (ingest_event repository cache now e s).1 in
      let Seen = λ (r' : R). IsOneOf r' (repos_of p repository cache steps start) in
      take_given p repository cache k Seen step q events (take_all p repository cache steps start)
        (take_all-IsKnown k Seen steps start (λ r' one. one)
          (quiet-IsKnown k Seen (ingest_event repository cache now e s).1 s.change_cache
            (ingest_event-purges k Seen now e s done stored) (first_repo steps start)))
        h
