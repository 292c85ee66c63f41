-- ===== src/App/Interleaved.antt =====
-- The calls of internal/app/service.go and internal/app/changes.go step by step. Service holds no lock, so
-- the steps of its calls take turns in any order; and the collector of internal/ingest/argo writes to the
-- repository directly, without a purge of the cache.
pub mod Given
pub mod Answers
use evidra_gitops.Base.{ℕ, Option, none, some, List, [], ◌∷◌, ◌++◌, eqb, if◌then◌else◌}
use evidra_gitops.Result.{Error, Result, ok, err}
use evidra_gitops.Event.{StoredEvent}
use evidra_gitops.Event.Platform.{Platform}
use evidra_gitops.Changes.Filter.{ChangeQuery}
use evidra_gitops.App.{Repository, Cache, Service}
use evidra_gitops.App.Queries.{change_query_cache_key, asked}

-- Where a call of eventsForChangeQuery stands: not begun or over, behind a miss of the cache, or behind the
-- answer of the repository.
pub data Phase : Type 0 where
  idle : Phase
  missed : ChangeQuery → Phase
  answered : ChangeQuery → List StoredEvent → Phase

-- What the calls share, and where each stands, by a number.
pub record Shared (R C : Type 0) : Type 0 where
  pub repo : R
  pub change_cache : C
  pub phase : ℕ → Phase

-- The steps: the lookup, the query and the addition of a call of eventsForChangeQuery; an ingest into the
-- repository, by the service or by the collector; and a purge, which follows the former.
pub data Step : Type 0 where
  looking : ℕ → ℕ → ChangeQuery → Step
  asking : ℕ → Step
  adding : ℕ → ℕ → Step
  storing : ℕ → StoredEvent → Step
  purging : Step

-- A call returns: its query, with its answer.
abbrev pub Answer : Type 0
Answer = Option (ChangeQuery × Result (List StoredEvent))

unfoldable pub at : ℕ → Phase → (ℕ → Phase) → ℕ → Phase
at call phase phases other = if eqb other call then phase else phases other

module _ {R C : Type 0} (p : Platform) (repository : Repository R) (cache : Cache C) where
  -- The lookup: a hit is returned.
  unfoldable pub look : ℕ → ℕ → ChangeQuery → Shared R C → Answer × Shared R C
  look now call q s =
      let (found, change_cache) = cache.get now (change_query_cache_key p q) s.change_cache in
      elim found [
        | some events ↦ (some (q, ok events), record s { change_cache = change_cache })
        | none ↦
            (none, record s { change_cache = change_cache; phase = at call (missed q) s.phase })
      ]

  -- The query of the repository: an error is returned.
  unfoldable pub ask_in : ℕ → Phase → Shared R C → Answer × Shared R C
  ask_in call idle s = (none, s)
  ask_in call (answered q events) s = (none, s)
  ask_in call (missed q) s = elim (asked p repository cache q s.repo) [
    | err failure ↦ (some (q, err failure), record s { phase = at call idle s.phase })
    | ok events ↦ (none, record s { phase = at call (answered q events) s.phase })
  ]

  -- The addition to the cache, and the return.
  unfoldable pub add_in : ℕ → ℕ → Phase → Shared R C → Answer × Shared R C
  add_in now call idle s = (none, s)
  add_in now call (missed q) s = (none, s)
  add_in now call (answered q events) s = (
    some (q, ok events),
    record s {
      change_cache = cache.add now (change_query_cache_key p q) events s.change_cache;
      phase = at call idle s.phase;
    },
  )

  unfoldable pub take : Step → Shared R C → Answer × Shared R C
  take (looking now call q) s = look now call q s
  take (asking call) s = ask_in call (s.phase call) s
  take (adding now call) s = add_in now call (s.phase call) s
  take (storing now e) s = (none, record s { repo = (repository.ingest_event now e s.repo).1 })
  take purging s = (none, record s { change_cache = cache.purge s.change_cache })

  unfoldable pub take_all : List Step → Shared R C → Shared R C
  take_all [] s = s
  take_all (step ∷ steps) s = take_all steps (take step s).1

  -- The repositories that a run has gone through, with the first and the last.
  unfoldable pub repos_of : List Step → Shared R C → List R
  repos_of [] s = s.repo ∷ []
  repos_of (step ∷ steps) s = s.repo ∷ repos_of steps (take step s).1

  -- A service at a moment when no query is under way.
  abbrev pub quiet : Service R C → Shared R C
  quiet s = record { repo = s.repo; change_cache = s.change_cache; phase = λ call. idle }
