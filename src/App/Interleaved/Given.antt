-- ===== src/App/Interleaved/Given.antt =====
-- What the cache of change queries of internal/app/changes.go may answer, in whatever order the steps of
-- calls and ingests take turns.
use evidra_gitops.Base.{
  ℕ, String, ◌≡◌, ◌⊎◌, refl, sym, ap, ◌∙◌, some, List, [], ◌∷◌, arith, inl, inr, eqb, Bool-cases,
  Option-cases,
}
use evidra_gitops.Result.{ok, Result-cases}
use evidra_gitops.Event.{StoredEvent}
use evidra_gitops.Event.Platform.{Platform}
use evidra_gitops.Changes.Filter.{ChangeQuery}
use evidra_gitops.App.{Repository, Cache}
use evidra_gitops.App.Queries.{change_query_cache_key, asked}
use evidra_gitops.App.Interleaved.{
  Phase, idle, missed, answered, Shared, Step, looking, asking, adding, storing, purging, at, look,
  ask_in, add_in, take,
}

-- What the service needs of the cache: an entry that is found was added under its key after the last
-- purge. `Holds` says which entries may be found, now or later.
pub record IsCache {C : Type 0} (cache : Cache C) : Type 1 where
  pub Holds : C → String → List StoredEvent → Type 0
  pub get-Holds :
      (now : ℕ) (key : String) (c : C) (events : List StoredEvent)
      → (cache.get now key c).0 ≡ some events
      → Holds c key events
  pub Holds-get :
      (now : ℕ) (key : String) (c : C) (k : String) (events : List StoredEvent)
      → Holds (cache.get now key c).1 k events
      → Holds c k events
  pub Holds-add :
      (now : ℕ) (key : String) (added : List StoredEvent) (c : C) (k : String)
      (events : List StoredEvent)
      → Holds (cache.add now key added c) k events
      → ((k ≡ key) × (events ≡ added)) ⊎ Holds c k events
  pub Holds-purge :
      (c : C) (k : String) (events : List StoredEvent) → ¬ Holds (cache.purge c) k events

-- One of a list.
unfoldable pub IsOneOf : {A : Type 0} → A → List A → Type 0
IsOneOf a [] = ⊥
IsOneOf a (b ∷ bs) = (b ≡ a) ⊎ IsOneOf a bs

module _ {R C : Type 0} (p : Platform) (repository : Repository R) (cache : Cache C) where
  -- What a repository with a property answers to a query with the cache key.
  unfoldable pub IsGivenBy : (R → Type 0) → String → List StoredEvent → Type 0
  IsGivenBy Seen key events =
      (q : ChangeQuery) × (change_query_cache_key p q ≡ key)
      × (r : R) × Seen r
      × (asked p repository cache q r ≡ ok events)

  -- Such are the entries of the cache, and what calls are about to add; and the repository has the property.
  pub record IsKnown (k : IsCache cache) (Seen : R → Type 0) (s : Shared R C) : Type 0 where
    pub current : Seen s.repo
    pub cached :
        (key : String) (events : List StoredEvent)
        → k.Holds s.change_cache key events
        → IsGivenBy Seen key events
    pub pending :
        (call : ℕ) (q : ChangeQuery) (events : List StoredEvent)
        → s.phase call ≡ answered q events
        → IsGivenBy Seen (change_query_cache_key p q) events

  query_of : Phase → ChangeQuery → ChangeQuery
  query_of idle q = q
  query_of (missed q') q = q'
  query_of (answered q' events) q = q'

  events_of : Phase → List StoredEvent
  events_of idle = []
  events_of (missed q) = []
  events_of (answered q events) = events

  given_by :
      (Seen : R → Type 0) (q q' : ChangeQuery) (events events' : List StoredEvent) (r : R)
      → Seen r
      → asked p repository cache q r ≡ ok events
      → answered q events ≡ answered q' events'
      → IsGivenBy Seen (change_query_cache_key p q') events'
  unfolding IsGivenBy query_of events_of
  given_by Seen q q' events events' r seen given same = (
    q,
    ap (λ phase. change_query_cache_key p (query_of phase q)) same,
    r,
    seen,
    given ∙ ap (λ phase. ok (events_of phase)) same,
  )

  pub given_same :
      (Seen : R → Type 0) (key found : String) (events events' : List StoredEvent)
      → found ≡ key
      → events' ≡ events
      → IsGivenBy Seen key events
      → IsGivenBy Seen found events'
  unfolding IsGivenBy
  given_same Seen key found events events' same_key same (q, keyed, r, seen, given) =
      (q, keyed ∙ sym same_key, r, seen, given ∙ ap ok (sym same))

  module _ (k : IsCache cache) (Seen : R → Type 0) where
    pending_at :
        (s : Shared R C) (call : ℕ) (phase : Phase)
        → IsKnown k Seen s
        → ((q : ChangeQuery) (events : List StoredEvent)
            → phase ≡ answered q events
            → IsGivenBy Seen (change_query_cache_key p q) events)
        → (other : ℕ) (q : ChangeQuery) (events : List StoredEvent)
        → at call phase s.phase other ≡ answered q events
        → IsGivenBy Seen (change_query_cache_key p q) events
    unfolding at
    pending_at s call phase known given other q events h = elim (Bool-cases (eqb other call)) [
      | inl same ↦ given q events (rw same at h)
      | inr apart ↦ known.pending other q events (rw apart at h)
    ]

    read_cached :
        (now : ℕ) (key : String) (s : Shared R C)
        → IsKnown k Seen s
        → (j : String) (events : List StoredEvent)
        → k.Holds (cache.get now key s.change_cache).1 j events
        → IsGivenBy Seen j events
    read_cached now key s known j events h =
        known.cached j events (k.Holds-get now key s.change_cache j events h)

    look-IsKnown :
        (now call : ℕ) (q : ChangeQuery) (s : Shared R C)
        → IsKnown k Seen s
        → IsKnown k Seen (look p repository cache now call q s).1
    unfolding look
    look-IsKnown now call q s known =
        elim (Option-cases (cache.get now (change_query_cache_key p q) s.change_cache).0) [
          | inr (events, hit) ↦
              rw (hit, look)
                (record {
                  current = known.current;
                  cached = read_cached now _ s known;
                  pending = known.pending;
                })
          | inl miss ↦
              rw (miss, look)
                (record {
                  current = known.current;
                  cached = read_cached now _ s known;
                  pending =
                      pending_at s call (missed q) known
                        (λ q' events h. absurd (ground (arith, h)));
                })
        ]

    ask_in-IsKnown :
        (call : ℕ) (phase : Phase) (s : Shared R C)
        → IsKnown k Seen s
        → IsKnown k Seen (ask_in p repository cache call phase s).1
    unfolding ask_in
    ask_in-IsKnown call idle s known = known
    ask_in-IsKnown call (answered q events) s known = known
    ask_in-IsKnown call (missed q) s known =
        elim (Result-cases (asked p repository cache q s.repo)) [
          | inr (failure, failed) ↦
              rw (failed, ask_in)
                (record {
                  current = known.current;
                  cached = known.cached;
                  pending =
                      pending_at s call idle known (λ q' events h. absurd (ground (arith, h)));
                })
          | inl (events, given) ↦
              rw (given, ask_in)
                (record {
                  current = known.current;
                  cached = known.cached;
                  pending = pending_at s call (answered q events) known (λ q' events' h.
                      given_by Seen q q' events events' s.repo known.current given h);
                })
        ]

    add_in-IsKnown :
        (now call : ℕ) (phase : Phase) (s : Shared R C)
        → s.phase call ≡ phase
        → IsKnown k Seen s
        → IsKnown k Seen (add_in p repository cache now call phase s).1
    unfolding add_in
    add_in-IsKnown now call idle s stands known = known
    add_in-IsKnown now call (missed q) s stands known = known
    add_in-IsKnown now call (answered q events) s stands known = record {
      current = known.current;
      cached = λ key found h.
          elim (k.Holds-add now (change_query_cache_key p q) events s.change_cache key found h) [
            | inl (same_key, same) ↦
                given_same Seen _ key events found same_key same
                  (known.pending call q events stands)
            | inr before ↦ known.cached key found before
          ];
      pending = pending_at s call idle known (λ q' events h. absurd (ground (arith, h)));
    }

    pub take-IsKnown :
        (step : Step) (s : Shared R C)
        → Seen (take p repository cache step s).1.repo
        → IsKnown k Seen s
        → IsKnown k Seen (take p repository cache step s).1
    unfolding take
    take-IsKnown (looking now call q) s seen known = look-IsKnown now call q s known
    take-IsKnown (asking call) s seen known = ask_in-IsKnown call (s.phase call) s known
    take-IsKnown (adding now call) s seen known =
        add_in-IsKnown now call (s.phase call) s refl known
    take-IsKnown (storing now e) s seen known = record {
      current = seen;
      cached = known.cached;
      pending = known.pending;
    }
    take-IsKnown purging s seen known = record {
      current = known.current;
      cached = λ key events h. absurd (k.Holds-purge s.change_cache key events h);
      pending = known.pending;
    }
