-- ===== src/Store/Ingest.antt =====
-- IngestEvent of internal/store/store.go: events are only added, and a repeated event is recognised.
use evidra_gitops.Base.{
  ℕ, String, ◌≡◌, sym, ap, ◌∙◌, true, none, some, ◌==◌, arith, eq_iff, eq_refl, if◌then◌else◌,
  Option-cases, inl, inr,
}
use evidra_gitops.Base.Dict.{lookup, insert, lookup-insert}
use evidra_gitops.Result.{ok, err, conflict}
use evidra_gitops.Event.{StoredEvent, is_zero_time}
use evidra_gitops.Event.Platform.{Platform}
use evidra_gitops.Store.{
  MemoryRepository, Ingested, IngestStatus, accepted, duplicate, is_valid_event, hashed,
  store_event, ingest_event,
}

module _ (now : ℕ) (e : StoredEvent) (m : MemoryRepository) where
  store_event-keeps :
      (id : String) (old : StoredEvent)
      → lookup id m.events ≡ some old
      → lookup id (store_event now e m).1.events ≡ some old
  unfolding store_event
  store_event-keeps id old h = elim (Option-cases (lookup e.id m.events)) [
    | inr (existing, found) ↦ ground arith
    | inl fresh ↦ rw (fresh, store_event) (rw lookup-insert (ground (arith, eq_iff e.id id)))
  ]

module _ (p : Platform) (now : ℕ) (e : StoredEvent) (m : MemoryRepository) where
  -- An event that is stored stays as it is, whatever is ingested.
  pub ingest_event-keeps :
      (id : String) (old : StoredEvent)
      → lookup id m.events ≡ some old
      → lookup id (ingest_event p now e m).1.events ≡ some old
  unfolding ingest_event
  ingest_event-keeps id old h = elim (Option-cases (hashed p e)) [
    | inl none_made ↦ ground arith
    | inr (h', made) ↦ ground (arith, store_event-keeps now h' m id old)
  ]

pub hashed-id : (p : Platform) (e h : StoredEvent) → hashed p e ≡ some h → h.id ≡ e.id
unfolding hashed
hashed-id p e h made = ground arith

hashed-ingested_at :
    (p : Platform) (e h : StoredEvent) → hashed p e ≡ some h → h.ingested_at ≡ e.ingested_at
unfolding hashed
hashed-ingested_at p e h made = ground arith

pub is_valid_event-hashed :
    (p : Platform) (e h : StoredEvent) → hashed p e ≡ some h → is_valid_event h ≡ is_valid_event e
unfolding hashed is_valid_event
is_valid_event-hashed p e h made = ground arith

-- What is stored of a new event.
abbrev pub stamped : ℕ → StoredEvent → StoredEvent
stamped now e = if is_zero_time e.ingested_at then record e { ingested_at = now } else e

pub store_event_known :
    (now : ℕ) (e old : StoredEvent) (m : MemoryRepository)
    → lookup e.id m.events ≡ some old
    → store_event now e m ≡ (
        if old.integrity_hash == e.integrity_hash
        then (ok (duplicate, old.ingested_at), m)
        else (err conflict, m))
unfolding store_event
store_event_known now e old m known = rw (known, store_event)

pub store_event_fresh :
    (now : ℕ) (e : StoredEvent) (m : MemoryRepository)
    → lookup e.id m.events ≡ none
    → store_event now e m
      ≡ (ok (accepted, now), record m { events = insert e.id (stamped now e) m.events })
unfolding store_event
store_event_fresh now e m fresh = rw (fresh, store_event)

-- What an accepted event was, and what is found under its id afterwards.
store_event_accepted :
    (now t : ℕ) (e : StoredEvent) (m : MemoryRepository)
    → (store_event now e m).0 ≡ ok (accepted, t)
    → (lookup e.id m.events ≡ none)
      × (t ≡ now)
      × (lookup e.id (store_event now e m).1.events ≡ some (stamped now e))
store_event_accepted now t e m h = elim (Option-cases (lookup e.id m.events)) [
  | inr (old, known) ↦ absurd (ground (arith, store_event_known now e old m known))
  | inl fresh ↦
      rw (store_event_fresh now e m fresh)
        (fresh, ground (arith, store_event_fresh now e m fresh), rw (lookup-insert, eq_refl))
]

store_event_twice :
    (now later t : ℕ) (e : StoredEvent) (m : MemoryRepository)
    → e.ingested_at ≡ 0
    → (store_event now e m).0 ≡ ok (accepted, t)
    → store_event later e (store_event now e m).1 ≡ (ok (duplicate, t), (store_event now e m).1)
store_event_twice now later t e m unstamped h =
    let (fresh, at_now, found) = store_event_accepted now t e m h in
    rw (store_event_known later e (stamped now e) (store_event now e m).1 found)
      (ground (arith, eq_refl e.integrity_hash))

pub ingest_event-hashed :
    (p : Platform) (now : ℕ) (e h : StoredEvent) (m : MemoryRepository)
    → is_valid_event e ≡ true
    → hashed p e ≡ some h
    → ingest_event p now e m ≡ store_event now h m
unfolding ingest_event
ingest_event-hashed p now e h m valid made = rw (valid, ingest_event) (rw (made, ingest_event))

-- What an ingest that returned a status has gone through.
pub ingest_event_passed :
    (p : Platform) (now t : ℕ) (e : StoredEvent) (m : MemoryRepository) (status : IngestStatus)
    → (ingest_event p now e m).0 ≡ ok (status, t)
    → (is_valid_event e ≡ true) × (h : StoredEvent) × (hashed p e ≡ some h)
unfolding ingest_event
ingest_event_passed p now t e m status r = ground arith

module _ (p : Platform) (now later t : ℕ) (e : StoredEvent) (m : MemoryRepository) where
  -- A new event without an ingestion time of its own, sent again, is answered as a duplicate with
  -- the time of the first answer, and the repository stays as it is.
  pub ingest_event_twice :
      e.ingested_at ≡ 0
      → (ingest_event p now e m).0 ≡ ok (accepted, t)
      → ingest_event p later e (ingest_event p now e m).1
        ≡ (ok (duplicate, t), (ingest_event p now e m).1)
  ingest_event_twice unstamped r =
      let (valid, h, made) = ingest_event_passed p now t e m accepted r in
      let first = ingest_event-hashed p now e h m valid made in
      let again =
        store_event_twice now later t h m (hashed-ingested_at p e h made ∙ unstamped)
          (sym (ap (λ (r : Ingested). r.0) first) ∙ r) in
      rw first (ingest_event-hashed p later e h _ valid made ∙ again)
