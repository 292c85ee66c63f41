-- ===== src/Store/Held.antt =====
-- What an ingest of internal/store/store.go that is answered without an error leaves in the repository.
use evidra_gitops.Base.{
  ℕ, ◌≡◌, ◌⊎◌, refl, sym, ap, ◌∙◌, true, some, ◌==◌, arith, inl, inr, eq_iff, eq_refl, Bool-cases,
  Option-cases,
}
use evidra_gitops.Base.Dict.{lookup, lookup-insert}
use evidra_gitops.Result.{ok, err, conflict}
use evidra_gitops.Event.{StoredEvent}
use evidra_gitops.Event.Platform.{Platform}
use evidra_gitops.Store.{
  IngestStatus, MemoryRepository, store_event, ingest_event, hashed, is_valid_event,
}
use evidra_gitops.Store.Ingest.{
  stamped, store_event_known, store_event_fresh, ingest_event-hashed, ingest_event_passed,
  ingest_event-keeps, hashed-id,
}

-- An event is stored under its id with the hash of this event.
unfoldable pub IsHeld : Platform → MemoryRepository → StoredEvent → Type 0
IsHeld p m e =
    (h : StoredEvent) × (hashed p e ≡ some h)
    × (old : StoredEvent) × (lookup e.id m.events ≡ some old)
    × (old.integrity_hash ≡ h.integrity_hash)

-- The outcome of the part under the lock: a conflict, or an event with the id and the hash.
store_event_outcome :
    (now : ℕ) (h : StoredEvent) (m : MemoryRepository)
    → ((store_event now h m).0 ≡ err conflict)
      ⊎ ((old : StoredEvent) × (lookup h.id (store_event now h m).1.events ≡ some old)
          × (old.integrity_hash ≡ h.integrity_hash))
store_event_outcome now h m = elim (Option-cases (lookup h.id m.events)) [
  | inl fresh ↦
      rw (store_event_fresh now h m fresh)
        (inr (stamped now h, rw (lookup-insert, eq_refl), ground arith))
  | inr (old, known) ↦ elim (Bool-cases (old.integrity_hash == h.integrity_hash)) [
    | inl same ↦
        rw (store_event_known now h old m known) (rw same (inr (old, known, (eq_iff _ _).0 same)))
    | inr apart ↦ rw (store_event_known now h old m known) (rw apart (inl refl))
  ]
]

module _ (p : Platform) (now : ℕ) (e : StoredEvent) (m : MemoryRepository) where
  -- A valid event that is hashed is refused for a conflict, or held.
  pub ingest_event_outcome :
      (h : StoredEvent)
      → is_valid_event e ≡ true
      → hashed p e ≡ some h
      → ((ingest_event p now e m).0 ≡ err conflict) ⊎ IsHeld p (ingest_event p now e m).1 e
  unfolding IsHeld
  ingest_event_outcome h valid made =
      rw (ingest_event-hashed p now e h m valid made) (elim (store_event_outcome now h m) [
        | inl refused ↦ inl refused
        | inr (old, found, same) ↦ inr (
          h,
          made,
          old,
          ap (λ id. lookup id (store_event now h m).1.events) (sym (hashed-id p e h made)) ∙ found,
          same,
        )
      ])

  -- An event whose ingest is answered without an error is held.
  pub ingest_event-IsHeld :
      (status : IngestStatus) (t : ℕ)
      → (ingest_event p now e m).0 ≡ ok (status, t)
      → IsHeld p (ingest_event p now e m).1 e
  ingest_event-IsHeld status t answered =
      let (valid, h, made) = ingest_event_passed p now t e m status answered in
      elim (ingest_event_outcome h valid made) [
        | inl refused ↦ absurd (ground (arith, sym refused ∙ answered))
        | inr held ↦ held
      ]

  -- What is held stays so, whatever is ingested.
  pub ingest_event-keeps_IsHeld :
      (other : StoredEvent) → IsHeld p m other → IsHeld p (ingest_event p now e m).1 other
  unfolding IsHeld
  ingest_event-keeps_IsHeld other (h, made, old, found, same) =
      (h, made, old, ingest_event-keeps p now e m other.id old found, same)
