-- ===== src/Store/History.antt =====
-- The repository of internal/store/store.go through any sequence of its operations.
use mathlib.Core.Path.{subst}
use evidra_gitops.Base.{
  ℕ, String, ◌≡◌, ◌⊎◌, refl, sym, ap, ◌∙◌, true, Option, some, List, [], ◌∷◌, ◌==◌, arith, eq_iff,
  Bool-cases, Option-cases, inl, inr,
}
use evidra_gitops.Base.Dict.{Dict, lookup, insert, lookup-insert, NodupKeys, insert-NodupKeys}
use evidra_gitops.Value.{Value}
use evidra_gitops.Event.{StoredEvent}
use evidra_gitops.Event.Platform.{Platform}
use evidra_gitops.Store.{
  MemoryRepository, Ingested, new_memory_repository, is_valid_event, hashed, store_event,
  ingest_event, delete_event,
}
use evidra_gitops.Store.Exports.{create_export, set_export_completed, set_export_failed}
use evidra_gitops.Store.Ingest.{
  stamped, ingest_event-keeps, ingest_event-hashed, is_valid_event-hashed, store_event_known,
  store_event_fresh,
}

-- A repository as the operations leave it: each event stands once, under its id, and is valid.
pub record IsWellFormed (m : MemoryRepository) : Type 0 where
  pub once : NodupKeys m.events
  pub keyed : (id : String) (e : StoredEvent) → lookup id m.events ≡ some e → e.id ≡ id
  pub valid :
      (id : String) (e : StoredEvent) → lookup id m.events ≡ some e → is_valid_event e ≡ true

is_valid_event-stamped :
    (now : ℕ) (e : StoredEvent) → is_valid_event (stamped now e) ≡ is_valid_event e
unfolding is_valid_event
is_valid_event-stamped now e = ground arith

id-stamped : (now : ℕ) (e : StoredEvent) → (stamped now e).id ≡ e.id
id-stamped now e = ground arith

module _ (now : ℕ) (h : StoredEvent) (m : MemoryRepository) (w : IsWellFormed m) where
  -- An event found after the insertion is the new one, under its id, or was there.
  found_cases :
      (id : String) (e : StoredEvent)
      → lookup id (insert h.id (stamped now h) m.events) ≡ some e
      → ((h.id ≡ id) × (e ≡ stamped now h)) ⊎ (lookup id m.events ≡ some e)
  found_cases id e f = elim (Bool-cases (h.id == id)) [
    | inl same ↦
        inl
          ((eq_iff h.id id).0 same, ground (arith, lookup-insert h.id id (stamped now h) m.events))
    | inr other ↦ inr (ground (arith, lookup-insert h.id id (stamped now h) m.events))
  ]

  inserted-IsWellFormed :
      is_valid_event h ≡ true
      → IsWellFormed (record m { events = insert h.id (stamped now h) m.events })
  inserted-IsWellFormed v = record {
    once = insert-NodupKeys h.id (stamped now h) m.events w.once;
    keyed = λ id e f. elim (found_cases id e f) [
      | inl (same, new) ↦ rw new (id-stamped now h ∙ same)
      | inr old ↦ w.keyed id e old
    ];
    valid = λ id e f. elim (found_cases id e f) [
      | inl (same, new) ↦ rw new (is_valid_event-stamped now h ∙ v)
      | inr old ↦ w.valid id e old
    ];
  }

  store_event-IsWellFormed : is_valid_event h ≡ true → IsWellFormed (store_event now h m).1
  store_event-IsWellFormed v = elim (Option-cases (lookup h.id m.events)) [
    | inr (old, known) ↦
        subst IsWellFormed
          (sym (ap (λ (r : Ingested). r.1) (store_event_known now h old m known) ∙ ground arith)) w
    | inl fresh ↦
        subst IsWellFormed (sym (ap (λ (r : Ingested). r.1) (store_event_fresh now h m fresh)))
          (inserted-IsWellFormed v)
  ]

module _ (p : Platform) (now : ℕ) (e : StoredEvent) (m : MemoryRepository) where
  pub ingest_event-IsWellFormed : IsWellFormed m → IsWellFormed (ingest_event p now e m).1
  ingest_event-IsWellFormed w = elim (Bool-cases (is_valid_event e)) [
    | inr invalid ↦ unfold ingest_event in rw (invalid, ingest_event) w
    | inl v ↦ elim (Option-cases (hashed p e)) [
      | inl none_made ↦ unfold ingest_event in rw (v, ingest_event) (rw (none_made, ingest_event) w)
      | inr (h, made) ↦
          rw (ingest_event-hashed p now e h m v made)
            (store_event-IsWellFormed now h m w (is_valid_event-hashed p e h made ∙ v))
    ]
  ]

-- The calls that a repository serves, with the times that they read and the values they are given.
pub data Operation : Type 0 where
  ingest : ℕ → StoredEvent → Operation
  delete : String → Operation
  create : ℕ → ℕ → String → Option (Dict Value) → Operation
  complete : ℕ → String → String → Operation
  fail : ℕ → String → String → Operation

unfoldable pub apply : Platform → Operation → MemoryRepository → MemoryRepository
apply p (ingest now e) m = (ingest_event p now e m).1
apply p (delete id) m = (delete_event id m).1
apply p (create nanos now format filter) m = (create_export p nanos now format filter m).1
apply p (complete now id uri) m = (set_export_completed now id uri m).1
apply p (fail now id message) m = (set_export_failed now id message m).1

unfoldable pub run : Platform → List Operation → MemoryRepository → MemoryRepository
unfolding apply
run p [] m = m
run p (o ∷ os) m = run p os (apply p o m)

-- Only an ingest touches the events.
events-apply :
    (p : Platform) (o : Operation) (m : MemoryRepository)
    → ((now : ℕ) × (e : StoredEvent) × (o ≡ ingest now e)) ⊎ ((apply p o m).events ≡ m.events)
unfolding apply delete_event create_export set_export_completed set_export_failed
events-apply p (ingest now e) m = inl (now, e, refl)
events-apply p (delete id) m = inr refl
events-apply p (create nanos now format filter) m = inr refl
events-apply p (complete now id uri) m = inr (ground arith)
events-apply p (fail now id message) m = inr (ground arith)

same_events-IsWellFormed :
    (m m' : MemoryRepository) → m'.events ≡ m.events → IsWellFormed m → IsWellFormed m'
same_events-IsWellFormed m m' same w = record {
  once = subst NodupKeys (sym same) w.once;
  keyed = λ id e f. w.keyed id e (ap (lookup id) (sym same) ∙ f);
  valid = λ id e f. w.valid id e (ap (lookup id) (sym same) ∙ f);
}

apply-IsWellFormed :
    (p : Platform) (o : Operation) (m : MemoryRepository)
    → IsWellFormed m
    → IsWellFormed (apply p o m)
apply-IsWellFormed p o m w = elim (events-apply p o m) [
  | inl (now, e, is_ingest) ↦ rw is_ingest (unfold apply in ingest_event-IsWellFormed p now e m w)
  | inr same ↦ same_events-IsWellFormed m (apply p o m) same w
]

-- Every operation leaves the repository well formed.
pub run-IsWellFormed :
    (p : Platform) (os : List Operation) (m : MemoryRepository)
    → IsWellFormed m
    → IsWellFormed (run p os m)
unfolding run
run-IsWellFormed p [] m w = w
run-IsWellFormed p (o ∷ os) m w = run-IsWellFormed p os (apply p o m) (apply-IsWellFormed p o m w)

lookup-apply :
    (p : Platform) (o : Operation) (m : MemoryRepository) (id : String) (e : StoredEvent)
    → lookup id m.events ≡ some e
    → lookup id (apply p o m).events ≡ some e
lookup-apply p o m id e found = elim (events-apply p o m) [
  | inl (now, e', is_ingest) ↦
      rw is_ingest (unfold apply in ingest_event-keeps p now e' m id e found)
  | inr same ↦ ap (lookup id) same ∙ found
]

-- An event that is stored is found under its id, unchanged, after any operations.
pub lookup-run :
    (p : Platform) (os : List Operation) (m : MemoryRepository) (id : String) (e : StoredEvent)
    → lookup id m.events ≡ some e
    → lookup id (run p os m).events ≡ some e
unfolding run
lookup-run p [] m id e found = found
lookup-run p (o ∷ os) m id e found =
    lookup-run p os (apply p o m) id e (lookup-apply p o m id e found)

-- Nothing is stored at first.
pub new_memory_repository-IsWellFormed : IsWellFormed new_memory_repository
new_memory_repository-IsWellFormed = record {
  once = tt;
  keyed = λ id e f. unfold lookup in absurd (ground arith);
  valid = λ id e f. unfold lookup in absurd (ground arith);
}
