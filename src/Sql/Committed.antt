-- ===== src/Sql/Committed.antt =====
-- What IngestEvent of internal/store/sql.go has sent to the database when it answers without an error.
use mathlib.Core.Path.{subst}
use evidra_gitops.Base.{
  ℕ, String, ◌≡◌, ap, ◌∙◌, ◌⊎◌, refl, Option, none, some, [], ◌∷◌, ◌==◌, arith, eq_iff,
  if◌then◌else◌, Bool-cases, Option-cases, inl, inr,
}
use evidra_gitops.Result.{Error, Result, ok, err, Result-cases}
use evidra_gitops.Event.{StoredEvent}
use evidra_gitops.Event.Platform.{Platform}
use evidra_gitops.Store.{IngestStatus, accepted, duplicate, validate_stored_event, hashed}
use evidra_gitops.Sql.{sqlite, Param, EventRow, Engine, SqlFormats}
use evidra_gitops.Sql.Columns.{scan_event_row, ts_value, nullable}
use evidra_gitops.Sql.Statement.{select_event, insert_event, ph}
use evidra_gitops.Sql.Events.{
  extensions_json, payload_json, scan_found, get_event_tx, after_commit, commit_as, insert_row,
  ingest_hashed, ingest_event,
}

module _ {D X : Type 0} (p : Platform) (f : SqlFormats) (db : Engine D X) where
  -- What the transaction finds under an id.
  abbrev pub selected : String → X → Result (Option EventRow)
  selected id x =
      db.tx_query_event
        "SELECT id, type, source, subject, event_time, extensions, data, integrity_hash, ingested_at FROM events WHERE id = ?"
        (Param.text id ∷ []) x

  -- The event was not there, and one transaction has inserted its columns and was committed.
  pub record IsInserted (e : StoredEvent) (d d' : D) : Type 0 where
    pub x : X
    pub x' : X
    pub begun : db.begin d ≡ ok x
    pub absent : selected e.id x ≡ ok none
    pub extensions : String
    pub encoded : extensions_json p e.extensions ≡ some extensions
    pub inserted :
        db.tx_exec
          "INSERT INTO events (id, type, source, subject, event_time, extensions, data, integrity_hash) VALUES (?,?,?,?,?,?,?,?)"
          (Param.text e.id
            ∷ Param.text e.type
            ∷ Param.text e.source
            ∷ nullable e.subject
            ∷ ts_value p sqlite e.time
            ∷ Param.text extensions
            ∷ Param.text (payload_json e.payload)
            ∷ Param.text e.integrity_hash
            ∷ [])
          x
        ≡ ok x'
    pub committed : db.commit x' d ≡ (ok tt, d')

  -- The table has a row of its id that reads as an event with its hash, and nothing was written.
  pub record IsKept (e : StoredEvent) (at : ℕ) (d d' : D) : Type 0 where
    pub x : X
    pub begun : db.begin d ≡ ok x
    pub row : EventRow
    pub existing : StoredEvent
    pub found : selected e.id x ≡ ok (some row)
    pub scanned : scan_event_row p f row ≡ ok (existing, at)
    pub same_hash : existing.integrity_hash ≡ e.integrity_hash
    pub committed : db.commit x d ≡ (ok tt, d')

  unfoldable pub Outcome : ℕ → StoredEvent → D → IngestStatus → ℕ → D → Type 0
  Outcome now e d status at d' =
      ((status ≡ accepted) × (at ≡ now) × IsInserted e d d')
      ⊎ ((status ≡ duplicate) × IsKept e at d d')

  OutcomeOf : ℕ → StoredEvent → D → Result (IngestStatus × ℕ) → D → Type 0
  OutcomeOf now e d (ok (status, at)) d' = Outcome now e d status at d'
  OutcomeOf now e d (err failure) d' = Unit

  -- An answer without an error has its outcome.
  unfoldable IsBacked : ℕ → StoredEvent → D → Result (IngestStatus × ℕ) × D → Type 0
  IsBacked now e d r =
      (status : IngestStatus) (at : ℕ) → r.0 ≡ ok (status, at) → Outcome now e d status at r.1

  refused-IsBacked :
      (now : ℕ) (e : StoredEvent) (d d' : D) (failure : Error) → IsBacked now e d (err failure, d')
  unfolding IsBacked
  refused-IsBacked now e d d' failure status at h = absurd (ground (arith, h))

  committed-IsBacked :
      (now : ℕ) (e : StoredEvent) (d : D) (status : IngestStatus) (at : ℕ)
      (r : Result (Unit {0}) × D)
      → (r ≡ (ok tt, r.1) → Outcome now e d status at r.1)
      → IsBacked now e d (after_commit p f sqlite db (ok (status, at)) r)
  unfolding IsBacked after_commit OutcomeOf
  committed-IsBacked now e d status at (err failure, after) backed status' at' h =
      absurd (ground (arith, h))
  committed-IsBacked now e d status at (ok u, after) backed status' at' h =
      subst (λ answer. OutcomeOf now e d answer after) h (backed refl)

  found_or : Result (StoredEvent × ℕ) → Result (Option (StoredEvent × ℕ)) → Result (StoredEvent × ℕ)
  found_or default (ok (some found)) = ok found
  found_or default (ok none) = default
  found_or default (err failure) = default

  selected_none :
      (r : Result (Option EventRow)) → scan_found p f sqlite db r ≡ ok none → r ≡ ok none
  unfolding scan_found
  selected_none (err failure) h = absurd (ground (arith, h))
  selected_none (ok none) h = refl
  selected_none (ok (some row)) h = elim (Result-cases (scan_event_row p f row)) [
    | inl (found, scanned) ↦ absurd (ground (arith, rw scanned at h))
    | inr (failure, failed) ↦ absurd (ground (arith, rw failed at h))
  ]

  selected_some :
      (r : Result (Option EventRow)) (existing : StoredEvent) (at : ℕ)
      → scan_found p f sqlite db r ≡ ok (some (existing, at))
      → (row : EventRow) × (r ≡ ok (some row)) × (scan_event_row p f row ≡ ok (existing, at))
  unfolding scan_found found_or
  selected_some (err failure) existing at h = absurd (ground (arith, h))
  selected_some (ok none) existing at h = absurd (ground (arith, h))
  selected_some (ok (some row)) existing at h = elim (Result-cases (scan_event_row p f row)) [
    | inl (found, scanned) ↦ (row, refl, scanned ∙ ap (found_or (ok found)) (rw scanned at h))
    | inr (failure, failed) ↦ absurd (ground (arith, rw failed at h))
  ]

  insert_row-IsBacked :
      (now : ℕ) (e : StoredEvent) (d : D) (x : X)
      → db.begin d ≡ ok x
      → selected e.id x ≡ ok none
      → IsBacked now e d (insert_row p f sqlite db now e x d)
  unfolding insert_row commit_as insert_event ph Outcome
  insert_row-IsBacked now e d x begun absent =
      elim (Option-cases (extensions_json p e.extensions)) [
        | inl unencoded ↦ rw (unencoded, insert_row) (refused-IsBacked now e d d _)
        | inr (extensions, encoded) ↦
            let st = insert_event f sqlite p e extensions (payload_json e.payload) in
            elim (Result-cases (db.tx_exec st.sql st.params x)) [
              | inr (failure, failed) ↦
                  rw (encoded, insert_row) (rw failed (refused-IsBacked now e d d failure))
              | inl (x', inserted) ↦
                  rw (encoded, insert_row)
                    (rw inserted (
                      committed-IsBacked now e d accepted now (db.commit x' d) (λ committed. inl (
                        refl,
                        refl,
                        record {
                          x = x;
                          x' = x';
                          begun = begun;
                          absent = absent;
                          extensions = extensions;
                          encoded = encoded;
                          inserted = inserted;
                          committed = committed;
                        },
                      ))))
            ]
      ]

  known-IsBacked :
      (now : ℕ) (e existing : StoredEvent) (at : ℕ) (d : D) (x : X)
      → db.begin d ≡ ok x
      → scan_found p f sqlite db (selected e.id x) ≡ ok (some (existing, at))
      → IsBacked now e d (
          if existing.integrity_hash == e.integrity_hash
          then commit_as p f sqlite db (ok (duplicate, at)) x d
          else (err Error.conflict, d))
  unfolding commit_as Outcome
  known-IsBacked now e existing at d x begun found =
      elim (Bool-cases (existing.integrity_hash == e.integrity_hash)) [
        | inr differs ↦ rw differs (refused-IsBacked now e d d Error.conflict)
        | inl same ↦
            let (row, selects, scanned) = selected_some (selected e.id x) existing at found in
            rw same (
              committed-IsBacked now e d duplicate at (db.commit x d) (λ committed. inr (
                refl,
                record {
                  x = x;
                  begun = begun;
                  row = row;
                  existing = existing;
                  found = selects;
                  scanned = scanned;
                  same_hash = (eq_iff existing.integrity_hash e.integrity_hash).0 same;
                  committed = committed;
                },
              )))
      ]

  found-IsBacked :
      (now : ℕ) (e : StoredEvent) (d : D) (x : X) (o : Option (StoredEvent × ℕ))
      → db.begin d ≡ ok x
      → get_event_tx p f sqlite db e.id x ≡ ok o
      → IsBacked now e d (ingest_hashed p f sqlite db now e d)
  unfolding ingest_hashed get_event_tx select_event ph
  found-IsBacked now e d x none begun found =
      rw (begun, ingest_hashed)
        (rw found (insert_row-IsBacked now e d x begun (selected_none (selected e.id x) found)))
  found-IsBacked now e d x (some (existing, at)) begun found =
      rw (begun, ingest_hashed) (rw found (known-IsBacked now e existing at d x begun found))

  ingest_hashed-IsBacked :
      (now : ℕ) (e : StoredEvent) (d : D) → IsBacked now e d (ingest_hashed p f sqlite db now e d)
  unfolding ingest_hashed
  ingest_hashed-IsBacked now e d = elim (Result-cases (db.begin d)) [
    | inr (failure, failed) ↦ rw (failed, ingest_hashed) (refused-IsBacked now e d d failure)
    | inl (x, begun) ↦ elim (Result-cases (get_event_tx p f sqlite db e.id x)) [
      | inr (failure, failed) ↦
          rw (begun, ingest_hashed) (rw failed (refused-IsBacked now e d d failure))
      | inl (o, found) ↦ found-IsBacked now e d x o begun found
    ]
  ]

  -- Over SQLite, an ingest that is answered without an error has committed one transaction. Where the answer
  -- is that the event is accepted, its id was not in the table and the transaction has inserted its
  -- columns, with its hash; where the answer is that it is a duplicate, the table has a row of its id
  -- that reads as an event with its hash, and nothing was written.
  pub ingest_event_committed :
      (now : ℕ) (e : StoredEvent) (d : D) (status : IngestStatus) (at : ℕ)
      → (ingest_event p f sqlite db now e d).0 ≡ ok (status, at)
      → (h : StoredEvent) × (hashed p e ≡ some h)
        × Outcome now h d status at (ingest_event p f sqlite db now e d).1
  unfolding ingest_event IsBacked
  ingest_event_committed now e d status at done = elim (Result-cases (validate_stored_event e)) [
    | inr (failure, refused) ↦ absurd (ground (arith, rw (refused, ingest_event) at done))
    | inl (_, valid) ↦ elim (Option-cases (hashed p e)) [
      | inl unencoded ↦ absurd (ground (arith, rw unencoded at (rw (valid, ingest_event) at done)))
      | inr (h, encoded) ↦ (
        h,
        encoded,
        rw (valid, ingest_event)
            (rw encoded (
              ingest_hashed-IsBacked now h d status at
                (rw encoded at (rw (valid, ingest_event) at done)))),
      )
    ]
  ]
