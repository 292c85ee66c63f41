-- ===== src/Argo/Client/Complete.antt =====
-- What the events of toSourceEvents in internal/ingest/argo/client_fetch_argocd.go bring for
-- normalization and for the cursors of the collector.
use Prim.Native.String.{◌∷◌ as ◌∷ₛ◌}
use text.Mathlib.TextLemmas.{cons-append}
use evidra_gitops.Base.{
  ℕ, ◌+◌, String, ◌<>◌, ◌≡◌, ◌≢◌, refl, true, false, Option, none, some, List, [], ◌∷◌, arith, All,
  All-append, Bool-cases, inl, inr, trim_space, trim_space_idem, trim_space-append-ne, ◌==◌, eq_iff,
}
use evidra_gitops.Base.Chars.{is_space}
use evidra_gitops.Base.Int.{ℤ, is_positive}
use evidra_gitops.Event.{is_zero_time}
use evidra_gitops.Argo.{SourceEvent, ℤ}
use evidra_gitops.Argo.Checkpoint.{kind_of, kind, other_kind}
use evidra_gitops.Argo.Normalize.{is_complete}
use evidra_gitops.Argo.Client.Keys.{
  Formats, deterministic_history_id, deterministic_operation_id, deterministic_health_id,
}
use evidra_gitops.Argo.Client.{
  RevisionHistory, OperationState, Application, Phases, most_recent_time, history_occurred_at,
  is_in_window, terminal_operation_window, revision_of, operation_key, is_ongoing, is_terminal,
}
use evidra_gitops.Argo.Client.Fetch.{
  base_event, history_event, history_events, operation_event, operation_finished_at,
  operation_events, health_event, observed_at, health_events, to_source_events, history_revision,
}

-- An event that normalization takes, of a type that has a cursor.
abbrev pub IsCollectable : SourceEvent → Type 0
IsCollectable se = (is_complete se ≡ true) × (kind se ≢ other_kind)

tagged-ne : (a t x : String) → trim_space (a <> ((":" ∷ₛ t) <> x)) ≢ ""
unfolding is_space
tagged-ne a t x = rw cons-append (trim_space-append-ne a ":" (t <> x) refl)

complete_event :
    (se : SourceEvent)
    → trim_space se.id ≢ ""
    → (trim_space se.app == "") ≡ false
    → is_zero_time se.occurred ≡ false
    → is_complete se ≡ true
unfolding is_complete
complete_event se identified named dated = ground (arith, eq_iff (trim_space se.id) "")

deterministic_history_id-ne :
    (f : Formats) (uid : String) (n : ℤ) (revision : String) (t : ℕ)
    → trim_space (deterministic_history_id f uid n revision t) ≢ ""
unfolding deterministic_history_id
deterministic_history_id-ne f uid n revision t = elim (Bool-cases (is_positive n)) [
  | inl numbered ↦ rw numbered (tagged-ne (trim_space uid) "hist:" _)
  | inr other ↦ rw other (tagged-ne (trim_space uid) "hist:" _)
]

deterministic_operation_id-ne :
    (f : Formats) (uid key suffix : String)
    → trim_space (deterministic_operation_id f uid key suffix) ≢ ""
unfolding deterministic_operation_id
deterministic_operation_id-ne f uid key suffix = tagged-ne (trim_space uid) "op:" _

deterministic_health_id-ne :
    (f : Formats) (uid health : String) (t : ℕ)
    → trim_space (deterministic_health_id f uid health t) ≢ ""
unfolding deterministic_health_id
deterministic_health_id-ne f uid health t = tagged-ne (trim_space uid) "health:" _

known_history : kind_of (trim_space "argo.deployment.recorded") ≢ other_kind
unfolding kind_of trim_space
known_history = ground arith

known_start : kind_of (trim_space "argo.sync.started") ≢ other_kind
unfolding kind_of trim_space
known_start = ground arith

known_finish : kind_of (trim_space "argo.sync.finished") ≢ other_kind
unfolding kind_of trim_space
known_finish = ground arith

known_health : kind_of (trim_space "argo.health.changed") ≢ other_kind
unfolding kind_of trim_space
known_health = ground arith

-- The times of the events are dated if the clock is.
most_recent_time-dated :
    (now : ℕ) (app : Application)
    → is_zero_time now ≡ false
    → is_zero_time (most_recent_time now app) ≡ false
unfolding most_recent_time
most_recent_time-dated now app dated = ground arith

history_occurred_at-dated :
    (now : ℕ) (h : RevisionHistory) (app : Application)
    → is_zero_time now ≡ false
    → is_zero_time (history_occurred_at now h app) ≡ false
unfolding history_occurred_at
history_occurred_at-dated now h app dated = ground (arith, most_recent_time-dated now app dated)

operation_finished_at-dated :
    (now : ℕ) (app : Application) (o : OperationState)
    → is_zero_time now ≡ false
    → is_zero_time (operation_finished_at now app o) ≡ false
unfolding operation_finished_at
operation_finished_at-dated now app o dated = ground (arith, most_recent_time-dated now app dated)

observed_at-dated :
    (now : ℕ) (app : Application)
    → is_zero_time now ≡ false
    → is_zero_time (observed_at now app) ≡ false
unfolding observed_at
observed_at-dated now app dated = ground arith

name_written :
    (app : Application)
    → trim_space app.name ≢ ""
    → (trim_space (trim_space app.name) == "") ≡ false
name_written app named =
    ground (arith, trim_space_idem app.name, eq_iff (trim_space (trim_space app.name)) "")

module _ (f : Formats) (c : Phases) (app : Application)
    (named : (trim_space (trim_space app.name) == "") ≡ false) where
  history_events-IsCollectable :
      (clock : ℕ → ℕ) (n : ℕ) (hs : List RevisionHistory)
      → ((k : ℕ) → is_zero_time (clock k) ≡ false)
      → All IsCollectable (history_events f c clock n app hs)
  unfolding history_events history_event base_event
  history_events-IsCollectable clock n [] dated = tt
  history_events-IsCollectable clock n (h ∷ hs) dated =
      let rest = history_events-IsCollectable clock (n + 1) hs dated in
      let occurred = history_occurred_at (clock n) h app in
      elim (Bool-cases (
        is_in_window (terminal_operation_window c app (revision_of app)) (history_revision app h)
          occurred)) [
            | inl inside ↦ rw inside rest
            | inr outside ↦ rw outside (
              (
                complete_event (history_event f c app h occurred)
                    (deterministic_history_id-ne f _ h.id _ occurred) named
                    (history_occurred_at-dated (clock n) h app (dated n)),
                known_history,
              ),
              rest,
            )
          ]

  operation_events-IsCollectable :
      (now : ℕ) (o : Option OperationState)
      → is_zero_time now ≡ false
      → All IsCollectable (operation_events f c now app o)
  unfolding operation_events operation_event base_event
  operation_events-IsCollectable now none dated = tt
  operation_events-IsCollectable now (some o) dated =
      let finished_at = operation_finished_at now app o in
      let key = operation_key f (revision_of app) o.started_at finished_at in
      let starting = operation_event f c app o "argo.sync.started" "start" key o.started_at in
      let finishing = operation_event f c app o "argo.sync.finished" "finish" key finished_at in
      elim (Bool-cases (is_ongoing c o.phase)) [
        | inl ongoing ↦ elim (Bool-cases (is_zero_time o.started_at)) [
          | inl undated ↦ rw ongoing (rw undated tt)
          | inr begun ↦ rw ongoing (
              rw begun (
                (
                  complete_event starting (deterministic_operation_id-ne f _ key "start") named
                      begun,
                  known_start,
                ),
                tt,
              ))
        ]
        | inr halted ↦ elim (Bool-cases (is_terminal c o.phase)) [
          | inl over ↦ rw halted (
              rw over (
                (
                  complete_event finishing (deterministic_operation_id-ne f _ key "finish") named
                      (operation_finished_at-dated now app o dated),
                  known_finish,
                ),
                tt,
              ))
          | inr unknown ↦ rw halted (rw unknown tt)
        ]
      ]

  health_events-IsCollectable :
      (now : ℕ) → is_zero_time now ≡ false → All IsCollectable (health_events f c now app)
  unfolding health_events health_event base_event
  health_events-IsCollectable now dated = elim (Bool-cases (trim_space app.health_status == "")) [
    | inl blank ↦ rw blank tt
    | inr seen ↦ rw seen (
      (
        complete_event (health_event f c app (observed_at now app))
            (deterministic_health_id-ne f _ _ _) named (observed_at-dated now app dated),
        known_health,
      ),
      tt,
    )
  ]

-- Each event of an Application with a name is taken by normalization, and has a type for which the
-- collector keeps a cursor.
pub to_source_events-IsCollectable :
    (f : Formats) (c : Phases) (clock : ℕ → ℕ) (app : Application)
    → trim_space app.name ≢ ""
    → ((k : ℕ) → is_zero_time (clock k) ≡ false)
    → All IsCollectable (to_source_events f c clock app)
unfolding to_source_events
to_source_events-IsCollectable f c clock app named dated =
    let written = name_written app named in
    All-append IsCollectable _ _
      (All-append IsCollectable _ _
        (history_events-IsCollectable f c app written clock 2 app.history dated)
        (operation_events-IsCollectable f c app written (clock 0) app.operation_state (dated 0)))
      (health_events-IsCollectable f c app written (clock 1) (dated 1))
