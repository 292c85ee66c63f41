-- ===== src/Export/Results.antt =====
-- The result of the evidence pack of internal/export/fs.go.
use evidra_gitops.Base.{
  String, ◌≡◌, refl, ap, ◌∙◌, true, false, ◌||◌, List, [], ◌∷◌, ◌==◌, any, arith, eq_iff,
  if◌then◌else◌, Bool-cases, inl, inr,
}
use evidra_gitops.Event.{StoredEvent}
use evidra_gitops.Event.Platform.{Platform}
use evidra_gitops.Export.{
  ExportChangeView, is_failing, is_succeeding, next_result, view_step, view_loop, view_start,
  with_change_id, derive_primary_change,
}

module _ (p : Platform) where
  -- The result of some events after another result.
  abbrev pub merged : String → List StoredEvent → String
  merged result events =
      if result == "failed" || any (is_failing p) events
      then "failed"
      else if any (is_succeeding p) events
      then "succeeded"
      else result

  next_failing :
      (result : String) (e : StoredEvent)
      → is_failing p e ≡ true
      → next_result p result e ≡ "failed"
  unfolding next_result
  next_failing result e failing = rw failing

  next_kept :
      (result : String) (e : StoredEvent)
      → is_failing p e ≡ false
      → (result == "failed") ≡ true
      → next_result p result e ≡ result
  unfolding next_result
  next_kept result e fine old = rw (fine, old)

  next_other :
      (result : String) (e : StoredEvent)
      → is_failing p e ≡ false
      → (result == "failed") ≡ false
      → next_result p result e ≡ (if is_succeeding p e then "succeeded" else result)
  unfolding next_result
  next_other result e fine old = rw (fine, old)

  succeeded_next :
      (result : String) (e : StoredEvent) (es : List StoredEvent)
      → is_failing p e ≡ false
      → (result == "failed") ≡ false
      → merged (if is_succeeding p e then "succeeded" else result) es ≡ merged result (e ∷ es)
  unfolding any
  succeeded_next result e es fine old = elim (Bool-cases (is_succeeding p e)) [
    | inl succeeding ↦
        rw (succeeding, fine, old)
          (elim (Bool-cases (any (is_failing p) es)) [
            | inl later ↦ rw later
            | inr no_failure ↦ elim (Bool-cases (any (is_succeeding p) es)) [
              | inl more ↦ rw (no_failure, more)
              | inr last ↦ rw (no_failure, last)
            ]
          ])
    | inr other ↦ rw (other, fine, old)
  ]

  merged-step :
      (result : String) (e : StoredEvent) (es : List StoredEvent)
      → merged (next_result p result e) es ≡ merged result (e ∷ es)
  unfolding any
  merged-step result e es = elim (Bool-cases (is_failing p e)) [
    | inl failing ↦
        ap (λ r. merged r es) (next_failing result e failing)
        ∙ ground (arith, eq_iff "failed" "failed", failing)
    | inr fine ↦ elim (Bool-cases (result == "failed")) [
      | inl old ↦ ap (λ r. merged r es) (next_kept result e fine old) ∙ rw old
      | inr new ↦
          ap (λ r. merged r es) (next_other result e fine new) ∙ succeeded_next result e es fine new
    ]
  ]

  merged-none : (result : String) → result ≡ merged result []
  unfolding any
  merged-none result = ground (arith, eq_iff result "failed")

  result-view_loop :
      (out : ExportChangeView) (es : List StoredEvent)
      → (view_loop p out es).result ≡ merged out.result es
  unfolding view_loop view_step
  result-view_loop out [] = merged-none out.result
  result-view_loop out (e ∷ es) =
      result-view_loop (view_step p out e) es ∙ merged-step out.result e es

  degradation-view_loop :
      (out : ExportChangeView) (es : List StoredEvent)
      → (view_loop p out es).post_deploy_degradation ≡ out.post_deploy_degradation
  unfolding view_loop view_step
  degradation-view_loop out [] = refl
  degradation-view_loop out (e ∷ es) = degradation-view_loop (view_step p out e) es

  from_start :
      (events : List StoredEvent)
      → merged "unknown" events ≡ (
          if any (is_failing p) events
          then "failed"
          else if any (is_succeeding p) events
          then "succeeded"
          else "unknown")
  from_start events = ground (arith, eq_iff "unknown" "failed")

  -- The result of a pack is failed if one of its events fails, else succeeded if one succeeds, else
  -- unknown, in whatever order they come; and it always says that no degradation was observed.
  pub derive_primary_change-result :
      (first : StoredEvent) (rest : List StoredEvent)
      → ((derive_primary_change p (first ∷ rest)).result ≡ (
          if any (is_failing p) (first ∷ rest)
          then "failed"
          else if any (is_succeeding p) (first ∷ rest)
          then "succeeded"
          else "unknown"))
        × ((derive_primary_change p (first ∷ rest)).post_deploy_degradation
            ≡ ("observed", false) ∷ [])
  unfolding derive_primary_change with_change_id view_start
  derive_primary_change-result first rest = (
    result-view_loop (view_start first) (first ∷ rest) ∙ from_start (first ∷ rest),
    degradation-view_loop (view_start first) (first ∷ rest),
  )
