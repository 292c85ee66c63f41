-- ===== src/Changes/Build/Verdicts.antt =====
-- mergeResultStatus and mergeHealthStatus of internal/app/changes.go over several events.
use mathlib.Core.Path.{ap₂}
use evidra_gitops.Base.{
  String, ◌≡◌, refl, sym, ap, ◌∙◌, Bool, true, false, not, ◌&&◌, ◌||◌, List, [], ◌∷◌, ◌==◌, arith,
  eq_iff, if◌then◌else◌, Bool-cases, inl, inr, any,
}
use evidra_gitops.Event.{StoredEvent}
use evidra_gitops.Changes.Status.{merge_result_status, merge_health_status}

-- The result of several events: a failure counts most, then a success.
unfoldable pub overall_result : (StoredEvent → String) → List StoredEvent → String
unfolding any
overall_result infer es =
    if any (λ e. infer e == "failed") es
    then "failed"
    else if any (λ e. infer e == "succeeded") es
    then "succeeded"
    else "unknown"

-- The loop of merges alone.
unfoldable pub merged :
    (String → String → String) → (StoredEvent → String) → String → List StoredEvent → String
merged merge infer s [] = s
merged merge infer s (e ∷ es) = merged merge infer (merge s (infer e)) es

-- A failure, else a success, else neither.
abbrev verdict : Bool → Bool → String
verdict failure success = if failure then "failed" else if success then "succeeded" else "unknown"

verdict-failed : (f s : Bool) → (verdict f s == "failed") ≡ f
verdict-failed true s = refl
verdict-failed false true = refl
verdict-failed false false = refl

verdict-succeeded : (f s : Bool) → (verdict f s == "succeeded") ≡ (not f && s)
verdict-succeeded true s = refl
verdict-succeeded false true = refl
verdict-succeeded false false = refl

-- What a merge is, of what its two sides are.
merge-failed :
    (a b : String) → (merge_result_status a b == "failed") ≡ (a == "failed" || b == "failed")
unfolding merge_result_status
merge-failed a b =
    verdict-failed (a == "failed" || b == "failed") (a == "succeeded" || b == "succeeded")

merge-succeeded :
    (a b : String)
    → (merge_result_status a b == "succeeded")
      ≡ (not (a == "failed" || b == "failed") && (a == "succeeded" || b == "succeeded"))
unfolding merge_result_status
merge-succeeded a b =
    verdict-succeeded (a == "failed" || b == "failed") (a == "succeeded" || b == "succeeded")

merge_result_status-verdict :
    (a b : String)
    → merge_result_status a b
      ≡ verdict (a == "failed" || b == "failed") (a == "succeeded" || b == "succeeded")
unfolding merge_result_status
merge_result_status-verdict a b = refl

verdict_assoc :
    (f g h s t u : Bool)
    → verdict ((f || g) || h) ((not (f || g) && (s || t)) || u)
      ≡ verdict (f || (g || h)) (s || (not (g || h) && (t || u)))
verdict_assoc f g h s t u = ground arith

merge_result_status_assoc :
    (a b c : String)
    → merge_result_status (merge_result_status a b) c
      ≡ merge_result_status a (merge_result_status b c)
merge_result_status_assoc a b c =
    merge_result_status-verdict (merge_result_status a b) c
    ∙ ap₂ verdict (ap (λ t. t || c == "failed") (merge-failed a b))
        (ap (λ t. t || c == "succeeded") (merge-succeeded a b))
    ∙ verdict_assoc (a == "failed") (b == "failed") (c == "failed") (a == "succeeded")
        (b == "succeeded") (c == "succeeded")
    ∙ sym (
        merge_result_status-verdict a (merge_result_status b c)
        ∙ ap₂ verdict (ap (◌||◌ (a == "failed")) (merge-failed b c))
            (ap (◌||◌ (a == "succeeded")) (merge-succeeded b c)))

verdict_again : (f s : Bool) → verdict f s ≡ verdict (f || false) ((not f && s) || false)
verdict_again f s = ground arith

merge_result_status_unknown :
    (a b : String)
    → merge_result_status a b ≡ merge_result_status (merge_result_status a b) "unknown"
merge_result_status_unknown a b =
    merge_result_status-verdict a b
    ∙ verdict_again (a == "failed" || b == "failed") (a == "succeeded" || b == "succeeded")
    ∙ sym (
        merge_result_status-verdict (merge_result_status a b) "unknown"
        ∙ ap₂ verdict (ap (λ t. t || false) (merge-failed a b))
            (ap (λ t. t || false) (merge-succeeded a b)))

-- A text merged with a verdict.
verdict_absorbs :
    (f s g t : Bool)
    → verdict (if f then true else g) (if s then true else t) ≡ verdict (f || g) (s || (not g && t))
verdict_absorbs f s g t = ground arith

merge_with_verdict :
    (a : String) (g t : Bool)
    → merge_result_status a (verdict g t)
      ≡ verdict (if a == "failed" then true else g) (if a == "succeeded" then true else t)
merge_with_verdict a g t =
    merge_result_status-verdict a (verdict g t)
    ∙ ap₂ verdict (ap (◌||◌ (a == "failed")) (verdict-failed g t))
        (ap (◌||◌ (a == "succeeded")) (verdict-succeeded g t))
    ∙ sym (verdict_absorbs (a == "failed") (a == "succeeded") g t)

module _ (infer : StoredEvent → String) where
  overall_result-cons :
      (e : StoredEvent) (es : List StoredEvent)
      → overall_result infer (e ∷ es) ≡ merge_result_status (infer e) (overall_result infer es)
  unfolding overall_result
  overall_result-cons e es = sym (merge_with_verdict (infer e) _ _)

  unknown-overall_result :
      (es : List StoredEvent)
      → merge_result_status "unknown" (overall_result infer es) ≡ overall_result infer es
  unfolding overall_result
  unknown-overall_result es = merge_with_verdict "unknown" _ _

  merged_result :
      (s t : String) (es : List StoredEvent)
      → merged merge_result_status infer (merge_result_status s t) es
        ≡ merge_result_status (merge_result_status s t) (overall_result infer es)
  unfolding merged
  merged_result s t [] = merge_result_status_unknown s t ∙ unfold overall_result any in refl
  merged_result s t (e ∷ es) =
      merged_result (merge_result_status s t) (infer e) es
      ∙ merge_result_status_assoc (merge_result_status s t) (infer e) (overall_result infer es)
      ∙ ap (merge_result_status (merge_result_status s t)) (sym (overall_result-cons e es))

  pub merged_result_from_unknown :
      (es : List StoredEvent)
      → merged merge_result_status infer "unknown" es ≡ overall_result infer es
  unfolding merged
  merged_result_from_unknown [] = unfold overall_result any in refl
  merged_result_from_unknown (e ∷ es) =
      merged_result "unknown" (infer e) es
      ∙ merge_result_status_assoc "unknown" (infer e) (overall_result infer es)
      ∙ ap (merge_result_status "unknown") (sym (overall_result-cons e es))
      ∙ unknown-overall_result (e ∷ es)

and_right : (a b : Bool) → (a && b) ≡ true → b ≡ true
and_right a b h = ground arith

unknown_differs : (s : String) → (s == "unknown") ≡ true → (s == "degraded") ≡ false
unknown_differs s h = rw ((eq_iff s "unknown").0 h)

merge-degraded :
    (s t : String)
    → (merge_health_status s t == "degraded") ≡ (if s == "degraded" then true else t == "degraded")
unfolding merge_health_status
merge-degraded s t = elim (Bool-cases (t == "degraded")) [
  | inl d ↦ rw d (ground arith)
  | inr d ↦ rw d (elim (Bool-cases (t == "progressing" && not (s == "degraded"))) [
    | inl e ↦ rw e (ground arith)
    | inr e ↦ rw e (elim (Bool-cases (t == "healthy" && s == "unknown")) [
      | inl h ↦ rw h (rw (unknown_differs s (and_right (t == "healthy") (s == "unknown") h)))
      | inr h ↦ rw h (elim (Bool-cases (t == "missing" && s == "unknown")) [
        | inl m ↦ rw m (rw (unknown_differs s (and_right (t == "missing") (s == "unknown") m)))
        | inr m ↦ rw m (ground arith)
      ])
    ])
  ])
]

or_first : (a b c : Bool) → ((if a then true else b) || c) ≡ (a || (if b then true else c))
or_first a b c = ground arith

-- A degraded health is never left, and no other health becomes it.
pub merged_health :
    (infer : StoredEvent → String) (s : String) (es : List StoredEvent)
    → (merged merge_health_status infer s es == "degraded")
      ≡ (s == "degraded" || any (λ e. infer e == "degraded") es)
unfolding merged any
merged_health infer s [] = ground arith
merged_health infer s (e ∷ es) =
    merged_health infer (merge_health_status s (infer e)) es
    ∙ ap (λ t. t || any (λ e. infer e == "degraded") es) (merge-degraded s (infer e))
    ∙ or_first (s == "degraded") (infer e == "degraded") (any (λ e. infer e == "degraded") es)
