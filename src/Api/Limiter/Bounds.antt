-- ===== src/Api/Limiter/Bounds.antt =====
-- How many requests authRateLimiter of internal/api/ratelimit.go allows in a window.
use mathlib.Core.Path.{subst}
use evidra_gitops.Base.{
  ◌&&◌, ℕ, suc, ◌-◌, ◌≤◌, String, ◌≡◌, refl, ap, ◌∙◌, Bool, true, false, not, List, [], ◌∷◌, ◌==◌,
  if◌then◌else◌, arith, eq_iff, Bool-cases, inl, inr, leb, trim_space,
}
use evidra_gitops.Base.Int.{pos}
use evidra_gitops.Base.Dict.{lookup, lookup-insert}
use evidra_gitops.Api.Limiter.{
  AuthRateLimiter, limit_of, count_of, counter, counter_key, turned, counted, allow, allow_within,
}

abbrev one_more_if : Bool → ℕ → ℕ
one_more_if false n = n
one_more_if true n = suc n

-- The requests of one action in one window, each by its address; how many of them with the given
-- key are allowed.
unfoldable pub allowed_of : ℕ → String → String → List String → AuthRateLimiter → ℕ
allowed_of window action key [] l = 0
allowed_of window action key (ip ∷ ips) l =
    let (allowed, after) = allow window ip action l in
    one_more_if (allowed && counter_key ip action == key) (allowed_of window action key ips after)

-- A limiter that is on, in the window, with a limit for the action.
pub record IsLimiting (window : ℕ) (action : String) (limit : ℕ) (l : AuthRateLimiter)
    : Type 0 where
  pub enabled : l.enabled ≡ true
  pub limited : limit_of (lookup (trim_space action) l.limits) ≡ pos (suc limit)
  pub current : l.window ≡ window

counter-counted :
    (limit : ℕ) (key other : String) (l : AuthRateLimiter)
    → counter other (counted limit key l).1
      ≡ (if key == other then suc (counter key l) else counter other l)
unfolding counted counter count_of
counter-counted limit key other l = rw lookup-insert (ground arith)

within_bound :
    (c n rest count : ℕ)
    → count ≡ suc c
    → rest ≤ n - suc c
    → one_more_if (leb count n && true) rest ≤ n - c
within_bound c n rest count at ih = ground arith

not_counted : (b : Bool) (rest m : ℕ) → rest ≤ m → one_more_if (b && false) rest ≤ m
not_counted b rest m ih = ground arith

one_more_bounded :
    (limit : ℕ) (own key : String) (l : AuthRateLimiter) (rest : ℕ)
    → rest ≤ suc limit - counter key (counted (suc limit) own l).1
    → one_more_if ((counted (suc limit) own l).0 && own == key) rest ≤ suc limit - counter key l
unfolding counted
one_more_bounded limit own key l rest ih =
    let count = counter-counted (suc limit) own key l in
    elim (Bool-cases (own == key)) [
      | inl same ↦
          let counts = count ∙ rw same (ap (λ k. suc (counter k l)) ((eq_iff own key).0 same)) in
          rw same (
            within_bound (counter key l) (suc limit) rest (suc (counter own l))
              (ap (λ k. suc (counter k l)) ((eq_iff own key).0 same))
              (subst (λ c. rest ≤ suc limit - c) counts ih))
      | inr other ↦
          rw other
            (not_counted _ rest _ (subst (λ c. rest ≤ suc limit - c) (count ∙ rw other refl) ih))
    ]

module _ (window : ℕ) (action : String) (limit : ℕ) where
  turned_current : (l : AuthRateLimiter) → l.window ≡ window → turned window l ≡ l
  unfolding turned
  turned_current l current = ground arith

  allow_within_limit :
      (key : String) (l : AuthRateLimiter)
      → allow_within (pos (suc limit)) window key l ≡ counted (suc limit) key (turned window l)
  unfolding allow_within
  allow_within_limit key l = ground arith

  allow-counted :
      (ip : String) (l : AuthRateLimiter)
      → IsLimiting window action limit l
      → allow window ip action l ≡ counted (suc limit) (counter_key ip action) l
  unfolding allow
  allow-counted ip l w =
      let key = counter_key ip action in
      ap
        (λ b.
          if not b
          then (true, l)
          else allow_within (limit_of (lookup (trim_space action) l.limits)) window key l)
        w.enabled
      ∙ ap (λ n. allow_within n window key l) w.limited
      ∙ allow_within_limit key l
      ∙ ap (counted (suc limit) key) (turned_current l w.current)

  counted-IsLimiting :
      (key : String) (l : AuthRateLimiter)
      → IsLimiting window action limit l
      → IsLimiting window action limit (counted (suc limit) key l).1
  unfolding counted
  counted-IsLimiting key l w = record {
    enabled = w.enabled;
    limited = w.limited;
    current = w.current;
  }

  -- Within a window, the allowed requests of one action and address are no more than the limit, less
  -- those that were counted before.
  pub allowed_of_bounded :
      (key : String) (ips : List String) (l : AuthRateLimiter)
      → IsLimiting window action limit l
      → allowed_of window action key ips l ≤ suc limit - counter key l
  unfolding allowed_of
  allowed_of_bounded key [] l w = omega arith
  allowed_of_bounded key (ip ∷ ips) l w =
      let own = counter_key ip action in
      let after = (counted (suc limit) own l).1 in
      let ih = allowed_of_bounded key ips after (counted-IsLimiting own l w) in
      rw (allow-counted ip l w)
        (one_more_bounded limit own key l (allowed_of window action key ips after) ih)
