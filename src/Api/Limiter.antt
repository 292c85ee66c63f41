-- ===== src/Api/Limiter.antt =====
-- internal/api/ratelimit.go: authRateLimiter. A window is a minute of the clock. The counters are
-- natural numbers: one would have to count 2 ^ 63 requests in a minute to wrap around.
pub mod Bounds
use evidra_gitops.Base.{
  ℕ, zero, suc, ◌+◌, String, ◌<>◌, Bool, true, false, not, Option, none, some, List, [], ◌∷◌,
  if◌then◌else◌, trim_space, eqb, leb,
}
use evidra_gitops.Base.Int.{ℤ, pos, negsuc}
use evidra_gitops.Base.Dict.{Dict, lookup, insert}

pub record RateLimitPolicy : Type 0 where
  pub enabled : Bool
  pub read_per_minute : ℤ
  pub export_per_minute : ℤ
  pub ingest_per_minute : ℤ

pub record AuthRateLimiter : Type 0 where
  pub enabled : Bool
  pub limits : Dict ℤ
  pub window : ℕ
  pub counters : Dict ℕ

-- newAuthRateLimiter
unfoldable pub new_auth_rate_limiter : RateLimitPolicy → ℕ → AuthRateLimiter
new_auth_rate_limiter cfg window = record {
  enabled = cfg.enabled;
  limits =
      ("read", cfg.read_per_minute)
      ∷ ("export", cfg.export_per_minute)
      ∷ ("ingest", cfg.ingest_per_minute)
      ∷ [];
  window = window;
  counters = [];
}

-- `m[k]` of a map of integers
unfoldable pub limit_of : Option ℤ → ℤ
limit_of none = pos 0
limit_of (some n) = n

unfoldable pub count_of : Option ℕ → ℕ
count_of none = 0
count_of (some n) = n

abbrev pub counter_key : String → String → String
counter_key remote_ip action = trim_space action <> "|" <> remote_ip

unfoldable pub counter : String → AuthRateLimiter → ℕ
unfolding count_of lookup
counter key l = count_of (lookup key l.counters)

-- The counters are dropped when the window changes.
unfoldable pub turned : ℕ → AuthRateLimiter → AuthRateLimiter
turned now_window l =
    if eqb now_window l.window then l else record l { window = now_window; counters = [] }

-- The part of Allow under the lock: the request is counted, and allowed within the limit.
unfoldable pub counted : ℕ → String → AuthRateLimiter → Bool × AuthRateLimiter
counted limit key l =
    let count = suc (counter key l) in
    (leb count limit, record l { counters = insert key count l.counters })

-- Allow at a limit; no limit is set by one that is not positive.
unfoldable pub allow_within : ℤ → ℕ → String → AuthRateLimiter → Bool × AuthRateLimiter
allow_within (negsuc n) now_window key l = (true, l)
allow_within (pos limit) now_window key l =
    if eqb limit 0 then (true, l) else counted limit key (turned now_window l)

-- Allow, for a limiter that is not nil
unfoldable pub allow : ℕ → String → String → AuthRateLimiter → Bool × AuthRateLimiter
allow now_window remote_ip action l =
    if not l.enabled
    then (true, l)
    else allow_within (limit_of (lookup (trim_space action) l.limits)) now_window
        (counter_key remote_ip action) l
