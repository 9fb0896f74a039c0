-- ===== src/RateLimiter/Examples.antt =====
-- The theorems on ratelimiter.go at concrete calls.
use formation_web_analytics.Base.{
  ◌*◌, ◌+◌, ◌<◌, ◌≤◌, ◌≡◌, ◌≢◌, refl, List, [], ◌∷◌, length, All, arith, codes, lookup,
}
use formation_web_analytics.RateLimiter.{RateLimiter, minute, truncate, new_rate_limiter, allow}
use formation_web_analytics.RateLimiter.Window.{Window, call, occurrences, distinct}
use formation_web_analytics.RateLimiter.Refine.{Represents, Agrees, allow_refines}
use formation_web_analytics.RateLimiter.Bounds.{
  Call, after, passes, clients-after-le, passes-le-limit,
}

-- one call a minute, from one client at most
abbrev strict : RateLimiter
strict = new_rate_limiter 1 1

abbrev fresh : Window
fresh = record { start = 0; log = [] }

strict-Represents : Represents strict fresh
unfolding new_rate_limiter occurrences distinct lookup
strict-Represents = record { same_window = refl; counts = λ id. refl; clients = refl }

allow_refines_example :
    Agrees
      (allow strict (codes "a") (60 * minute))
      (call strict.limit strict.max_clients fresh (codes "a") (60 * minute))
allow_refines_example = allow_refines strict fresh (codes "a") (60 * minute) strict-Represents

abbrev past : List Call
past = (codes "a", 59 * minute) ∷ (codes "b", 59 * minute + 1) ∷ []

abbrev calls : List Call
calls = (codes "a", 60 * minute) ∷ (codes "a", 60 * minute + 1) ∷ (codes "b", 60 * minute + 2) ∷ []

clients-after-le_example : length (after strict calls).clients ≤ strict.max_clients
clients-after-le_example = clients-after-le 1 1 calls

calls_together : All (λ c. truncate c.1 ≡ truncate (60 * minute)) calls
unfolding truncate
calls_together = (refl, (refl, (refl, tt)))

one-positive : 0 < 1
one-positive = omega arith

named : codes "a" ≢ []
named = λ e. cc

passes-le-limit_example : passes (codes "a") (after strict past) calls ≤ 1
passes-le-limit_example =
    passes-le-limit 1 1 past calls (codes "a") (60 * minute) one-positive named calls_together
