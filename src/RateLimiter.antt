-- ===== src/RateLimiter.antt =====
-- internal/httpapi/ratelimiter.go: a fixed window of one minute for each client.
-- A time is the number of nanoseconds since Go's zero time (year 1, UTC), on which `Truncate` works;
-- the zero `time.Time` is 0. `Allow` runs whole under the mutex. The receiver is never nil here:
-- `httpapi.New` always makes a limiter.
pub mod Window
pub mod Refine
pub mod Bounds
mod Examples
use formation_web_analytics.Base.{
  ℕ, ◌+◌, ◌-◌, ◌*◌, ◌%◌, ◌^◌, Bool, true, false, ◌&&◌, ◌||◌, not, Option, none, some, List, [],
  length, leb, ◌==◌, if◌then◌else◌, Bytes, is_empty, lookup, insert,
}

pub record RateLimitState : Type 0 where
  pub window_start : ℕ
  pub count : ℕ

pub record RateLimiter : Type 0 where
  pub limit : ℕ
  pub max_clients : ℕ
  pub clients : List (Bytes × RateLimitState)
  pub window_start : ℕ

-- time.Minute, in nanoseconds
abbrev pub minute : ℕ
minute = 60 * 10 ^ 9

-- `now.UTC().Truncate(time.Minute)`
unfoldable pub truncate : ℕ → ℕ
truncate now = now - now % minute

unfoldable pub new_rate_limiter : ℕ → ℕ → RateLimiter
new_rate_limiter limit max_clients = record {
  limit = limit;
  max_clients = if max_clients == 0 then 100000 else max_clients;
  clients = [];
  window_start = 0;
}

-- the entry of a map, with Go's zero value for a missing key
pub state_of : Option RateLimitState → RateLimitState
state_of none = record { window_start = 0; count = 0 }
state_of (some s) = s

pub exists : Option RateLimitState → Bool
exists none = false
exists (some s) = true

-- `Allow` from the check of the client count on, with the client's state for this window
pub admit : RateLimiter → Bytes → Bool → RateLimitState → Bool × RateLimiter
admit r client_id known state =
    if not known && leb r.max_clients (length r.clients)
    then (false, r)
    else if leb r.limit state.count
    then (false, record r { clients = insert client_id state r.clients })
    else (
      true,
      record r { clients = insert client_id (record state { count = state.count + 1 }) r.clients },
    )

-- a new window forgets every client
pub roll : RateLimiter → ℕ → RateLimiter
roll r window =
    if r.window_start == window then r else record r { clients = []; window_start = window }

pub current : RateLimitState → ℕ → RateLimitState
current state window =
    if state.window_start == window then state else record { window_start = window; count = 0 }

unfoldable pub allow : RateLimiter → Bytes → ℕ → Bool × RateLimiter
unfolding admit roll current state_of exists
allow r client_id now =
    if r.limit == 0 || is_empty client_id
    then (true, r)
    else let window = truncate now in
      let r' = roll r window in
      let found = lookup client_id r'.clients in
      admit r' client_id (exists found) (current (state_of found) window)
