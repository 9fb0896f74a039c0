-- ===== src/RateLimiter/Window.antt =====
-- What the limiter promises: in each minute a client has at most `limit` calls, and at most
-- `max_clients` clients are served. The state is the log of the calls allowed in this minute.
use formation_web_analytics.Base.{
  ℕ, suc, Bool, true, false, ◌&&◌, ◌||◌, List, [], ◌∷◌, ltb, ◌==◌, if◌then◌else◌, Bytes, is_empty,
  bytes_eq,
}
use formation_web_analytics.RateLimiter.{truncate}

pub record Window : Type 0 where
  pub start : ℕ
  pub log : List Bytes

unfoldable pub occurrences : Bytes → List Bytes → ℕ
occurrences id [] = 0
occurrences id (x ∷ log) = let rest = occurrences id log in if bytes_eq x id then suc rest else rest

unfoldable pub distinct : List Bytes → ℕ
distinct [] = 0
distinct (x ∷ log) = let rest = distinct log in if occurrences x log == 0 then suc rest else rest

-- a new minute starts a new log
unfoldable pub turn : Window → ℕ → Window
turn w now = if w.start == truncate now then w else record { start = truncate now; log = [] }

module _ (limit max_clients : ℕ) where
  -- a client that was served in this minute, or that there is room for, and that has calls left
  unfoldable pub may_pass : List Bytes → Bytes → Bool
  may_pass log id =
      (ltb 0 (occurrences id log) || ltb (distinct log) max_clients)
      && ltb (occurrences id log) limit

  unfoldable pub pass : Window → Bytes → Bool × Window
  pass w id = if may_pass w.log id then (true, record w { log = id ∷ w.log }) else (false, w)

  -- no limit, or a client that cannot be named, is let through
  unfoldable pub call : Window → Bytes → ℕ → Bool × Window
  call w id now = if limit == 0 || is_empty id then (true, w) else pass (turn w now) id
