-- ===== src/RateLimiter/Bounds.antt =====
-- How many calls the limiter lets through, and how many clients it remembers.
use formation_web_analytics.Base.{
  ℕ, suc, ◌+◌, ◌≤◌, ◌<◌, ◌≡◌, ◌≢◌, refl, sym, ◌∙◌, ap, true, ◌&&◌, ◌||◌, List, [], ◌∷◌, All, inl,
  inr, Bool-cases, length, ◌==◌, arith, if◌then◌else◌, Bytes, is_empty, bytes_eq, bytes_eq→eq,
  lookup,
}
use formation_web_analytics.RateLimiter.{RateLimiter, truncate, new_rate_limiter, allow}
use formation_web_analytics.RateLimiter.Window.{Window, occurrences, distinct, may_pass, turn}
use formation_web_analytics.RateLimiter.Window.{pass, call}
use formation_web_analytics.RateLimiter.Refine.{Represents, allow_refines}

-- a call: the client and the time
abbrev pub Call : Type 0
Call = Bytes × ℕ

-- the limiter after a sequence of calls
unfoldable pub after : RateLimiter → List Call → RateLimiter
after r [] = r
after r ((id, now) ∷ calls) = after (allow r id now).1 calls

-- how many of the calls of `id` are let through
unfoldable pub passes : Bytes → RateLimiter → List Call → ℕ
passes id r [] = 0
passes id r ((c, now) ∷ calls) =
    let (answer, r') = allow r c now in
    let rest = passes id r' calls in if bytes_eq c id && answer then suc rest else rest

record IsBounded (limit max_clients : ℕ) (w : Window) : Type 0 where
  pub each : (id : Bytes) → occurrences id w.log ≤ limit
  pub clients : distinct w.log ≤ max_clients

allow_keeps :
    (r : RateLimiter) (id : Bytes) (now : ℕ)
    → ((allow r id now).1.limit ≡ r.limit) × ((allow r id now).1.max_clients ≡ r.max_clients)
unfolding allow
allow_keeps r id now = ground arith

module _ (limit max_clients : ℕ) where
  turn-IsBounded :
      (w : Window) (now : ℕ)
      → IsBounded limit max_clients w
      → IsBounded limit max_clients (turn w now)
  unfolding turn occurrences distinct
  turn-IsBounded w now b = elim (Bool-cases (w.start == truncate now)) [
    | inl same ↦ rw same b
    | inr new ↦ rw new (record { each = λ id. omega arith; clients = omega arith })
  ]

  each_after :
      (w : Window) (id : Bytes)
      → IsBounded limit max_clients w
      → may_pass limit max_clients w.log id ≡ true
      → (j : Bytes) → occurrences j (id ∷ w.log) ≤ limit
  unfolding may_pass occurrences
  each_after w id b go j = elim (Bool-cases (bytes_eq id j)) [
    | inl eq ↦
        let same = ap (λ x. occurrences x w.log) (bytes_eq→eq id j eq) in rw eq (ground arith)
    | inr ne ↦ rw ne (b.each j)
  ]

  pass-IsBounded :
      (w : Window) (id : Bytes)
      → IsBounded limit max_clients w
      → IsBounded limit max_clients (pass limit max_clients w id).1
  unfolding pass may_pass occurrences distinct
  pass-IsBounded w id b = elim (Bool-cases (may_pass limit max_clients w.log id)) [
    | inl go ↦ rw go (record { each = each_after w id b go; clients = ground (arith, b.clients) })
    | inr stop ↦ rw stop b
  ]

  call-IsBounded :
      (w : Window) (id : Bytes) (now : ℕ)
      → IsBounded limit max_clients w
      → IsBounded limit max_clients (call limit max_clients w id now).1
  unfolding call
  call-IsBounded w id now b = elim (Bool-cases (limit == 0 || is_empty id)) [
    | inl free ↦ rw free b
    | inr bound ↦ rw bound (pass-IsBounded (turn w now) id (turn-IsBounded w now b))
  ]

-- A limiter that some bounded log stands behind.
record IsSound (r : RateLimiter) (w : Window) : Type 0 where
  pub represents : Represents r w
  pub bounded : IsBounded r.limit r.max_clients w

allow-IsSound :
    (r : RateLimiter) (w : Window) (id : Bytes) (now : ℕ)
    → IsSound r w
    → IsSound (allow r id now).1 (call r.limit r.max_clients w id now).1
allow-IsSound r w id now s = record {
  represents = (allow_refines r w id now s.represents).represents;
  bounded =
      rw ((allow_keeps r id now).0, (allow_keeps r id now).1)
        (call-IsBounded r.limit r.max_clients w id now s.bounded);
}

after-IsSound :
    (r : RateLimiter) (w : Window) (calls : List Call)
    → IsSound r w
    → (u : Window) × IsSound (after r calls) u
unfolding after
after-IsSound r w [] s = (w, s)
after-IsSound r w ((id, now) ∷ calls) s =
    after-IsSound (allow r id now).1 (call r.limit r.max_clients w id now).1 calls
      (allow-IsSound r w id now s)

after_keeps :
    (r : RateLimiter) (calls : List Call)
    → ((after r calls).limit ≡ r.limit) × ((after r calls).max_clients ≡ r.max_clients)
unfolding after
after_keeps r [] = (refl, refl)
after_keeps r ((id, now) ∷ calls) = (
  (after_keeps (allow r id now).1 calls).0 ∙ (allow_keeps r id now).0,
  (after_keeps (allow r id now).1 calls).1 ∙ (allow_keeps r id now).1,
)

limit-new : (limit max_clients : ℕ) → (new_rate_limiter limit max_clients).limit ≡ limit
unfolding new_rate_limiter
limit-new limit max_clients = refl

new-IsSound :
    (limit max_clients : ℕ)
    → IsSound (new_rate_limiter limit max_clients) (record { start = 0; log = [] })
unfolding new_rate_limiter occurrences distinct lookup
new-IsSound limit max_clients = record {
  represents = record { same_window = refl; counts = λ id. refl; clients = refl };
  bounded = record { each = λ id. omega arith; clients = omega arith };
}

-- Whatever calls were made of a new limiter, it remembers at most as many clients as it may.
pub clients-after-le :
    (limit max_clients : ℕ) (calls : List Call)
    → length (after (new_rate_limiter limit max_clients) calls).clients
      ≤ (new_rate_limiter limit max_clients).max_clients
clients-after-le limit max_clients calls =
    let (w, s) = after-IsSound _ _ calls (new-IsSound limit max_clients) in
    omega (
      arith,
      s.represents.clients,
      s.bounded.clients,
      (after_keeps (new_rate_limiter limit max_clients) calls).1,
    )

-- A call adds to the log of its minute what it lets through.
call_counts :
    (limit max_clients : ℕ) (w : Window) (id c : Bytes) (now t : ℕ)
    → id ≢ []
    → 0 < limit
    → truncate t ≡ truncate now
    → let (answer, w') = call limit max_clients w c now in
      let n = occurrences id (turn w t).log in
      occurrences id (turn w' t).log ≡ (if bytes_eq c id && answer then suc n else n)
unfolding call pass turn occurrences bytes_eq
call_counts limit max_clients w [] [] now t ne pos e = absurd (ne refl)
call_counts limit max_clients w (x ∷ xs) [] now t ne pos e = ground arith
call_counts limit max_clients w id (y ∷ ys) now t ne pos e = ground arith

-- Whatever the limiter's past, the calls of one minute and those that its log holds already stay
-- within the limit together.
passes_bounded :
    (id : Bytes) (t : ℕ) (r : RateLimiter) (w : Window) (calls : List Call)
    → id ≢ []
    → 0 < r.limit
    → IsSound r w
    → All (λ c. truncate c.1 ≡ truncate t) calls
    → passes id r calls + occurrences id (turn w t).log ≤ r.limit
unfolding passes
passes_bounded id t r w [] ne pos s h =
    omega (arith, (turn-IsBounded r.limit r.max_clients w t s.bounded).each id)
passes_bounded id t r w ((c, now) ∷ calls) ne pos s (e, h) =
    let next =
      passes_bounded id t (allow r c now).1 (call r.limit r.max_clients w c now).1 calls ne
        (omega (arith, (allow_keeps r c now).0)) (allow-IsSound r w c now s) h in
    ground (
      arith,
      next,
      (allow_keeps r c now).0,
      (allow_refines r w c now s.represents).same_answer,
      call_counts r.limit r.max_clients w id c now t ne pos (sym e),
    )

-- With a positive limit, and after any past calls of a new limiter, of the calls made in one minute
-- at most `limit` of each client that has a name are let through.
pub passes-le-limit :
    (limit max_clients : ℕ) (past calls : List Call) (id : Bytes) (t : ℕ)
    → 0 < limit
    → id ≢ []
    → All (λ c. truncate c.1 ≡ truncate t) calls
    → passes id (after (new_rate_limiter limit max_clients) past) calls ≤ limit
passes-le-limit limit max_clients past calls id t pos ne h =
    let (w, s) = after-IsSound _ _ past (new-IsSound limit max_clients) in
    let same =
      (after_keeps (new_rate_limiter limit max_clients) past).0 ∙ limit-new limit max_clients in
    omega (arith, passes_bounded id t _ w calls ne (omega (arith, same)) s h, same)
