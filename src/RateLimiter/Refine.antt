-- ===== src/RateLimiter/Refine.antt =====
-- `Allow` against the log of allowed calls.
use formation_web_analytics.Base.{
  ℕ, zero, suc, ◌+◌, ◌<◌, ◌≡◌, refl, sym, ◌∙◌, ap, Bool, true, false, ◌||◌, Option, none, some, ◌∷◌,
  inl, inr, Bool-cases, length, leb, ◌==◌, arith, if◌then◌else◌, Bytes, is_empty, bytes_eq,
  bytes_eq→eq, lookup, insert, lookup-insert, length-insert_new, length-insert_old,
}
use formation_web_analytics.RateLimiter.{
  RateLimiter, RateLimitState, truncate, admit, roll, current, state_of, exists, allow,
}
use formation_web_analytics.RateLimiter.Window.{Window, occurrences, distinct, may_pass, turn}
use formation_web_analytics.RateLimiter.Window.{pass, call}

-- the map entry of a client with `n` allowed calls
abbrev entry : ℕ → ℕ → Option RateLimitState
entry window zero = none
entry window (suc n) = some (record { window_start = window; count = suc n })

pub record Represents (r : RateLimiter) (w : Window) : Type 0 where
  pub same_window : r.window_start ≡ w.start
  pub counts : (id : Bytes) → lookup id r.clients ≡ entry w.start (occurrences id w.log)
  pub clients : length r.clients ≡ distinct w.log

roll-Represents :
    (r : RateLimiter) (w : Window) (now : ℕ)
    → Represents r w
    → Represents (roll r (truncate now)) (turn w now)
unfolding roll turn lookup occurrences distinct
roll-Represents r w now h = elim (Bool-cases (r.window_start == truncate now)) [
  | inl same ↦
      let same' : (w.start == truncate now) ≡ true = rw (← h.same_window) same in rw (same, same') h
  | inr new ↦
      let new' : (w.start == truncate now) ≡ false = rw (← h.same_window) new in
      rw (new, new') (record { same_window = refl; counts = λ id. refl; clients = refl })
]

module _ (r : RateLimiter) (w : Window) (h : Represents r w) (id : Bytes) where
  -- the client's entry after one more allowed call
  abbrev one_more : ℕ → RateLimiter
  one_more n = record r {
    clients = insert id (record { window_start = w.start; count = n + 1 }) r.clients;
  }

  abbrev logged : Window
  logged = record w { log = id ∷ w.log }

  length-one_more :
      (n : ℕ) → occurrences id w.log ≡ n → length (one_more n).clients ≡ distinct (id ∷ w.log)
  unfolding distinct
  length-one_more zero e =
      length-insert_new id _ r.clients (h.counts id ∙ ap (entry w.start) e)
      ∙ rw e (omega (arith, h.clients))
  length-one_more (suc n) e =
      length-insert_old id _ _ r.clients (h.counts id ∙ ap (entry w.start) e)
      ∙ rw e (ground (arith, h.clients))

  after :
      (n : ℕ)
      → occurrences id w.log ≡ n
      → (j : Bytes)
      → (if bytes_eq id j
          then some (record { window_start = w.start; count = n + 1 })
          else lookup j r.clients)
        ≡ entry w.start (occurrences j (id ∷ w.log))
  unfolding occurrences
  after n e j = elim (Bool-cases (bytes_eq id j)) [
    | inl eq ↦
        let same = ap (λ x. occurrences x w.log) (bytes_eq→eq id j eq) in
        rw eq (ap (λ m. some (record { window_start = w.start; count = m })) (omega arith))
    | inr ne ↦ rw ne (h.counts j)
  ]

  kept :
      (s : RateLimitState)
      → lookup id r.clients ≡ some s
      → (j : Bytes)
      → (if bytes_eq id j then some s else lookup j r.clients) ≡ entry w.start (occurrences j w.log)
  kept s e j = elim (Bool-cases (bytes_eq id j)) [
    | inl eq ↦ rw eq (sym e ∙ ap (λ x. lookup x r.clients) (bytes_eq→eq id j eq) ∙ h.counts j)
    | inr ne ↦ rw ne (h.counts j)
  ]

  one_more-Represents : (n : ℕ) → occurrences id w.log ≡ n → Represents (one_more n) logged
  unfolding occurrences
  one_more-Represents n e = record {
    same_window = h.same_window;
    counts = λ j. lookup-insert id j _ r.clients ∙ after n e j;
    clients = length-one_more n e;
  }

  -- a refused call writes the entry that is there
  refused-Represents :
      (s : RateLimitState)
      → lookup id r.clients ≡ some s
      → Represents (record r { clients = insert id s r.clients }) w
  refused-Represents s e = record {
    same_window = h.same_window;
    counts = λ j. lookup-insert id j s r.clients ∙ kept s e j;
    clients = length-insert_old id s s r.clients e ∙ h.clients;
  }

current_zero :
    (window : ℕ)
    → current (record { window_start = 0; count = 0 }) window
      ≡ record { window_start = window; count = 0 }
unfolding current
current_zero window = ground arith

current_same :
    (window n : ℕ)
    → current (record { window_start = window; count = n }) window
      ≡ record { window_start = window; count = n }
unfolding current
current_same window n = ground arith

-- What a call of `Allow` returns and leaves, beside what the log makes of it.
pub record Agrees (out : Bool × RateLimiter) (spec : Bool × Window) : Type 0 where
  pub same_answer : out.0 ≡ spec.0
  pub represents : Represents out.1 spec.1

module _ (limit max_clients : ℕ) (pos : 0 < limit) where
  Agrees-cast :
      {out out' : Bool × RateLimiter} {spec spec' : Bool × Window}
      → out ≡ out'
      → spec ≡ spec'
      → Agrees out' spec'
      → Agrees out spec
  Agrees-cast p q a = rw (p, q) a

  known_admit :
      (r : RateLimiter) (w : Window) (id : Bytes) (m : ℕ)
      → Represents r w
      → r.limit ≡ limit
      → occurrences id w.log ≡ suc m
      → Agrees
          (admit r id true (record { window_start = w.start; count = suc m }))
          (pass limit max_clients w id)
  unfolding admit pass may_pass
  known_admit r w id m h e k = elim (Bool-cases (leb limit (suc m))) [
    | inl over ↦
        Agrees-cast {out' = (false, record r { clients = insert id _ r.clients })}
          {spec' = (false, w)} (ground arith) (ground arith)
          (record {
            same_answer = refl;
            represents = refused-Represents r w h id _ (h.counts id ∙ ap (entry w.start) k);
          })
    | inr under ↦
        Agrees-cast {out' = (true, one_more r w h id (suc m))} {spec' = (true, logged r w h id)}
          (ground arith) (ground arith)
          (record { same_answer = refl; represents = one_more-Represents r w h id (suc m) k })
  ]

  new_admit :
      (r : RateLimiter) (w : Window) (id : Bytes)
      → Represents r w
      → r.limit ≡ limit
      → r.max_clients ≡ max_clients
      → occurrences id w.log ≡ 0
      → Agrees
          (admit r id false (record { window_start = w.start; count = 0 }))
          (pass limit max_clients w id)
  unfolding admit pass may_pass
  new_admit r w id h e f k = elim (Bool-cases (leb max_clients (distinct w.log))) [
    | inl full ↦
        Agrees-cast {out' = (false, r)} {spec' = (false, w)} (ground (arith, h.clients))
          (ground arith) (record { same_answer = refl; represents = h })
    | inr room ↦
        Agrees-cast {out' = (true, one_more r w h id 0)} {spec' = (true, logged r w h id)}
          (ground (arith, h.clients)) (ground arith)
          (record { same_answer = refl; represents = one_more-Represents r w h id 0 k })
  ]

  admit-Agrees :
      (r : RateLimiter) (w : Window) (id : Bytes) (n : ℕ)
      → Represents r w
      → r.limit ≡ limit
      → r.max_clients ≡ max_clients
      → occurrences id w.log ≡ n
      → Agrees
          (admit r id
            (exists (lookup id r.clients))
            (current (state_of (lookup id r.clients)) w.start))
          (pass limit max_clients w id)
  unfolding exists state_of
  admit-Agrees r w id zero h e f k =
      rw (h.counts id, k) (rw (current_zero w.start) (new_admit r w id h e f k))
  admit-Agrees r w id (suc m) h e f k =
      rw (h.counts id, k) (rw (current_same w.start (suc m)) (known_admit r w id m h e k))

roll_keeps :
    (r : RateLimiter) (window : ℕ)
    → ((roll r window).limit ≡ r.limit) × ((roll r window).max_clients ≡ r.max_clients)
unfolding roll
roll_keeps r window = ground arith

start-turn : (w : Window) (now : ℕ) → (turn w now).start ≡ truncate now
unfolding turn
start-turn w now = ground arith

-- Where a log of this minute's allowed calls represents the limiter, `Allow` answers as the log
-- does, and the log after the call represents the limiter after it.
pub allow_refines :
    (r : RateLimiter) (w : Window) (id : Bytes) (now : ℕ)
    → Represents r w
    → Agrees (allow r id now) (call r.limit r.max_clients w id now)
unfolding allow call turn
allow_refines r w id now h = elim (Bool-cases (r.limit == 0 || is_empty id)) [
  | inl free ↦ rw free (record { same_answer = refl; represents = h })
  | inr bound ↦
      let r' = roll r (truncate now) in
      let keeps = roll_keeps r (truncate now) in
      let agrees =
        admit-Agrees r.limit r.max_clients (ground arith) r' (turn w now) id _
          (roll-Represents r w now h) keeps.0 keeps.1 refl in
      rw bound (rw (start-turn w now) at agrees)
]
