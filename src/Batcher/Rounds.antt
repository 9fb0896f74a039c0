-- ===== src/Batcher/Rounds.antt =====
-- `flushAll` and `flushFullBatches`: the loop ends, and what it leaves.
use formation_web_analytics.Base.{
  ℕ, zero, suc, ◌+◌, ◌%◌, ◌^◌, ◌<◌, ◌≡◌, refl, sym, ◌∙◌, ap, true, false, length, length-append,
  length-take, length-drop, Bool-cases, ltb, arith, subst, inl, inr,
}
use formation_web_analytics.Event.{Event, zero_event}
use formation_web_analytics.Config.{Config}
use formation_web_analytics.Queue
use formation_web_analytics.Queue.{Queue}
use formation_web_analytics.Queue.Fifo
use formation_web_analytics.Queue.Fifo.{Fifo, front}
use formation_web_analytics.Queue.View.{IsValid, view}
use formation_web_analytics.Queue.Drain.{drain_refines}
use formation_web_analytics.Metrics.{Registry}
use formation_web_analytics.Batcher.{
  Environment, pending_retry, retries_exhausted, refused, Outcome, done, failed, context_over,
  out_of_fuel, flush, flush_while,
}
use formation_web_analytics.Batcher.Retries.{settled}
use formation_web_analytics.Batcher.Flush.{length-held, held, Accounted, flush-Accounted}

-- the events that are counted or still in the queue
abbrev pub total : Queue Event → Registry → ℕ
total q m = settled m + length (held q)

-- None is lost or counted twice, unless the loop ended with spent retries or the sender's own error.
abbrev pub Balanced : ℕ → Outcome → Queue Event → Registry → Type 0
Balanced n (failed retries_exhausted) q m = Unit
Balanced n (failed refused) q m = Unit
Balanced n out_of_fuel q m = ⊥
Balanced n _ q m = total q m % 2 ^ 64 ≡ n % 2 ^ 64

-- with no error fewer than `least` events are left
abbrev pub Emptied : ℕ → Outcome → Queue Event → Type 0
Emptied least done q = length (held q) < least
Emptied least _ q = Unit

-- what a loop from `q` and `m` leaves
pub record HasEnded (least : ℕ) (q : Queue Event) (m : Registry) (o : Outcome) (q' : Queue Event)
    (m' : Registry) : Type 0 where
  pub valid : IsValid q'
  pub balance : Balanced (total q m) o q' m'
  pub emptied : Emptied least o q'

-- what is taken out and what stays make up the queue
pub drain_split :
    (n : ℕ) (q : Queue Event)
    → IsValid q
    → 0 < length (held q)
    → let (batch, rest) = Queue.drain zero_event q n in
      (length batch + length (held rest) ≡ length (held q)) × (0 < length batch) × IsValid rest
unfolding Fifo.drain front
drain_split n q v pos =
    let k = front (view zero_event q) n in
    let (valid, e) = drain_refines zero_event q n v in
    let taken = ap (λ r. length r.0) e in
    let left = ap (λ r. length r.1.pending) e in
    let (parts, some_taken) : (length (Queue.drain zero_event q n).0
            + length (held (Queue.drain zero_event q n).1)
          ≡ length (held q))
        × (0 < length (Queue.drain zero_event q n).0) =
      ground (arith, taken, left, length-take k (held q), length-drop k (held q)) in
    (parts, some_taken, valid)

module _ {W : Type 0} (env : Environment W) (cfg : Config)
    (sticky : (w : W) → (env.cancelled w).0 ≡ true → (env.cancelled (env.cancelled w).1).0 ≡ true)
    (woken : (delay : ℕ) (w : W)
      → (env.wait delay w).0 ≡ false
      → (env.cancelled (env.wait delay w).1).0 ≡ true)
    (quiet : (w : W) (q : Queue Event) → env.meanwhile w q ≡ q) where
  keeps : (w : W) (q : Queue Event) → IsValid q → IsValid (env.meanwhile w q)
  keeps w q v = subst IsValid (sym (quiet w q)) v

  Accounted-Balanced :
      (q rest : Queue Event) (m : Registry) (n : ℕ) (o : Outcome) (q' : Queue Event) (m' : Registry)
      → n + length (held rest) ≡ length (held q)
      → 0 < n
      → Accounted n rest m o q' m'
      → Balanced (total q m) o q' m' × (o ≡ done → length (held q') < length (held q))
  Accounted-Balanced q rest m n done q' m' split pos (e, c) =
      (omega (arith, ap (λ xs. length xs) e), λ _. omega (arith, ap (λ xs. length xs) e))
  Accounted-Balanced q rest m n (failed (pending_retry p)) q' m' split pos (e, c) =
      (omega (arith, ap (λ xs. length xs) e, length-append p (held rest)), λ h. cc)
  Accounted-Balanced q rest m n (failed retries_exhausted) q' m' split pos k = (tt, λ h. cc)
  Accounted-Balanced q rest m n (failed refused) q' m' split pos k = (tt, λ h. cc)
  Accounted-Balanced q rest m n context_over q' m' split pos k = absurd k
  Accounted-Balanced q rest m n out_of_fuel q' m' split pos k = absurd k

  -- one flush of a queue that is not empty
  pub flush-Balanced :
      (q : Queue Event) (m : Registry) (w : W)
      → IsValid q
      → 0 < length (held q)
      → let (outcome, q', m', w') = flush env cfg q m w in
        IsValid q'
        × Balanced (total q m) outcome q' m'
        × (outcome ≡ done → length (held q') < length (held q))
  flush-Balanced q m w v pos =
      let (batch, rest) = Queue.drain zero_event q cfg.max_batch_size in
      let (outcome, q', m', w') = flush env cfg q m w in
      let (_, valid, kept) = flush-Accounted env cfg sticky woken q m w v pos keeps in
      let (split, some_taken, _) = drain_split cfg.max_batch_size q v pos in
      let (balance, less) =
        Accounted-Balanced q rest m (length batch) outcome q' m' split some_taken
          (subst (λ p. Accounted (length batch) p m outcome q' m') (quiet w rest) kept) in
      (valid, balance, less)

  -- the rounds after one that left fewer events
  further :
      (n : ℕ) (q : Queue Event) (m : Registry) (o : Outcome) (q' : Queue Event) (m' : Registry)
      → n % 2 ^ 64 ≡ total q m % 2 ^ 64
      → Balanced n o q' m'
      → Balanced (total q m) o q' m'
  further n q m done q' m' e b = b ∙ e
  further n q m (failed (pending_retry p)) q' m' e b = b ∙ e
  further n q m (failed retries_exhausted) q' m' e b = tt
  further n q m (failed refused) q' m' e b = tt
  further n q m context_over q' m' e b = b ∙ e
  further n q m out_of_fuel q' m' e b = b

  abbrev Result : Type 0
  Result = Outcome × Queue Event × Registry × W

  -- a round that went on, and one that stopped the loop
  next_round :
      (least : ℕ) (q : Queue Event) (m : Registry) (r rest : Result)
      → IsValid r.1
      → Balanced (total q m) r.0 r.1 r.2
      → (r.0 ≡ done → HasEnded least r.1 r.2 rest.0 rest.1 rest.2)
      → let next : Result = elim r.0 [ done ↦ rest | other ↦ (other, r.1, r.2, r.3) ] in
        HasEnded least q m next.0 next.1 next.2
  next_round least q m (done, q', m', w') rest v b later =
      let l = later refl in
      record {
        valid = l.valid;
        balance = further (total q' m') q m rest.0 rest.1 rest.2 b l.balance;
        emptied = l.emptied;
      }
  next_round least q m (failed e, q', m', w') rest v b later = record {
    valid = v;
    balance = b;
    emptied = tt;
  }
  next_round least q m (context_over, q', m', w') rest v b later = record {
    valid = v;
    balance = b;
    emptied = tt;
  }
  next_round least q m (out_of_fuel, q', m', w') rest v b later = absurd b

  -- Where the queue is valid and no one adds to it, a loop of `flushAll` (`least` is 1) or of
  -- `flushFullBatches` (`least` is positive) ends: with more fuel than there are events it does not
  -- run out. With no error fewer than `least` events are left, and unless it ended with spent
  -- retries or the sender's own error, no event is lost or counted twice. A context that is done
  -- stays done, and is what ends a pause early.
  pub flush_while-HasEnded :
      (fuel least : ℕ) (q : Queue Event) (m : Registry) (w : W)
      → IsValid q
      → 0 < least
      → length (held q) < fuel
      → let (outcome, q', m', w') = flush_while env cfg fuel least q m w in
        HasEnded least q m outcome q' m'
  unfolding flush_while Queue.len
  flush_while-HasEnded zero least q m w v pos enough = absurd (omega arith)
  flush_while-HasEnded (suc fuel) least q m w v pos enough =
      let size : length (held q) ≡ q.size = length-held q in
      elim (Bool-cases (ltb q.size least)) [
        | inl few ↦ rw few (record { valid = v; balance = refl; emptied = ground (arith, size) })
        | inr many ↦ elim (Bool-cases (env.cancelled w).0) [
          | inl over ↦ rw (many, over) (record { valid = v; balance = refl; emptied = tt })
          | inr live ↦
              let w₁ = (env.cancelled w).1 in
              let r = flush env cfg q m w₁ in
              let (valid, balance, less) = flush-Balanced q m w₁ v (ground (arith, size)) in
              rw (many, live)
                (next_round least q m r (flush_while env cfg fuel least r.1 r.2 r.3) valid balance
                  (λ e.
                    flush_while-HasEnded fuel least r.1 r.2 r.3 valid pos (omega (arith, less e))))
        ]
      ]
