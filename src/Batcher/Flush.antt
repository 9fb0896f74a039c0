-- ===== src/Batcher/Flush.antt =====
-- What `flush` does to the queue and to the counters.
use formation_web_analytics.Base.{
  pos_part, ℕ, zero, suc, ◌+◌, ◌%◌, ◌^◌, ◌<◌, ◌≡◌, refl, ◌∙◌, ap, ◌⊎◌, inl, inr, true, false,
  Option, none, some, List, ◌++◌, length, length-append, take, length-take, Bool-cases, ◌==◌, arith,
  length-tabulate,
}
use formation_web_analytics.Event.{Event, zero_event}
use formation_web_analytics.Config.{Config}
use formation_web_analytics.Queue
use formation_web_analytics.Queue.{Queue}
use formation_web_analytics.Queue.Fifo
use formation_web_analytics.Queue.Fifo.{Fifo, front}
use formation_web_analytics.Queue.View.{IsValid, contents, view}
use formation_web_analytics.Queue.Refine.{prepend_refines}
use formation_web_analytics.Queue.Drain.{drain_refines}
use formation_web_analytics.Elastic.Backoff.{backoff}
use formation_web_analytics.Metrics.{
  Registry, add_bulk_indexed, add_bulk_failed, inc_retry_attempt, inc_flush, observe_batch_size,
}
use formation_web_analytics.Batcher.{
  Environment, FlushError, pending_retry, retries_exhausted, refused, Tried, Outcome, done, failed,
  nothing_again, exhausted, interrupted, attempts, send_with_retry, restore, after_error,
  observe_latency, settle, flush,
}
use formation_web_analytics.Batcher.Retries.{settled, Conserved, send_with_retry-Conserved}

abbrev pub held : Queue Event → List Event
held = contents zero_event

pub length-held : (q : Queue Event) → length (held q) ≡ q.size
length-held q = length-tabulate q.size _

-- What a flush of `n` events leaves, with `waiting` the queue without them. All are counted; or the
-- ones in a `pendingRetryError` are in front of the queue again and the others are counted. After
-- spent retries all are counted, and after the sender's own error none need be; then the queue is
-- `waiting`, or the whole batch is in it again.
abbrev pub Accounted : ℕ → Queue Event → Registry → Outcome → Queue Event → Registry → Type 0
Accounted n waiting before done q after =
    (held q ≡ held waiting) × (settled after % 2 ^ 64 ≡ (settled before + n) % 2 ^ 64)
Accounted n waiting before (failed (pending_retry p)) q after =
    (held q ≡ p ++ held waiting)
    × ((settled after + length p) % 2 ^ 64 ≡ (settled before + n) % 2 ^ 64)
Accounted n waiting before (failed retries_exhausted) q after =
    ((held q ≡ held waiting) ⊎ (length (held q) ≡ n + length (held waiting)))
    × (settled after % 2 ^ 64 ≡ (settled before + n) % 2 ^ 64)
Accounted n waiting before (failed refused) q after =
    (held q ≡ held waiting) ⊎ (length (held q) ≡ n + length (held waiting))
Accounted n waiting before _ q after = ⊥

module _ {W : Type 0} (env : Environment W) (cfg : Config) where
  -- the batch that `flush` may put back whole is as long as the one that it took
  pub length-attempts :
      (left attempt : ℕ) (pending : List Event) (m : Registry) (w : W)
      → length (attempts env cfg left attempt pending m w).batch ≡ length pending
  unfolding attempts nothing_again exhausted interrupted
  length-attempts zero attempt pending m w =
      let same = (env.sender.accounts pending w).same_length in ground arith
  length-attempts (suc left) attempt pending m w =
      let same = (env.sender.accounts pending w).same_length in ground arith

  module _
      (sticky : (w : W) → (env.cancelled w).0 ≡ true → (env.cancelled (env.cancelled w).1).0 ≡ true)
      (woken : (delay : ℕ) (w : W)
        → (env.wait delay w).0 ≡ false
        → (env.cancelled (env.wait delay w).1).0 ≡ true) where
    -- a `pendingRetryError` is returned only where the context is done
    pub pending-over :
        (left attempt : ℕ) (pending : List Event) (m : Registry) (w : W) (p : List Event)
        → let t = attempts env cfg left attempt pending m w in
          t.error ≡ some (pending_retry p) → (env.cancelled t.world).0 ≡ true
    unfolding attempts nothing_again exhausted interrupted
    pending-over zero attempt pending m w p h =
        let s = env.sender.send pending w in ground (arith, sticky s.world)
    pending-over (suc left) attempt pending m w p h =
        let s = env.sender.send pending w in
        let delay =
          pos_part (backoff env.jitter cfg.retry_min_backoff cfg.retry_max_backoff attempt) in
        let m' = add_bulk_failed s.result.failed (add_bulk_indexed s.result.indexed m) in
        let later =
          pending-over left (attempt + 1) s.result.retry (inc_retry_attempt m')
            (env.wait delay s.world).1 p in
        ground (arith, sticky s.world, woken delay s.world, later)

    -- putting events back keeps the queue valid and puts them in front
    pub restored :
        (q : Queue Event) (batch : List Event)
        → IsValid q
        → IsValid (Queue.prepend zero_event q batch)
          × (held (Queue.prepend zero_event q batch) ≡ batch ++ held q)
    unfolding Fifo.prepend
    restored q batch v =
        let (valid, e) = prepend_refines zero_event q batch v in (valid, ap (λ f. f.pending) e)

    settle-Accounted :
        (n : ℕ) (waiting : Queue Event) (before : Registry) (started : W) (t : Tried W)
        (e : Option FlushError)
        → IsValid waiting
        → length t.batch ≡ n
        → ((p : List Event) → e ≡ some (pending_retry p) → (env.cancelled t.world).0 ≡ true)
        → Conserved n before e t.pending t.metrics
        → let (outcome, q, after, w) = settle env cfg started t waiting e in
          IsValid q × Accounted n waiting before outcome q after
    unfolding settle after_error restore observe_latency
    settle-Accounted n waiting before started t none v same over c = (v, (refl, c))
    settle-Accounted n waiting before started t (some (pending_retry p)) v same over c =
        let (valid, e) = restored waiting p v in rw (over p refl) (valid, (e, c))
    settle-Accounted n waiting before started t (some retries_exhausted) v same over c =
        let (valid, e) = restored waiting t.batch v in
        elim (Bool-cases (env.cancelled t.world).0) [
          | inl over_now ↦ rw over_now (
            valid,
            (
              inr (
                  ap (λ xs. length xs) e
                  ∙ length-append t.batch (held waiting)
                  ∙ ap (λ k. k + length (held waiting)) same),
              c,
            ),
          )
          | inr live ↦ rw live (v, (inl refl, c))
        ]
    settle-Accounted n waiting before started t (some refused) v same over c =
        let (valid, e) = restored waiting t.batch v in
        elim (Bool-cases (env.cancelled t.world).0) [
          | inl over_now ↦ rw over_now (
            valid,
            inr (
                ap (λ xs. length xs) e
                ∙ length-append t.batch (held waiting)
                ∙ ap (λ k. k + length (held waiting)) same),
          )
          | inr live ↦ rw live (v, inl refl)
        ]

    -- Where the queue is valid and not empty, a context that is done stays done and is what ends a
    -- pause early, and what others do to a queue meanwhile keeps it valid, `flush` takes the front
    -- of the queue, as many events as the batch size, and leaves them and the queue as `Accounted`
    -- says: none is lost or counted twice with no error or with a `pendingRetryError`, whose events
    -- are in front of the queue again, in order. The counters wrap at 2^64.
    pub flush-Accounted :
        (q : Queue Event) (m : Registry) (w : W)
        → IsValid q
        → 0 < length (held q)
        → ((v : W) (p : Queue Event) → IsValid p → IsValid (env.meanwhile v p))
        → let (batch, rest) = Queue.drain zero_event q cfg.max_batch_size in
          let (outcome, q', m', w') = flush env cfg q m w in
          (batch ≡ take (front (view zero_event q) cfg.max_batch_size) (held q))
          × IsValid q'
          × Accounted (length batch) (env.meanwhile w rest) m outcome q' m'
    unfolding flush send_with_retry Fifo.drain front Queue.len
    flush-Accounted q m w v some_held keeps =
        let n = cfg.max_batch_size in
        let (valid, e) = drain_refines zero_event q n v in
        let batch = (Queue.drain zero_event q n).0 in
        let same : batch ≡ take (front (view zero_event q) n) (held q) = ap (λ r. r.0) e in
        let size : length (held q) ≡ q.size = length-held q in
        let not_empty : (Queue.len q == 0) ≡ false = ground (arith, size) in
        let nonzero : (length batch == 0) ≡ false =
          ground (
            arith,
            ap (λ xs. length xs) same,
            length-take (front (view zero_event q) n) (held q),
          ) in
        let m₁ =
          observe_batch_size (length batch) (env.size_thousandths (length batch)) (inc_flush m) in
        let t = send_with_retry env cfg batch m₁ w in
        let (valid', kept) =
          settle-Accounted (length batch) (env.meanwhile w (Queue.drain zero_event q n).1) m w t
            t.error (keeps w _ valid) (length-attempts cfg.max_retries 0 batch m₁ w)
            (pending-over cfg.max_retries 0 batch m₁ w)
            (send_with_retry-Conserved env cfg batch m₁ w) in
        rw (not_empty, nonzero) (same, valid', kept)
