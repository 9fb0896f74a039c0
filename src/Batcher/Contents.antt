-- ===== src/Batcher/Contents.antt =====
-- Which events `flush` can put into the queue: those of its batch.
use formation_web_analytics.Base.{
  pos_part, ℕ, zero, suc, ◌+◌, sym, ap, inl, inr, Option, none, some, List, All, All-append,
  All-take, All-drop, Bool-cases, subst,
}
use formation_web_analytics.Event.{Event, zero_event}
use formation_web_analytics.Config.{Config}
use formation_web_analytics.Queue
use formation_web_analytics.Queue.{Queue}
use formation_web_analytics.Queue.Fifo
use formation_web_analytics.Queue.Fifo.{front}
use formation_web_analytics.Queue.View.{IsValid, view}
use formation_web_analytics.Queue.Drain.{drain_refines}
use formation_web_analytics.Queue.Refine.{prepend_refines}
use formation_web_analytics.Elastic.Sender.{Sent}
use formation_web_analytics.Elastic.Backoff.{backoff}
use formation_web_analytics.Metrics.{Registry, add_bulk_indexed, add_bulk_failed, inc_retry_attempt}
use formation_web_analytics.Batcher.{
  Environment, FlushError, pending_retry, retries_exhausted, refused, Tried, nothing_again,
  exhausted, interrupted, attempts, restore, after_error, settle, no_retry,
}
use formation_web_analytics.Batcher.Flush.{held}

module _ (P : Event → Type 0) where
  pub drain-All :
      (q : Queue Event) (n : ℕ)
      → IsValid q
      → All P (held q)
      → All P (Queue.drain zero_event q n).0 × All P (held (Queue.drain zero_event q n).1)
  unfolding Fifo.drain
  drain-All q n v h =
      let k = front (view zero_event q) n in
      let (valid, e) = drain_refines zero_event q n v in
      (
        subst (All P) (sym (ap (λ r. r.0) e)) (All-take P k (held q) h),
        subst (All P) (sym (ap (λ r. r.1.pending) e)) (All-drop P k (held q) h),
      )

  prepend-All :
      (q : Queue Event) (batch : List Event)
      → IsValid q
      → All P batch
      → All P (held q)
      → All P (held (Queue.prepend zero_event q batch))
  unfolding Fifo.prepend
  prepend-All q batch v b h =
      let (valid, e) = prepend_refines zero_event q batch v in
      subst (All P) (sym (ap (λ f. f.pending) e)) (All-append P batch (held q) b h)

  -- the events in the error of `sendWithRetry`
  abbrev pub ErrorAll : Option FlushError → Type 0
  ErrorAll (some (pending_retry p)) = All P p
  ErrorAll _ = Unit

  module _ {W : Type 0} (env : Environment W) (cfg : Config)
      (keeps : (batch : List Event) (w : W)
        → All P batch
        → All P (env.sender.send batch w).batch
          × All P (env.sender.send batch w).result.retry) where
    abbrev TriedAll : Tried W → Type 0
    TriedAll t = All P t.batch × ErrorAll t.error

    nothing_again-All :
        (s : Sent W) (m : Registry) → All P s.batch → TriedAll (nothing_again env cfg s m)
    unfolding nothing_again
    nothing_again-All s m h = elim (Bool-cases s.is_error) [
      | inl bad ↦ elim (Bool-cases (env.cancelled s.world).0) [
        | inl over ↦ rw (bad, over) (h, h)
        | inr live ↦ rw (bad, live) (h, tt)
      ]
      | inr fine ↦ rw fine (h, tt)
    ]

    exhausted-All :
        (s : Sent W) (m : Registry)
        → All P s.batch
        → All P s.result.retry
        → TriedAll (exhausted env cfg s m)
    unfolding exhausted
    exhausted-All s m h again = elim (Bool-cases (env.cancelled s.world).0) [
      | inl over ↦ rw over (h, again)
      | inr live ↦ rw live (h, tt)
    ]

    pub attempts-All :
        (left attempt : ℕ) (pending : List Event) (m : Registry) (w : W)
        → All P pending
        → TriedAll (attempts env cfg left attempt pending m w)
    unfolding attempts interrupted
    attempts-All zero attempt pending m w h =
        let s = env.sender.send pending w in
        let (all, again) = keeps pending w h in
        let m' = add_bulk_failed s.result.failed (add_bulk_indexed s.result.indexed m) in
        elim (Bool-cases (no_retry env cfg s.result.retry)) [
          | inl settled ↦ rw settled (nothing_again-All s m' all)
          | inr some_left ↦ rw some_left (exhausted-All s m' all again)
        ]
    attempts-All (suc left) attempt pending m w h =
        let s = env.sender.send pending w in
        let (all, again) = keeps pending w h in
        let m' = add_bulk_failed s.result.failed (add_bulk_indexed s.result.indexed m) in
        let delay =
          pos_part (backoff env.jitter cfg.retry_min_backoff cfg.retry_max_backoff attempt) in
        let (fired, w') = env.wait delay s.world in
        elim (Bool-cases (no_retry env cfg s.result.retry)) [
          | inl settled ↦ rw settled (nothing_again-All s m' all)
          | inr some_left ↦ elim (Bool-cases fired) [
            | inl slept ↦
                let later =
                  attempts-All left (attempt + 1) s.result.retry (inc_retry_attempt m') w' again in
                rw (some_left, slept) (all, later.1)
            | inr woken ↦ rw (some_left, woken) (all, again)
          ]
        ]

    restore-All :
        (e : FlushError) (batch : List Event)
        → All P batch
        → ErrorAll (some e)
        → All P (restore env cfg e batch)
    unfolding restore
    restore-All (pending_retry p) batch h all = all
    restore-All retries_exhausted batch h all = h
    restore-All refused batch h all = h

    pub settle-All :
        (started : W) (t : Tried W) (q : Queue Event) (e : Option FlushError)
        → IsValid q
        → All P (held q)
        → All P t.batch
        → ErrorAll e
        → All P (held (settle env cfg started t q e).1)
    unfolding settle after_error
    settle-All started t q none v h b p = h
    settle-All started t q (some e) v h b p = elim (Bool-cases (env.cancelled t.world).0) [
      | inl over ↦
          rw over (prepend-All q (restore env cfg e t.batch) v (restore-All e t.batch b p) h)
      | inr live ↦ rw live h
    ]
