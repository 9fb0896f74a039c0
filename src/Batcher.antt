-- ===== src/Batcher.antt =====
-- internal/batcher/batcher.go: batches leave the queue for the sender, with retries.
-- What a goroutine sees of the world is an `Environment` over its state `W`: the sender, the context
-- and the timer. `meanwhile` is what the request handlers do to the queue while a batch is on its
-- way. The logger is left out.
pub mod Retries
pub mod Flush
pub mod Rounds
pub mod Delivery
pub mod Loop
pub mod Intake
pub mod Contents
mod Examples
use formation_web_analytics.Base.{
  pos_part, ℕ, zero, suc, ◌+◌, ◌-◌, Bool, true, false, Option, none, some, List, [], ◌∷◌, length,
  leb, ltb, ◌==◌, if◌then◌else◌,
}
use formation_web_analytics.Event.{Event, zero_event}
use formation_web_analytics.Config.{Config}
use formation_web_analytics.Queue
use formation_web_analytics.Queue.{Queue}
use formation_web_analytics.Elastic.Sender.{BulkResult, Sent, BulkSender}
use formation_web_analytics.Elastic.Backoff.{backoff}
use formation_web_analytics.Metrics.{
  Registry, add_bulk_indexed, add_bulk_failed, inc_retry_attempt, inc_flush, inc_flush_failure,
  observe_batch_size, observe_flush_latency, set_queue_depth,
}

pub record Environment (W : Type 0) : Type 0 where
  pub sender : BulkSender W
  -- `ctx.Err() != nil`
  pub cancelled : W → Bool × W
  -- the `select` over a timer and the context: whether the timer fired
  pub wait : ℕ → W → Bool × W
  -- `rand.Int63n`
  pub jitter : ℕ → ℕ
  -- `time.Since`, from one state of the world to another, and `uint64(d.Seconds() * 1000)`
  pub elapsed : W → W → ℕ
  pub thousandths : ℕ → ℕ
  -- `uint64(float64(n) * 1000)` of a batch size
  pub size_thousandths : ℕ → ℕ
  -- what other goroutines do to the queue until the batch is dealt with
  pub meanwhile : W → Queue Event → Queue Event

-- `pendingRetryError`, the error of spent retries, or the sender's own error
pub data FlushError : Type 0 where
  pending_retry : List Event → FlushError
  retries_exhausted refused : FlushError

-- What `sendWithRetry` leaves; `batch` is the slice that it was given, whose events `Send` numbers,
-- and `pending` its variable of that name.
pub record Tried (W : Type 0) : Type 0 where
  pub error : Option FlushError
  pub batch : List Event
  pub pending : List Event
  pub metrics : Registry
  pub world : W

pub data Outcome : Type 0 where
  done : Outcome
  failed : FlushError → Outcome
  context_over : Outcome
  out_of_fuel : Outcome

module _ {W : Type 0} (env : Environment W) (cfg : Config) where
  -- the end of `sendWithRetry` where nothing is to be sent again
  unfoldable pub nothing_again : Sent W → Registry → Tried W
  nothing_again s m =
      let (over, w') = env.cancelled s.world in
      if s.is_error
      then record {
        error = some (if over then pending_retry s.batch else refused);
        batch = s.batch;
        pending = s.batch;
        metrics = m;
        world = w';
      }
      else record { error = none; batch = s.batch; pending = s.batch; metrics = m; world = s.world }

  -- its end after the last attempt
  unfoldable pub exhausted : Sent W → Registry → Tried W
  exhausted s m =
      let (over, w') = env.cancelled s.world in
      record {
        error = some (if over then pending_retry s.result.retry else retries_exhausted);
        batch = s.batch;
        pending = s.batch;
        metrics = if over then m else add_bulk_failed (length s.result.retry) m;
        world = w';
      }

  -- its end where the context is done during a pause
  unfoldable pub interrupted : Sent W → Registry → W → Tried W
  interrupted s m w = record {
    error = some (pending_retry s.result.retry);
    batch = s.batch;
    pending = s.result.retry;
    metrics = m;
    world = w;
  }

  unfoldable pub no_retry : List Event → Bool
  no_retry [] = true
  no_retry (_ ∷ _) = false

  -- the loop of `sendWithRetry`, with `left` more attempts after this one
  unfoldable pub attempts : ℕ → ℕ → List Event → Registry → W → Tried W
  unfolding nothing_again exhausted interrupted no_retry
  attempts zero attempt pending m w =
      let s = env.sender.send pending w in
      let m' = add_bulk_failed s.result.failed (add_bulk_indexed s.result.indexed m) in
      if no_retry s.result.retry then nothing_again s m' else exhausted s m'
  attempts (suc left) attempt pending m w =
      let s = env.sender.send pending w in
      let m' = add_bulk_failed s.result.failed (add_bulk_indexed s.result.indexed m) in
      let m'' = inc_retry_attempt m' in
      let delay =
        pos_part (backoff env.jitter cfg.retry_min_backoff cfg.retry_max_backoff attempt) in
      let (fired, w') = env.wait delay s.world in
      let next = attempts left (attempt + 1) s.result.retry m'' w' in
      if no_retry s.result.retry
      then nothing_again s m'
      else if fired
      then record next { batch = s.batch }
      else interrupted s m'' w'

  -- `sendWithRetry`
  unfoldable pub send_with_retry : List Event → Registry → W → Tried W
  unfolding attempts
  send_with_retry batch m w = attempts cfg.max_retries 0 batch m w

  -- what `flush` puts back after an error
  unfoldable pub restore : FlushError → List Event → List Event
  restore (pending_retry pending) batch = pending
  restore _ batch = batch

  -- `ObserveFlushLatency(time.Since(started))`
  unfoldable pub observe_latency : W → W → Registry → Registry
  observe_latency started now m =
      let d = env.elapsed started now in observe_flush_latency d (env.thousandths d) m

  -- `flush` from the error of `sendWithRetry` on
  unfoldable pub after_error : FlushError → W → Tried W → Queue Event → Queue Event × Registry × W
  unfolding restore observe_latency
  after_error e started t q =
      let (over, w) = env.cancelled t.world in
      let q' = if over then Queue.prepend zero_event q (restore e t.batch) else q in
      (
        q',
        observe_latency started w (set_queue_depth (Queue.len q') (inc_flush_failure t.metrics)),
        w,
      )

  unfoldable pub settle :
      W → Tried W → Queue Event → Option FlushError → Outcome × Queue Event × Registry × W
  unfolding after_error observe_latency
  settle started t q none =
      (done, q, observe_latency started t.world (set_queue_depth (Queue.len q) t.metrics), t.world)
  settle started t q (some e) = let (q', m, w) = after_error e started t q in (failed e, q', m, w)

  -- `flush`
  unfoldable pub flush : Queue Event → Registry → W → Outcome × Queue Event × Registry × W
  unfolding settle send_with_retry
  flush q m w =
      let (batch, q') = Queue.drain zero_event q cfg.max_batch_size in
      let t =
        send_with_retry batch
          (observe_batch_size (length batch) (env.size_thousandths (length batch)) (inc_flush m))
          w in
      if Queue.len q == 0
      then (done, q, m, w)
      else if length batch == 0
      then (done, q', m, w)
      else settle w t (env.meanwhile w q') t.error

  -- the loop of both: rounds until fewer than `least` events are queued
  unfoldable pub flush_while :
      ℕ → ℕ → Queue Event → Registry → W → Outcome × Queue Event × Registry × W
  unfolding flush
  flush_while zero least q m w = (out_of_fuel, q, m, w)
  flush_while (suc fuel) least q m w =
      let (over, w₁) = env.cancelled w in
      let (outcome, q', m', w₂) = flush q m w₁ in
      let rest = flush_while fuel least q' m' w₂ in
      if ltb (Queue.len q) least
      then (done, q, m, w)
      else if over
      then (context_over, q, m, w₁)
      else elim outcome [ done ↦ rest | other ↦ (other, q', m', w₂) ]

  -- `flushAll` and `flushFullBatches`, with a round for each event in the queue and one to see that
  -- there is none
  unfoldable pub flush_all : Queue Event → Registry → W → Outcome × Queue Event × Registry × W
  unfolding flush_while
  flush_all q m w = flush_while (Queue.len q + 1) 1 q m w

  unfoldable pub flush_full_batches :
      Queue Event → Registry → W → Outcome × Queue Event × Registry × W
  unfolding flush_while
  flush_full_batches q m w = flush_while (Queue.len q + 1) cfg.max_batch_size q m w
