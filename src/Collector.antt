-- ===== src/Collector.antt =====
-- cmd/collector/main.go and the loop of internal/batcher/batcher.go: the running collector, in which
-- request handlers and the batcher share the queue and the counters.
-- A flush is two steps, since requests are served while a batch is on its way: `take` drains the
-- batch, `finish` is `sendWithRetry` with what `flush` does after it. Handlers and `finish` only add
-- to counters, so each is one step.
pub mod Ledger
pub mod Clock
pub mod Flushes
pub mod Shutdown
pub mod Program
pub mod Boot
mod Examples
use formation_web_analytics.Base.{
  ℕ, ◌+◌, ◌-◌, ◌<◌, ◌≤◌, ℤ, ◌≡◌, Bool, true, false, Option, none, some, List, length, leb,
  if◌then◌else◌,
}
use formation_web_analytics.Event.{Event, zero_event}
use formation_web_analytics.Config.{Config}
use formation_web_analytics.Events.Metadata.{Request}
use formation_web_analytics.Metrics.{Registry, new_registry, inc_flush, observe_batch_size}
use formation_web_analytics.Queue
use formation_web_analytics.Queue.{Queue}
use formation_web_analytics.RateLimiter.{new_rate_limiter}
use formation_web_analytics.Http.{Server, Services}
use formation_web_analytics.Http.Collect.{handle_collect}
use formation_web_analytics.Batcher.{
  Environment, FlushError, pending_retry, retries_exhausted, refused, Tried, send_with_retry,
  settle,
}

-- `flying` is the batch that the batcher has taken. `lost` and `repeated` say what became of events
-- where `sendWithRetry` ended with the sender's own error, or where the context ended between the
-- last attempt and the check of `flush`; the program does not keep them.
pub record Collector (W : Type 0) : Type 0 where
  pub server : Server
  pub flying : Option (List Event)
  pub world : W
  pub lost : ℕ
  pub repeated : ℕ

-- `httpapi.New`, on a new queue and new counters
unfoldable pub new_server : Config → Server
new_server cfg = record {
  limiter = new_rate_limiter cfg.rate_limit_per_minute cfg.rate_limit_max_clients;
  queue = Queue.new zero_event cfg.max_queue_size;
  metrics = new_registry;
}

module _ {W : Type 0} (sv : Services) (cfg : Config) (env : Environment W) where
  -- what `main` builds before it serves
  unfoldable pub start : W → Collector W
  unfolding new_server
  start w = record { server = new_server cfg; flying = none; world = w; lost = 0; repeated = 0 }

  unfoldable pub collect : Request → ℕ → ℤ → Collector W → Collector W
  unfolding handle_collect
  collect r clock now c = record c { server = (handle_collect sv cfg c.server r clock now).1 }

  -- `flush` up to `sendWithRetry`
  unfoldable pub take_batch : Collector W → Collector W
  take_batch c =
      let (batch, q) = Queue.drain zero_event c.server.queue cfg.max_batch_size in
      let m =
        observe_batch_size (length batch) (env.size_thousandths (length batch))
          (inc_flush c.server.metrics) in
      record c { server = record c.server { queue = q; metrics = m }; flying = some batch }

  -- whether the context is over when `flush` asks after the error
  abbrev pub over_after : Tried W → Bool
  over_after t = (env.cancelled t.world).0

  -- of a batch of `n` events, `left` of them sent last: what leaves the collector in no count
  unfoldable pub newly_lost : Option FlushError → Bool → ℕ → ℕ
  newly_lost (some refused) over left = if over then 0 else left
  newly_lost _ over left = 0

  -- and what is in a count and in the queue again
  unfoldable pub newly_repeated : Option FlushError → Bool → ℕ → ℕ → ℕ
  newly_repeated (some retries_exhausted) over n left = if over then n else 0
  newly_repeated (some refused) over n left = if over then n - left else 0
  newly_repeated _ over n left = 0

  -- `flush` from `sendWithRetry` on
  unfoldable pub finish_batch : List Event → Collector W → Collector W
  unfolding send_with_retry settle newly_lost newly_repeated
  finish_batch batch c =
      let t = send_with_retry env cfg batch c.server.metrics c.world in
      let (outcome, q, m, w) = settle env cfg c.world t c.server.queue t.error in
      record {
        server = record c.server { queue = q; metrics = m };
        flying = none;
        world = w;
        lost = c.lost + newly_lost t.error (over_after t) (length t.pending);
        repeated =
            c.repeated + newly_repeated t.error (over_after t) (length batch) (length t.pending);
      }

  -- The steps of the running collector: a request is served, the batcher takes a batch from a queue
  -- that is not empty, it is done with the batch, or it receives a notification.
  pub data Step (c : Collector W) : Collector W → Type 0 where
    serve : (r : Request) (clock : ℕ) (now : ℤ) → Step c (collect r clock now c)
    take : c.flying ≡ none → 0 < Queue.len c.server.queue → Step c (take_batch c)
    finish : (batch : List Event) → c.flying ≡ some batch → Step c (finish_batch batch c)
    notified : Step c (record c {
      server = record c.server {
        queue = record c.server.queue { notify_ch = c.server.queue.notify_ch - 1 };
      };
    })

  pub data Reach (w : W) : Collector W → Type 0 where
    started : Reach w (start w)
    onward : {c c' : Collector W} → Reach w c → Step c c' → Reach w c'
