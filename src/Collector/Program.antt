-- ===== src/Collector/Program.antt =====
-- cmd/collector/main.go, lines 62 to 139, with `Run` of internal/batcher/batcher.go: the goroutines of
-- the program as one step relation. The request handlers, the goroutine of the batcher and the one that
-- shuts the program down take their steps in any order.
pub mod Places
pub mod Consistent
pub mod Reachable
pub mod Rounds
pub mod Flushed
pub mod Loops
pub mod Runs
pub mod Delivery
pub mod Contents
pub mod Stored
mod Examples
use formation_web_analytics.Base.{
  Bytes, ℕ, ◌<◌, ◌≤◌, ℤ, ◌≡◌, Bool, true, false, not, Option, none, some, List, leb, if◌then◌else◌,
}
use formation_web_analytics.Event.{Event, GeoResult}
use formation_web_analytics.Config.{Config}
use formation_web_analytics.Events.Metadata.{Request}
use formation_web_analytics.Metrics.{set_queue_depth}
use formation_web_analytics.Queue
use formation_web_analytics.Queue.{Queue}
use formation_web_analytics.Http.{Services}
use formation_web_analytics.Batcher.{Environment, send_with_retry}
use formation_web_analytics.Batcher.Loop.{receive}
use formation_web_analytics.Collector.{Collector, start, collect, take_batch, finish_batch}

-- What the program is about: it serves; a signal came and the servers are shut; the batcher is told to
-- stop; the queue is drained; the drain ended, without an error or with one; or the time for all that was
-- over before the batcher was done.
pub data Phase : Type 0 where
  serving closing stopping draining timed_out : Phase
  drained : Bool → Phase

-- Where the loops of flushes are: at the `select` of `Run`; at the head of a loop that goes on while
-- `least` events are queued; at `sendWithRetry` in such a loop; or at their end. While the program
-- drains, the loop is that of `Drain`.
pub data Place : Type 0 where
  selecting ended : Place
  looping sending : ℕ → Place

-- `accepting` is whether request handlers may still run.
pub record Program (W : Type 0) : Type 0 where
  pub collector : Collector W
  pub place : Place
  pub phase : Phase
  pub accepting : Bool

unfoldable pub is_draining : Phase → Bool
is_draining draining = true
is_draining _ = false

-- whether the context of `Run` is done
unfoldable pub is_stopped : Phase → Bool
is_stopped stopping = true
is_stopped timed_out = true
is_stopped _ = false

abbrev pub queue_of : {W : Type 0} → Program W → Queue Event
queue_of p = p.collector.server.queue

-- `b.metrics.SetQueueDepth(b.queue.Len())`
unfoldable pub show_depth : {W : Type 0} → Collector W → Collector W
show_depth c = record c {
  server = record c.server {
    metrics = set_queue_depth (Queue.len c.server.queue) c.server.metrics;
  };
}

-- The environment of a loop of flushes is that of the context it runs under, which depends on the
-- phase: the context of `Run` is done once the batcher is told to stop, and `Drain` has its own.
module _ {W : Type 0} (sv : Services) (cfg : Config) (env : Phase → Environment W) where
  unfoldable pub begin : W → Program W
  unfolding start
  begin w = record {
    collector = start sv cfg (env serving) w;
    place = selecting;
    phase = serving;
    accepting = true;
  }

  -- a loop of flushes returns: to `Run`, which logs an error and shows the depth of the queue, or to
  -- the shutdown
  unfoldable pub leave : Bool → Program W → Program W
  unfolding is_draining show_depth
  leave fine p =
      if is_draining p.phase
      then record p { place = ended; phase = drained fine }
      else record p { place = selecting; collector = show_depth p.collector }

  -- `Run` has received a notification
  unfoldable pub on_notify : Program W → Program W
  unfolding receive show_depth
  on_notify p =
      let c = p.collector in
      let c' = record c { server = record c.server { queue = receive c.server.queue } } in
      if leb cfg.max_batch_size (Queue.len c'.server.queue)
      then record p { collector = c'; place = looping cfg.max_batch_size }
      else record p { collector = show_depth c' }

  -- `ctx.Err()` at the head of a loop
  abbrev pub asked : Program W → Bool × Program W
  asked p =
      let (over, w) = (env p.phase).cancelled p.collector.world in
      (over, record p { collector = record p.collector { world = w } })

  -- whether `sendWithRetry` returns no error
  unfoldable pub is_sent : List Event → Program W → Bool
  unfolding send_with_retry
  is_sent batch p =
      let c = p.collector in
      elim (send_with_retry (env p.phase) cfg batch c.server.metrics c.world).error [
        | none ↦ true
        | some e ↦ false
      ]

  -- a flush ends, and its loop goes on unless there was an error
  unfoldable pub finish_flush : ℕ → List Event → Program W → Program W
  unfolding finish_batch is_sent leave
  finish_flush least batch p =
      let p' = record p { collector = finish_batch sv cfg (env p.phase) batch p.collector } in
      if is_sent batch p then record p' { place = looping least } else leave false p'

  pub data Move (p : Program W) : Program W → Type 0 where
    -- a request handler; the GeoIP database may have been reloaded since the last step
    serve :
        p.accepting ≡ true
        → (lookup : Bytes → Option GeoResult) (r : Request) (clock : ℕ) (now : ℤ)
        → Move p (record p {
          collector =
              collect (record sv { geo_lookup = lookup }) cfg (env p.phase) r clock now p.collector;
        })
    -- the `select` of `Run`
    ticked : p.place ≡ selecting → Move p (record p { place = looping 1 })
    notified : p.place ≡ selecting → Move p (on_notify p)
    context_done :
        p.place ≡ selecting → is_stopped p.phase ≡ true → Move p (record p { place = ended })
    -- a loop of flushes; `flush` of an empty queue does nothing
    emptied :
        (least : ℕ)
        → p.place ≡ looping least
        → Queue.len (queue_of p) < least
        → Move p (leave true p)
    overdue :
        (least : ℕ)
        → p.place ≡ looping least
        → least ≤ Queue.len (queue_of p)
        → (asked p).0 ≡ true
        → Move p (leave false (asked p).1)
    take :
        (least : ℕ)
        → p.place ≡ looping least
        → least ≤ Queue.len (queue_of p)
        → (asked p).0 ≡ false
        → 0 < Queue.len (queue_of p)
        → Move p (record (asked p).1 {
          collector = take_batch sv cfg (env p.phase) (asked p).1.collector;
          place = sending least;
        })
    finish :
        (least : ℕ) (batch : List Event)
        → p.place ≡ sending least
        → p.collector.flying ≡ some batch
        → Move p (finish_flush least batch p)
    -- the shutdown: a signal; the servers are shut, with no error or with handlers left, and the batcher
    -- is told to stop; the batcher is done and the queue is drained; or the time is over
    interrupted : p.phase ≡ serving → Move p (record p { phase = closing })
    closed :
        (clean : Bool)
        → p.phase ≡ closing
        → Move p (record p { phase = stopping; accepting = if clean then false else p.accepting })
    drain :
        p.phase ≡ stopping
        → p.place ≡ ended
        → Move p (record p { phase = draining; place = looping 1 })
    overtime : p.phase ≡ stopping → Move p (record p { phase = timed_out })

  -- the states that the program reaches
  pub data Reaches (w : W) : Program W → Type 0 where
    begun : Reaches w (begin w)
    moved : {p p' : Program W} → Reaches w p → Move p p' → Reaches w p'

  -- several steps, one after the other
  pub data Moves : Program W → Program W → Type 0 where
    still : {p : Program W} → Moves p p
    onward : {p p' p'' : Program W} → Move p p' → Moves p' p'' → Moves p p''
