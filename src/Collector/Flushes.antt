-- ===== src/Collector/Flushes.antt =====
-- The steps of the collector against `flush`.
use formation_web_analytics.Base.{◌<◌, ◌≡◌, refl, false, none, length, ◌==◌, arith}
use formation_web_analytics.Event.{Event, zero_event}
use formation_web_analytics.Config.{Config}
use formation_web_analytics.Queue
use formation_web_analytics.Queue.{Queue}
use formation_web_analytics.Queue.View.{IsValid}
use formation_web_analytics.Http.{Services}
use formation_web_analytics.Batcher.{Environment, flush}
use formation_web_analytics.Batcher.Flush.{length-held, held}
use formation_web_analytics.Batcher.Rounds.{drain_split}
use formation_web_analytics.Collector.{Collector, take_batch, finish_batch}

module _ {W : Type 0} (sv : Services) (cfg : Config) (env : Environment W)
    (quiet : (w : W) (q : Queue Event) → env.meanwhile w q ≡ q) where
  -- With nothing between them, `take` and `finish` are `flush` of a valid queue that is not empty: they
  -- leave the same queue, counters and world, and no batch on its way.
  pub finish_batch-take_batch :
      (c : Collector W)
      → IsValid c.server.queue
      → 0 < length (held c.server.queue)
      → let batch = (Queue.drain zero_event c.server.queue cfg.max_batch_size).0 in
        let c' = finish_batch sv cfg env batch (take_batch sv cfg env c) in
        let (outcome, q, m, w) = flush env cfg c.server.queue c.server.metrics c.world in
        (c'.server ≡ record c.server { queue = q; metrics = m })
        × (c'.world ≡ w)
        × (c'.flying ≡ none)
  unfolding finish_batch take_batch flush Queue.len
  finish_batch-take_batch c v some_held =
      let q = c.server.queue in
      let (batch, rest) = Queue.drain zero_event q cfg.max_batch_size in
      let size : length (held q) ≡ q.size = length-held q in
      let (_, taken, _) = drain_split cfg.max_batch_size q v some_held in
      let not_empty : (q.size == 0) ≡ false = ground (arith, size) in
      let nonzero : (length batch == 0) ≡ false = ground arith in
      rw (not_empty, nonzero, quiet c.world rest) (refl, refl, refl)
