-- ===== src/Collector/Shutdown.antt =====
-- cmd/collector/main.go, lines 105 to 126: the end of the collector.
use formation_web_analytics.Base.{
  ℕ, ◌+◌, ◌%◌, ◌^◌, ◌≡◌, ap, Bool, true, false, none, List, [], arith, if◌then◌else◌,
}
use formation_web_analytics.Event.{Event}
use formation_web_analytics.Config.{Config}
use formation_web_analytics.Queue
use formation_web_analytics.Queue.{Queue}
use formation_web_analytics.Batcher.{Environment, Outcome, done, context_over, flush_all}
use formation_web_analytics.Batcher.Retries.{settled}
use formation_web_analytics.Batcher.Flush.{held}
use formation_web_analytics.Batcher.Intake.{flush_while-accepted}
use formation_web_analytics.Batcher.Delivery.{Accepts, flush_all-delivers}
use formation_web_analytics.Collector.{Collector}
use formation_web_analytics.Collector.Ledger.{on_its_way, IsBalanced}

module _ {W : Type 0} (cfg : Config) (env : Environment W) where
  -- Once the servers are shut and the batcher is told to stop: `stopped` is whether the batcher is
  -- done before the time for the shutdown is over, and `env` the environment under the context of
  -- that time. The outcome is what is logged.
  unfoldable pub shut_down : Bool → Collector W → Outcome × Collector W
  unfolding flush_all
  shut_down stopped c =
      let (outcome, q, m, w) = flush_all env cfg c.server.queue c.server.metrics c.world in
      if stopped
      then (outcome, record c { server = record c.server { queue = q; metrics = m }; world = w })
      else (context_over, c)

  -- A collector whose accounts balance and whose batcher is done with its last batch, shut down
  -- while the time is not over, no pause is cut short, no one adds to the queue and every batch is
  -- accepted within its attempts, leaves no event behind: the queue is empty, and every accepted
  -- event is counted as indexed or failed, but for those lost or counted twice before.
  pub shut_down-delivers :
      (c : Collector W)
      → IsBalanced c
      → c.flying ≡ none
      → ((w : W) → (env.cancelled w).0 ≡ false)
      → ((delay : ℕ) (w : W)
          → (env.wait delay w).0 ≡ false
          → (env.cancelled (env.wait delay w).1).0 ≡ true)
      → ((w : W) (q : Queue Event) → env.meanwhile w q ≡ q)
      → ((batch : List Event) (w : W) → Accepts env cfg cfg.max_retries 0 batch w)
      → let (outcome, c') = shut_down true c in
        let m = c'.server.metrics in
        (outcome ≡ done)
        × (held c'.server.queue ≡ [])
        × (m.accepted_events ≡ c.server.metrics.accepted_events)
        × ((m.accepted_events + c'.repeated) % 2 ^ 64 ≡ (settled m + c'.lost) % 2 ^ 64)
  unfolding shut_down flush_all
  shut_down-delivers c b idle live woken quiet accepts =
      let q = c.server.queue in
      let m = c.server.metrics in
      let (e, valid, empty, counted) =
        flush_all-delivers env cfg live woken quiet accepts q m c.world b.valid in
      let kept = flush_while-accepted env cfg (Queue.len q + 1) 1 q m c.world in
      (e, empty, kept, omega (arith, b.balance, counted, kept, ap on_its_way idle))
