-- ===== src/Collector/Program/Delivery.antt =====
-- The end of the program from the moment that the batcher is told to stop.
use formation_web_analytics.Base.{◌+◌, ◌%◌, ◌^◌, ◌≡◌, true, false, none, []}
use formation_web_analytics.Event.{Event}
use formation_web_analytics.Config.{Config}
use formation_web_analytics.Queue.{Queue}
use formation_web_analytics.Http.{Services}
use formation_web_analytics.Batcher.{Environment}
use formation_web_analytics.Batcher.Retries.{settled}
use formation_web_analytics.Batcher.Flush.{held}
use formation_web_analytics.Collector.Program.{
  Phase, drained, Program, queue_of, Reaches, moved, Moves, still, onward,
}

module _ {W : Type 0} (sv : Services) (cfg : Config) (env : Phase → Environment W) where
  pub Reaches-Moves :
      {w : W} {p p' : Program W}
      → Moves sv cfg env p p'
      → Reaches sv cfg env w p
      → Reaches sv cfg env w p'
  Reaches-Moves still r = r
  Reaches-Moves (onward m after) r = Reaches-Moves after (moved r m)

  -- the program drained its queue without error, from `p`
  pub record HasDelivered (w : W) (p p' : Program W) : Type 0 where
    pub reached : Reaches sv cfg env w p'
    pub fine : p'.phase ≡ drained true
    pub empty : held (queue_of p') ≡ []
    pub idle : p'.collector.flying ≡ none
    pub shut : p'.accepting ≡ false
    pub accepted :
        p'.collector.server.metrics.accepted_events ≡ p.collector.server.metrics.accepted_events
    pub counted :
        let c = p'.collector in
        (c.server.metrics.accepted_events + c.repeated) % 2 ^ 64
        ≡ (settled c.server.metrics + c.lost) % 2 ^ 64
