-- ===== src/Collector/Program/Contents.antt =====
-- Which events are in the program: only those that passed the checks of `handleCollect`.
use formation_web_analytics.Base.{
  ℕ, ℤ, ◌≡◌, inl, inr, Bool, true, false, Option, none, some, List, [], All, Bool-cases, Bytes, ok,
  leb, subst,
}
use formation_web_analytics.Event.{Event, GeoResult}
use formation_web_analytics.Config.{Config}
use formation_web_analytics.Queue
use formation_web_analytics.Queue.{Queue}
use formation_web_analytics.Queue.View.{IsValid}
use formation_web_analytics.RateLimiter.{allow}
use formation_web_analytics.Events.Metadata.{Request, client_ip}
use formation_web_analytics.Http.{Services, cors}
use formation_web_analytics.Http.Collect.{screen, handle_collect}
use formation_web_analytics.Http.Outcome.{handle_collect-Concluded, Concluded-All}
use formation_web_analytics.Batcher.{Environment, send_with_retry}
use formation_web_analytics.Batcher.Flush.{held}
use formation_web_analytics.Batcher.Loop.{receive}
use formation_web_analytics.Batcher.Contents.{drain-All, attempts-All, settle-All}
use formation_web_analytics.Collector.{start, collect, take_batch, finish_batch}
use formation_web_analytics.Collector.Program.Reachable.{Reaches-IsConsistent}
use formation_web_analytics.Collector.Program.{
  Phase, Program, sending, is_draining, queue_of, show_depth, begin, leave, on_notify, asked,
  is_sent, finish_flush, Move, serve, ticked, notified, context_done, emptied, overdue, take,
  finish, interrupted, closed, drain, overtime, Reaches, begun, moved,
}

-- the events of the batch that is on its way
abbrev pub in_flight : Option (List Event) → List Event
in_flight none = []
in_flight (some batch) = batch

pub record Contains {W : Type 0} (P : Event → Type 0) (p : Program W) : Type 0 where
  pub queued : All P (held (queue_of p))
  pub flown : All P (in_flight p.collector.flying)

module _ {W : Type 0} (sv : Services) (cfg : Config) (env : Phase → Environment W)
    (sticky : (f : Phase) (w : W)
      → ((env f).cancelled w).0 ≡ true
      → ((env f).cancelled ((env f).cancelled w).1).0 ≡ true)
    (woken : (f : Phase) (delay : ℕ) (w : W)
      → ((env f).wait delay w).0 ≡ false
      → ((env f).cancelled ((env f).wait delay w).1).0 ≡ true)
    (P : Event → Type 0)
    (screened : (lookup : Bytes → Option GeoResult) (allowed : Bool) (r : Request) (now : ℤ)
        (enriched : List Event)
      → screen (record sv { geo_lookup = lookup }) cfg allowed r now ≡ ok enriched
      → All P enriched)
    (keeps : (f : Phase) (batch : List Event) (w : W)
      → All P batch
      → All P ((env f).sender.send batch w).batch
        × All P ((env f).sender.send batch w).result.retry) where
  leave-Contains :
      (fine : Bool) (p : Program W) → Contains P p → Contains P (leave sv cfg env fine p)
  unfolding leave show_depth
  leave-Contains fine p h = elim (Bool-cases (is_draining p.phase)) [
    | inl drains ↦ rw drains (record { queued = h.queued; flown = h.flown })
    | inr runs ↦ rw runs (record { queued = h.queued; flown = h.flown })
  ]

  on_notify-Contains : (p : Program W) → Contains P p → Contains P (on_notify sv cfg env p)
  unfolding on_notify receive show_depth
  on_notify-Contains p h =
      elim (Bool-cases (leb cfg.max_batch_size (Queue.len (receive (queue_of p))))) [
        | inl full ↦ rw full (record { queued = h.queued; flown = h.flown })
        | inr part ↦ rw part (record { queued = h.queued; flown = h.flown })
      ]

  finish_batch-Contains :
      (least : ℕ) (batch : List Event) (p : Program W)
      → p.collector.flying ≡ some batch
      → IsValid (queue_of p)
      → Contains P p
      → All P (held (finish_batch sv cfg (env p.phase) batch p.collector).server.queue)
  unfolding finish_batch send_with_retry
  finish_batch-Contains least batch p fly v h =
      let c = p.collector in
      let t = send_with_retry (env p.phase) cfg batch c.server.metrics c.world in
      let (all, error) =
        attempts-All P (env p.phase) cfg (keeps p.phase) cfg.max_retries 0 batch c.server.metrics
          c.world (subst (λ o. All P (in_flight o)) fly h.flown) in
      settle-All P (env p.phase) cfg (keeps p.phase) c.world t (queue_of p) t.error v h.queued all
        error

  finish_flush-Contains :
      (least : ℕ) (batch : List Event) (p : Program W)
      → p.collector.flying ≡ some batch
      → IsValid (queue_of p)
      → Contains P p
      → Contains P (finish_flush sv cfg env least batch p)
  unfolding finish_flush finish_batch
  finish_flush-Contains least batch p fly v h =
      let all = finish_batch-Contains least batch p fly v h in
      let after : Program W = record p {
        collector = finish_batch sv cfg (env p.phase) batch p.collector;
      } in
      elim (Bool-cases (is_sent sv cfg env batch p)) [
        | inl sent ↦ rw sent (record { queued = all; flown = tt })
        | inr failed ↦ rw failed (leave-Contains false after (record { queued = all; flown = tt }))
      ]

  collect-Contains :
      (lookup : Bytes → Option GeoResult) (r : Request) (clock : ℕ) (now : ℤ) (p : Program W)
      → IsValid (queue_of p)
      → Contains P p
      → Contains P (record p {
        collector =
            collect (record sv { geo_lookup = lookup }) cfg (env p.phase) r clock now p.collector;
      })
  unfolding collect
  collect-Contains lookup r clock now p v h =
      let sv' : Services = record sv { geo_lookup = lookup } in
      let s = p.collector.server in
      let allowed = (allow s.limiter (client_ip sv.go r cfg.trust_proxy_headers) clock).0 in
      let (_, all) =
        Concluded-All sv' cfg P s (cors sv'.go cfg r) (screen sv' cfg allowed r now)
          (handle_collect sv' cfg s r clock now) v h.queued (screened lookup allowed r now)
          (handle_collect-Concluded sv' cfg s r clock now v) in
      record { queued = all; flown = h.flown }

  take_batch-Contains :
      (least : ℕ) (p : Program W)
      → IsValid (queue_of p)
      → Contains P p
      → Contains P (record p {
        collector = take_batch sv cfg (env p.phase) p.collector;
        place = sending least;
      })
  unfolding take_batch
  take_batch-Contains least p v h =
      let (taken, left) = drain-All P (queue_of p) cfg.max_batch_size v h.queued in
      record { queued = left; flown = taken }

  Move-Contains :
      {p p' : Program W}
      → Move sv cfg env p p'
      → IsValid (queue_of p)
      → Contains P p
      → Contains P p'
  Move-Contains {p} (serve accepts lookup r clock now) v h =
      collect-Contains lookup r clock now p v h
  Move-Contains (ticked s) v h = record { queued = h.queued; flown = h.flown }
  Move-Contains {p} (notified s) v h = on_notify-Contains p h
  Move-Contains (context_done s f) v h = record { queued = h.queued; flown = h.flown }
  Move-Contains {p} (emptied least l few) v h = leave-Contains true p h
  Move-Contains {p} (overdue least l many over) v h =
      leave-Contains false (asked sv cfg env p).1 (record { queued = h.queued; flown = h.flown })
  Move-Contains {p} (take least l many live some_held) v h =
      take_batch-Contains least (asked sv cfg env p).1 v
        (record { queued = h.queued; flown = h.flown })
  Move-Contains {p} (finish least batch s fly) v h = finish_flush-Contains least batch p fly v h
  Move-Contains (interrupted f) v h = record { queued = h.queued; flown = h.flown }
  Move-Contains (closed clean f) v h = record { queued = h.queued; flown = h.flown }
  Move-Contains (drain f s) v h = record { queued = h.queued; flown = h.flown }
  Move-Contains (overtime f) v h = record { queued = h.queued; flown = h.flown }

  -- what holds of every event that passes the checks, and is kept by the sender, holds of every event
  pub Reaches-Contains : {w : W} {p : Program W} → Reaches sv cfg env w p → Contains P p
  unfolding begin start Queue.new
  Reaches-Contains begun = record { queued = tt; flown = tt }
  Reaches-Contains (moved r m) =
      let valid = (Reaches-IsConsistent sv cfg env sticky woken r).balanced.valid in
      Move-Contains m valid (Reaches-Contains r)
