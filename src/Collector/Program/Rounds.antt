-- ===== src/Collector/Program/Rounds.antt =====
-- One flush of the program: its steps, and what is left, against `flush`.
use formation_web_analytics.Base.{
  ℕ, ◌<◌, ◌≤◌, ◌≡◌, ◌⊎◌, refl, ap, inl, inr, Bool, true, false, List, length, ◌==◌, Option-cases,
  arith,
}
use formation_web_analytics.Event.{Event, zero_event}
use formation_web_analytics.Config.{Config}
use formation_web_analytics.Metrics.{Registry}
use formation_web_analytics.Queue
use formation_web_analytics.Queue.{Queue}
use formation_web_analytics.Queue.View.{IsValid}
use formation_web_analytics.Http.{Services}
use formation_web_analytics.Batcher.{
  Environment, FlushError, Outcome, done, failed, context_over, send_with_retry, settle, flush,
  flush_while,
}
use formation_web_analytics.Batcher.Flush.{held, length-held}
use formation_web_analytics.Batcher.Rounds.{drain_split}
use formation_web_analytics.Collector.{Collector, take_batch, finish_batch}
use formation_web_analytics.Collector.Program.{
  Phase, looping, sending, Program, queue_of, leave, asked, is_sent, finish_flush, emptied, overdue,
  Moves, still, onward,
}

-- whether a loop ended with no error
unfoldable pub is_done : Outcome → Bool
is_done done = true
is_done _ = false

module _ {W : Type 0} (sv : Services) (cfg : Config) (env : Phase → Environment W) where
  abbrev pub Result : Type 0
  Result = Outcome × Queue Event × Registry × W

  abbrev pub looped : ℕ → ℕ → Program W → Outcome × Queue Event × Registry × W
  looped fuel least p =
      let c = p.collector in
      flush_while (env p.phase) cfg fuel least c.server.queue c.server.metrics c.world

  -- what is left of the collector after a loop with this result
  abbrev pub settled_as : Program W → Outcome × Queue Event × Registry × W → ℕ → ℕ → Collector W
  settled_as p (o, q, m, w) lost repeated = record p.collector {
    server = record p.collector.server { queue = q; metrics = m };
    world = w;
    lost = lost;
    repeated = repeated;
  }

  -- where a loop with this result leaves the program
  unfoldable pub landed : Program W → Outcome × Queue Event × Registry × W → ℕ → ℕ → Program W
  unfolding leave is_done
  landed p r lost repeated =
      leave sv cfg env (is_done r.0) (record p { collector = settled_as p r lost repeated })

  abbrev pub Lands : ℕ → Program W → Outcome × Queue Event × Registry × W → Type 0
  Lands least p r = (lost : ℕ) × (repeated : ℕ) × Moves sv cfg env p (landed p r lost repeated)

  -- the batch that is taken at the head of a loop, and what is left of the collector once it is sent
  abbrev pub front_of : Program W → List Event
  front_of p = (Queue.drain zero_event (queue_of p) cfg.max_batch_size).0

  abbrev pub taken : ℕ → Program W → Program W
  taken least p =
      let p' = (asked sv cfg env p).1 in
      record p' { collector = take_batch sv cfg (env p.phase) p'.collector; place = sending least }

  abbrev pub sent : Program W → Collector W
  sent p = finish_batch sv cfg (env p.phase) (front_of p) (taken 0 p).collector

  abbrev pub flushed : Program W → Outcome × Queue Event × Registry × W
  flushed p =
      let c = (asked sv cfg env p).1.collector in
      flush (env p.phase) cfg c.server.queue c.server.metrics c.world

  -- the program before the next round of its loop
  abbrev pub next : ℕ → Program W → Program W
  next least p = record p {
    collector = settled_as p (flushed p) (sent p).lost (sent p).repeated;
    place = looping least;
  }

  -- a flush and its loop agree on whether there was an error
  pub is_sent-flushed :
      (least : ℕ) (p : Program W)
      → IsValid (queue_of p)
      → 0 < length (held (queue_of p))
      → ((is_sent sv cfg env (front_of p) (taken least p) ≡ true) × ((flushed p).0 ≡ done))
        ⊎ ((e : FlushError) × (is_sent sv cfg env (front_of p) (taken least p) ≡ false)
            × ((flushed p).0 ≡ failed e))
  unfolding is_sent flush settle take_batch Queue.len
  is_sent-flushed least p v pos =
      let q = queue_of p in
      let size : length (held q) ≡ q.size = length-held q in
      let (_, some_taken, _) = drain_split cfg.max_batch_size q v pos in
      let not_empty : (q.size == 0) ≡ false = ground (arith, size) in
      let nonzero : (length (front_of p) == 0) ≡ false = ground arith in
      let c = (taken least p).collector in
      let t = send_with_retry (env p.phase) cfg (front_of p) c.server.metrics c.world in
      elim (Option-cases t.error) [
        | inl fine ↦
            inl (rw (fine, is_sent) refl, rw (not_empty, nonzero, fine, flush, settle) refl)
        | inr (e, bad) ↦
            inr (e, rw (bad, is_sent) refl, rw (not_empty, nonzero, bad, flush, settle) refl)
      ]

  pub leave-sent :
      (fine : Bool) (least : ℕ) (p : Program W)
      → leave sv cfg env fine (record (taken least p) { collector = sent p })
        ≡ leave sv cfg env fine (record p { collector = sent p })
  unfolding leave
  leave-sent fine least p = refl

  -- a flush that fails is a step that ends the loop
  pub finish_flush-failed :
      (least : ℕ) (p : Program W)
      → is_sent sv cfg env (front_of p) (taken least p) ≡ false
      → finish_flush sv cfg env least (front_of p) (taken least p)
        ≡ leave sv cfg env false (record p { collector = sent p })
  unfolding finish_flush
  finish_flush-failed least p unsent = rw unsent (leave-sent false least p)

  pub failed-landed :
      (p : Program W) (e : FlushError) (lost repeated : ℕ)
      → (flushed p).0 ≡ failed e
      → landed p (flushed p) lost repeated
        ≡ leave sv cfg env false (record p { collector = settled_as p (flushed p) lost repeated })
  unfolding landed
  failed-landed p e lost repeated bad =
      ap
        (λ o.
          leave sv cfg env (is_done o)
            (record p { collector = settled_as p (flushed p) lost repeated }))
        bad

  pub next-landed :
      (least : ℕ) (p : Program W) (r : Outcome × Queue Event × Registry × W) (lost repeated : ℕ)
      → landed (next least p) r lost repeated ≡ landed p r lost repeated
  unfolding landed leave
  next-landed least p r lost repeated = refl

  pub few-Lands :
      (least : ℕ) (p : Program W)
      → p.place ≡ looping least
      → Queue.len (queue_of p) < least
      → let c = p.collector in Lands least p (done, c.server.queue, c.server.metrics, c.world)
  unfolding landed leave is_done
  few-Lands least p l few =
      (p.collector.lost, p.collector.repeated, onward (emptied least l few) still)

  pub over-Lands :
      (least : ℕ) (p : Program W)
      → p.place ≡ looping least
      → least ≤ Queue.len (queue_of p)
      → (asked sv cfg env p).0 ≡ true
      → let c = (asked sv cfg env p).1.collector in
        Lands least p (context_over, c.server.queue, c.server.metrics, c.world)
  unfolding landed leave is_done
  over-Lands least p l many over =
      (p.collector.lost, p.collector.repeated, onward (overdue least l many over) still)
