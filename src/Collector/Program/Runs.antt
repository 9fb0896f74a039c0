-- ===== src/Collector/Program/Runs.antt =====
-- A round of `Run` and the shutdown as functions against the steps of the program.
use formation_web_analytics.Base.{
  ℕ, ◌+◌, ◌<◌, ◌≡◌, refl, ap, inl, inr, true, false, none, leb, if◌then◌else◌, Bool-cases, arith,
  subst,
}
use formation_web_analytics.Event.{Event}
use formation_web_analytics.Config.{Config}
use formation_web_analytics.Metrics.{set_queue_depth}
use formation_web_analytics.Queue
use formation_web_analytics.Queue.{Queue}
use formation_web_analytics.Queue.View.{IsValid}
use formation_web_analytics.Http.{Services}
use formation_web_analytics.Batcher.{Environment, flush_while, flush_all, flush_full_batches}
use formation_web_analytics.Batcher.Loop.{Loop, Signal, receive, receive-IsValid, run_once}
use formation_web_analytics.Collector.Shutdown.{shut_down}
use formation_web_analytics.Collector.Program.{
  Phase, draining, stopping, drained, selecting, ended, looping, Program, is_draining, is_stopped,
  queue_of, leave, show_depth, on_notify, context_done, Move, ticked, notified, drain, Moves, still,
  onward,
}
use formation_web_analytics.Collector.Program.Rounds.{is_done, looped, settled_as, landed, Result}
use formation_web_analytics.Collector.Program.Loops.{len_held, looped-Lands}

module _ {W : Type 0} (sv : Services) (cfg : Config) (env : Phase → Environment W) where
  -- what the goroutine of the batcher sees of the program
  abbrev pub loop_of : Program W → Loop W
  loop_of p =
      let c = p.collector in
      record {
        queue = c.server.queue;
        metrics = c.server.metrics;
        world = c.world;
        ready = true;
        finished = false;
      }

  -- and what the program is after a round of `Run`
  abbrev pub looped_as : Program W → Loop W → ℕ → ℕ → Program W
  looped_as p l lost repeated = record p {
    collector = record p.collector {
      server = record p.collector.server { queue = l.queue; metrics = l.metrics };
      world = l.world;
      lost = lost;
      repeated = repeated;
    };
    place = if l.finished then ended else selecting;
  }

  abbrev pub Runs : Program W → Loop W → Type 0
  Runs p l = (lost : ℕ) × (repeated : ℕ) × Moves sv cfg env p (looped_as p l lost repeated)

  pub landed-selecting :
      (p : Program W) (r : Result sv cfg env) (lost repeated : ℕ)
      → is_draining p.phase ≡ false
      → landed sv cfg env p r lost repeated ≡ record p {
        place = selecting;
        collector = show_depth (settled_as sv cfg env p r lost repeated);
      }
  unfolding landed leave
  landed-selecting p r lost repeated runs = rw runs refl

  -- after a notification: with enough events for a batch, or with too few
  abbrev pub filled : Program W → Program W
  filled p = record p {
    collector = record p.collector {
      server = record p.collector.server { queue = receive (queue_of p) };
    };
    place = looping cfg.max_batch_size;
  }

  pub on_notify-full :
      (p : Program W)
      → leb cfg.max_batch_size (Queue.len (receive (queue_of p))) ≡ true
      → on_notify sv cfg env p ≡ filled p
  unfolding on_notify
  on_notify-full p full = rw full refl

  pub on_notify-part :
      (p : Program W)
      → p.place ≡ selecting
      → leb cfg.max_batch_size (Queue.len (receive (queue_of p))) ≡ false
      → on_notify sv cfg env p
        ≡ record p { collector = show_depth (filled p).collector; place = selecting }
  unfolding on_notify
  on_notify-part p s part =
      rw part (ap (λ a. record p { collector = show_depth (filled p).collector; place = a }) s)

module _ {W : Type 0} (sv : Services) (cfg : Config) (env : Phase → Environment W)
    (sticky : (f : Phase) (w : W)
      → ((env f).cancelled w).0 ≡ true
      → ((env f).cancelled ((env f).cancelled w).1).0 ≡ true)
    (woken : (f : Phase) (delay : ℕ) (w : W)
      → ((env f).wait delay w).0 ≡ false
      → ((env f).cancelled ((env f).wait delay w).1).0 ≡ true)
    (quiet : (f : Phase) (w : W) (q : Queue Event) → (env f).meanwhile w q ≡ q) where
  -- a loop of flushes that `Run` calls, and what it does after it
  rounds-Runs :
      (least : ℕ) (p' : Program W)
      → p'.place ≡ looping least
      → p'.collector.flying ≡ none
      → IsValid (queue_of p')
      → 0 < least
      → is_draining p'.phase ≡ false
      → let c = p'.collector in
        let (o, q, m, w) =
          flush_while
            (env p'.phase)
            cfg
            (Queue.len c.server.queue + 1)
            least
            c.server.queue
            c.server.metrics
            c.world in
        Runs sv cfg env p' (record (loop_of sv cfg env p') {
          queue = q;
          metrics = set_queue_depth (Queue.len q) m;
          world = w;
        })
  unfolding show_depth
  rounds-Runs least p' l idle v pos runs =
      let r = looped sv cfg env (Queue.len (queue_of p') + 1) least p' in
      let (lost, repeated, moves) =
        looped-Lands sv cfg env sticky woken quiet (Queue.len (queue_of p') + 1) least p' l idle v
          pos (omega (arith, len_held sv cfg env (queue_of p'))) in
      (
        lost,
        repeated,
        subst (Moves sv cfg env p') (landed-selecting sv cfg env p' r lost repeated runs) moves,
      )

  -- A round of `Run` as a function does what the program's steps can do: at the `select`, before the
  -- drain, with no batch on its way, a valid queue and a positive batch size, the program gets by steps
  -- to the state that `run_once` leaves for the signal, back at the `select`, or at its end where the
  -- context is done, which it is once the batcher is told to stop. A context that is done stays done,
  -- and is what ends a pause early; no handler's step falls into the round. The counts of lost and
  -- repeated events, which the function does not keep, are left open.
  pub run_once-Moves :
      (signal : Signal) (p : Program W)
      → (signal ≡ Signal.context_done → is_stopped p.phase ≡ true)
      → is_draining p.phase ≡ false
      → p.place ≡ selecting
      → p.collector.flying ≡ none
      → IsValid (queue_of p)
      → 0 < cfg.max_batch_size
      → Runs sv cfg env p (run_once (env p.phase) cfg signal (loop_of sv cfg env p))
  unfolding run_once flush_all flush_full_batches show_depth
  run_once-Moves Signal.context_done p stops runs s idle v pos =
      (p.collector.lost, p.collector.repeated, onward (context_done s (stops refl)) still)
  run_once-Moves Signal.ticked p stops runs s idle v pos =
      let (lost, repeated, moves) =
        rounds-Runs 1 (record p { place = looping 1 }) refl idle v (omega arith) runs in
      (lost, repeated, onward (ticked s) moves)
  run_once-Moves Signal.notified p stops runs s idle v pos =
      let q = receive (queue_of p) in
      elim (Bool-cases (leb cfg.max_batch_size (Queue.len q))) [
        | inl full ↦
            let (lost, repeated, moves) =
              rounds-Runs cfg.max_batch_size (filled sv cfg env p) refl idle
                (receive-IsValid (env p.phase) cfg (queue_of p) v) pos runs in
            rw full (
              lost,
              repeated,
              onward (subst (Move sv cfg env p) (on_notify-full sv cfg env p full) (notified s))
                  moves,
            )
        | inr part ↦ rw part (
          p.collector.lost,
          p.collector.repeated,
          onward (subst (Move sv cfg env p) (on_notify-part sv cfg env p s part) (notified s))
              still,
        )
      ]

  -- Once the batcher is told to stop and has ended, with no batch on its way and a valid queue, the
  -- program gets by steps to the state that `shut_down` leaves, drained with an error or without one as
  -- the outcome says. A context that is done stays done, and is what ends a pause early; no handler's
  -- step falls into the drain. The counts of lost and repeated events are left open.
  pub shut_down-Moves :
      (p : Program W)
      → p.phase ≡ stopping
      → p.place ≡ ended
      → p.collector.flying ≡ none
      → IsValid (queue_of p)
      → let (outcome, c) = shut_down cfg (env draining) true p.collector in
        (lost : ℕ) × (repeated : ℕ) × Moves sv cfg env p (record p {
          collector = record c { lost = lost; repeated = repeated };
          place = ended;
          phase = drained (is_done outcome);
        })
  unfolding shut_down flush_all landed leave is_draining
  shut_down-Moves p f e idle v =
      let p' : Program W = record p { phase = draining; place = looping 1 } in
      let (lost, repeated, moves) =
        looped-Lands sv cfg env sticky woken quiet (Queue.len (queue_of p) + 1) 1 p' refl idle v
          (omega arith) (omega (arith, len_held sv cfg env (queue_of p))) in
      (lost, repeated, onward (drain f e) moves)
