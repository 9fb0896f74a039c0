-- ===== src/Batcher/Loop.antt =====
-- `Run` and `Drain` of internal/batcher/batcher.go: the goroutine of the batcher.
use formation_web_analytics.Base.{
  ℕ, ◌-◌, ◌%◌, ◌^◌, ◌<◌, ◌≡◌, refl, sym, ap, inl, inr, Bool, true, false, List, [], ◌∷◌, length,
  leb, arith, if◌then◌else◌, Bool-cases,
}
use formation_web_analytics.Event.{Event}
use formation_web_analytics.Config.{Config}
use formation_web_analytics.Queue
use formation_web_analytics.Queue.{Queue}
use formation_web_analytics.Queue.View.{IsValid}
use formation_web_analytics.Metrics.{Registry, set_queue_depth}
use formation_web_analytics.Batcher.{Environment, Outcome, flush_all, flush_full_batches}
use formation_web_analytics.Batcher.Flush.{held, length-held}
use formation_web_analytics.Batcher.Rounds.{total}
use formation_web_analytics.Batcher.Delivery.{
  Accepts, flush_all-delivers, flush_full_batches-delivers,
}

-- what the `select` of the loop receives
pub data Signal : Type 0 where
  context_done ticked notified : Signal

-- The state that the goroutine changes. `ready` is the flag of `Ready`, and `finished` whether `done`
-- is closed.
pub record Loop (W : Type 0) : Type 0 where
  pub queue : Queue Event
  pub metrics : Registry
  pub world : W
  pub ready : Bool
  pub finished : Bool

-- `<-b.queue.Notify()` takes the token
unfoldable pub receive : Queue Event → Queue Event
receive q = record q { notify_ch = q.notify_ch - 1 }

module _ {W : Type 0} (env : Environment W) (cfg : Config) where
  -- what is left after a flush of either kind, whose error is only logged
  abbrev flushed : Outcome × Queue Event × Registry × W → Loop W → Loop W
  flushed (outcome, q, m, w) l = record l {
    queue = q;
    metrics = set_queue_depth (Queue.len q) m;
    world = w;
  }

  -- one round of the loop of `Run`
  unfoldable pub run_once : Signal → Loop W → Loop W
  unfolding receive flush_all flush_full_batches
  run_once context_done l = record l { ready = false; finished = true }
  run_once ticked l = flushed (flush_all env cfg l.queue l.metrics l.world) l
  run_once notified l =
      let q = receive l.queue in
      if leb cfg.max_batch_size (Queue.len q)
      then flushed (flush_full_batches env cfg q l.metrics l.world) l
      else record l { queue = q; metrics = set_queue_depth (Queue.len q) l.metrics }

  -- the loop: it returns at the first `context_done`, with the deferred calls
  unfoldable pub run_loop : List Signal → Loop W → Loop W
  unfolding run_once
  run_loop [] l = l
  run_loop (context_done ∷ signals) l = run_once context_done l
  run_loop (signal ∷ signals) l = run_loop signals (run_once signal l)

  -- `Run` up to the loop, and `Run`
  unfoldable pub run : List Signal → Loop W → Loop W
  unfolding run_loop
  run signals l = run_loop signals (record l { ready = true })

  pub receive-IsValid : (q : Queue Event) → IsValid q → IsValid (receive q)
  unfolding receive
  receive-IsValid q v = ground arith

  -- what a round leaves, with room for fewer than `least` events
  pub record HasCaughtUp (least : ℕ) (l l' : Loop W) : Type 0 where
    pub valid : IsValid l'.queue
    pub few : length (held l'.queue) < least
    pub counted : total l'.queue l'.metrics % 2 ^ 64 ≡ total l.queue l.metrics % 2 ^ 64
    pub depth : l'.metrics.queued_current ≡ length (held l'.queue)

  module _ (live : (w : W) → (env.cancelled w).0 ≡ false)
      (woken : (delay : ℕ) (w : W)
        → (env.wait delay w).0 ≡ false
        → (env.cancelled (env.wait delay w).1).0 ≡ true)
      (quiet : (w : W) (q : Queue Event) → env.meanwhile w q ≡ q)
      (accepts : (batch : List Event) (w : W) → Accepts env cfg cfg.max_retries 0 batch w) where
    -- Where the queue is valid, the context stays live, no pause is cut short, every batch is
    -- accepted within its attempts and no one adds to the queue while it is flushed, a tick leaves
    -- no event in the queue, and every event that was in it is counted; the gauge shows the depth
    -- of the queue.
    pub ticked-HasCaughtUp : (l : Loop W) → IsValid l.queue → HasCaughtUp 1 l (run_once ticked l)
    unfolding run_once Queue.len
    ticked-HasCaughtUp l v =
        let (e, valid, empty, counted) =
          flush_all-delivers env cfg live woken quiet accepts l.queue l.metrics l.world v in
        let none_held = ap (λ xs. length xs) empty in
        record {
          valid = valid;
          few = omega (arith, none_held);
          counted = omega (arith, counted, none_held);
          depth = sym (length-held (flush_all env cfg l.queue l.metrics l.world).1);
        }

    -- Where the queue is valid, the batch size is positive, the context stays live, no pause is cut
    -- short, every batch is accepted within its attempts and no one adds to the queue while it is
    -- flushed, a notification leaves fewer events in the queue than make a batch, and every other
    -- event that was in it is counted; the gauge shows the depth of the queue.
    pub notified-HasCaughtUp :
        (l : Loop W)
        → IsValid l.queue
        → 0 < cfg.max_batch_size
        → HasCaughtUp cfg.max_batch_size l (run_once notified l)
    unfolding run_once receive Queue.len
    notified-HasCaughtUp l v pos =
        let q = receive l.queue in
        elim (Bool-cases (leb cfg.max_batch_size q.size)) [
          | inl full ↦
              let (e, valid, few, counted) =
                flush_full_batches-delivers env cfg live woken quiet accepts q l.metrics l.world
                  (receive-IsValid l.queue v) pos in
              rw full (record {
                valid = valid;
                few = few;
                counted = counted;
                depth = sym (length-held (flush_full_batches env cfg q l.metrics l.world).1);
              })
          | inr part ↦ rw part (record {
            valid = receive-IsValid l.queue v;
            few = ground (arith, length-held l.queue);
            counted = refl;
            depth = sym (length-held l.queue);
          })
        ]
