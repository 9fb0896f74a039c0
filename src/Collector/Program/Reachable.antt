-- ===== src/Collector/Program/Reachable.antt =====
-- What holds in every state of the program.
use formation_web_analytics.Base.{
  ℕ, ◌+◌, ◌%◌, ◌^◌, ◌≡◌, refl, ap, true, false, none, [], length, arith, subst,
}
use formation_web_analytics.Config.{Config}
use formation_web_analytics.Http.{Services}
use formation_web_analytics.Batcher.{Environment}
use formation_web_analytics.Batcher.Retries.{settled}
use formation_web_analytics.Batcher.Flush.{held}
use formation_web_analytics.Collector.{start, collect, take_batch}
use formation_web_analytics.Collector.Ledger.{
  on_its_way, start-IsBalanced, collect-IsBalanced, take_batch-IsBalanced,
}
use formation_web_analytics.Collector.Program.Places.{
  Fits-stopped, drained-stopped, Carries, Fits, Fits-select, Fits-send, drained-idle,
  drained-looping, drained-selecting,
}
use formation_web_analytics.Collector.Program.{
  Phase, serving, drained, selecting, looping, Program, queue_of, begin, asked, Move, serve, ticked,
  notified, context_done, emptied, overdue, take, finish, interrupted, closed, drain, overtime,
  Reaches, begun, moved,
}
use formation_web_analytics.Collector.Program.Consistent.{
  IsConsistent, none_held, leave-IsConsistent, finish_flush-IsConsistent, on_notify-IsConsistent,
}

module _ {W : Type 0} (sv : Services) (cfg : Config) (env : Phase → Environment W)
    (sticky : (f : Phase) (w : W)
      → ((env f).cancelled w).0 ≡ true
      → ((env f).cancelled ((env f).cancelled w).1).0 ≡ true)
    (woken : (f : Phase) (delay : ℕ) (w : W)
      → ((env f).wait delay w).0 ≡ false
      → ((env f).cancelled ((env f).wait delay w).1).0 ≡ true) where
  -- the state that a loop goes on from
  record AtHead (least : ℕ) (p : Program W) : Type 0 where
    fits : Fits p.phase (looping least)
    idle : p.collector.flying ≡ none

  at_head : (least : ℕ) (p : Program W) → p.place ≡ looping least → IsConsistent p → AtHead least p
  at_head least p h c = record {
    fits = subst (Fits p.phase) h c.fits;
    idle = subst (λ a. Carries a p.collector.flying) h c.carries;
  }

  Move-IsConsistent : {p p' : Program W} → Move sv cfg env p p' → IsConsistent p → IsConsistent p'
  unfolding collect take_batch
  Move-IsConsistent {p} (serve accepts lookup r clock now) h = record {
    balanced =
        collect-IsBalanced (record sv { geo_lookup = lookup }) cfg (env p.phase) (sticky p.phase)
          (woken p.phase) r clock now p.collector h.balanced;
    carries = h.carries;
    fits = h.fits;
    emptied = λ e. λ shut. absurd (cc (accepts, shut));
  }
  Move-IsConsistent {p} (ticked s) h =
      let fits : Fits p.phase selecting = subst (Fits p.phase) s h.fits in
      record {
        balanced = h.balanced;
        carries = subst (λ a. Carries a p.collector.flying) s h.carries;
        fits = Fits-select p.phase 1 fits;
        emptied = λ e. λ a. absurd (drained-selecting p.phase e fits);
      }
  Move-IsConsistent {p} (notified s) h = on_notify-IsConsistent sv cfg env sticky woken p s h
  Move-IsConsistent {p} (context_done s f) h = record {
    balanced = h.balanced;
    carries = subst (λ a. Carries a p.collector.flying) s h.carries;
    fits = Fits-stopped p.phase f;
    emptied = λ e. λ a. absurd (drained-stopped p.phase e f);
  }
  Move-IsConsistent {p} (emptied least l few) h =
      let now = at_head least p l h in
      leave-IsConsistent sv cfg env sticky woken true least p h.balanced now.idle now.fits
        (λ e. none_held (queue_of p) least few)
  Move-IsConsistent {p} (overdue least l many over) h =
      let now = at_head least p l h in
      leave-IsConsistent sv cfg env sticky woken false least (asked sv cfg env p).1
        (record { valid = h.balanced.valid; balance = h.balanced.balance }) now.idle now.fits
        (λ e. absurd (cc))
  Move-IsConsistent {p} (take least l many live some_held) h =
      let now = at_head least p l h in
      record {
        balanced =
            take_batch-IsBalanced sv cfg (env p.phase) (sticky p.phase) (woken p.phase)
              (asked sv cfg env p).1.collector now.idle some_held
              (record { valid = h.balanced.valid; balance = h.balanced.balance });
        carries = (_, refl);
        fits = Fits-send p.phase least now.fits;
        emptied = λ e. λ a. absurd (drained-looping p.phase least e now.fits);
      }
  Move-IsConsistent {p} (finish least batch s fly) h =
      finish_flush-IsConsistent sv cfg env sticky woken least batch p s fly h
  Move-IsConsistent {p} (interrupted f) h = record {
    balanced = h.balanced;
    carries = h.carries;
    fits = tt;
    emptied = λ e. absurd (cc);
  }
  Move-IsConsistent {p} (closed clean f) h = record {
    balanced = h.balanced;
    carries = h.carries;
    fits = tt;
    emptied = λ e. absurd (cc);
  }
  Move-IsConsistent {p} (drain f s) h = record {
    balanced = h.balanced;
    carries = subst (λ a. Carries a p.collector.flying) s h.carries;
    fits = refl;
    emptied = λ e. absurd (cc);
  }
  Move-IsConsistent {p} (overtime f) h = record {
    balanced = h.balanced;
    carries = h.carries;
    fits = tt;
    emptied = λ e. absurd (cc);
  }

  -- In every state that the program reaches, whatever the order of its goroutines' steps: the queue
  -- is valid and the accounts balance, a batch is on its way exactly while it is sent, only the loop
  -- of `Drain` runs while the queue is drained and none afterwards, and a drain without error, after
  -- the servers were shut with no handler left, leaves an empty queue. A context that is done stays
  -- done, and is what ends a pause early.
  pub Reaches-IsConsistent : {w : W} {p : Program W} → Reaches sv cfg env w p → IsConsistent p
  unfolding begin start
  Reaches-IsConsistent {w} begun = record {
    balanced = start-IsBalanced sv cfg (env serving) (sticky serving) (woken serving) w;
    carries = refl;
    fits = tt;
    emptied = λ e. absurd (cc);
  }
  Reaches-IsConsistent (moved r m) = Move-IsConsistent m (Reaches-IsConsistent r)

  -- When the program has drained its queue without error, and its servers had been shut with no
  -- handler left, the queue is empty, no batch is on its way, and every event that was ever accepted
  -- is counted as indexed or failed, but for those lost or counted twice. A context that is done
  -- stays done, and is what ends a pause early.
  pub Reaches-delivered :
      {w : W} {p : Program W}
      → Reaches sv cfg env w p
      → p.phase ≡ drained true
      → p.accepting ≡ false
      → let c = p.collector in
        (held c.server.queue ≡ [])
        × (c.flying ≡ none)
        × ((c.server.metrics.accepted_events + c.repeated) % 2 ^ 64
            ≡ (settled c.server.metrics + c.lost) % 2 ^ 64)
  Reaches-delivered {w} {p} r e shut =
      let h = Reaches-IsConsistent r in
      let empty = h.emptied e shut in
      let idle =
        drained-idle p.place p.collector.flying (subst (λ f. Fits f p.place) e h.fits) h.carries in
      (
        empty,
        idle,
        omega (arith, h.balanced.balance, ap (λ xs. length xs) empty, ap on_its_way idle),
      )
