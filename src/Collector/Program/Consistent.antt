-- ===== src/Collector/Program/Consistent.antt =====
-- What is to hold in every state of the program, and that the loops of flushes keep it.
use formation_web_analytics.Base.{
  ℕ, ◌<◌, ◌≡◌, refl, inl, inr, Bool, true, false, none, some, List, [], ◌∷◌, length, leb,
  Bool-cases, arith, subst,
}
use formation_web_analytics.Event.{Event}
use formation_web_analytics.Config.{Config}
use formation_web_analytics.Queue
use formation_web_analytics.Queue.{Queue}
use formation_web_analytics.Http.{Services}
use formation_web_analytics.Batcher.{Environment}
use formation_web_analytics.Batcher.Flush.{held, length-held}
use formation_web_analytics.Batcher.Loop.{receive}
use formation_web_analytics.Collector.{finish_batch}
use formation_web_analytics.Collector.Ledger.{IsBalanced, finish_batch-IsBalanced}
use formation_web_analytics.Collector.Program.Places.{
  Carries, Fits, Fits-select, Fits-sent, Fits-leave, Fits-drain, drained-looping, drained-selecting,
}
use formation_web_analytics.Collector.Program.{
  Phase, drained, selecting, looping, sending, Program, is_draining, queue_of, show_depth, leave,
  on_notify, is_sent, finish_flush,
}

pub record IsConsistent {W : Type 0} (p : Program W) : Type 0 where
  pub balanced : IsBalanced p.collector
  pub carries : Carries p.place p.collector.flying
  pub fits : Fits p.phase p.place
  -- where the servers were shut with no handler left, a drain without error leaves nothing
  pub emptied : p.phase ≡ drained true → p.accepting ≡ false → held (queue_of p) ≡ []

pub no_events : (xs : List Event) → length xs < 1 → xs ≡ []
no_events [] h = refl
no_events (x ∷ xs) h = absurd (omega arith)

-- a queue of less than one event
pub none_held : (q : Queue Event) (least : ℕ) → Queue.len q < least → least ≡ 1 → held q ≡ []
unfolding Queue.len
none_held q least few one = no_events (held q) (omega (arith, few, one, length-held q))

module _ {W : Type 0} (sv : Services) (cfg : Config) (env : Phase → Environment W)
    (sticky : (f : Phase) (w : W)
      → ((env f).cancelled w).0 ≡ true
      → ((env f).cancelled ((env f).cancelled w).1).0 ≡ true)
    (woken : (f : Phase) (delay : ℕ) (w : W)
      → ((env f).wait delay w).0 ≡ false
      → ((env f).cancelled ((env f).wait delay w).1).0 ≡ true) where
  -- a loop returns with a balanced collector and no batch on its way
  pub leave-IsConsistent :
      (fine : Bool) (least : ℕ) (p : Program W)
      → IsBalanced p.collector
      → p.collector.flying ≡ none
      → Fits p.phase (looping least)
      → (fine ≡ true → least ≡ 1 → held (queue_of p) ≡ [])
      → IsConsistent (leave sv cfg env fine p)
  unfolding leave show_depth
  leave-IsConsistent fine least p b idle fits empty = elim (Bool-cases (is_draining p.phase)) [
    | inl drains ↦ rw drains (record {
      balanced = b;
      carries = idle;
      fits = tt;
      emptied = λ e. λ a. empty (cc) (Fits-drain p.phase least drains fits);
    })
    | inr runs ↦ rw runs (record {
      balanced = record { valid = b.valid; balance = b.balance };
      carries = idle;
      fits = Fits-leave p.phase least runs fits;
      emptied = λ e. λ a. absurd (drained-looping p.phase least e fits);
    })
  ]

  pub finish_flush-IsConsistent :
      (least : ℕ) (batch : List Event) (p : Program W)
      → p.place ≡ sending least
      → p.collector.flying ≡ some batch
      → IsConsistent p
      → IsConsistent (finish_flush sv cfg env least batch p)
  unfolding finish_flush finish_batch
  finish_flush-IsConsistent least batch p at_send fly h =
      let f = p.phase in
      let fits : Fits f (looping least) = Fits-sent f least (subst (Fits f) at_send h.fits) in
      let b =
        finish_batch-IsBalanced sv cfg (env f) (sticky f) (woken f) batch p.collector fly
          h.balanced in
      elim (Bool-cases (is_sent sv cfg env batch p)) [
        | inl sent ↦ rw sent (record {
          balanced = b;
          carries = refl;
          fits = fits;
          emptied = λ e. λ a. absurd (drained-looping f least e fits);
        })
        | inr failed ↦ rw failed (
            leave-IsConsistent false least
              (record p { collector = finish_batch sv cfg (env f) batch p.collector }) b refl fits
              (λ e. absurd (cc)))
      ]

  pub on_notify-IsConsistent :
      (p : Program W) → p.place ≡ selecting → IsConsistent p → IsConsistent (on_notify sv cfg env p)
  unfolding on_notify receive show_depth
  on_notify-IsConsistent p at_select h =
      let f = p.phase in
      let fits : Fits f selecting = subst (Fits f) at_select h.fits in
      let idle : p.collector.flying ≡ none =
        subst (λ a. Carries a p.collector.flying) at_select h.carries in
      let v = h.balanced.valid in
      let b : IsBalanced (record p.collector {
        server = record p.collector.server { queue = receive (queue_of p) };
      }) =
        record { valid = ground arith; balance = h.balanced.balance } in
      elim (Bool-cases (leb cfg.max_batch_size (Queue.len (receive (queue_of p))))) [
        | inl full ↦ rw full (record {
          balanced = b;
          carries = idle;
          fits = Fits-select f cfg.max_batch_size fits;
          emptied = λ e. λ a. absurd (drained-selecting f e fits);
        })
        | inr part ↦ rw part (record {
          balanced = record { valid = b.valid; balance = b.balance };
          carries = rw at_select idle;
          fits = h.fits;
          emptied = λ e. λ a. absurd (drained-selecting f e fits);
        })
      ]
