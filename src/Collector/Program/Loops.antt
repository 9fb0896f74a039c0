-- ===== src/Collector/Program/Loops.antt =====
-- The loops of flushes as functions against the steps of the program.
use formation_web_analytics.Base.{
  ℕ, zero, suc, ◌<◌, ◌≤◌, ◌≡◌, refl, ◌∙◌, inl, inr, true, false, none, length, ltb, Bool-cases,
  arith, subst,
}
use formation_web_analytics.Event.{Event}
use formation_web_analytics.Config.{Config}
use formation_web_analytics.Queue
use formation_web_analytics.Queue.{Queue}
use formation_web_analytics.Queue.View.{IsValid}
use formation_web_analytics.Http.{Services}
use formation_web_analytics.Batcher.{
  Environment, FlushError, done, failed, context_over, flush_while,
}
use formation_web_analytics.Batcher.Flush.{held, length-held}
use formation_web_analytics.Batcher.Rounds.{flush-Balanced}
use formation_web_analytics.Collector.Program.{
  Phase, looping, Program, queue_of, asked, Moves, still, onward,
}
use formation_web_analytics.Collector.Program.Flushed.{next-Moves, failed-Lands}
use formation_web_analytics.Collector.Program.Rounds.{
  looped, Lands, flushed, next, Result, is_sent-flushed, next-landed, few-Lands, over-Lands,
}

module _ {W : Type 0} (sv : Services) (cfg : Config) (env : Phase → Environment W) where
  pub len_held : (q : Queue Event) → length (held q) ≡ Queue.len q
  unfolding Queue.len
  len_held q = length-held q

  -- what a loop makes of a flush
  abbrev pub round : Result sv cfg env → Result sv cfg env → Result sv cfg env
  round r rest = elim r.0 [ done ↦ rest | other ↦ (other, r.1, r.2, r.3) ]

  round-done : (r rest : Result sv cfg env) → r.0 ≡ done → round r rest ≡ rest
  round-done r rest e = rw e refl

  round-failed : (r rest : Result sv cfg env) (e : FlushError) → r.0 ≡ failed e → round r rest ≡ r
  round-failed r rest e bad = rw bad refl

  looped-round :
      (fuel least : ℕ) (p : Program W)
      → ltb (Queue.len (queue_of p)) least ≡ false
      → (asked sv cfg env p).0 ≡ false
      → looped sv cfg env (suc fuel) least p
        ≡ round (flushed sv cfg env p) (looped sv cfg env fuel least (next sv cfg env least p))
  unfolding flush_while
  looped-round fuel least p many live = rw (many, live) refl

  looped-few :
      (fuel least : ℕ) (p : Program W)
      → ltb (Queue.len (queue_of p)) least ≡ true
      → let c = p.collector in
        looped sv cfg env (suc fuel) least p ≡ (done, c.server.queue, c.server.metrics, c.world)
  unfolding flush_while
  looped-few fuel least p few = rw few refl

  looped-over :
      (fuel least : ℕ) (p : Program W)
      → ltb (Queue.len (queue_of p)) least ≡ false
      → (asked sv cfg env p).0 ≡ true
      → let c = (asked sv cfg env p).1.collector in
        looped sv cfg env (suc fuel) least p
        ≡ (context_over, c.server.queue, c.server.metrics, c.world)
  unfolding flush_while
  looped-over fuel least p many over = rw (many, over) refl

  join :
      {p p' p'' : Program W}
      → Moves sv cfg env p p'
      → Moves sv cfg env p' p''
      → Moves sv cfg env p p''
  join still after = after
  join (onward m before) after = onward m (join before after)

  next-Lands :
      (least : ℕ) (p : Program W) (r : Result sv cfg env)
      → Moves sv cfg env p (next sv cfg env least p)
      → Lands sv cfg env least (next sv cfg env least p) r
      → Lands sv cfg env least p r
  next-Lands least p r before (lost, repeated, after) = (
    lost,
    repeated,
    join before (
        subst (Moves sv cfg env (next sv cfg env least p))
          (next-landed sv cfg env least p r lost repeated) after),
  )

module _ {W : Type 0} (sv : Services) (cfg : Config) (env : Phase → Environment W)
    (sticky : (f : Phase) (w : W)
      → ((env f).cancelled w).0 ≡ true
      → ((env f).cancelled ((env f).cancelled w).1).0 ≡ true)
    (woken : (f : Phase) (delay : ℕ) (w : W)
      → ((env f).wait delay w).0 ≡ false
      → ((env f).cancelled ((env f).wait delay w).1).0 ≡ true)
    (quiet : (f : Phase) (w : W) (q : Queue Event) → (env f).meanwhile w q ≡ q) where
  -- a flush without error leaves a valid queue with fewer events
  flush-shrinks :
      (p : Program W)
      → IsValid (queue_of p)
      → 0 < length (held (queue_of p))
      → (flushed sv cfg env p).0 ≡ done
      → IsValid (flushed sv cfg env p).1
        × (length (held (flushed sv cfg env p).1) < length (held (queue_of p)))
  flush-shrinks p v pos ok =
      let f = p.phase in
      let c = (asked sv cfg env p).1.collector in
      let (valid, balance, less) =
        flush-Balanced (env f) cfg (sticky f) (woken f) (quiet f) c.server.queue c.server.metrics
          c.world v pos in
      (valid, less ok)

  -- A loop that ends is a sequence of steps.
  pub looped-Lands :
      (fuel least : ℕ) (p : Program W)
      → p.place ≡ looping least
      → p.collector.flying ≡ none
      → IsValid (queue_of p)
      → 0 < least
      → length (held (queue_of p)) < fuel
      → Lands sv cfg env least p (looped sv cfg env fuel least p)
  looped-Lands zero least p l idle v pos enough = absurd (omega arith)
  looped-Lands (suc fuel) least p l idle v pos enough =
      let q = queue_of p in
      let size : length (held q) ≡ Queue.len q = len_held sv cfg env q in
      elim (Bool-cases (ltb (Queue.len q) least)) [
        | inl few ↦
            rw (looped-few sv cfg env fuel least p few)
              (few-Lands sv cfg env least p l (ground arith))
        | inr many ↦ elim (Bool-cases (asked sv cfg env p).0) [
          | inl over ↦
              rw (looped-over sv cfg env fuel least p many over)
                (over-Lands sv cfg env least p l (ground arith) over)
          | inr live ↦
              let full : least ≤ Queue.len q = ground arith in
              let some_queued : 0 < Queue.len q = omega arith in
              let some_held : 0 < length (held q) = omega arith in
              elim (is_sent-flushed sv cfg env least p v some_held) [
                | inl (fine, ok) ↦
                    let (v', less) = flush-shrinks p v some_held ok in
                    let stay = looped sv cfg env fuel least (next sv cfg env least p) in
                    rw
                      (looped-round sv cfg env fuel least p many live
                        ∙ round-done sv cfg env (flushed sv cfg env p) stay ok)
                      (next-Lands sv cfg env least p stay
                        (next-Moves sv cfg env quiet least p l idle full some_queued v some_held
                          live fine)
                        (looped-Lands fuel least (next sv cfg env least p) refl idle v' pos
                          (omega arith)))
                | inr (e, unsent, bad) ↦
                    rw
                      (looped-round sv cfg env fuel least p many live
                        ∙ round-failed sv cfg env (flushed sv cfg env p)
                            (looped sv cfg env fuel least (next sv cfg env least p)) e bad)
                      (failed-Lands sv cfg env quiet least p e l idle full some_queued v some_held
                        live unsent bad)
              ]
        ]
      ]
