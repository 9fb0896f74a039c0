-- ===== src/Collector/Program/Flushed.antt =====
-- A flush as a function against the steps that take its batch and end it.
use formation_web_analytics.Base.{
  ℕ, ◌<◌, ◌≤◌, ◌≡◌, refl, sym, ◌∙◌, ap, ap₂, true, false, none, length, subst,
}
use formation_web_analytics.Event.{Event}
use formation_web_analytics.Config.{Config}
use formation_web_analytics.Queue
use formation_web_analytics.Queue.{Queue}
use formation_web_analytics.Queue.View.{IsValid}
use formation_web_analytics.Http.{Services}
use formation_web_analytics.Batcher.{Environment, FlushError, failed}
use formation_web_analytics.Batcher.Flush.{held}
use formation_web_analytics.Collector.{take_batch, finish_batch}
use formation_web_analytics.Collector.Flushes.{finish_batch-take_batch}
use formation_web_analytics.Collector.Program.{
  Phase, looping, Program, queue_of, leave, asked, is_sent, finish_flush, take, finish, Moves,
  still, onward,
}
use formation_web_analytics.Collector.Program.Rounds.{
  settled_as, landed, Lands, front_of, taken, sent, flushed, next, finish_flush-failed,
  failed-landed,
}

module _ {W : Type 0} (sv : Services) (cfg : Config) (env : Phase → Environment W)
    (quiet : (f : Phase) (w : W) (q : Queue Event) → (env f).meanwhile w q ≡ q) where
  -- what is left of the collector is what `flush` leaves
  sent-flushed :
      (p : Program W)
      → IsValid (queue_of p)
      → 0 < length (held (queue_of p))
      → sent sv cfg env p ≡ record p.collector {
        server = record p.collector.server {
          queue = (flushed sv cfg env p).1;
          metrics = (flushed sv cfg env p).2;
        };
        flying = none;
        world = (flushed sv cfg env p).3;
        lost = (sent sv cfg env p).lost;
        repeated = (sent sv cfg env p).repeated;
      }
  unfolding finish_batch take_batch
  sent-flushed p v pos =
      let (server, world, idle) =
        finish_batch-take_batch sv cfg (env p.phase) (quiet p.phase)
          (asked sv cfg env p).1.collector v pos in
      ap₂ (λ s w. record (sent sv cfg env p) { server = s; world = w }) server world

  sent-settled_as :
      (p : Program W)
      → p.collector.flying ≡ none
      → IsValid (queue_of p)
      → 0 < length (held (queue_of p))
      → sent sv cfg env p
        ≡ settled_as sv cfg env p
            (flushed sv cfg env p)
            (sent sv cfg env p).lost
            (sent sv cfg env p).repeated
  sent-settled_as p idle v pos =
      sent-flushed p v pos
      ∙ ap
          (λ o.
            record (settled_as sv cfg env p (flushed sv cfg env p) (sent sv cfg env p).lost
              (sent sv cfg env p).repeated) { flying = o })
          (sym idle)

  pub next-Moves :
      (least : ℕ) (p : Program W)
      → p.place ≡ looping least
      → p.collector.flying ≡ none
      → least ≤ Queue.len (queue_of p)
      → 0 < Queue.len (queue_of p)
      → IsValid (queue_of p)
      → 0 < length (held (queue_of p))
      → (asked sv cfg env p).0 ≡ false
      → is_sent sv cfg env (front_of sv cfg env p) (taken sv cfg env least p) ≡ true
      → Moves sv cfg env p (next sv cfg env least p)
  unfolding take_batch finish_flush
  next-Moves least p l idle many some_queued v some_held live fine =
      let same : finish_flush sv cfg env least (front_of sv cfg env p) (taken sv cfg env least p)
          ≡ next sv cfg env least p =
        rw fine (
          ap (λ c. record p { collector = c; place = looping least })
            (sent-settled_as p idle v some_held)) in
      subst (Moves sv cfg env p) same (
        onward (take least l many live some_queued)
          (onward (finish least (front_of sv cfg env p) refl refl) still))

  -- a round that ends the loop with an error
  pub failed-Lands :
      (least : ℕ) (p : Program W) (e : FlushError)
      → p.place ≡ looping least
      → p.collector.flying ≡ none
      → least ≤ Queue.len (queue_of p)
      → 0 < Queue.len (queue_of p)
      → IsValid (queue_of p)
      → 0 < length (held (queue_of p))
      → (asked sv cfg env p).0 ≡ false
      → is_sent sv cfg env (front_of sv cfg env p) (taken sv cfg env least p) ≡ false
      → (flushed sv cfg env p).0 ≡ failed e
      → Lands sv cfg env least p (flushed sv cfg env p)
  unfolding take_batch
  failed-Lands least p e l idle many some_queued v some_held live unsent bad =
      let same : finish_flush sv cfg env least (front_of sv cfg env p) (taken sv cfg env least p)
          ≡ landed sv cfg env p (flushed sv cfg env p) (sent sv cfg env p).lost
              (sent sv cfg env p).repeated =
        finish_flush-failed sv cfg env least p unsent
        ∙ ap (λ c. leave sv cfg env false (record p { collector = c }))
            (sent-settled_as p idle v some_held)
        ∙ sym (
            failed-landed sv cfg env p e (sent sv cfg env p).lost (sent sv cfg env p).repeated
              bad) in
      (
        (sent sv cfg env p).lost,
        (sent sv cfg env p).repeated,
        subst (Moves sv cfg env p) same (
            onward (take least l many live some_queued)
              (onward (finish least (front_of sv cfg env p) refl refl) still)),
      )
