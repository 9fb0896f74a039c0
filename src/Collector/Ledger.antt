-- ===== src/Collector/Ledger.antt =====
-- The accounts of the running collector.
use formation_web_analytics.Base.{
  Bytes, ℕ, ◌+◌, ◌-◌, ◌%◌, ◌^◌, ◌<◌, ◌≤◌, ℤ, ◌≡◌, refl, sym, ap, inl, inr, true, false, Option,
  none, some, List, length, take, length-append, length-take, Bool-cases, arith, subst, Result, ok,
  err,
}
use formation_web_analytics.Event.{Event, zero_event}
use formation_web_analytics.Config.{Config}
use formation_web_analytics.Events.Metadata.{Request, client_ip}
use formation_web_analytics.Metrics.{Registry}
use formation_web_analytics.Queue
use formation_web_analytics.Queue.{Queue}
use formation_web_analytics.Queue.View.{IsValid}
use formation_web_analytics.Queue.Trace.{new-IsValid}
use formation_web_analytics.RateLimiter.{allow}
use formation_web_analytics.Http.{Server, Services, Response, cors}
use formation_web_analytics.Http.Collect.{Rejection, screen, handle_collect}
use formation_web_analytics.Http.Admission.{Concluded}
use formation_web_analytics.Http.Outcome.{handle_collect-Concluded}
use formation_web_analytics.Batcher.{
  Environment, FlushError, pending_retry, retries_exhausted, refused, Tried, send_with_retry,
  settle, restore, after_error, observe_latency,
}
use formation_web_analytics.Batcher.Retries.{
  settled, Conserved, send_with_retry-Conserved, send_with_retry-le,
}
use formation_web_analytics.Batcher.Flush.{
  length-held, held, pending-over, length-attempts, restored,
}
use formation_web_analytics.Batcher.Intake.{attempts-accepted}
use formation_web_analytics.Batcher.Rounds.{drain_split}
use formation_web_analytics.Collector.{
  Collector, new_server, start, collect, take_batch, over_after, newly_lost, newly_repeated,
  finish_batch, Step, serve, finish, notified, Reach, started, onward,
}
use formation_web_analytics.Collector

-- the events of the batch that is on its way
abbrev pub on_its_way : Option (List Event) → ℕ
on_its_way none = 0
on_its_way (some batch) = length batch

-- The queue is valid, and every event that was accepted, and every event that was counted and put
-- back, is counted as indexed or failed, in the queue, on its way, or lost.
pub record IsBalanced {W : Type 0} (c : Collector W) : Type 0 where
  pub valid : IsValid c.server.queue
  pub balance :
      (c.server.metrics.accepted_events + c.repeated) % 2 ^ 64
      ≡ (settled c.server.metrics + length (held c.server.queue) + on_its_way c.flying + c.lost)
        % 2 ^ 64

module _ {W : Type 0} (sv : Services) (cfg : Config) (env : Environment W)
    (sticky : (w : W) → (env.cancelled w).0 ≡ true → (env.cancelled (env.cancelled w).1).0 ≡ true)
    (woken : (delay : ℕ) (w : W)
      → (env.wait delay w).0 ≡ false
      → (env.cancelled (env.wait delay w).1).0 ≡ true) where
  pub start-IsBalanced : (w : W) → IsBalanced (start sv cfg env w)
  unfolding start Queue.new
  start-IsBalanced w = record { valid = new-IsValid zero_event cfg.max_queue_size; balance = refl }

  -- what a request adds to the queue is what it adds to the accepted events
  Concluded-balance :
      (s : Server) (headers : List (Bytes × Bytes)) (r : Result Rejection (List Event))
      (out : Response × Server) (others : ℕ) (repeated : ℕ)
      → IsValid s.queue
      → (s.metrics.accepted_events + repeated) % 2 ^ 64
        ≡ (settled s.metrics + length (held s.queue) + others) % 2 ^ 64
      → Concluded sv cfg s headers r out
      → IsValid out.1.queue
        × ((out.1.metrics.accepted_events + repeated) % 2 ^ 64
            ≡ (settled out.1.metrics + length (held out.1.queue) + others) % 2 ^ 64)
  Concluded-balance s headers (ok enriched) out others repeated v h (inl (a, fits)) =
      let room = s.queue.capacity - length (held s.queue) in
      (
        a.valid,
        omega (
          arith,
          a.accepted,
          a.indexed,
          a.failed,
          ap (λ xs. length xs) a.queued,
          length-append (held s.queue) (take room enriched),
          length-take room enriched,
        ),
      )
  Concluded-balance s headers (ok enriched) out others repeated v h (inr (b, policy, over)) = (
    subst IsValid (sym b.same_queue) v,
    omega (arith, b.accepted, b.indexed, b.failed, ap (λ q. length (held q)) b.same_queue),
  )
  Concluded-balance s headers (err e) out others repeated v h b = (
    subst IsValid (sym b.same_queue) v,
    omega (arith, b.accepted, b.indexed, b.failed, ap (λ q. length (held q)) b.same_queue),
  )

  pub collect-IsBalanced :
      (r : Request) (clock : ℕ) (now : ℤ) (c : Collector W)
      → IsBalanced c
      → IsBalanced (collect sv cfg env r clock now c)
  unfolding collect
  collect-IsBalanced r clock now c b =
      let allowed = (allow c.server.limiter (client_ip sv.go r cfg.trust_proxy_headers) clock).0 in
      let (valid, balance) =
        Concluded-balance c.server (cors sv.go cfg r) (screen sv cfg allowed r now)
          (handle_collect sv cfg c.server r clock now) (on_its_way c.flying + c.lost) c.repeated
          b.valid (omega (arith, b.balance))
          (handle_collect-Concluded sv cfg c.server r clock now b.valid) in
      record { valid = valid; balance = omega (arith, balance) }

  pub take_batch-IsBalanced :
      (c : Collector W)
      → c.flying ≡ none
      → 0 < Queue.len c.server.queue
      → IsBalanced c
      → IsBalanced (take_batch sv cfg env c)
  unfolding take_batch Queue.len
  take_batch-IsBalanced c idle some_held b =
      let q = c.server.queue in
      let size : length (held q) ≡ q.size = length-held q in
      let (split, _, valid) = drain_split cfg.max_batch_size q b.valid (omega (arith, size)) in
      record { valid = valid; balance = omega (arith, b.balance, split, ap on_its_way idle) }

  -- what `flush` does after `sendWithRetry`, with what it loses and repeats
  settle-balance :
      (n : ℕ) (q : Queue Event) (before : Registry) (begun : W) (t : Tried W)
      (e : Option FlushError)
      → IsValid q
      → length t.batch ≡ n
      → length t.pending ≤ n
      → ((p : List Event) → e ≡ some (pending_retry p) → (env.cancelled t.world).0 ≡ true)
      → Conserved n before e t.pending t.metrics
      → let (outcome, q', after, w) = settle env cfg begun t q e in
        IsValid q'
        × ((settled before
                + n
                + length (held q)
                + newly_repeated sv cfg env e (over_after sv cfg env t) n (length t.pending))
              % 2 ^ 64
            ≡ (settled after
                + length (held q')
                + newly_lost sv cfg env e (over_after sv cfg env t) (length t.pending))
              % 2 ^ 64)
        × (after.accepted_events ≡ t.metrics.accepted_events)
  unfolding settle after_error restore observe_latency newly_lost newly_repeated
  settle-balance n q before begun t none v same le over c = (v, omega arith, refl)
  settle-balance n q before begun t (some (pending_retry p)) v same le over c =
      let (valid, e) = restored env cfg sticky woken q p v in
      rw (over p refl)
        (valid, omega (arith, ap (λ xs. length xs) e, length-append p (held q)), refl)
  settle-balance n q before begun t (some retries_exhausted) v same le over c =
      let (valid, e) = restored env cfg sticky woken q t.batch v in
      elim (Bool-cases (env.cancelled t.world).0) [
        | inl over_now ↦
            rw over_now
              (valid, omega (arith, ap (λ xs. length xs) e, length-append t.batch (held q)), refl)
        | inr live ↦ rw live (v, omega arith, refl)
      ]
  settle-balance n q before begun t (some refused) v same le over c =
      let (valid, e) = restored env cfg sticky woken q t.batch v in
      elim (Bool-cases (env.cancelled t.world).0) [
        | inl over_now ↦
            rw over_now
              (valid, omega (arith, ap (λ xs. length xs) e, length-append t.batch (held q)), refl)
        | inr live ↦ rw live (v, omega arith, refl)
      ]

  pub finish_batch-IsBalanced :
      (batch : List Event) (c : Collector W)
      → c.flying ≡ some batch
      → IsBalanced c
      → IsBalanced (finish_batch sv cfg env batch c)
  unfolding finish_batch send_with_retry
  finish_batch-IsBalanced batch c fly b =
      let m = c.server.metrics in
      let t = send_with_retry env cfg batch m c.world in
      let (valid, balance, accepted) =
        settle-balance (length batch) c.server.queue m c.world t t.error b.valid
          (length-attempts env cfg cfg.max_retries 0 batch m c.world)
          (send_with_retry-le env cfg batch m c.world)
          (pending-over env cfg sticky woken cfg.max_retries 0 batch m c.world)
          (send_with_retry-Conserved env cfg batch m c.world) in
      record {
        valid = valid;
        balance = omega (
          arith,
          b.balance,
          balance,
          accepted,
          ap on_its_way fly,
          attempts-accepted env cfg cfg.max_retries 0 batch m c.world,
        );
      }

  Step-IsBalanced : {c c' : Collector W} → Step sv cfg env c c' → IsBalanced c → IsBalanced c'
  Step-IsBalanced {c} (serve r clock now) b = collect-IsBalanced r clock now c b
  Step-IsBalanced {c} (Collector.take idle some_held) b = take_batch-IsBalanced c idle some_held b
  Step-IsBalanced {c} (finish batch fly) b = finish_batch-IsBalanced batch c fly b
  Step-IsBalanced {c} notified b =
      let v = b.valid in record { valid = ground arith; balance = b.balance }

  -- In every state that the running collector reaches, however requests and flushes interleave and
  -- whatever the server answers, the queue is valid and the accounts balance: the accepted events,
  -- with those that are counted and in the queue again, are the events counted as indexed or failed,
  -- those in the queue, those on their way and those lost. The counters wrap at 2^64. A context that
  -- is done stays done, and is what ends a pause early.
  pub Reach-IsBalanced : {w : W} {c : Collector W} → Reach sv cfg env w c → IsBalanced c
  Reach-IsBalanced {w} started = start-IsBalanced w
  Reach-IsBalanced (onward r s) = Step-IsBalanced s (Reach-IsBalanced r)
