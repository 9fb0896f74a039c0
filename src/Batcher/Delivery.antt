-- ===== src/Batcher/Delivery.antt =====
-- When the batcher delivers everything: each batch is accepted within the attempts it is given.
pub mod Examples
use formation_web_analytics.Base.{
  pos_part, ℕ, zero, suc, ◌+◌, ◌%◌, ◌^◌, ◌<◌, ◌≡◌, refl, ◌⊎◌, inl, inr, true, false, none, List, [],
  ◌∷◌, length, Bool-cases, ltb, ◌==◌, arith,
}
use formation_web_analytics.Event.{Event, zero_event}
use formation_web_analytics.Config.{Config}
use formation_web_analytics.Queue
use formation_web_analytics.Queue.{Queue}
use formation_web_analytics.Queue.View.{IsValid}
use formation_web_analytics.Elastic.Backoff.{backoff}
use formation_web_analytics.Metrics.{
  Registry, add_bulk_indexed, add_bulk_failed, inc_retry_attempt, inc_flush, observe_batch_size,
}
use formation_web_analytics.Batcher.{
  Environment, Outcome, done, failed, context_over, out_of_fuel, no_retry, nothing_again, attempts,
  send_with_retry, settle, flush, flush_while, flush_all, flush_full_batches,
}
use formation_web_analytics.Batcher.Retries.{settled}
use formation_web_analytics.Batcher.Flush.{length-held, held}
use formation_web_analytics.Batcher.Rounds.{HasEnded, flush-Balanced, flush_while-HasEnded}

module _ {W : Type 0} (env : Environment W) (cfg : Config) where
  -- The sender takes `pending` in one of `left` more attempts after this one: it answers with no
  -- error and nothing to retry, or with something to retry, the timer fires, and it takes that.
  abbrev pub Accepts : ℕ → ℕ → List Event → W → Type 0
  Accepts zero attempt pending w =
      let s = env.sender.send pending w in (s.result.retry ≡ []) × (s.is_error ≡ false)
  Accepts (suc left) attempt pending w =
      let s = env.sender.send pending w in
      let delay =
        pos_part (backoff env.jitter cfg.retry_min_backoff cfg.retry_max_backoff attempt) in
      let (fired, w') = env.wait delay s.world in
      ((s.result.retry ≡ []) × (s.is_error ≡ false))
      ⊎ ((no_retry env cfg s.result.retry ≡ false)
          × (fired ≡ true)
          × Accepts left (attempt + 1) s.result.retry w')

  pub attempts-fine :
      (left attempt : ℕ) (pending : List Event) (m : Registry) (w : W)
      → Accepts left attempt pending w
      → (attempts env cfg left attempt pending m w).error ≡ none
  unfolding attempts nothing_again no_retry
  attempts-fine zero attempt pending m w (empty, fine) = rw (empty, fine) refl
  attempts-fine (suc left) attempt pending m w (inl (empty, fine)) = rw (empty, fine) refl
  attempts-fine (suc left) attempt pending m w (inr (again, fired, later)) =
      let s = env.sender.send pending w in
      let m' =
        inc_retry_attempt (add_bulk_failed s.result.failed (add_bulk_indexed s.result.indexed m)) in
      rw (again, fired) (attempts-fine left (attempt + 1) s.result.retry m' _ later)

  module _ (live : (w : W) → (env.cancelled w).0 ≡ false)
      (woken : (delay : ℕ) (w : W)
        → (env.wait delay w).0 ≡ false
        → (env.cancelled (env.wait delay w).1).0 ≡ true)
      (quiet : (w : W) (q : Queue Event) → env.meanwhile w q ≡ q)
      (accepts : (batch : List Event) (w : W) → Accepts cfg.max_retries 0 batch w) where
    sticky : (w : W) → (env.cancelled w).0 ≡ true → (env.cancelled (env.cancelled w).1).0 ≡ true
    sticky w h = cc (live w)

    flush-done : (q : Queue Event) (m : Registry) (w : W) → (flush env cfg q m w).0 ≡ done
    unfolding flush send_with_retry settle
    flush-done q m w =
        let (batch, rest) = Queue.drain zero_event q cfg.max_batch_size in
        let fine =
          attempts-fine cfg.max_retries 0 batch
            (observe_batch_size (length batch) (env.size_thousandths (length batch)) (inc_flush m))
            w (accepts batch w) in
        elim (Bool-cases (Queue.len q == 0)) [
          | inl empty ↦ rw empty refl
          | inr full ↦ elim (Bool-cases (length batch == 0)) [
            | inl none_taken ↦ rw (full, none_taken) refl
            | inr taken ↦ rw (full, taken, fine) refl
          ]
        ]

    flush_while-done :
        (fuel least : ℕ) (q : Queue Event) (m : Registry) (w : W)
        → IsValid q
        → 0 < least
        → length (held q) < fuel
        → (flush_while env cfg fuel least q m w).0 ≡ done
    unfolding flush_while Queue.len
    flush_while-done zero least q m w v pos enough = absurd (omega arith)
    flush_while-done (suc fuel) least q m w v pos enough =
        let size : length (held q) ≡ q.size = length-held q in
        elim (Bool-cases (ltb q.size least)) [
          | inl few ↦ rw few refl
          | inr many ↦
              let w₁ = (env.cancelled w).1 in
              let r = flush env cfg q m w₁ in
              let fine = flush-done q m w₁ in
              let (valid, balance, less) =
                flush-Balanced env cfg sticky woken quiet q m w₁ v (ground (arith, size)) in
              rw (many, live w, fine)
                (flush_while-done fuel least r.1 r.2 r.3 valid pos (omega (arith, less fine)))
        ]

    no_events : (xs : List Event) → length xs < 1 → xs ≡ []
    no_events [] h = refl
    no_events (x ∷ xs) h = absurd (omega arith)

    delivered :
        (least : ℕ) (q : Queue Event) (m : Registry) (o : Outcome) (q' : Queue Event)
        (m' : Registry)
        → o ≡ done
        → HasEnded least q m o q' m'
        → IsValid q'
          × (length (held q') < least)
          × ((settled m' + length (held q')) % 2 ^ 64 ≡ (settled m + length (held q)) % 2 ^ 64)
    delivered least q m done q' m' e h = (h.valid, h.emptied, h.balance)
    delivered least q m (failed f) q' m' e h = absurd (cc)
    delivered least q m context_over q' m' e h = absurd (cc)
    delivered least q m out_of_fuel q' m' e h = absurd (cc)

    -- either loop, with a round for each event in the queue and one more
    flush_while-delivers :
        (least : ℕ) (q : Queue Event) (m : Registry) (w : W)
        → IsValid q
        → 0 < least
        → let (outcome, q', m', w') = flush_while env cfg (q.size + 1) least q m w in
          (outcome ≡ done)
          × IsValid q'
          × (length (held q') < least)
          × ((settled m' + length (held q')) % 2 ^ 64 ≡ (settled m + length (held q)) % 2 ^ 64)
    flush_while-delivers least q m w v pos =
        let enough : length (held q) < q.size + 1 = omega (arith, length-held q) in
        let (outcome, q', m', w') = flush_while env cfg (q.size + 1) least q m w in
        let e = flush_while-done (q.size + 1) least q m w v pos enough in
        let (valid, few, balance) =
          delivered least q m outcome q' m' e (
            flush_while-HasEnded env cfg sticky woken quiet (q.size + 1) least q m w v pos
              enough) in
        (e, valid, few, balance)

    -- Where the context stays live, no one adds to the queue and every batch is accepted within its
    -- attempts, `flushFullBatches` ends with no error and less than a full batch in the queue, and
    -- every event that left the queue is counted as indexed or failed. The batch size is positive.
    pub flush_full_batches-delivers :
        (q : Queue Event) (m : Registry) (w : W)
        → IsValid q
        → 0 < cfg.max_batch_size
        → let (outcome, q', m', w') = flush_full_batches env cfg q m w in
          (outcome ≡ done)
          × IsValid q'
          × (length (held q') < cfg.max_batch_size)
          × ((settled m' + length (held q')) % 2 ^ 64 ≡ (settled m + length (held q)) % 2 ^ 64)
    unfolding flush_full_batches Queue.len
    flush_full_batches-delivers q m w v pos = flush_while-delivers cfg.max_batch_size q m w v pos

    -- Under the same conditions `flushAll` ends with no error and an empty queue, and every event that
    -- was in it is counted as indexed or failed.
    pub flush_all-delivers :
        (q : Queue Event) (m : Registry) (w : W)
        → IsValid q
        → let (outcome, q', m', w') = flush_all env cfg q m w in
          (outcome ≡ done)
          × IsValid q'
          × (held q' ≡ [])
          × (settled m' % 2 ^ 64 ≡ (settled m + length (held q)) % 2 ^ 64)
    unfolding flush_all Queue.len
    flush_all-delivers q m w v =
        let (e, valid, few, balance) = flush_while-delivers 1 q m w v (omega arith) in
        (e, valid, no_events _ few, omega (arith, balance, few))
