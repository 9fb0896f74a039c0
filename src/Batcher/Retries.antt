-- ===== src/Batcher/Retries.antt =====
-- What `sendWithRetry` counts, and what it leaves to be sent again.
use formation_web_analytics.Base.{
  pos_part, ℕ, zero, suc, ◌+◌, ◌%◌, ◌^◌, ◌≤◌, ◌≡◌, ◌≢◌, refl, ap, inl, inr, true, false, Option,
  none, some, List, [], ◌∷◌, length, Bool-cases, arith,
}
use formation_web_analytics.Event.{Event}
use formation_web_analytics.Config.{Config}
use formation_web_analytics.Elastic.Sender.{BulkResult, Sent, Accounts}
use formation_web_analytics.Elastic.Backoff.{backoff}
use formation_web_analytics.Metrics.{Registry, add_bulk_indexed, add_bulk_failed, inc_retry_attempt}
use formation_web_analytics.Batcher.{
  Environment, FlushError, pending_retry, retries_exhausted, refused, nothing_again, exhausted,
  interrupted, no_retry, attempts, send_with_retry,
}

-- the events counted as indexed or as failed
abbrev pub settled : Registry → ℕ
settled m = m.bulk_indexed + m.bulk_failed

-- What has become of `n` events that `before` had not counted: with no error, or with spent retries,
-- all are counted; with a `pendingRetryError` all but those that it holds, and with the sender's own
-- error all but those that were sent last, `left`.
abbrev pub Conserved : ℕ → Registry → Option FlushError → List Event → Registry → Type 0
Conserved n before none left after = settled after % 2 ^ 64 ≡ (settled before + n) % 2 ^ 64
Conserved n before (some retries_exhausted) left after =
    settled after % 2 ^ 64 ≡ (settled before + n) % 2 ^ 64
Conserved n before (some (pending_retry p)) left after =
    (settled after + length p) % 2 ^ 64 ≡ (settled before + n) % 2 ^ 64
Conserved n before (some refused) left after =
    (settled after + length left) % 2 ^ 64 ≡ (settled before + n) % 2 ^ 64

-- the counters after one call of `Send`
abbrev counted : BulkResult → Registry → Registry
counted r m = add_bulk_failed r.failed (add_bulk_indexed r.indexed m)

settled-counted :
    (r : BulkResult) (m : Registry)
    → settled (counted r m) % 2 ^ 64 ≡ (settled m + r.indexed + r.failed) % 2 ^ 64
settled-counted r m = omega arith

Conserved-step :
    (n k : ℕ) (m m' after : Registry) (e : Option FlushError) (l : List Event)
    → (settled m' + k) % 2 ^ 64 ≡ (settled m + n) % 2 ^ 64
    → Conserved k m' e l after
    → Conserved n m e l after
Conserved-step n k m m' after none l h c = omega arith
Conserved-step n k m m' after (some retries_exhausted) l h c = omega arith
Conserved-step n k m m' after (some (pending_retry p)) l h c = omega arith
Conserved-step n k m m' after (some refused) l h c = omega arith

module _ {W : Type 0} {pending : List Event} {s : Sent W} (a : Accounts pending s) where
  -- what is to be sent again makes up the batch with what was counted
  total_again :
      s.result.retry ≢ []
      → s.result.indexed + s.result.failed + length s.result.retry ≡ length pending
  total_again ne = elim (Bool-cases s.is_error) [
    | inr fine ↦ a.settled fine
    | inl bad ↦
        let (i, f, r) = a.refused bad in
        elim r [
          | inl empty ↦ absurd (ne empty)
          | inr whole ↦ omega (arith, ap (λ xs. length xs) whole, a.same_length)
        ]
  ]

module _ {W : Type 0} (env : Environment W) (cfg : Config) where
  nothing_again-Conserved :
      (pending : List Event) (s : Sent W) (m : Registry)
      → Accounts pending s
      → s.result.retry ≡ []
      → let t = nothing_again env cfg s (counted s.result m) in
        Conserved (length pending) m t.error t.pending t.metrics
  unfolding nothing_again
  nothing_again-Conserved pending s m a e = elim (Bool-cases s.is_error) [
    | inr fine ↦ rw fine (omega (arith, a.settled fine, ap (λ xs. length xs) e))
    | inl bad ↦
        let (i, f, r) = a.refused bad in
        elim (Bool-cases (env.cancelled s.world).0) [
          | inl over ↦ rw (bad, over) (omega (arith, a.same_length))
          | inr on ↦ rw (bad, on) (omega (arith, a.same_length))
        ]
  ]

  exhausted-Conserved :
      (pending : List Event) (s : Sent W) (m : Registry)
      → Accounts pending s
      → s.result.retry ≢ []
      → let t = exhausted env cfg s (counted s.result m) in
        Conserved (length pending) m t.error t.pending t.metrics
  unfolding exhausted
  exhausted-Conserved pending s m a ne = elim (Bool-cases (env.cancelled s.world).0) [
    | inl over ↦ rw over (omega (arith, total_again a ne))
    | inr on ↦ rw on (omega (arith, total_again a ne))
  ]

  no_retry-true : (xs : List Event) → no_retry env cfg xs ≡ true → xs ≡ []
  unfolding no_retry
  no_retry-true [] h = refl
  no_retry-true (x ∷ xs) h = absurd (cc)

  no_retry-false : (xs : List Event) → no_retry env cfg xs ≡ false → xs ≢ []
  unfolding no_retry
  no_retry-false [] h = absurd (cc)
  no_retry-false (x ∷ xs) h = λ e. cc

  attempts-Conserved :
      (left attempt : ℕ) (pending : List Event) (m : Registry) (w : W)
      → let t = attempts env cfg left attempt pending m w in
        Conserved (length pending) m t.error t.pending t.metrics
  unfolding attempts
  attempts-Conserved zero attempt pending m w =
      let s = env.sender.send pending w in
      let a = env.sender.accounts pending w in
      elim (Bool-cases (no_retry env cfg s.result.retry)) [
        | inl empty ↦ rw empty (nothing_again-Conserved pending s m a (no_retry-true _ empty))
        | inr some_left ↦
            rw some_left (exhausted-Conserved pending s m a (no_retry-false _ some_left))
      ]
  attempts-Conserved (suc left) attempt pending m w =
      let s = env.sender.send pending w in
      let a = env.sender.accounts pending w in
      let m' = counted s.result m in
      let paused =
        env.wait (pos_part (backoff env.jitter cfg.retry_min_backoff cfg.retry_max_backoff attempt))
          s.world in
      elim (Bool-cases (no_retry env cfg s.result.retry)) [
        | inl empty ↦ rw empty (nothing_again-Conserved pending s m a (no_retry-true _ empty))
        | inr some_left ↦
            let again = total_again a (no_retry-false _ some_left) in
            let step : (settled m' + length s.result.retry) % 2 ^ 64
                ≡ (settled m + length pending) % 2 ^ 64 =
              omega arith in
            elim (Bool-cases paused.0) [
              | inr stopped ↦ rw (some_left, stopped) (unfold interrupted in step)
              | inl fired ↦
                  let next =
                    attempts-Conserved left (attempt + 1) s.result.retry (inc_retry_attempt m')
                      paused.1 in
                  rw (some_left, fired)
                    (Conserved-step (length pending) (length s.result.retry) m
                      (inc_retry_attempt m') _ _ _ step next)
            ]
      ]

  -- `sendWithRetry` counts each event of the batch once, as indexed or as failed, but for those that
  -- it hands back in a `pendingRetryError`, or those that it sent last where it ends with the sender's
  -- own error; the counters wrap at 2^64. This holds for every sender that accounts for its batches.
  pub send_with_retry-Conserved :
      (batch : List Event) (m : Registry) (w : W)
      → let t = send_with_retry env cfg batch m w in
        Conserved (length batch) m t.error t.pending t.metrics
  unfolding send_with_retry
  send_with_retry-Conserved batch m w = attempts-Conserved cfg.max_retries 0 batch m w

  pending-le :
      (left attempt : ℕ) (batch : List Event) (m : Registry) (w : W)
      → length (attempts env cfg left attempt batch m w).pending ≤ length batch
  unfolding attempts nothing_again exhausted interrupted
  pending-le zero attempt batch m w = ground (arith, (env.sender.accounts batch w).same_length)
  pending-le (suc left) attempt batch m w =
      let s = env.sender.send batch w in
      let a = env.sender.accounts batch w in
      let m' = counted s.result m in
      let paused =
        env.wait (pos_part (backoff env.jitter cfg.retry_min_backoff cfg.retry_max_backoff attempt))
          s.world in
      let next = pending-le left (attempt + 1) s.result.retry (inc_retry_attempt m') paused.1 in
      elim (Bool-cases (no_retry env cfg s.result.retry)) [
        | inl empty ↦ rw empty (ground (arith, a.same_length))
        | inr some_left ↦ ground (arith, next, total_again a (no_retry-false _ some_left))
      ]

  -- what is sent last is no more than the batch
  pub send_with_retry-le :
      (batch : List Event) (m : Registry) (w : W)
      → length (send_with_retry env cfg batch m w).pending ≤ length batch
  unfolding send_with_retry
  send_with_retry-le batch m w = pending-le cfg.max_retries 0 batch m w
