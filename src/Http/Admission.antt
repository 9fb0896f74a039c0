-- ===== src/Http/Admission.antt =====
-- What `handleCollect` does to the queue and to the counters.
use formation_web_analytics.Base.{
  ℕ, ◌+◌, ◌-◌, ◌≤◌, ◌<◌, ◌≡◌, refl, sym, ◌∙◌, ap, ◌⊎◌, inl, inr, true, false, List, ◌++◌, length,
  take, take-all, ltb, ltb→lt, ltb→le, le→ltb, lt→ltb, Bool-cases, arith, if◌then◌else◌, Bytes,
  Result, ok, err, some,
}
use formation_web_analytics.Config.{Config, DropPolicy, reject, drop_newest}
use formation_web_analytics.Event.{Event, zero_event}
use formation_web_analytics.Metrics.{add_u64}
use formation_web_analytics.Queue
use formation_web_analytics.Queue.{Queue}
use formation_web_analytics.Queue.Fifo
use formation_web_analytics.Queue.Fifo.{Fifo}
use formation_web_analytics.Queue.View.{IsValid, contents, view}
use formation_web_analytics.Queue.Refine.{length-contents, enqueue_refines, drop_newest_refines}
use formation_web_analytics.Http.{Server, Services, Response, respond_ok, queue_full}
use formation_web_analytics.Http.Collect.{Rejection, refusal, admit_all, admit_some, conclude}

abbrev pub held : Server → List Event
held s = contents zero_event s.queue

-- the number of the first `n` events that a queue has room for
abbrev pub room : Server → ℕ
room s = s.queue.capacity - length (held s)

-- the number of those events that it has no room for
abbrev pub lost : Server → List Event → ℕ
lost s enriched = length enriched - room s

-- the answer to events that do not fit under `drop_policy: reject`
abbrev no_room : List Event → Rejection
no_room enriched = refusal 503 queue_full (length enriched)

newest-not-reject : ¬ (drop_newest ≡ reject)
newest-not-reject e = cc

-- What the last part of the handler does with `enriched` where it answers 202: as many of them as
-- fit are put behind the queue, in order, and counted as accepted; the rest are counted as dropped.
pub record Admitted (s : Server) (headers : List (Bytes × Bytes)) (enriched : List Event)
    (out : Response × Server) : Type 0 where
  pub valid : IsValid out.1.queue
  pub same_capacity : out.1.queue.capacity ≡ s.queue.capacity
  pub answer : out.0 ≡ respond_ok 202 headers
  pub queued : held out.1 ≡ held s ++ take (room s) enriched
  pub accepted :
      out.1.metrics.accepted_events
      ≡ add_u64 s.metrics.accepted_events (length enriched - lost s enriched)
  pub dropped : out.1.metrics.dropped_events ≡ (
      if ltb 0 (lost s enriched)
      then add_u64 s.metrics.dropped_events (lost s enriched)
      else s.metrics.dropped_events)
  pub full :
      out.1.metrics.queue_full
      ≡ (if ltb 0 (lost s enriched) then add_u64 s.metrics.queue_full 1 else s.metrics.queue_full)
  pub depth : out.1.metrics.queued_current ≡ length (held out.1)
  pub rejected : out.1.metrics.rejected_events ≡ s.metrics.rejected_events
  pub indexed : out.1.metrics.bulk_indexed ≡ s.metrics.bulk_indexed
  pub failed : out.1.metrics.bulk_failed ≡ s.metrics.bulk_failed

-- What one of the error answers says, and what it leaves: the queue as it was, and the same number of
-- accepted and of dropped events.
pub record Refused (s : Server) (headers : List (Bytes × Bytes)) (e : Rejection)
    (out : Response × Server) : Type 0 where
  pub same_queue : out.1.queue ≡ s.queue
  pub answer :
      out.0
      ≡ record { status = e.status; error = some e.code; detail = e.detail; headers = headers }
  pub accepted : out.1.metrics.accepted_events ≡ s.metrics.accepted_events
  pub dropped : out.1.metrics.dropped_events ≡ s.metrics.dropped_events
  pub depth : out.1.metrics.queued_current ≡ s.metrics.queued_current
  pub counted : out.1.metrics.rejected_events ≡ add_u64 s.metrics.rejected_events e.rejected
  pub indexed : out.1.metrics.bulk_indexed ≡ s.metrics.bulk_indexed
  pub failed : out.1.metrics.bulk_failed ≡ s.metrics.bulk_failed

module _ (sv : Services) (cfg : Config) where
  admit_some-Admitted :
      (s : Server) (headers : List (Bytes × Bytes)) (enriched : List Event)
      → IsValid s.queue
      → Admitted s headers enriched (admit_some sv cfg s headers enriched)
  unfolding admit_some Fifo.drop_newest Queue.len
  admit_some-Admitted s headers enriched v =
      let (valid, e) = drop_newest_refines zero_event s.queue enriched v in
      let count : (Queue.drop_newest s.queue enriched).0 ≡ lost s enriched = ap (λ p. p.0) e in
      record {
        valid = valid;
        same_capacity = ap (λ p. p.1.capacity) e;
        answer = refl;
        queued = ap (λ p. p.1.pending) e;
        accepted = rw count (ground arith);
        dropped = rw count (ground arith);
        full = rw count (ground arith);
        depth = sym (length-contents zero_event (Queue.drop_newest s.queue enriched).1);
        rejected = ground arith;
        indexed = ground arith;
        failed = ground arith;
      }

  admit_all-Admitted :
      (s : Server) (headers : List (Bytes × Bytes)) (enriched : List Event)
      → IsValid s.queue
      → length (held s) + length enriched ≤ s.queue.capacity
      → Admitted s headers enriched (admit_all sv cfg s headers enriched)
  unfolding admit_all Fifo.enqueue Queue.len
  admit_all-Admitted s headers enriched v fits =
      let (valid, e) = enqueue_refines zero_event s.queue enriched v in
      let spec : Fifo.enqueue (view zero_event s.queue) enriched
          ≡ (true, record { pending = held s ++ enriched; capacity = s.queue.capacity }) =
        rw (le→ltb s.queue.capacity (length (held s) + length enriched) fits) in
      let yes' : (Queue.enqueue s.queue enriched).0 ≡ true = ap (λ p. p.0) (e ∙ spec) in
      let nothing_lost : lost s enriched ≡ 0 = omega arith in
      rw yes' (record {
        valid = valid;
        same_capacity = ap (λ p. p.1.capacity) (e ∙ spec);
        answer = refl;
        queued =
            ap (λ p. p.1.pending) (e ∙ spec)
            ∙ ap (λ es. held s ++ es) (sym (take-all (room s) enriched (omega arith)));
        accepted = rw nothing_lost (ground arith);
        dropped = rw nothing_lost;
        full = rw nothing_lost;
        depth = sym (length-contents zero_event (Queue.enqueue s.queue enriched).1);
        rejected = refl;
        indexed = refl;
        failed = refl;
      })

  admit_all-Refused :
      (s : Server) (headers : List (Bytes × Bytes)) (enriched : List Event)
      → IsValid s.queue
      → s.queue.capacity < length (held s) + length enriched
      → Refused s headers (no_room enriched) (admit_all sv cfg s headers enriched)
  unfolding admit_all Fifo.enqueue Queue.len
  admit_all-Refused s headers enriched v over =
      let (valid, e) = enqueue_refines zero_event s.queue enriched v in
      let spec : Fifo.enqueue (view zero_event s.queue) enriched
          ≡ (false, view zero_event s.queue) =
        rw (lt→ltb s.queue.capacity (length (held s) + length enriched) over) in
      let no' : (Queue.enqueue s.queue enriched).0 ≡ false = ap (λ p. p.0) (e ∙ spec) in
      rw no' (record {
        same_queue = refl;
        answer = refl;
        accepted = refl;
        dropped = refl;
        depth = refl;
        counted = refl;
        indexed = refl;
        failed = refl;
      })

  -- How `handleCollect` ends once the events are screened. Events that passed are admitted, under
  -- `reject` only if there is room for all of them; or they are refused, which takes both that
  -- policy and too little room.
  abbrev pub Concluded :
      Server → List (Bytes × Bytes) → Result Rejection (List Event) → Response × Server → Type 0
  Concluded s headers (ok enriched) out =
      (Admitted s headers enriched out
        × (cfg.drop_policy ≡ reject → length (held s) + length enriched ≤ s.queue.capacity))
      ⊎ (Refused s headers (no_room enriched) out
          × (cfg.drop_policy ≡ reject)
          × (s.queue.capacity < length (held s) + length enriched))
  Concluded s headers (err e) out = Refused s headers e out

  conclude_policy :
      (s : Server) (headers : List (Bytes × Bytes)) (enriched : List Event) (p : DropPolicy)
      → cfg.drop_policy ≡ p
      → IsValid s.queue
      → Concluded s headers (ok enriched) (conclude sv cfg s headers (ok enriched))
  unfolding conclude
  conclude_policy s headers enriched drop_newest e v =
      rw e
        (inl (admit_some-Admitted s headers enriched v, λ other. absurd (newest-not-reject other)))
  conclude_policy s headers enriched reject e v =
      elim (Bool-cases (ltb s.queue.capacity (length (held s) + length enriched))) [
        | inl over ↦
            let more = ltb→lt s.queue.capacity (length (held s) + length enriched) over in
            rw e (inr (admit_all-Refused s headers enriched v more, refl, more))
        | inr fits ↦
            let enough = ltb→le s.queue.capacity (length (held s) + length enriched) fits in
            rw e (inl (admit_all-Admitted s headers enriched v enough, λ same. enough))
      ]

  -- The last part of the handler ends in one of the two ways, whatever the checks found.
  pub conclude-Concluded :
      (s : Server) (headers : List (Bytes × Bytes)) (r : Result Rejection (List Event))
      → IsValid s.queue
      → Concluded s headers r (conclude sv cfg s headers r)
  conclude-Concluded s headers (ok enriched) v =
      conclude_policy s headers enriched cfg.drop_policy refl v
  conclude-Concluded s headers (err e) v =
      unfold conclude in
      record {
        same_queue = refl;
        answer = refl;
        accepted = refl;
        dropped = refl;
        depth = refl;
        counted = refl;
        indexed = refl;
        failed = refl;
      }
