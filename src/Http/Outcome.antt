-- ===== src/Http/Outcome.antt =====
-- What `handleCollect` as a whole answers, and what it keeps true of the queue.
use formation_web_analytics.Base.{
  Bytes, ℕ, ℤ, ◌≡◌, refl, sym, inl, inr, List, take, All, All-append, All-take, Result, ok, err,
  subst,
}
use formation_web_analytics.Config.{Config}
use formation_web_analytics.Event.{Event}
use formation_web_analytics.Events.Metadata.{Request, client_ip}
use formation_web_analytics.Queue.View.{IsValid}
use formation_web_analytics.RateLimiter.{RateLimiter, allow}
use formation_web_analytics.Http.{Server, Services, Response, cors}
use formation_web_analytics.Http.Collect.{Rejection, screen, handle_collect}
use formation_web_analytics.Http.Screening.{IsScreened, screen-IsAdmissible}
use formation_web_analytics.Http.Admission.{held, room, Concluded, conclude-Concluded}

module _ (sv : Services) (cfg : Config) where
  Concluded-limiter :
      (s : Server) (limiter : RateLimiter) (headers : List (Bytes × Bytes))
      (r : Result Rejection (List Event)) (out : Response × Server)
      → Concluded sv cfg (record s { limiter = limiter }) headers r out
      → Concluded sv cfg s headers r out
  Concluded-limiter s limiter headers (ok enriched) out (inl (a, fits)) = inl (
    record {
      valid = a.valid;
      same_capacity = a.same_capacity;
      answer = a.answer;
      queued = a.queued;
      accepted = a.accepted;
      dropped = a.dropped;
      full = a.full;
      depth = a.depth;
      rejected = a.rejected;
      indexed = a.indexed;
      failed = a.failed;
    },
    fits,
  )
  Concluded-limiter s limiter headers (ok enriched) out (inr (b, policy, over)) = inr (
    record {
      same_queue = b.same_queue;
      answer = b.answer;
      accepted = b.accepted;
      dropped = b.dropped;
      depth = b.depth;
      counted = b.counted;
      indexed = b.indexed;
      failed = b.failed;
    },
    policy,
    over,
  )
  Concluded-limiter s limiter headers (err e) out b = record {
    same_queue = b.same_queue;
    answer = b.answer;
    accepted = b.accepted;
    dropped = b.dropped;
    depth = b.depth;
    counted = b.counted;
    indexed = b.indexed;
    failed = b.failed;
  }

  -- With a valid queue, a request ends in one of three ways. If a check fails, the answer is the
  -- status, the code and the detail of that check, and as many events are counted as rejected as it
  -- says. If the events pass, but DROP_POLICY is `reject` and there is not room for all of them, the
  -- answer is 503 with `queue_full`, and all are counted as rejected. Both leave the queue, the
  -- accepted and the dropped events as they are. Otherwise, that is under the other policy or with
  -- room for all, the answer is 202, as many of the events as there is room for are put behind the
  -- queue in order and counted as accepted, and the others, of which there are none under `reject`,
  -- are counted as dropped; the gauge shows the depth of the queue. The headers of each answer are those of `setCORS`.
  pub handle_collect-Concluded :
      (s : Server) (r : Request) (clock : ℕ) (now : ℤ)
      → IsValid s.queue
      → let allowed = (allow s.limiter (client_ip sv.go r cfg.trust_proxy_headers) clock).0 in
        Concluded sv cfg s
          (cors sv.go cfg r)
          (screen sv cfg allowed r now)
          (handle_collect sv cfg s r clock now)
  unfolding handle_collect
  handle_collect-Concluded s r clock now v =
      let (allowed, limiter) = allow s.limiter (client_ip sv.go r cfg.trust_proxy_headers) clock in
      Concluded-limiter s limiter (cors sv.go cfg r) (screen sv cfg allowed r now) _ (
        conclude-Concluded sv cfg (record s { limiter = limiter }) (cors sv.go cfg r)
          (screen sv cfg allowed r now) v)

  -- what the collector keeps true of its queue
  pub record IsSound (s : Server) : Type 0 where
    pub valid : IsValid s.queue
    pub screened : All (IsScreened sv cfg) (held s)

  -- what holds of the events before a request and of those that pass its checks holds after it
  pub Concluded-All :
      (P : Event → Type 0) (s : Server) (headers : List (Bytes × Bytes))
      (r : Result Rejection (List Event)) (out : Response × Server)
      → IsValid s.queue
      → All P (held s)
      → ((enriched : List Event) → r ≡ ok enriched → All P enriched)
      → Concluded sv cfg s headers r out
      → IsValid out.1.queue × All P (held out.1)
  Concluded-All P s headers (ok enriched) out v h all (inl (a, fits)) = (
    a.valid,
    subst (All P) (sym a.queued) (
        All-append P (held s) (take (room s) enriched) h
          (All-take P (room s) enriched (all enriched refl))),
  )
  Concluded-All P s headers (ok enriched) out v h all (inr (b, policy, over)) =
      (subst IsValid (sym b.same_queue) v, rw b.same_queue h)
  Concluded-All P s headers (err e) out v h all b =
      (subst IsValid (sym b.same_queue) v, rw b.same_queue h)

  -- Every request leaves the queue valid, and every event in it within its limits and from an origin
  -- that its site allows, if that was so before the request.
  pub handle_collect-IsSound :
      (s : Server) (r : Request) (clock : ℕ) (now : ℤ)
      → IsSound s
      → IsSound (handle_collect sv cfg s r clock now).1
  handle_collect-IsSound s r clock now h =
      let allowed = (allow s.limiter (client_ip sv.go r cfg.trust_proxy_headers) clock).0 in
      let (valid, screened) =
        Concluded-All (IsScreened sv cfg) s (cors sv.go cfg r) (screen sv cfg allowed r now)
          (handle_collect sv cfg s r clock now) h.valid h.screened
          (λ enriched. λ e. (screen-IsAdmissible sv cfg allowed r now enriched e).1.screened)
          (handle_collect-Concluded s r clock now h.valid) in
      record { valid = valid; screened = screened }
