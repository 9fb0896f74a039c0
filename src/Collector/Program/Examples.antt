-- ===== src/Collector/Program/Examples.antt =====
-- The program with the sample parameters and a server that takes every batch: it serves a request, is
-- interrupted, and drains its queue.
use formation_web_analytics.Base.{
  ℕ, pos, ◌*◌, ◌+◌, ◌%◌, ◌^◌, ◌<◌, ◌≡◌, refl, subst, true, false, none, List, [], arith, bytes_eq,
  lookup,
}
use formation_web_analytics.Event.{Event, zero_event}
use formation_web_analytics.Events.Decode.{decode_batch}
use formation_web_analytics.Events.Fields.{apply_field_limits, truncate_url_field, validate}
use formation_web_analytics.Events.Fields.{validate_timezone, validate_url_field}
use formation_web_analytics.Events.Metadata.{allowed_domain, enrich, new_request_metadata}
use formation_web_analytics.Events.Payload.{truncate_payload, validate_payload}
use formation_web_analytics.Queue
use formation_web_analytics.RateLimiter.{allow, minute, new_rate_limiter, truncate}
use formation_web_analytics.Http.{classify_user_agent, is_json_type, origin_allowed_for_site}
use formation_web_analytics.Batcher.{Environment, send_with_retry, settle}
use formation_web_analytics.Batcher.Retries.{settled}
use formation_web_analytics.Batcher.Flush.{held, length-held}
use formation_web_analytics.Batcher.Rounds.{drain_split}
use formation_web_analytics.Batcher.Delivery.{attempts-fine}
use formation_web_analytics.Queue.View.{IsValid}
use formation_web_analytics.Batcher.Delivery.Examples.{delivering-woken, delivering-Accepts}
use formation_web_analytics.Collector.{start, collect, take_batch, finish_batch}
use formation_web_analytics.Collector.Program.{
  is_stopped, selecting, serving, Phase, stopping, draining, drained, looping, sending, ended,
  Program, queue_of, begin, is_sent, finish_flush, leave, serve, take, finish, emptied, interrupted,
  closed, context_done, drain, Reaches, begun, moved,
}
use formation_web_analytics.Collector.Program.Consistent.{IsConsistent}
use formation_web_analytics.Collector.Program.Reachable.{Reaches-IsConsistent, Reaches-delivered}
use formation_web_analytics.Http.Examples.{sanitizing, platform-PrintsPlain}
use formation_web_analytics.Collector.Program.Contents.{Contains}
use formation_web_analytics.Collector.Program.Stored.{IsStored, Reaches-IsStored}
use formation_web_analytics.Samples.{accepting, delivering, config, services, request}

abbrev env : Phase → Environment ℕ
env f = delivering

sticky :
    (f : Phase) (w : ℕ)
    → ((env f).cancelled w).0 ≡ true
    → ((env f).cancelled ((env f).cancelled w).1).0 ≡ true
sticky f w h = h

woken :
    (f : Phase) (delay w : ℕ)
    → ((env f).wait delay w).0 ≡ false
    → ((env f).cancelled ((env f).wait delay w).1).0 ≡ true
woken f delay w h = delivering-woken delay w h

-- it serves one request, and is told to stop
abbrev stopped : Program ℕ
stopped = record {
  collector =
      collect services config delivering request (60 * minute) (pos 5)
        (start services config delivering 0);
  place = ended;
  phase = stopping;
  accepting = false;
}

stopped-Reaches : Reaches services config env 0 stopped
unfolding begin start is_stopped
stopped-Reaches =
    moved
      (moved
        (moved (moved begun (serve refl services.geo_lookup request (60 * minute) (pos 5)))
          (interrupted refl))
        (closed true refl))
      (context_done refl refl)

-- it takes the event
abbrev took : Program ℕ
took = record stopped {
  collector = take_batch services config delivering stopped.collector;
  place = sending 1;
  phase = draining;
}

abbrev batch : List Event
batch = (Queue.drain zero_event (queue_of stopped) config.max_batch_size).0

batch-is_sent : is_sent services config env batch took ≡ true
unfolding is_sent send_with_retry
batch-is_sent =
    let c = took.collector in
    rw
      (
        attempts-fine delivering config config.max_retries 0 batch c.server.metrics c.world
            (delivering-Accepts batch c.world),
        is_sent,
      )
      refl

abbrev flushed : Program ℕ
flushed = record took {
  collector = finish_batch services config delivering batch took.collector;
  place = looping 1;
}

finish_flush-flushed : finish_flush services config env 1 batch took ≡ flushed
unfolding finish_flush
finish_flush-flushed = rw batch-is_sent refl

stopped-len : Queue.len (queue_of stopped) ≡ 1
unfolding collect start allow new_rate_limiter Queue.drop_newest Queue.len bytes_eq lookup
    is_json_type decode_batch allowed_domain new_request_metadata origin_allowed_for_site validate
    apply_field_limits classify_user_agent enrich validate_url_field truncate_url_field
    validate_timezone validate_payload truncate_payload truncate Queue.new
stopped-len = refl

stopped-IsValid : IsValid (queue_of stopped)
stopped-IsValid =
    (Reaches-IsConsistent services config env sticky woken stopped-Reaches).balanced.valid

-- and nothing is left
flushed-len : Queue.len (queue_of flushed) < 1
unfolding finish_batch send_with_retry settle take_batch Queue.len
flushed-len =
    let c = took.collector in
    let (parts, some_taken, _) =
      drain_split config.max_batch_size (queue_of stopped) stopped-IsValid
        (omega (arith, stopped-len, length-held (queue_of stopped))) in
    rw
      (attempts-fine delivering config config.max_retries 0 batch c.server.metrics c.world
        (delivering-Accepts batch c.world))
      (omega (
        arith,
        parts,
        some_taken,
        stopped-len,
        length-held (queue_of stopped),
        length-held (queue_of took),
      ))

abbrev over : Program ℕ
over = record flushed { place = ended; phase = drained true }

over-Reaches : Reaches services config env 0 over
unfolding leave take_batch
over-Reaches =
    let draining_now = moved stopped-Reaches (drain refl refl) in
    let sending_now =
      moved draining_now
        (take 1 refl (omega (arith, stopped-len)) refl (omega (arith, stopped-len))) in
    let sent_now = moved sending_now (finish 1 batch refl refl) in
    moved (subst (Reaches services config env 0) finish_flush-flushed sent_now)
      (emptied 1 refl flushed-len)

Reaches-IsConsistent_example : IsConsistent over
Reaches-IsConsistent_example = Reaches-IsConsistent services config env sticky woken over-Reaches

Reaches-delivered_example :
    (held (queue_of over) ≡ [])
    × (over.collector.flying ≡ none)
    × ((over.collector.server.metrics.accepted_events + over.collector.repeated) % 2 ^ 64
        ≡ (settled over.collector.server.metrics + over.collector.lost) % 2 ^ 64)
Reaches-delivered_example =
    Reaches-delivered services config env sticky woken over-Reaches refl refl

-- while it serves, it receives a notification
abbrev running : Program ℕ
running = record stopped { place = selecting; phase = serving; accepting = true }

-- with SANITIZE_URLS on, after one request
abbrev served : Program ℕ
served =
    let p = begin services sanitizing env 0 in
    record p {
      collector = collect services sanitizing delivering request (60 * minute) (pos 5) p.collector;
    }

served-Reaches : Reaches services sanitizing env 0 served
unfolding begin
served-Reaches = moved begun (serve refl services.geo_lookup request (60 * minute) (pos 5))

Reaches-IsStored_example : Contains (IsStored services sanitizing) served
Reaches-IsStored_example =
    Reaches-IsStored services sanitizing accepting env platform-PrintsPlain refl
      (λ f. λ batch. λ w. refl) sticky woken 0 served served-Reaches
