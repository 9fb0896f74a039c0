-- ===== src/Collector/Examples.antt =====
-- A collector with the sample parameters: it serves a request, takes the event and is refused.
use formation_web_analytics.Base.{
  ◌^◌, [], ℕ, pos, ◌*◌, ◌+◌, ◌%◌, ◌<◌, ◌≡◌, refl, true, false, some, none, List, length, arith,
  bytes_eq, lookup,
}
use formation_web_analytics.Event.{Event, zero_event}
use formation_web_analytics.Events.Decode.{decode_batch}
use formation_web_analytics.Events.Fields.{apply_field_limits, truncate_url_field, validate}
use formation_web_analytics.Events.Fields.{validate_timezone, validate_url_field}
use formation_web_analytics.Events.Metadata.{allowed_domain, enrich, new_request_metadata}
use formation_web_analytics.Events.Payload.{truncate_payload, validate_payload}
use formation_web_analytics.Queue
use formation_web_analytics.Queue.{Queue}
use formation_web_analytics.RateLimiter.{allow, minute, new_rate_limiter, truncate}
use formation_web_analytics.Http.{classify_user_agent, is_json_type, origin_allowed_for_site}
use formation_web_analytics.Queue.View.{IsValid}
use formation_web_analytics.Batcher.Flush.{length-held, held}
use formation_web_analytics.Collector.{
  Collector, start, collect, take_batch, finish_batch, Step, serve, finish, Reach, started, onward,
}
use formation_web_analytics.Collector
use formation_web_analytics.Collector.Ledger.{IsBalanced, Reach-IsBalanced}
use formation_web_analytics.Collector.Shutdown.{shut_down, shut_down-delivers}
use formation_web_analytics.Batcher.{done}
use formation_web_analytics.Batcher.Retries.{settled}
use formation_web_analytics.Batcher.Delivery.Examples.{
  delivering-live, delivering-woken, delivering-quiet, delivering-Accepts,
}
use formation_web_analytics.Samples.{delivering, config, environment, services, request}

sticky :
    (w : ℕ)
    → (environment.cancelled w).0 ≡ true
    → (environment.cancelled (environment.cancelled w).1).0 ≡ true
sticky w h = h

woken :
    (delay w : ℕ)
    → (environment.wait delay w).0 ≡ false
    → (environment.cancelled (environment.wait delay w).1).0 ≡ true
woken delay w h = cc

abbrev served : Collector ℕ
served =
    collect services config environment request (60 * minute) (pos 5)
      (start services config environment 0)

-- the request's event is queued
served-one : Queue.len served.server.queue ≡ 1
unfolding collect start allow new_rate_limiter Queue.drop_newest Queue.len bytes_eq lookup
    is_json_type decode_batch allowed_domain new_request_metadata origin_allowed_for_site validate
    apply_field_limits classify_user_agent enrich validate_url_field truncate_url_field
    validate_timezone validate_payload truncate_payload truncate Queue.new
served-one = refl

served-some : 0 < Queue.len served.server.queue
served-some = rw served-one (omega arith)

served-idle : served.flying ≡ none
unfolding collect start
served-idle = refl

abbrev took : Collector ℕ
took = take_batch services config environment served

abbrev batch : List Event
batch = (Queue.drain zero_event served.server.queue config.max_batch_size).0

took-flying : took.flying ≡ some batch
unfolding take_batch
took-flying = refl

abbrev finished : Collector ℕ
finished = finish_batch services config environment batch took

finished-Reach : Reach services config environment 0 finished
finished-Reach =
    onward
      (onward (onward started (serve request (60 * minute) (pos 5)))
        (Collector.take served-idle served-some))
      (finish batch took-flying)

finished-IsBalanced : IsBalanced finished
finished-IsBalanced = Reach-IsBalanced services config environment sticky woken finished-Reach

quiet : (w : ℕ) (q : Queue Event) → environment.meanwhile w q ≡ q
quiet w q = refl

served-IsValid : IsValid served.server.queue
served-IsValid =
    (Reach-IsBalanced services config environment sticky woken
      (onward started (serve request (60 * minute) (pos 5)))).valid

served-held : 0 < length (held served.server.queue)
unfolding Queue.len
served-held = omega (arith, served-some, length-held served.server.queue)

idle : finished.flying ≡ none
unfolding finish_batch take_batch collect start
idle = refl

shut_down-delivers_example :
    ((shut_down config delivering true finished).0 ≡ done)
    × (held (shut_down config delivering true finished).1.server.queue ≡ [])
    × ((shut_down config delivering true finished).1.server.metrics.accepted_events
        ≡ finished.server.metrics.accepted_events)
    × (((shut_down config delivering true finished).1.server.metrics.accepted_events
            + (shut_down config delivering true finished).1.repeated)
          % 2 ^ 64
        ≡ (settled (shut_down config delivering true finished).1.server.metrics
            + (shut_down config delivering true finished).1.lost)
          % 2 ^ 64)
shut_down-delivers_example =
    shut_down-delivers config delivering finished finished-IsBalanced idle delivering-live
      delivering-woken delivering-quiet delivering-Accepts
