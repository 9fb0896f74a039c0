-- ===== src/Http/Collect.antt =====
-- `handleCollect`, internal/httpapi/server.go, lines 79 to 193.
use formation_web_analytics.Base.{
  ℕ, ◌-◌, ℤ, Bool, true, ◌&&◌, not, Option, none, some, List, [], ◌∷◌, ◌++◌, length, ltb, ◌==◌,
  if◌then◌else◌, Bytes, codes, is_empty, Result, ok, err, ◌>>=◌, ◌>>◌, refuse_if,
}
use formation_web_analytics.Go.Strings.{trim_space}
use formation_web_analytics.Config.{Config, reject, drop_newest}
use formation_web_analytics.Event.{Event, GeoResult}
use formation_web_analytics.Events.Fields.{ValidationError, apply_field_limits, validate}
use formation_web_analytics.Events.Decode.{DecodeError, other_error, decode_batch}
use formation_web_analytics.Events.Metadata.{Request, RequestMetadata, client_ip}
use formation_web_analytics.Events.Metadata.{new_request_metadata, enrich, allowed_domain}
use formation_web_analytics.Metrics.{inc_accepted, inc_rejected, inc_dropped, inc_queue_full}
use formation_web_analytics.Metrics.{set_queue_depth}
use formation_web_analytics.Queue
use formation_web_analytics.RateLimiter.{allow}
use formation_web_analytics.Http.{
  Server, Services, ErrorCode, rate_limited, origin_required, payload_too_large, empty_body,
  empty_batch, invalid_json, too_many_events, domain_not_allowed, origin_not_allowed_for_site,
  url_host_mismatch, invalid_event, queue_full, content_type_must_be_application_json, Response,
  respond_ok, classify_user_agent, is_json_type, origin_allowed_for_site, url_matches_origin, cors,
}

-- One of the early returns: the answer, and what `IncRejected` is given.
pub record Rejection : Type 0 where
  pub status : ℕ
  pub code : ErrorCode
  pub detail : Option ValidationError
  pub rejected : ℕ

abbrev pub refusal : ℕ → ErrorCode → ℕ → Rejection
refusal status code n = record { status = status; code = code; detail = none; rejected = n }

-- `io.ReadAll` of a body limited to `max_payload_bytes`
unfoldable pub read_all : Config → Option Bytes → Result Rejection Bytes
read_all cfg none = err (refusal 413 payload_too_large 1)
read_all cfg (some body) =
    if ltb cfg.max_payload_bytes (length body)
    then err (refusal 413 payload_too_large 1)
    else ok body

unfoldable pub decoded : Result DecodeError (List Event) → Result Rejection (List Event)
decoded (ok events) = ok events
decoded (err other_error) = err (refusal 400 invalid_json 1)
decoded (err DecodeError.empty_batch) = err (refusal 400 empty_batch 1)

unfoldable pub validated : Result ValidationError (Unit {0}) → Result Rejection (Unit {0})
validated (ok u) = ok u
validated (err e) =
    err (record { status = 400; code = invalid_event; detail = some e; rejected = 1 })

unfoldable pub mark_suspect : Bool × List Bytes → Event → Event
mark_suspect (suspect, reasons) e =
    if suspect
    then record e {
      is_suspect = true;
      traffic_quality = codes "suspect";
      suspicion_reasons = e.suspicion_reasons ++ reasons;
    }
    else e

unfoldable pub locate : Option GeoResult → Event → Event
locate none e = e
locate (some g) e = record e {
  geo_country_iso = g.country_iso_code;
  geo_country_name = g.country_name;
  geo_city_name = g.city_name;
  geo_location = g.point;
}

module _ (sv : Services) (cfg : Config) where
  -- one round of the loop over the batch
  unfoldable pub prepare :
      RequestMetadata → Bool × List Bytes → Option GeoResult → ℤ → Event → Result Rejection Event
  unfolding mark_suspect locate validated
  prepare m class geo now event = do
    let e = mark_suspect class (enrich sv.go m cfg event now)
    refuse_if (not (origin_allowed_for_site sv.go cfg e.site_id e.origin))
        (refusal 403 origin_not_allowed_for_site 1)
    refuse_if (cfg.require_url_host_match && not (url_matches_origin sv.go e.url e.origin))
        (refusal 403 url_host_mismatch 1)
    let limited = apply_field_limits sv.go cfg e
    validated (validate sv.go cfg limited)
    ok (locate geo limited)

  unfoldable pub prepare_all :
      RequestMetadata
      → Bool × List Bytes
      → Option GeoResult
      → ℤ
      → List Event
      → Result Rejection (List Event)
  unfolding prepare
  prepare_all m class geo now [] = ok []
  prepare_all m class geo now (event ∷ batch) = do
    e ← prepare m class geo now event
    enriched ← prepare_all m class geo now batch
    ok (e ∷ enriched)

  -- from the decoded batch to the events for the queue
  unfoldable pub prepare_batch : Request → ℤ → List Event → Result Rejection (List Event)
  unfolding prepare_all
  prepare_batch r now batch = do
    refuse_if (ltb cfg.max_events_per_request (length batch))
        (refusal 413 too_many_events (length batch))
    let m = new_request_metadata sv.go sv.parse_user_agent r cfg
    refuse_if (not (allowed_domain sv.go cfg m.request_domain))
        (refusal 403 domain_not_allowed (length batch))
    let class =
        classify_user_agent sv.go (r.header (codes "User-Agent")) cfg.blocked_user_agents
          cfg.suspect_user_agents
    prepare_all m class (sv.geo_lookup m.client_ip) now batch

  -- from the rate limiter's answer to the events for the queue
  unfoldable pub screen : Bool → Request → ℤ → Result Rejection (List Event)
  unfolding read_all decoded prepare_batch
  screen allowed r now = do
    refuse_if (not allowed) (refusal 429 rate_limited 1)
    refuse_if (cfg.require_origin && is_empty (trim_space (r.header (codes "Origin"))))
        (refusal 403 origin_required 1)
    refuse_if (not (is_json_type sv.go (r.header (codes "Content-Type"))))
        (refusal 415 content_type_must_be_application_json 1)
    body ← read_all cfg r.body
    refuse_if (length body == 0) (refusal 400 empty_body 1)
    batch ← decoded (decode_batch sv.json body)
    prepare_batch r now batch

  -- the end of the handler, under `drop_policy: reject`
  unfoldable pub admit_all : Server → List (Bytes × Bytes) → List Event → Response × Server
  admit_all s headers enriched =
      let (fits, q) = Queue.enqueue s.queue enriched in
      if fits
      then (
        respond_ok 202 headers,
        record s {
          queue = q;
          metrics = set_queue_depth (Queue.len q) (inc_accepted (length enriched) s.metrics);
        },
      )
      else (
        record (respond_ok 503 headers) { error = some queue_full },
        record s { metrics = inc_queue_full (inc_rejected (length enriched) s.metrics) },
      )

  -- and under `drop_newest`
  unfoldable pub admit_some : Server → List (Bytes × Bytes) → List Event → Response × Server
  admit_some s headers enriched =
      let (dropped, q) = Queue.drop_newest s.queue enriched in
      let m = if ltb 0 dropped then inc_queue_full (inc_dropped dropped s.metrics) else s.metrics in
      (
        respond_ok 202 headers,
        record s {
          queue = q;
          metrics = set_queue_depth (Queue.len q) (inc_accepted (length enriched - dropped) m);
        },
      )

  unfoldable pub conclude :
      Server → List (Bytes × Bytes) → Result Rejection (List Event) → Response × Server
  unfolding admit_all admit_some
  conclude s headers (ok enriched) = elim cfg.drop_policy [
    | reject ↦ admit_all s headers enriched
    | drop_newest ↦ admit_some s headers enriched
  ]
  conclude s headers (err e) = (
    record { status = e.status; error = some e.code; detail = e.detail; headers = headers },
    record s { metrics = inc_rejected e.rejected s.metrics },
  )

  -- `clock` is the time that the limiter is given, and `now` that of the enrichment
  unfoldable pub handle_collect : Server → Request → ℕ → ℤ → Response × Server
  unfolding conclude screen
  handle_collect s r clock now =
      let (allowed, limiter) = allow s.limiter (client_ip sv.go r cfg.trust_proxy_headers) clock in
      conclude (record s { limiter = limiter }) (cors sv.go cfg r) (screen allowed r now)
