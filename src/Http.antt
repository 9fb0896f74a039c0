-- ===== src/Http.antt =====
-- internal/httpapi/server.go: what a request is checked for, and the answers of the handlers.
-- `Server` is the state that the handlers change; the printing of JSON is left out.
pub mod Collect
pub mod Admission
pub mod Screening
pub mod Outcome
pub mod Privacy
pub mod Agents
pub mod Routes
pub mod Examples
use formation_web_analytics.Base.{
  ℕ, Bool, true, false, ◌&&◌, ◌||◌, not, Option, none, some, List, [], ◌∷◌, ◌++◌, ltb, ◌==◌,
  if◌then◌else◌, Bytes, codes, bytes_eq, is_empty, lookup,
}
use formation_web_analytics.Go.{Url, Platform, to_lower}
use formation_web_analytics.Go.Strings.{trim_space, contains}
use formation_web_analytics.Config.{Config, Set, normalize_domain}
use formation_web_analytics.Event.{Event, GeoResult}
use formation_web_analytics.Events.Fields.{ValidationError}
use formation_web_analytics.Events.Decode.{Json}
use formation_web_analytics.Events.UserAgent.{Client}
use formation_web_analytics.Events.Metadata.{Request, allowed_domain}
use formation_web_analytics.Metrics.{Registry}
use formation_web_analytics.Queue.{Queue}
use formation_web_analytics.RateLimiter.{RateLimiter}

pub record Server : Type 0 where
  pub limiter : RateLimiter
  pub queue : Queue Event
  pub metrics : Registry

-- what the handlers call that is not part of the collector: Go's library, its JSON decoder, the
-- user-agent parser, and the open GeoIP database (`geo.Resolver.Lookup`)
pub record Services : Type 0 where
  pub go : Platform
  pub json : Json
  pub parse_user_agent : Bytes → Option Client
  pub geo_lookup : Bytes → Option GeoResult

-- the codes of error answers, in the source's words
pub data ErrorCode : Type 0 where
  rate_limited origin_required content_type_must_be_application_json : ErrorCode
  payload_too_large empty_body empty_batch invalid_json too_many_events : ErrorCode
  domain_not_allowed origin_not_allowed_for_site url_host_mismatch : ErrorCode
  invalid_event queue_full batcher_not_ready elasticsearch_not_ready : ErrorCode

pub record Response : Type 0 where
  pub status : ℕ
  pub error : Option ErrorCode
  pub detail : Option ValidationError
  pub headers : List (Bytes × Bytes)

abbrev pub respond_ok : ℕ → List (Bytes × Bytes) → Response
respond_ok status headers = record {
  status = status;
  error = none;
  detail = none;
  headers = headers;
}

-- the part of a needle's list that adds reasons; the reasons so far are also the set `seen`
unfoldable pub has_reason : List Bytes → Bytes → Bool
has_reason [] reason = false
has_reason (r ∷ reasons) reason = bytes_eq r reason || has_reason reasons reason

unfoldable pub add_reasons : Bytes → List Bytes → List Bytes → List Bytes
unfolding has_reason contains
add_reasons user_agent [] reasons = reasons
add_reasons user_agent (needle ∷ candidates) reasons =
    let reason = codes "user_agent:" ++ needle in
    add_reasons user_agent candidates (
      if not (contains needle user_agent) || has_reason reasons reason
      then reasons
      else reasons ++ reason ∷ [])

module _ (go : Platform) where
  unfoldable pub classify_user_agent : Bytes → List Bytes → List Bytes → Bool × List Bytes
  unfolding trim_space to_lower add_reasons
  classify_user_agent user_agent flagged suspect =
      let lowered = trim_space (to_lower go user_agent) in
      let reasons = add_reasons lowered suspect (add_reasons lowered flagged []) in
      if is_empty lowered
      then (true, codes "user_agent:missing" ∷ [])
      else (elim reasons [ [] ↦ false | ◌∷◌ r rs ↦ true ], reasons)

  unfoldable pub is_json_type : Bytes → Bool
  is_json_type content_type =
      let named : Bool = elim (go.media_type content_type) [
        | none ↦ false
        | some media_type ↦ bytes_eq media_type (codes "application/json")
      ] in
      is_empty content_type || named

  unfoldable pub allowed_origin : Option Set → Bytes → Bool
  unfolding normalize_domain
  allowed_origin none origin = false
  allowed_origin (some allowed) origin = elim (lookup (normalize_domain go origin) allowed) [
    | none ↦ false
    | some u ↦ true
  ]

  unfoldable pub origin_allowed_for_site : Config → Bytes → Bytes → Bool
  unfolding allowed_origin
  origin_allowed_for_site cfg site_id origin = elim cfg.site_origin_set [
    | [] ↦ true
    | ◌∷◌ _ _ ↦ allowed_origin (lookup site_id cfg.site_origin_set) origin
  ]

  unfoldable pub normalized_url_host : Bytes → Bytes
  unfolding trim_space normalize_domain
  normalized_url_host raw = elim (go.url_parse (trim_space raw)) [
    | none ↦ []
    | some parsed ↦ normalize_domain go (if is_empty parsed.host then parsed.path else parsed.host)
  ]

  unfoldable pub url_matches_origin : Bytes → Bytes → Bool
  unfolding normalized_url_host
  url_matches_origin raw_url origin =
      let url_host = normalized_url_host raw_url in
      let origin_host = normalized_url_host origin in
      is_empty (trim_space raw_url)
      || is_empty (trim_space origin)
      || not (is_empty url_host) && not (is_empty origin_host) && bytes_eq url_host origin_host

  -- the headers that `setCORS` adds
  unfoldable pub cors : Config → Request → List (Bytes × Bytes)
  unfolding allowed_domain
  cors cfg r =
      let origin = r.header (codes "Origin") in
      if not (is_empty origin) && allowed_domain go cfg origin
      then (codes "Access-Control-Allow-Origin", origin)
        ∷ (codes "Access-Control-Allow-Methods", codes "POST, OPTIONS")
        ∷ (codes "Access-Control-Allow-Headers", codes "Content-Type")
        ∷ (codes "Access-Control-Max-Age", codes "600")
        ∷ (codes "Vary", codes "Origin")
        ∷ []
      else []

  unfoldable pub handle_options : Config → Request → Response
  unfolding cors
  handle_options cfg r = respond_ok 204 (cors cfg r)

  unfoldable pub handle_health : Config → Request → Response
  unfolding cors
  handle_health cfg r = respond_ok 200 (cors cfg r)

  -- `ready` is `batcher.Ready()`, and `ping` whether `elastic.Ping` succeeds within its timeout
  unfoldable pub handle_ready : Config → Bool → Bool → Request → Response
  unfolding cors
  handle_ready cfg ready ping r =
      if not ready
      then record (respond_ok 503 (cors cfg r)) { error = some batcher_not_ready }
      else if cfg.require_elastic_ready && not ping
      then record (respond_ok 503 (cors cfg r)) { error = some elasticsearch_not_ready }
      else respond_ok 200 (cors cfg r)
