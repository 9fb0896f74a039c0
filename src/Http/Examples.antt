-- ===== src/Http/Examples.antt =====
-- The theorems on `handleCollect` for one request of one view.
use formation_web_analytics.Base.{
  ℕ, some, Bytes, codes, Option, pos, ◌*◌, ◌≡◌, refl, true, List, [], Result, ok, err, arith,
  bytes_eq, lookup, subst, All, is_empty, ap, none, ◌⊎◌, ◌∷◌, false,
}
use formation_web_analytics.Event.{Event}
use formation_web_analytics.Queue.View.{IsValid}
use formation_web_analytics.Events.Decode.{decode_batch}
use formation_web_analytics.Events.Fields.{apply_field_limits, truncate_url_field, validate}
use formation_web_analytics.Events.Fields.{validate_timezone, validate_url_field}
use formation_web_analytics.Events.Metadata.{
  allowed_domain, client_ip, enrich, new_request_metadata,
}
use formation_web_analytics.Events.Payload.{truncate_payload, validate_payload}
use formation_web_analytics.Http.{classify_user_agent, is_json_type, origin_allowed_for_site}
use formation_web_analytics.RateLimiter.{allow, minute}
use formation_web_analytics.Http.Collect.{Rejection, screen, handle_collect}
use formation_web_analytics.Http.Screening.{IsAdmissible, screen-IsAdmissible}
use formation_web_analytics.Http.{cors}
use formation_web_analytics.Http.Admission.{Concluded}
use formation_web_analytics.Http.Outcome.{handle_collect-Concluded, IsSound}
use formation_web_analytics.Elastic.Ping.{Authorization}
use formation_web_analytics.Http.Routes.{handle, route}
use formation_web_analytics.Http.Routes.Effects.{HasServed, route-HasServed}
use formation_web_analytics.Go.{Url, to_lower}
use formation_web_analytics.Go.Strings.{trim_space}
use formation_web_analytics.Http.Agents.{IsClassified, classify_user_agent-IsClassified}
use formation_web_analytics.Go.Trim.{IsPlain}
use formation_web_analytics.Config.{Config}
use formation_web_analytics.Http.Admission.{held}
use formation_web_analytics.Events.Fields.Private.{PrintsPlain, IsPrivate}
use formation_web_analytics.Http.Privacy.{handle_collect-IsPrivate}
use formation_web_analytics.Samples.{site_url, platform, config, services, server, request}

unfoldable events_of : Result Rejection (List Event) → List Event
events_of (ok es) = es
events_of (err e) = []

-- what the checks make of the request
abbrev screened : List Event
screened = events_of (screen services config true request (pos 5))

screen-request : screen services config true request (pos 5) ≡ ok screened
unfolding screen events_of is_json_type bytes_eq decode_batch allowed_domain lookup
    new_request_metadata origin_allowed_for_site validate apply_field_limits classify_user_agent
    enrich validate_url_field truncate_url_field validate_timezone validate_payload truncate_payload
screen-request = refl

screen-IsAdmissible_example : (true ≡ true) × IsAdmissible services config request screened
screen-IsAdmissible_example =
    screen-IsAdmissible services config true request (pos 5) screened screen-request

server-IsValid : IsValid server.queue
server-IsValid = omega arith

handle_collect-Concluded_example :
    Concluded services config server
      (cors services.go config request)
      (screen services config
        (allow server.limiter
          (client_ip services.go request config.trust_proxy_headers)
          (60 * minute)).0
        request
        (pos 5))
      (handle_collect services config server request (60 * minute) (pos 5))
handle_collect-Concluded_example =
    handle_collect-Concluded services config server request (60 * minute) (pos 5) server-IsValid

server-IsSound : IsSound services config server
server-IsSound = record { valid = server-IsValid; screened = tt }

-- an Elasticsearch that answers every ping
abbrev get : Bytes → Authorization → ℕ → Option ℕ × ℕ
get url auth n = (some 200, n)

route-HasServed_example :
    HasServed services config get
      (codes "POST")
      (codes "/collect")
      server
      request
      (60 * minute)
      (pos 5)
      (handle services config get
        (route (λ s. s) (λ s. s) (codes "POST") (codes "/collect"))
        true
        server
        request
        (60 * minute)
        (pos 5)
        0)
route-HasServed_example =
    route-HasServed services config get (λ s. s) (λ s. s) (codes "POST") (codes "/collect") true
      server request (60 * minute) (pos 5) 0 server-IsSound

-- the sample platform knows one URL, which has no query
abbrev pub sanitizing : Config
sanitizing = record config { sanitize_urls = true }

parsed_as : (u : Url) → platform.url_parse [] ≡ some u → site_url ≡ u
parsed_as u e = ap (λ p. elim p [ none ↦ site_url | some v ↦ v ]) e

pub platform-PrintsPlain : PrintsPlain platform
platform-PrintsPlain = record {
  string = λ raw. λ u. λ e. omega arith;
  scheme = λ raw. λ u. λ e. subst (λ u. IsPlain u.scheme) (parsed_as u e) (omega arith);
  host = λ raw. λ u. λ e. subst (λ u. IsPlain u.host) (parsed_as u e) (omega arith);
  escaped = λ raw. λ u. λ e. subst (λ u. IsPlain u.path) (parsed_as u e) (omega arith);
  no_path = λ raw. λ u.
      λ e. subst (λ u. is_empty u.path ≡ true → u.path ≡ []) (parsed_as u e) (λ h. absurd (cc));
}

handle_collect-IsPrivate_example :
    IsValid (handle_collect services sanitizing server request (60 * minute) (pos 5)).1.queue
    × All IsPrivate
        (held (handle_collect services sanitizing server request (60 * minute) (pos 5)).1)
handle_collect-IsPrivate_example =
    handle_collect-IsPrivate services sanitizing platform-PrintsPlain refl server request
      (60 * minute) (pos 5) server-IsValid tt

classify_user_agent-IsClassified_example :
    let lowered = trim_space (to_lower platform (codes "Curl-Bot")) in
    let out =
      classify_user_agent platform
        (codes "Curl-Bot")
        (codes "curl" ∷ [])
        (codes "bot" ∷ codes "curl" ∷ []) in
    ((is_empty lowered ≡ true) × (out ≡ (true, codes "user_agent:missing" ∷ [])))
    ⊎ ((is_empty lowered ≡ false)
        × IsClassified lowered (codes "curl" ∷ codes "bot" ∷ codes "curl" ∷ []) out)
classify_user_agent-IsClassified_example =
    classify_user_agent-IsClassified platform (codes "Curl-Bot") (codes "curl" ∷ [])
      (codes "bot" ∷ codes "curl" ∷ [])
