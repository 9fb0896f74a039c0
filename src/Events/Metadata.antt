-- ===== src/Events/Metadata.antt =====
-- internal/events/events.go, lines 165 to 358: what a request says of all its events, and the
-- enrichment of an event with it.
use formation_web_analytics.Base.{
  ℤ, Bool, true, false, Option, none, some, [], ◌∷◌, if◌then◌else◌, Bytes, codes, lookup,
}
use formation_web_analytics.Go.{Platform}
use formation_web_analytics.Go.Strings.{trim_space, split_at}
use formation_web_analytics.Config.{Config, normalize_domain}
use formation_web_analytics.Event.{Event}
use formation_web_analytics.Events.Fields.{sanitize_url, sanitize_path, normalize}
use formation_web_analytics.Events.UserAgent.{Client, Details, user_agent_details}
use formation_web_analytics.Events.Languages.{Languages, accept_language_details, timezone_details}

-- An `http.Request`: `header` is `r.Header.Get`, which gives "" for a missing header. `body` is what
-- the client sends, `none` if reading it fails.
pub record Request : Type 0 where
  pub header : Bytes → Bytes
  pub host : Bytes
  pub url_host : Bytes
  pub tls : Bool
  pub remote_addr : Bytes
  pub body : Option Bytes

pub record RequestMetadata : Type 0 where
  pub request_host : Bytes
  pub request_domain : Bytes
  pub client_ip : Bytes
  pub user_agent : Bytes
  pub details : Details
  pub accept_language : Bytes
  pub languages : Languages
  pub origin : Bytes
  pub referer_header : Bytes
  pub scheme : Bytes
  pub forwarded_for : Bytes
  pub remote_addr : Bytes
  pub collector_version : Bytes

-- the value, or what follows if it is empty
abbrev or_else : Bytes → Bytes → Bytes
or_else [] next = next
or_else (c ∷ s) next = c ∷ s

unfoldable pub effective_host : Request → Bool → Bytes
unfolding trim_space
effective_host r trust_proxy_headers =
    let own = or_else r.host r.url_host in
    if trust_proxy_headers
    then or_else (trim_space (r.header (codes "X-Forwarded-Host"))) own
    else own

unfoldable pub scheme : Request → Bool → Bytes
unfolding trim_space
scheme r trust_proxy_headers =
    let own = if r.tls then codes "https" else codes "http" in
    if trust_proxy_headers
    then or_else (trim_space (r.header (codes "X-Forwarded-Proto"))) own
    else own

-- the first of a list of addresses
unfoldable pub first_forwarded : Bytes → Bytes → Bytes
unfolding trim_space split_at
first_forwarded [] own = own
first_forwarded (c ∷ s) own = trim_space (split_at b',' (c ∷ s)).0

unfoldable pub client_ip : Platform → Request → Bool → Bytes
unfolding first_forwarded
client_ip go r trust_proxy_headers =
    let own : Bytes = elim (go.split_host r.remote_addr) [
      | none ↦ r.remote_addr
      | some host ↦ host
    ] in
    if trust_proxy_headers
    then or_else (trim_space (r.header (codes "X-Real-IP")))
        (first_forwarded (trim_space (r.header (codes "X-Forwarded-For"))) own)
    else own

module _ (go : Platform) (parse : Bytes → Option Client) where
  unfoldable pub new_request_metadata : Request → Config → RequestMetadata
  unfolding effective_host scheme client_ip user_agent_details accept_language_details sanitize_url
  new_request_metadata r cfg =
      let user_agent = trim_space (r.header (codes "User-Agent")) in
      let accept_language = trim_space (r.header (codes "Accept-Language")) in
      let referer = trim_space (r.header (codes "Referer")) in
      let host = effective_host r cfg.trust_proxy_headers in
      record {
        request_host = host;
        request_domain = normalize_domain go host;
        client_ip = client_ip go r cfg.trust_proxy_headers;
        user_agent = user_agent;
        details = user_agent_details go parse user_agent;
        accept_language = accept_language;
        languages = accept_language_details go accept_language;
        origin = trim_space (r.header (codes "Origin"));
        referer_header = if cfg.sanitize_urls then sanitize_url go referer else referer;
        scheme = scheme r cfg.trust_proxy_headers;
        forwarded_for =
            if cfg.store_ip_metadata then trim_space (r.header (codes "X-Forwarded-For")) else [];
        remote_addr = if cfg.store_ip_metadata then r.remote_addr else [];
        collector_version = cfg.collector_version;
      }

module _ (go : Platform) where
  -- the addresses of URLs and paths, without what may name a person
  unfoldable pub sanitize : Event → Event
  unfolding sanitize_url sanitize_path
  sanitize e = record e {
    url = sanitize_url go e.url;
    referrer = sanitize_url go e.referrer;
    path = sanitize_path e.path;
  }

  -- `RequestMetadata.Enrich`
  unfoldable pub enrich : RequestMetadata → Config → Event → ℤ → Event
  unfolding normalize sanitize timezone_details
  enrich m cfg event now =
      let normal = normalize go event now in
      let e = if cfg.sanitize_urls then sanitize normal else normal in
      let (area, location) = timezone_details e.timezone in
      record e {
        request_host = m.request_host;
        request_domain = m.request_domain;
        user_agent = m.user_agent;
        browser_family = m.details.browser_family;
        browser_version = m.details.browser_version;
        browser_major = m.details.browser_major;
        browser_engine = m.details.browser_engine;
        os_family = m.details.os_family;
        os_version = m.details.os_version;
        device_family = m.details.device_family;
        device_brand = m.details.device_brand;
        device_model = m.details.device_model;
        device_type = m.details.device_type;
        accept_language = m.accept_language;
        accept_language_primary_tag = m.languages.primary_tag;
        accept_language_primary_base = m.languages.primary_base;
        accept_language_primary_region = m.languages.primary_region;
        accept_language_tags = m.languages.tags;
        timezone_area = area;
        timezone_location = location;
        origin = m.origin;
        referer_header = m.referer_header;
        scheme = m.scheme;
        collector_version = m.collector_version;
        client_ip = if cfg.capture_client_ip then m.client_ip else e.client_ip;
        forwarded_for = if cfg.store_ip_metadata then m.forwarded_for else e.forwarded_for;
        remote_addr = if cfg.store_ip_metadata then m.remote_addr else e.remote_addr;
      }

  -- `AllowedDomain`
  unfoldable pub allowed_domain : Config → Bytes → Bool
  unfolding normalize_domain
  allowed_domain cfg domain = elim (lookup (normalize_domain go domain) cfg.allowed_domain_set) [
    | none ↦ false
    | some u ↦ true
  ]
