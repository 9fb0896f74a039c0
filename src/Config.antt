-- ===== src/Config.antt =====
-- internal/config/config.go: the settings that the other parts read, and the normal form of a domain.
-- `Config` holds the values of a loaded configuration. `Load` refuses a negative value of every
-- field that is a natural number here (config.go, lines 185 to 190); durations are in nanoseconds.
pub mod Parse
pub mod Lists
pub mod Settings
pub mod Load
pub mod Examples
use formation_web_analytics.Base.{ℕ, ℤ, Bool, List, ◌==◌, Bytes, codes}
use formation_web_analytics.Go.{Platform, to_lower}
use formation_web_analytics.Go.Strings.{trim_space, trim_prefix, before}

pub data DropPolicy : Type 0 where
  reject drop_newest : DropPolicy

-- a `map[string]struct{}`
abbrev pub Set : Type 0
Set = List (Bytes × Unit {0})

pub record Config : Type 0 where
  pub listen_addr : Bytes
  pub metrics_listen_addr : Bytes
  pub allowed_domains : List Bytes
  pub allowed_domain_set : Set
  pub site_origin_set : List (Bytes × Set)
  pub elasticsearch_url : Bytes
  pub elasticsearch_api_key : Bytes
  pub elasticsearch_username : Bytes
  pub elasticsearch_password : Bytes
  pub data_stream : Bytes
  pub geo_ip_db_path : Bytes
  pub flush_interval : ℕ
  pub max_batch_size : ℕ
  pub max_queue_size : ℕ
  pub max_payload_bytes : ℕ
  pub max_events_per_request : ℕ
  pub max_field_length : ℕ
  pub max_payload_entries : ℕ
  pub max_payload_depth : ℕ
  pub max_retries : ℕ
  pub retry_min_backoff : ℕ
  pub retry_max_backoff : ℕ
  pub trust_proxy_headers : Bool
  pub capture_client_ip : Bool
  pub store_ip_metadata : Bool
  pub sanitize_urls : Bool
  pub require_origin : Bool
  pub require_url_host_match : Bool
  pub blocked_user_agents : List Bytes
  pub suspect_user_agents : List Bytes
  pub rate_limit_per_minute : ℕ
  pub rate_limit_max_clients : ℕ
  pub drop_policy : DropPolicy
  pub log_level : Bytes
  pub require_elastic_ready : Bool
  pub metrics_enabled : Bool
  pub retention_days : ℤ
  pub read_timeout : ℕ
  pub write_timeout : ℕ
  pub idle_timeout : ℕ
  pub collector_version : Bytes

module _ (go : Platform) where
  -- `normalizeDomain` and `NormalizeDomain`
  unfoldable pub normalize_domain : Bytes → Bytes
  unfolding to_lower trim_space trim_prefix before
  normalize_domain v =
      let lowered = trim_space (to_lower go v) in
      let bare = trim_prefix (codes "https://") (trim_prefix (codes "http://") lowered) in
      trim_space (before (λ c. c == b':') (before (λ c. c == b'/') bare))
