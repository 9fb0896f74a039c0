-- ===== src/Config/Load.antt =====
-- `Load` of internal/config/config.go: the environment is read and checked.
pub mod Sound
use formation_web_analytics.Base.{
  ℕ, zero, suc, ◌+◌, ◌*◌, ◌^◌, ◌/◌, ◌<◌, ◌≤◌, ◌≡◌, refl, sym, ◌∙◌, min, max, ℤ, pos, negsuc,
  pos_part, ltb_ℤ, Bool, true, false, ◌&&◌, ◌||◌, List, [], ◌∷◌, All, arith, Bytes, codes, is_empty,
  Result, ok, err, ◌>>=◌, ◌>>◌, refuse_if, >>=-eq-ok, ok-injective, refuse_if-eq-ok, subst, not, ap,
}
use formation_web_analytics.Go.{Platform}
use formation_web_analytics.Config.{Config, DropPolicy, Set}
use formation_web_analytics.Config.Parse.{
  ParseError, is_none, parse_domains, parse_site_origins, parse_list,
}
use formation_web_analytics.Config.Lists.{
  IsListed, parse_domains-IsListed, HasOrigins, parse_site_origins-HasOrigins,
}
use formation_web_analytics.Config.Settings.{
  LoadError, missing, no_credentials, not_positive_number, not_positive_duration, backoff_reversed,
  Sizes, Flags, Times, parsed, drop_policy_of, bad_number, bad_duration, setting, env_or_default,
  read_sizes, read_flags, read_times, not_positive, is_negative,
}
use formation_web_analytics.Elastic.Backoff.{backoff, backoff_bounds}

-- where a configuration gets its user agents from, by default
abbrev blocked_default : Bytes
blocked_default = codes "bot,crawler,spider,curl,wget,python-requests,python-urllib,go-http-client"

abbrev suspect_default : Bytes
suspect_default = codes "headless,playwright,puppeteer,selenium,phantomjs"

module _ (go : Platform) (getenv : Bytes → Bytes) where
  -- the configuration of settings that passed every test; a number that passed is not negative
  unfoldable pub configured :
      Bytes → List Bytes × Set → List (Bytes × Set) → Sizes → Flags → Times → DropPolicy → Config
  unfolding setting env_or_default parse_list
  configured version (domains, domain_set) sites n f t policy = record {
    listen_addr = env_or_default go getenv (codes "LISTEN_ADDR") (codes ":8080");
    metrics_listen_addr = env_or_default go getenv (codes "METRICS_LISTEN_ADDR") (codes ":9090");
    allowed_domains = domains;
    allowed_domain_set = domain_set;
    site_origin_set = sites;
    elasticsearch_url = setting go getenv (codes "ELASTICSEARCH_URL");
    elasticsearch_api_key = setting go getenv (codes "ELASTICSEARCH_API_KEY");
    elasticsearch_username = setting go getenv (codes "ELASTICSEARCH_USERNAME");
    elasticsearch_password = setting go getenv (codes "ELASTICSEARCH_PASSWORD");
    data_stream =
        env_or_default go getenv (codes "ELASTICSEARCH_DATA_STREAM") (codes "web-analytics");
    geo_ip_db_path = setting go getenv (codes "GEOIP_DB_PATH");
    flush_interval = pos_part n.flush_interval;
    max_batch_size = pos_part n.max_batch_size;
    max_queue_size = pos_part n.max_queue_size;
    max_payload_bytes = pos_part n.max_payload_bytes;
    max_events_per_request = pos_part n.max_events_per_request;
    max_field_length = pos_part n.max_field_length;
    max_payload_entries = pos_part n.max_payload_entries;
    max_payload_depth = pos_part n.max_payload_depth;
    max_retries = pos_part n.max_retries;
    retry_min_backoff = pos_part n.retry_min_backoff;
    retry_max_backoff = pos_part n.retry_max_backoff;
    trust_proxy_headers = f.trust_proxy_headers;
    capture_client_ip = f.capture_client_ip;
    store_ip_metadata = f.store_ip_metadata;
    sanitize_urls = f.sanitize_urls;
    require_origin = f.require_origin;
    require_url_host_match = f.require_url_host_match;
    blocked_user_agents =
        parse_list go (env_or_default go getenv (codes "BLOCKED_USER_AGENTS") blocked_default);
    suspect_user_agents =
        parse_list go (env_or_default go getenv (codes "SUSPECT_USER_AGENTS") suspect_default);
    rate_limit_per_minute = pos_part t.rate_limit_per_minute;
    rate_limit_max_clients = pos_part t.rate_limit_max_clients;
    drop_policy = policy;
    log_level = env_or_default go getenv (codes "LOG_LEVEL") (codes "info");
    require_elastic_ready = f.require_elastic_ready;
    metrics_enabled = f.metrics_enabled;
    retention_days = n.retention_days;
    read_timeout = pos_part t.read_timeout;
    write_timeout = pos_part t.write_timeout;
    idle_timeout = pos_part t.idle_timeout;
    collector_version = version;
  }

  -- the test of lines 98 to 100
  abbrev lacks_credentials : Bool
  lacks_credentials =
      is_empty (setting go getenv (codes "ELASTICSEARCH_API_KEY"))
      && (is_empty (setting go getenv (codes "ELASTICSEARCH_USERNAME"))
          || is_empty (setting go getenv (codes "ELASTICSEARCH_PASSWORD")))

  -- `Load`
  unfoldable pub load : Bytes → Result LoadError Config
  unfolding parsed read_sizes read_flags read_times drop_policy_of bad_number bad_duration
      configured parse_domains parse_site_origins
  load version = do
    domains ← parsed (parse_domains go (getenv (codes "ALLOWED_DOMAINS")))
    sites ← parsed (parse_site_origins go (getenv (codes "SITE_ORIGIN_MAP")))
    refuse_if (is_none domains.0) (missing (codes "ALLOWED_DOMAINS"))
    refuse_if (is_empty (setting go getenv (codes "ELASTICSEARCH_URL")))
        (missing (codes "ELASTICSEARCH_URL"))
    refuse_if (is_empty (setting go getenv (codes "GEOIP_DB_PATH")))
        (missing (codes "GEOIP_DB_PATH"))
    refuse_if lacks_credentials no_credentials
    n ← read_sizes go getenv
    f ← read_flags go getenv
    t ← read_times go getenv
    policy ← drop_policy_of (env_or_default go getenv (codes "DROP_POLICY") (codes "reject"))
    refuse_if (bad_number n t) not_positive_number
    refuse_if (bad_duration n t) not_positive_duration
    refuse_if (ltb_ℤ n.retry_max_backoff n.retry_min_backoff) backoff_reversed
    ok (configured version domains sites n f t policy)

-- What every loaded configuration satisfies. The lists of the domains and sites are as their parsers
-- leave them, what has no default is there, and the numbers leave the other parts room to work.
pub record IsSound (cfg : Config) : Type 0 where
  pub listed : IsListed cfg.allowed_domains cfg.allowed_domain_set
  pub has_domain : is_none cfg.allowed_domains ≡ false
  pub sites : All HasOrigins cfg.site_origin_set
  pub has_url : is_empty cfg.elasticsearch_url ≡ false
  pub has_database : is_empty cfg.geo_ip_db_path ≡ false
  pub has_credentials :
      is_empty cfg.elasticsearch_api_key
        && (is_empty cfg.elasticsearch_username || is_empty cfg.elasticsearch_password)
      ≡ false
  pub batch : 0 < cfg.max_batch_size
  pub queue : 0 < cfg.max_queue_size
  pub payload : 0 < cfg.max_payload_bytes
  pub events : 0 < cfg.max_events_per_request
  pub fields : 0 < cfg.max_field_length
  pub entries : 0 < cfg.max_payload_entries
  pub depth : 0 < cfg.max_payload_depth
  pub clients : 0 < cfg.rate_limit_max_clients
  pub interval : 0 < cfg.flush_interval
  pub timeouts : (0 < cfg.read_timeout) × (0 < cfg.write_timeout) × (0 < cfg.idle_timeout)
  pub pause : 0 < cfg.retry_min_backoff
  pub pauses : cfg.retry_min_backoff ≤ cfg.retry_max_backoff
