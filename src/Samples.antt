-- ===== src/Samples.antt =====
-- Concrete parameters and data for the tests: a platform that parses two URLs, a configuration for
-- one site, and a service that decodes every body as one event.
use formation_web_analytics.Base.{
  ◌*◌, ◌-◌, ◌/◌, ◌^◌, pos, ℕ, ◌+◌, true, false, none, some, [], ◌∷◌, if◌then◌else◌, codes, bytes_eq,
}
use formation_web_analytics.Go.{Url, Platform}
use formation_web_analytics.Config.{Config, drop_newest}
use formation_web_analytics.Event.{Event, zero_event}
use formation_web_analytics.Events.Decode.{end_of_input}
use formation_web_analytics.Events.Metadata.{Request}
use formation_web_analytics.Http.{Services, Server}
use formation_web_analytics.Elastic.{Transport, answered}
use formation_web_analytics.Elastic.Answer.{client}
use formation_web_analytics.Batcher.{Environment}
use formation_web_analytics.Metrics.{new_registry}
use formation_web_analytics.RateLimiter.{new_rate_limiter}

-- the URL that the sample platform parses every text into
abbrev pub site_url : Url
site_url = record {
  scheme = codes "https";
  opaque = [];
  user = none;
  host = codes "a.io";
  path = codes "/x";
  raw_path = [];
  omit_host = false;
  force_query = false;
  raw_query = [];
  fragment = [];
  raw_fragment = [];
}

abbrev pub platform : Platform
platform = record {
  lower_unicode = λ s. s;
  upper_unicode = λ s. s;
  url_parse = λ s. some site_url;
  url_string = λ u. codes "https://a.io/x";
  escaped_path = λ u. u.path;
  media_type = λ s. some s;
  split_host = λ s. some s;
  parse_time = λ s. none;
  format_time = λ t. [];
  parse_duration = λ s. none;
  int64_overflow = λ x. none;
  has_location = λ s. true;
}

abbrev pub config : Config
config = record {
  listen_addr = codes ":8080";
  metrics_listen_addr = [];
  allowed_domains = codes "a.io" ∷ [];
  allowed_domain_set = (codes "a.io", tt) ∷ [];
  site_origin_set = [];
  elasticsearch_url = codes "http://es";
  elasticsearch_api_key = [];
  elasticsearch_username = [];
  elasticsearch_password = [];
  data_stream = codes "events";
  geo_ip_db_path = [];
  flush_interval = 1;
  max_batch_size = 2;
  max_queue_size = 3;
  max_payload_bytes = 9;
  max_events_per_request = 2;
  max_field_length = 14;
  max_payload_entries = 4;
  max_payload_depth = 2;
  max_retries = 2;
  retry_min_backoff = 10;
  retry_max_backoff = 100;
  trust_proxy_headers = false;
  capture_client_ip = true;
  store_ip_metadata = false;
  sanitize_urls = false;
  require_origin = false;
  require_url_host_match = false;
  blocked_user_agents = [];
  suspect_user_agents = codes "bot" ∷ [];
  rate_limit_per_minute = 2;
  rate_limit_max_clients = 2;
  drop_policy = drop_newest;
  log_level = codes "info";
  require_elastic_ready = false;
  metrics_enabled = false;
  retention_days = pos 90;
  read_timeout = 10;
  write_timeout = 15;
  idle_timeout = 60;
  collector_version = codes "dev";
}

abbrev pub view_event : Event
view_event = record zero_event {
  type = codes "view";
  site_id = codes "site";
  url = codes "https://a.io/x";
  path = codes "/x";
}

-- every body is one view
abbrev pub services : Services
services = record {
  go = platform;
  json = record {
    raw_fields = λ body. none;
    decode_events = λ body. none;
    decode_event = λ body. some (view_event, []);
    extra = λ rest. end_of_input;
  };
  parse_user_agent = λ s. none;
  geo_lookup = λ ip. none;
}

abbrev pub request : Request
request = record {
  header = λ name. if bytes_eq name (codes "Origin") then codes "a.io" else [];
  host = codes "a.io";
  url_host = [];
  tls = true;
  remote_addr = codes "10.0.0.1";
  body = some (codes "{}");
}

-- a server that answers every bulk request with status 400; the state counts the requests
abbrev pub refusing : Transport ℕ
refusing = record {
  random_bytes = λ n. (some (codes "0123456789abcdef"), n);
  encodes = λ e. true;
  post = λ batch. λ n. (answered 400 none, n + 1);
}

-- the client of that server, with a context that never ends
abbrev pub environment : Environment ℕ
environment = record {
  sender = client platform config.data_stream refusing;
  cancelled = λ n. (false, n);
  wait = λ delay. λ n. (true, n);
  jitter = λ limit. 0;
  elapsed = λ start. λ now. now - start;
  thousandths = λ d. d / 10 ^ 6;
  size_thousandths = λ n. n * 1000;
  meanwhile = λ n. λ q. q;
}

-- a server before its first request
abbrev pub server : Server
server = record {
  limiter = new_rate_limiter 2 2;
  queue = record {
    items = view_event ∷ view_event ∷ view_event ∷ [];
    head = 0;
    size = 0;
    capacity = 3;
    notify_ch = 0;
  };
  metrics = new_registry;
}

-- a server that takes every batch, and the client of that server
abbrev pub accepting : Transport ℕ
accepting = record {
  random_bytes = λ n. (some (codes "0123456789abcdef"), n);
  encodes = λ e. true;
  post = λ batch. λ n. (answered 200 (some (record { errors = false; items = [] })), n + 1);
}

abbrev pub delivering : Environment ℕ
delivering = record {
  sender = client platform config.data_stream accepting;
  cancelled = λ n. (false, n);
  wait = λ delay. λ n. (true, n);
  jitter = λ limit. 0;
  elapsed = λ start. λ now. now - start;
  thousandths = λ d. d / 10 ^ 6;
  size_thousandths = λ n. n * 1000;
  meanwhile = λ n. λ q. q;
}
