-- ===== src/Config/Settings.antt =====
-- internal/config/config.go, lines 92 to 183 and 287 to 340: the settings that `Load` reads one by
-- one. An error message is a constructor, with the name of the setting where the message has one.
use formation_web_analytics.Base.{
  ℕ, ◌*◌, ◌^◌, ℤ, pos, ltb_ℤ, Bool, true, false, ◌||◌, not, Option, none, some, if◌then◌else◌,
  Bytes, codes, is_empty, bytes_eq, Result, ok, err, ◌>>=◌,
}
use formation_web_analytics.Go.{Platform}
use formation_web_analytics.Go.Strings.{trim_space}
use formation_web_analytics.Go.Numbers.{parse_int, parse_bool}
use formation_web_analytics.Config.{DropPolicy, reject, drop_newest}
use formation_web_analytics.Config.Parse.{ParseError}

pub data LoadError : Type 0 where
  unparsed : ParseError → LoadError
  missing invalid : Bytes → LoadError
  no_credentials invalid_drop_policy not_positive_number not_positive_duration : LoadError
  backoff_reversed : LoadError

abbrev second : ℕ
second = 10 ^ 9

-- the numbers and durations from `FLUSH_INTERVAL` to `RETENTION_DAYS`, as they are read
pub record Sizes : Type 0 where
  pub flush_interval : ℤ
  pub max_batch_size : ℤ
  pub max_queue_size : ℤ
  pub max_payload_bytes : ℤ
  pub max_events_per_request : ℤ
  pub max_field_length : ℤ
  pub max_payload_entries : ℤ
  pub max_payload_depth : ℤ
  pub max_retries : ℤ
  pub retry_min_backoff : ℤ
  pub retry_max_backoff : ℤ
  pub retention_days : ℤ

-- the settings from `TRUST_PROXY_HEADERS` to `METRICS_ENABLED`
pub record Flags : Type 0 where
  pub trust_proxy_headers : Bool
  pub capture_client_ip : Bool
  pub store_ip_metadata : Bool
  pub sanitize_urls : Bool
  pub require_origin : Bool
  pub require_url_host_match : Bool
  pub require_elastic_ready : Bool
  pub metrics_enabled : Bool

-- the settings from `READ_TIMEOUT` to `RATE_LIMIT_MAX_CLIENTS`
pub record Times : Type 0 where
  pub read_timeout : ℤ
  pub write_timeout : ℤ
  pub idle_timeout : ℤ
  pub rate_limit_per_minute : ℤ
  pub rate_limit_max_clients : ℤ

-- `n <= 0` and `n < 0`
abbrev pub not_positive : ℤ → Bool
not_positive n = not (ltb_ℤ (pos 0) n)

abbrev pub is_negative : ℤ → Bool
is_negative n = ltb_ℤ n (pos 0)

unfoldable pub parsed : {A : Type 0} → Result ParseError A → Result LoadError A
parsed (ok a) = ok a
parsed (err e) = err (unparsed e)

unfoldable pub drop_policy_of : Bytes → Result LoadError DropPolicy
unfolding bytes_eq
drop_policy_of s =
    if bytes_eq s (codes "reject")
    then ok reject
    else if bytes_eq s (codes "drop_newest")
    then ok drop_newest
    else err invalid_drop_policy

-- the two tests of the numbers and of the durations
unfoldable pub bad_number : Sizes → Times → Bool
bad_number n t =
    not_positive n.max_batch_size
    || not_positive n.max_queue_size
    || not_positive n.max_payload_bytes
    || not_positive n.max_events_per_request
    || not_positive n.max_field_length
    || not_positive n.max_payload_entries
    || not_positive n.max_payload_depth
    || is_negative n.max_retries
    || is_negative t.rate_limit_per_minute
    || not_positive t.rate_limit_max_clients

unfoldable pub bad_duration : Sizes → Times → Bool
bad_duration n t =
    not_positive n.flush_interval
    || not_positive n.retry_min_backoff
    || not_positive n.retry_max_backoff
    || not_positive t.read_timeout
    || not_positive t.write_timeout
    || not_positive t.idle_timeout

-- `getenv` is `os.Getenv`
module _ (go : Platform) (getenv : Bytes → Bytes) where
  unfoldable pub setting : Bytes → Bytes
  setting key = trim_space (getenv key)

  -- `envOrDefault`
  unfoldable pub env_or_default : Bytes → Bytes → Bytes
  unfolding setting
  env_or_default key default_value = if is_empty (setting key) then default_value else setting key

  -- what `duration`, `intValue`, `int64Value` and `boolValue` do around the parser
  unfoldable pub value_of : {A : Type 0} → (Bytes → Option A) → Bytes → A → Result LoadError A
  unfolding setting
  value_of parse key default_value =
      if is_empty (setting key)
      then ok default_value
      else elim (parse (setting key)) [ none ↦ err (invalid key) | some value ↦ ok value ]

  abbrev duration : Bytes → ℕ → Result LoadError ℤ
  duration key default_value = value_of go.parse_duration key (pos default_value)

  abbrev int_value : Bytes → ℕ → Result LoadError ℤ
  int_value key default_value = value_of parse_int key (pos default_value)

  abbrev bool_value : Bytes → Bool → Result LoadError Bool
  bool_value = value_of parse_bool

  unfoldable pub read_sizes : Result LoadError Sizes
  unfolding value_of
  read_sizes = do
    flush_interval ← duration (codes "FLUSH_INTERVAL") (5 * second)
    max_batch_size ← int_value (codes "MAX_BATCH_SIZE") 500
    max_queue_size ← int_value (codes "MAX_QUEUE_SIZE") 10000
    max_payload_bytes ← int_value (codes "MAX_PAYLOAD_BYTES") 1048576
    max_events_per_request ← int_value (codes "MAX_EVENTS_PER_REQUEST") 100
    max_field_length ← int_value (codes "MAX_FIELD_LENGTH") 10240
    max_payload_entries ← int_value (codes "MAX_PAYLOAD_ENTRIES") 128
    max_payload_depth ← int_value (codes "MAX_PAYLOAD_DEPTH") 4
    max_retries ← int_value (codes "MAX_RETRIES") 10
    retry_min_backoff ← duration (codes "RETRY_MIN_BACKOFF") second
    retry_max_backoff ← duration (codes "RETRY_MAX_BACKOFF") (60 * second)
    retention_days ← int_value (codes "RETENTION_DAYS") 90
    ok (record {
      flush_interval = flush_interval;
      max_batch_size = max_batch_size;
      max_queue_size = max_queue_size;
      max_payload_bytes = max_payload_bytes;
      max_events_per_request = max_events_per_request;
      max_field_length = max_field_length;
      max_payload_entries = max_payload_entries;
      max_payload_depth = max_payload_depth;
      max_retries = max_retries;
      retry_min_backoff = retry_min_backoff;
      retry_max_backoff = retry_max_backoff;
      retention_days = retention_days;
    })

  unfoldable pub read_flags : Result LoadError Flags
  unfolding value_of
  read_flags = do
    trust_proxy_headers ← bool_value (codes "TRUST_PROXY_HEADERS") true
    capture_client_ip ← bool_value (codes "CAPTURE_CLIENT_IP") false
    store_ip_metadata ← bool_value (codes "STORE_IP_METADATA") false
    sanitize_urls ← bool_value (codes "SANITIZE_URLS") true
    require_origin ← bool_value (codes "REQUIRE_ORIGIN") true
    require_url_host_match ← bool_value (codes "REQUIRE_URL_HOST_MATCH") true
    require_elastic_ready ← bool_value (codes "REQUIRE_ELASTIC_READY") false
    metrics_enabled ← bool_value (codes "METRICS_ENABLED") false
    ok (record {
      trust_proxy_headers = trust_proxy_headers;
      capture_client_ip = capture_client_ip;
      store_ip_metadata = store_ip_metadata;
      sanitize_urls = sanitize_urls;
      require_origin = require_origin;
      require_url_host_match = require_url_host_match;
      require_elastic_ready = require_elastic_ready;
      metrics_enabled = metrics_enabled;
    })

  unfoldable pub read_times : Result LoadError Times
  unfolding value_of
  read_times = do
    read_timeout ← duration (codes "READ_TIMEOUT") (10 * second)
    write_timeout ← duration (codes "WRITE_TIMEOUT") (15 * second)
    idle_timeout ← duration (codes "IDLE_TIMEOUT") (60 * second)
    rate_limit_per_minute ← int_value (codes "RATE_LIMIT_PER_MINUTE") 300
    rate_limit_max_clients ← int_value (codes "RATE_LIMIT_MAX_CLIENTS") 100000
    ok (record {
      read_timeout = read_timeout;
      write_timeout = write_timeout;
      idle_timeout = idle_timeout;
      rate_limit_per_minute = rate_limit_per_minute;
      rate_limit_max_clients = rate_limit_max_clients;
    })
