-- ===== src/Events/Fields.antt =====
-- internal/events/events.go, lines 92 to 156 and 371 to 465: field limits, sanitising, validation.
-- `validTimezoneCache` remembers names that `time.LoadLocation` accepted; it is left out, as that
-- function of a name does not change its answer.
pub mod Limits
pub mod Private
mod Examples
use formation_web_analytics.Base.{
  ℕ, ◌+◌, ◌-◌, ℤ, pos, negsuc, ltb_ℤ, Bool, true, false, ◌&&◌, ◌||◌, not, Option, none, some, List,
  [], ◌∷◌, ◌++◌, length, ltb, leb, ◌==◌, if◌then◌else◌, Bytes, codes, bytes_eq, is_empty, Result,
  ok, err, ◌>>=◌, ◌>>◌, refuse_if,
}
use formation_web_analytics.Go.{Url, Platform}
use formation_web_analytics.Go.Strings.{trim_space, before}
use formation_web_analytics.Config.{Config}
use formation_web_analytics.Event.{Event, Fields, end}
use formation_web_analytics.Events.Payload.{
  PayloadError, too_long, truncate_string, truncate_payload,
}
use formation_web_analytics.Events.Payload.{validate_payload}

-- one constructor for each message of `Validate`
pub data ValidationError : Type 0 where
  invalid_type invalid_site_id invalid_identifiers invalid_user_id : ValidationError
  invalid_path_or_title url_field_too_long invalid_url invalid_url_scheme : ValidationError
  invalid_timezone invalid_timezone_offset : ValidationError
  invalid_payload : PayloadError → ValidationError

-- `[a-zA-Z0-9_.:-]`
unfoldable pub is_identifier_byte : ℕ → Bool
is_identifier_byte c =
    leb b'a' c && leb c b'z'
    || leb b'A' c && leb c b'Z'
    || leb b'0' c && leb c b'9'
    || c == b'_'
    || c == b'.'
    || c == b':'
    || c == b'-'

unfoldable pub all_bytes : (ℕ → Bool) → Bytes → Bool
all_bytes p [] = true
all_bytes p (c ∷ s) = p c && all_bytes p s

-- `identifierPattern.MatchString`
unfoldable pub is_identifier : Bytes → Bool
unfolding all_bytes is_identifier_byte
is_identifier s = leb 1 (length s) && leb (length s) 128 && all_bytes is_identifier_byte s

unfoldable pub sanitize_path : Bytes → Bytes
unfolding before
sanitize_path raw = before (λ c. c == b'?' || c == b'#') raw

-- clears the parts of a URL that are not stored
abbrev pub strip : Url → Url
strip u = record u { raw_query = []; force_query = false; fragment = []; user = none }

-- what the payload's error is to `Validate`
unfoldable pub as_payload_error : Result PayloadError (Unit {0}) → Result ValidationError (Unit {0})
as_payload_error (ok u) = ok u
as_payload_error (err e) = err (invalid_payload e)

unfoldable pub any_too_long : Option Bytes → ℕ → Bool
unfolding too_long
any_too_long none n = false
any_too_long (some s) n = too_long s n

unfoldable pub offset_out_of_range : Option ℤ → Bool
offset_out_of_range none = false
offset_out_of_range (some minutes) = ltb_ℤ minutes (negsuc 839) || ltb_ℤ (pos 840) minutes

unfoldable pub has_other_scheme : Url → Bool
has_other_scheme parsed =
    not (is_empty parsed.scheme)
    && not (bytes_eq parsed.scheme (codes "http"))
    && not (bytes_eq parsed.scheme (codes "https"))

unfoldable pub truncate_user_id : Option Bytes → ℕ → Option Bytes
unfolding truncate_string
truncate_user_id none n = none
truncate_user_id (some s) n = some (truncate_string s n)

module _ (go : Platform) where
  unfoldable pub sanitize_url : Bytes → Bytes
  unfolding trim_space
  sanitize_url raw =
      if is_empty (trim_space raw)
      then raw
      else elim (go.url_parse raw) [ none ↦ raw | some parsed ↦ go.url_string (strip parsed) ]

  -- `truncateURLField` from the parsed URL on
  unfoldable pub truncate_url : Url → ℕ → Bytes
  unfolding truncate_string
  truncate_url u max_length =
      let parsed = strip u in
      let candidate = go.url_string parsed in
      let prefix =
        (if is_empty parsed.scheme then [] else parsed.scheme ++ codes "://") ++ parsed.host in
      let escaped = go.escaped_path parsed in
      let path = if is_empty escaped then parsed.path else escaped in
      if leb (length candidate) max_length
      then candidate
      else if leb max_length (length prefix)
      then []
      else prefix ++ truncate_string path (max_length - length prefix)

  unfoldable pub truncate_url_field : Bytes → ℕ → Bytes
  unfolding truncate_url
  truncate_url_field raw max_length =
      if leb max_length 0 || leb (length raw) max_length
      then raw
      else elim (go.url_parse raw) [ none ↦ [] | some parsed ↦ truncate_url parsed max_length ]

  unfoldable pub validate_url_field : Bytes → ℕ → Result ValidationError (Unit {0})
  unfolding has_other_scheme
  validate_url_field [] max_length = ok tt
  validate_url_field (c ∷ raw) max_length =
      if ltb max_length (length (c ∷ raw))
      then err url_field_too_long
      else elim (go.url_parse (c ∷ raw)) [
        | none ↦ err invalid_url
        | some parsed ↦ refuse_if (has_other_scheme parsed) invalid_url_scheme
      ]

  unfoldable pub validate_timezone : Bytes → Option ℤ → Result ValidationError (Unit {0})
  unfolding trim_space offset_out_of_range
  validate_timezone name offset_minutes = do
    let trimmed = trim_space name
    refuse_if (not (is_empty trimmed) && not (go.has_location trimmed)) invalid_timezone
    refuse_if (offset_out_of_range offset_minutes) invalid_timezone_offset

  -- `Event.Validate`
  unfoldable pub validate : Config → Event → Result ValidationError (Unit {0})
  unfolding is_identifier trim_space too_long any_too_long as_payload_error
  validate cfg e = do
    let n = cfg.max_field_length
    refuse_if (not (is_identifier (trim_space e.type))) invalid_type
    refuse_if (not (is_identifier (trim_space e.site_id))) invalid_site_id
    refuse_if (too_long e.session_id n || too_long e.anonymous_id n) invalid_identifiers
    refuse_if (any_too_long e.user_id n) invalid_user_id
    refuse_if (too_long e.path n || too_long e.title n) invalid_path_or_title
    validate_url_field e.url n
    validate_url_field e.referrer n
    validate_timezone e.timezone e.timezone_offset_minutes
    as_payload_error (validate_payload cfg.max_payload_depth n cfg.max_payload_entries e.payload)

  -- `Event.ApplyFieldLimits`
  unfoldable pub apply_field_limits : Config → Event → Event
  unfolding truncate_string truncate_user_id
  apply_field_limits cfg e =
      let n = cfg.max_field_length in
      record e {
        session_id = truncate_string e.session_id n;
        anonymous_id = truncate_string e.anonymous_id n;
        user_id = truncate_user_id e.user_id n;
        path = truncate_string e.path n;
        title = truncate_string e.title n;
        url = truncate_url_field e.url n;
        referrer = truncate_url_field e.referrer n;
        payload = truncate_payload n e.payload;
      }

  -- `Event.Normalize`
  unfoldable pub normalize : Event → ℤ → Event
  unfolding trim_space
  normalize e now =
      let stamp : Bytes = elim (go.parse_time e.timestamp) [
        | none ↦ go.format_time now
        | some t ↦ go.format_time t
      ] in
      let payload : Fields = elim e.payload [ none ↦ end | some fs ↦ fs ] in
      record e {
        received_at = now;
        timestamp = if is_empty (trim_space e.timestamp) then go.format_time now else stamp;
        payload = some payload;
        traffic_quality =
            if is_empty (trim_space e.traffic_quality) then codes "normal" else e.traffic_quality;
      }
