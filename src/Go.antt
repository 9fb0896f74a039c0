-- ===== src/Go.antt =====
-- What the collector takes from Go's standard library and from its one user-agent parser.
-- `Strings` models the functions of package strings on byte strings. The rest are parameters: they
-- read Unicode tables, parse URLs, times, media types and JSON, or look into a database.
pub mod Strings
pub mod Float
pub mod Numbers
pub mod Trim
use formation_web_analytics.Base.{ℤ, Bool, Option, map, Bytes, if◌then◌else◌}
use Float.{Float64}
use Strings.{is_ascii, lower_byte, upper_byte}

-- `url.URL`
pub record Url : Type 0 where
  pub scheme : Bytes
  pub opaque : Bytes
  pub user : Option Bytes
  pub host : Bytes
  pub path : Bytes
  pub raw_path : Bytes
  pub omit_host : Bool
  pub force_query : Bool
  pub raw_query : Bytes
  pub fragment : Bytes
  pub raw_fragment : Bytes

pub record Platform : Type 0 where
  -- `strings.ToLower` and `strings.ToUpper` on a text that is not ASCII
  pub lower_unicode : Bytes → Bytes
  pub upper_unicode : Bytes → Bytes
  -- `url.Parse`, `URL.String` and `URL.EscapedPath`
  pub url_parse : Bytes → Option Url
  pub url_string : Url → Bytes
  pub escaped_path : Url → Bytes
  -- `mime.ParseMediaType`, its media type; `net.SplitHostPort`, its host
  pub media_type : Bytes → Option Bytes
  pub split_host : Bytes → Option Bytes
  -- `time.Parse(time.RFC3339Nano, s)` and `t.UTC().Format(time.RFC3339Nano)`, in nanoseconds
  pub parse_time : Bytes → Option ℤ
  pub format_time : ℤ → Bytes
  -- `time.ParseDuration`, in nanoseconds
  pub parse_duration : Bytes → Option ℤ
  -- `int64(x)` of a number out of range, if `float64` of it is `x` again; Go leaves the number open
  pub int64_overflow : Float64 → Option ℤ
  -- whether `time.LoadLocation` finds the zone
  pub has_location : Bytes → Bool

-- strings.ToLower and strings.ToUpper: byte by byte on ASCII, by the tables otherwise
module _ (go : Platform) where
  unfoldable pub to_lower : Bytes → Bytes
  unfolding is_ascii
  to_lower s = if is_ascii s then map lower_byte s else go.lower_unicode s

  unfoldable pub to_upper : Bytes → Bytes
  unfolding is_ascii
  to_upper s = if is_ascii s then map upper_byte s else go.upper_unicode s
