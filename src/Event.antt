-- ===== src/Event.antt =====
-- internal/events/events.go, lines 23 to 74: an analytics event, and the JSON values of its payload.
-- internal/geo/geo.go, lines 13 to 23: the result of a geographic lookup.
use formation_web_analytics.Base.{ℤ, pos, Bool, false, Option, none, List, [], Bytes}
use formation_web_analytics.Go.Float.{Float64}

-- A value of Go type `any`. JSON decoding yields `null`, `boolean`, `number`, `text`, `object` and
-- `array` only; `integer` is an int, int32 or int64. An object lists its entries in the order in
-- which `range` visits them, which Go leaves open.
mutual
  pub data Value : Type 0 where
    null : Value
    boolean : Bool → Value
    number : Float64 → Value
    text : Bytes → Value
    object : Fields → Value
    array : Items → Value
    integer : ℤ → Value

  pub data Fields : Type 0 where
    end : Fields
    field : Bytes → Value → Fields → Fields

  pub data Items : Type 0 where
    nil : Items
    cons : Value → Items → Items

pub record Point : Type 0 where
  pub latitude : Float64
  pub longitude : Float64

-- `geo.Result`
pub record GeoResult : Type 0 where
  pub country_iso_code : Bytes
  pub country_name : Bytes
  pub city_name : Bytes
  pub point : Option Point

-- A time is in nanoseconds since year 1; `none` as the payload is a nil map. `extra_headers` is
-- never read or written.
pub record Event : Type 0 where
  pub document_id : Bytes
  pub type : Bytes
  pub site_id : Bytes
  pub timestamp : Bytes
  pub session_id : Bytes
  pub anonymous_id : Bytes
  pub user_id : Option Bytes
  pub path : Bytes
  pub url : Bytes
  pub referrer : Bytes
  pub title : Bytes
  pub payload : Option Fields
  pub received_at : ℤ
  pub request_host : Bytes
  pub request_domain : Bytes
  pub client_ip : Bytes
  pub geo_country_iso : Bytes
  pub geo_country_name : Bytes
  pub geo_city_name : Bytes
  pub geo_location : Option Point
  pub forwarded_for : Bytes
  pub user_agent : Bytes
  pub browser_family : Bytes
  pub browser_version : Bytes
  pub browser_major : Bytes
  pub os_family : Bytes
  pub os_version : Bytes
  pub device_family : Bytes
  pub device_brand : Bytes
  pub device_model : Bytes
  pub device_type : Bytes
  pub browser_engine : Bytes
  pub accept_language : Bytes
  pub accept_language_primary_tag : Bytes
  pub accept_language_primary_base : Bytes
  pub accept_language_primary_region : Bytes
  pub accept_language_tags : List Bytes
  pub timezone : Bytes
  pub timezone_area : Bytes
  pub timezone_location : Bytes
  pub timezone_offset_minutes : Option ℤ
  pub origin : Bytes
  pub referer_header : Bytes
  pub scheme : Bytes
  pub remote_addr : Bytes
  pub collector_version : Bytes
  pub traffic_quality : Bytes
  pub is_suspect : Bool
  pub suspicion_reasons : List Bytes

-- `Event{}`, Go's zero value; the zero time is 0.
abbrev pub zero_event : Event
zero_event = record {
  document_id = [];
  type = [];
  site_id = [];
  timestamp = [];
  session_id = [];
  anonymous_id = [];
  user_id = none;
  path = [];
  url = [];
  referrer = [];
  title = [];
  payload = none;
  received_at = pos 0;
  request_host = [];
  request_domain = [];
  client_ip = [];
  geo_country_iso = [];
  geo_country_name = [];
  geo_city_name = [];
  geo_location = none;
  forwarded_for = [];
  user_agent = [];
  browser_family = [];
  browser_version = [];
  browser_major = [];
  os_family = [];
  os_version = [];
  device_family = [];
  device_brand = [];
  device_model = [];
  device_type = [];
  browser_engine = [];
  accept_language = [];
  accept_language_primary_tag = [];
  accept_language_primary_base = [];
  accept_language_primary_region = [];
  accept_language_tags = [];
  timezone = [];
  timezone_area = [];
  timezone_location = [];
  timezone_offset_minutes = none;
  origin = [];
  referer_header = [];
  scheme = [];
  remote_addr = [];
  collector_version = [];
  traffic_quality = [];
  is_suspect = false;
  suspicion_reasons = [];
}
