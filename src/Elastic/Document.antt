-- ===== src/Elastic/Document.antt =====
-- `BuildBulkPayload` of internal/elastic/client.go: the two lines of an event in a bulk request.
-- A document is a Go map, printed by package encoding/json, which is left out.
pub mod Lookup
use formation_web_analytics.Base.{
  ℕ, ◌+◌, ◌-◌, ◌*◌, ◌/◌, ◌%◌, ◌^◌, ℤ, pos, negsuc, Bool, true, false, ◌&&◌, ◌||◌, not, Option, none,
  some, List, [], ◌∷◌, ltb, leb, ◌==◌, if◌then◌else◌, Bytes, codes, is_empty, bytes_eq, insert,
}
use formation_web_analytics.Go.{Platform}
use formation_web_analytics.Go.Float.{
  Float64, is_nan, is_inf, float_lt, float_90, float_180, negative, int64_of,
}
use formation_web_analytics.Event.{
  Event, Point, Fields, end, field, Value, boolean, number, text, integer,
}

pub data DocumentValue : Type 0 where
  string : Bytes → DocumentValue
  strings : List Bytes → DocumentValue
  flag : Bool → DocumentValue
  whole : ℤ → DocumentValue
  point : Float64 → Float64 → DocumentValue
  payload : Option Fields → DocumentValue

abbrev pub BulkDocument : Type 0
BulkDocument = List (Bytes × DocumentValue)

-- `document[key] = value` where there is a value
unfoldable pub put : Bytes → Option DocumentValue → BulkDocument → BulkDocument
put key none document = document
put key (some value) document = insert key value document

-- `addIfNotEmpty`, as the value that it puts
abbrev pub not_empty : Bytes → Option DocumentValue
not_empty [] = none
not_empty (c ∷ s) = some (string (c ∷ s))

abbrev pub not_none : List Bytes → Option DocumentValue
not_none [] = none
not_none (s ∷ rest) = some (strings (s ∷ rest))

abbrev pub user : Option Bytes → Option DocumentValue
user none = none
user (some id) = not_empty id

abbrev pub offset : Option ℤ → Option DocumentValue
offset none = none
offset (some minutes) = some (whole minutes)

-- `geoPointDocument`
unfoldable pub geo_point_document : Option Point → Option DocumentValue
unfolding is_nan is_inf float_lt
geo_point_document none = none
geo_point_document (some p) =
    if is_nan p.latitude || is_inf p.latitude || is_nan p.longitude || is_inf p.longitude
    then none
    else if float_lt p.latitude (negative float_90)
        || float_lt float_90 p.latitude
        || float_lt p.longitude (negative float_180)
        || float_lt float_180 p.longitude
    then none
    else some (point p.latitude p.longitude)

-- `TimestampValue`
unfoldable pub timestamp_value : Platform → Event → ℤ
timestamp_value go e = elim (go.parse_time e.timestamp) [ none ↦ e.received_at | some t ↦ t ]

module _ (go : Platform) where
  -- the keys that `BuildBulkPayload` writes, in order, each with its value if it writes one
  abbrev pub entries : Event → List (Bytes × Option DocumentValue)
  entries e =
      (codes "@timestamp", some (string (go.format_time (timestamp_value go e))))
      ∷ (codes "received_at", some (string (go.format_time e.received_at)))
      ∷ (codes "type", some (string e.type))
      ∷ (codes "site_id", some (string e.site_id))
      ∷ (codes "request_domain", some (string e.request_domain))
      ∷ (codes "request_host", some (string e.request_host))
      ∷ (codes "collector_version", some (string e.collector_version))
      ∷ (codes "traffic_quality", some (string e.traffic_quality))
      ∷ (codes "is_suspect", some (flag e.is_suspect))
      ∷ (codes "payload", some (payload e.payload))
      ∷ (codes "session_id", not_empty e.session_id)
      ∷ (codes "anonymous_id", not_empty e.anonymous_id)
      ∷ (codes "user_id", user e.user_id)
      ∷ (codes "path", not_empty e.path)
      ∷ (codes "url", not_empty e.url)
      ∷ (codes "referrer", not_empty e.referrer)
      ∷ (codes "title", not_empty e.title)
      ∷ (codes "client_ip", not_empty e.client_ip)
      ∷ (codes "geo_country_iso_code", not_empty e.geo_country_iso)
      ∷ (codes "geo_country_name", not_empty e.geo_country_name)
      ∷ (codes "geo_city_name", not_empty e.geo_city_name)
      ∷ (codes "geo_location", geo_point_document e.geo_location)
      ∷ (codes "forwarded_for", not_empty e.forwarded_for)
      ∷ (codes "user_agent", not_empty e.user_agent)
      ∷ (codes "browser_family", not_empty e.browser_family)
      ∷ (codes "browser_version", not_empty e.browser_version)
      ∷ (codes "browser_major", not_empty e.browser_major)
      ∷ (codes "browser_engine", not_empty e.browser_engine)
      ∷ (codes "os_family", not_empty e.os_family)
      ∷ (codes "os_version", not_empty e.os_version)
      ∷ (codes "device_family", not_empty e.device_family)
      ∷ (codes "device_brand", not_empty e.device_brand)
      ∷ (codes "device_model", not_empty e.device_model)
      ∷ (codes "device_type", not_empty e.device_type)
      ∷ (codes "accept_language", not_empty e.accept_language)
      ∷ (codes "accept_language_primary_tag", not_empty e.accept_language_primary_tag)
      ∷ (codes "accept_language_primary_base", not_empty e.accept_language_primary_base)
      ∷ (codes "accept_language_primary_region", not_empty e.accept_language_primary_region)
      ∷ (codes "accept_language_tags", not_none e.accept_language_tags)
      ∷ (codes "timezone", not_empty e.timezone)
      ∷ (codes "timezone_area", not_empty e.timezone_area)
      ∷ (codes "timezone_location", not_empty e.timezone_location)
      ∷ (codes "timezone_offset_minutes", offset e.timezone_offset_minutes)
      ∷ (codes "origin", not_empty e.origin)
      ∷ (codes "referer_header", not_empty e.referer_header)
      ∷ (codes "scheme", not_empty e.scheme)
      ∷ (codes "remote_addr", not_empty e.remote_addr)
      ∷ (codes "suspicion_reasons", not_none e.suspicion_reasons)
      ∷ []

-- the writes, one after the other
unfoldable pub put_all : List (Bytes × Option DocumentValue) → BulkDocument → BulkDocument
unfolding put
put_all [] document = document
put_all ((key, value) ∷ rest) document = put_all rest (put key value document)

-- `payload[key]`
unfoldable pub payload_at : Bytes → Fields → Option Value
payload_at key end = none
payload_at key (field k v fields) = if bytes_eq k key then some v else payload_at key fields

-- `promoteStringField`, `promoteBooleanField` and `promoteIntegerField`
pub data Kind : Type 0 where
  as_string as_boolean as_integer : Kind

-- the calls of `promotePayloadFields`, in order
abbrev pub promotions : List (Kind × Bytes)
promotions =
    (as_string, codes "conversation_id")
    ∷ (as_integer, codes "turn_index")
    ∷ (as_string, codes "locale")
    ∷ (as_string, codes "consent_state")
    ∷ (as_string, codes "conversation_stage")
    ∷ (as_string, codes "actor")
    ∷ (as_string, codes "message_role")
    ∷ (as_string, codes "message_format")
    ∷ (as_string, codes "response_kind")
    ∷ (as_string, codes "source")
    ∷ (as_string, codes "action_type")
    ∷ (as_boolean, codes "has_read_more")
    ∷ (as_boolean, codes "has_suggestions")
    ∷ (as_string, codes "initiated_by")
    ∷ (as_string, codes "navigation_source")
    ∷ (as_string, codes "destination_title")
    ∷ (as_string, codes "destination_href")
    ∷ []

module _ (go : Platform) where
  -- the value that is promoted, if the payload has one of the kind
  unfoldable pub promoted : Kind → Option Value → Option DocumentValue
  unfolding int64_of
  promoted as_string (some (text s)) = not_empty s
  promoted as_boolean (some (boolean b)) = some (flag b)
  promoted as_integer (some (integer n)) = some (whole n)
  promoted as_integer (some (number x)) = elim (int64_of go.int64_overflow x) [
    | none ↦ none
    | some n ↦ some (whole n)
  ]
  promoted _ _ = none

  unfoldable pub promote_fields : List (Kind × Bytes) → Fields → BulkDocument → BulkDocument
  unfolding promoted payload_at put
  promote_fields [] fields document = document
  promote_fields ((kind, key) ∷ rest) fields document =
      promote_fields rest fields (put key (promoted kind (payload_at key fields)) document)

  -- `promotePayloadFields`; a nil map is an empty one to it
  unfoldable pub promote_payload_fields : Option Fields → BulkDocument → BulkDocument
  unfolding promote_fields
  promote_payload_fields none document = document
  promote_payload_fields (some end) document = document
  promote_payload_fields (some (field k v fields)) document =
      promote_fields promotions (field k v fields) document

  unfoldable pub event_document : Event → BulkDocument
  unfolding put_all promote_payload_fields
  event_document e = promote_payload_fields e.payload (put_all (entries go e) [])
