-- ===== src/Events/Fields/Examples.antt =====
-- The theorems on payloads and fields at a concrete event and payload.
use formation_web_analytics.Base.{◌<◌, ◌≡◌, refl, arith, Option, some, codes, ok, bytes_eq}
use formation_web_analytics.Go.Strings.{trim_space}
use formation_web_analytics.Event.{Fields, end, field, text, object, null}
use formation_web_analytics.Events.Payload.{validate_payload}
use formation_web_analytics.Events.Fields.{
  apply_field_limits, validate, validate_timezone, validate_url_field,
}
use formation_web_analytics.Events.Fields.Limits.{
  checks_left, validate-apply_field_limits, IsWithin, validate-IsWithin,
}
use formation_web_analytics.Samples.{platform, config, view_event}

abbrev payload : Option Fields
payload = some (
    field (codes "plan") (text (codes "team"))
      (field (codes "more") (object (field (codes "x") null end)) end))

config-positive : 0 < config.max_field_length
config-positive = omega arith

validate-apply_field_limits_example :
    validate platform config (apply_field_limits platform config view_event)
    ≡ checks_left platform config view_event
validate-apply_field_limits_example =
    validate-apply_field_limits platform config view_event config-positive

view_event-valid : validate platform config view_event ≡ ok tt
unfolding validate trim_space validate_url_field bytes_eq validate_timezone validate_payload
view_event-valid = refl

validate-IsWithin_example : IsWithin config.max_field_length view_event
validate-IsWithin_example = validate-IsWithin platform config view_event view_event-valid
