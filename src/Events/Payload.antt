-- ===== src/Events/Payload.antt =====
-- internal/events/events.go, lines 360 to 369 and 467 to 548: the limits on the payload. A field
-- length of 0 turns truncation off, as in the source.
pub mod Accepts
pub mod Truncated
use formation_web_analytics.Base.{
  ℕ, zero, suc, ◌+◌, Bool, true, false, ◌||◌, Option, none, some, List, length, take, ltb, leb,
  if◌then◌else◌, Bytes, is_empty, Result, ok, err, ◌>>=◌, ◌>>◌, refuse_if,
}
use formation_web_analytics.Event.{
  Value, null, boolean, number, text, object, array, integer, Fields, end, field, Items, nil, cons,
}

-- one constructor for each message
pub data PayloadError : Type 0 where
  exceeds_max_depth string_too_long invalid_key unsupported_type too_many_entries : PayloadError

unfoldable pub too_long : Bytes → ℕ → Bool
too_long value max_length = ltb max_length (length value)

unfoldable pub truncate_string : Bytes → ℕ → Bytes
truncate_string value max_length =
    if leb max_length 0 || leb (length value) max_length then value else take max_length value

module _ (max_depth max_field_length : ℕ) where
  unfoldable mutual
    -- `validatePayloadValue`: the number of entries, or the first error met
    pub validate_value : Value → ℕ → Result PayloadError ℕ
    validate_value null depth = if ltb max_depth depth then err exceeds_max_depth else ok 1
    validate_value (boolean b) depth = if ltb max_depth depth then err exceeds_max_depth else ok 1
    validate_value (number x) depth = if ltb max_depth depth then err exceeds_max_depth else ok 1
    validate_value (text s) depth =
        if ltb max_depth depth
        then err exceeds_max_depth
        else if ltb max_field_length (length s)
        then err string_too_long
        else ok 1
    validate_value (object fs) depth =
        let count = validate_fields fs (depth + 1) in
        if ltb max_depth depth then err exceeds_max_depth else count
    validate_value (array xs) depth =
        let count = validate_items xs (depth + 1) in
        if ltb max_depth depth then err exceeds_max_depth else count
    validate_value (integer n) depth =
        if ltb max_depth depth then err exceeds_max_depth else err unsupported_type

    -- the loop over a map, whose entries are at `depth`
    pub validate_fields : Fields → ℕ → Result PayloadError ℕ
    validate_fields end depth = ok 0
    validate_fields (field key nested fs) depth = do
      refuse_if (is_empty key || ltb max_field_length (length key)) invalid_key
      nested_count ← validate_value nested depth
      count ← validate_fields fs depth
      ok (1 + nested_count + count)

    -- the loop over a slice
    pub validate_items : Items → ℕ → Result PayloadError ℕ
    validate_items nil depth = ok 0
    validate_items (cons nested xs) depth = do
      nested_count ← validate_value nested depth
      count ← validate_items xs depth
      ok (nested_count + count)

  -- `validatePayload`
  unfoldable pub validate_payload : ℕ → Option Fields → Result PayloadError (Unit {0})
  unfolding validate_value
  validate_payload max_entries none = ok tt
  validate_payload max_entries (some payload) = do
    count ← validate_value (object payload) 1
    refuse_if (ltb max_entries count) too_many_entries

module _ (max_field_length : ℕ) where
  unfoldable mutual
    -- `truncatePayloadValue`; the source writes each entry back in place
    pub truncate_value : Value → Value
    truncate_value null = null
    truncate_value (boolean b) = boolean b
    truncate_value (number x) = number x
    truncate_value (text s) = text (truncate_string s max_field_length)
    truncate_value (object fs) = object (truncate_fields fs)
    truncate_value (array xs) = array (truncate_items xs)
    truncate_value (integer n) = integer n

    pub truncate_fields : Fields → Fields
    truncate_fields end = end
    truncate_fields (field key nested fs) = field key (truncate_value nested) (truncate_fields fs)

    pub truncate_items : Items → Items
    truncate_items nil = nil
    truncate_items (cons nested xs) = cons (truncate_value nested) (truncate_items xs)

  -- `truncatePayload`
  unfoldable pub truncate_payload : Option Fields → Option Fields
  unfolding truncate_value
  truncate_payload none = none
  truncate_payload (some payload) = some (truncate_fields payload)
