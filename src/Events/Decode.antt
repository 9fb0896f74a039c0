-- ===== src/Events/Decode.antt =====
-- internal/events/events.go, lines 289 to 309 and 550 to 582: a request body as a list of events.
-- Package encoding/json is the parameter `Json`.
use formation_web_analytics.Base.{
  ℕ, not, Option, none, some, List, [], ◌∷◌, length, ◌==◌, Bytes, codes, lookup, Result, ok, err,
  ◌>>=◌, ◌>>◌, refuse_if,
}
use formation_web_analytics.Event.{Event}

-- what decoding one more value finds
pub data Extra : Type 0 where
  end_of_input malformed another_value : Extra

pub record Json : Type 0 where
  -- `json.Unmarshal` into a map of raw messages
  pub raw_fields : Bytes → Option (List (Bytes × Bytes))
  -- one value of the type from a decoder that refuses unknown fields, and what follows it
  pub decode_events : Bytes → Option (List Event × Bytes)
  pub decode_event : Bytes → Option (Event × Bytes)
  pub extra : Bytes → Extra

pub data DecodeError : Type 0 where
  empty_batch other_error : DecodeError

unfoldable pub ensure_eof : Extra → Result DecodeError (Unit {0})
ensure_eof end_of_input = ok tt
ensure_eof _ = err other_error

abbrev or_error {ℓ} : {A : Type ℓ} → Option A → Result DecodeError A
or_error none = err other_error
or_error (some a) = ok a

module _ (json : Json) where
  unfoldable pub decode_single : Bytes → Result DecodeError (List Event)
  unfolding ensure_eof
  decode_single body = do
    (event, rest) ← or_error (json.decode_event body)
    ensure_eof (json.extra rest)
    ok (event ∷ [])

  -- the value of "events" and the number of fields beside it
  unfoldable pub decode_wrapped : Bytes → ℕ → Result DecodeError (List Event)
  unfolding ensure_eof
  decode_wrapped raw_events fields = do
    refuse_if (not (fields == 1)) other_error
    (events, rest) ← or_error (json.decode_events raw_events)
    ensure_eof (json.extra rest)
    refuse_if (length events == 0) empty_batch
    ok events

  unfoldable pub choose : Bytes → Option (List (Bytes × Bytes)) → Result DecodeError (List Event)
  unfolding decode_single decode_wrapped
  choose body none = decode_single body
  choose body (some probe) = elim (lookup (codes "events") probe) [
    | none ↦ decode_single body
    | some raw_events ↦ decode_wrapped raw_events (length probe)
  ]

  -- `DecodeBatch`
  unfoldable pub decode_batch : Bytes → Result DecodeError (List Event)
  unfolding choose
  decode_batch body = choose body (json.raw_fields body)
