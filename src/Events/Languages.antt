-- ===== src/Events/Languages.antt =====
-- internal/events/request_metadata.go: the tags of an Accept-Language header, and timezone names.
pub mod Tags
mod Examples
use formation_web_analytics.Base.{
  Bool, false, ◌||◌, Option, none, some, List, [], ◌∷◌, ◌++◌, length, take, drop, ◌==◌,
  if◌then◌else◌, Bytes, codes, bytes_eq, is_empty,
}
use formation_web_analytics.Go.{Platform, to_lower, to_upper}
use formation_web_analytics.Go.Strings.{trim_space, before, split, split_at, join}

-- `slices.Contains`
unfoldable pub has_tag : List Bytes → Bytes → Bool
has_tag [] tag = false
has_tag (t ∷ tags) tag = bytes_eq t tag || has_tag tags tag

-- what `applyAcceptLanguageDetails` sets
pub record Languages : Type 0 where
  pub primary_tag : Bytes
  pub primary_base : Bytes
  pub primary_region : Bytes
  pub tags : List Bytes

abbrev pub no_languages : Languages
no_languages = record { primary_tag = []; primary_base = []; primary_region = []; tags = [] }

module _ (go : Platform) where
  -- one segment behind the first: a region, a script, or other
  unfoldable pub normalize_segment : Bytes → Bytes
  unfolding to_lower to_upper
  normalize_segment segment =
      if length segment == 2 || length segment == 3
      then to_upper go segment
      else if length segment == 4
      then to_upper go (take 1 segment) ++ to_lower go (drop 1 segment)
      else to_lower go segment

  -- the loop behind the first segment; `none` is an empty segment
  unfoldable pub normalize_segments : List Bytes → Option (List Bytes)
  unfolding normalize_segment trim_space
  normalize_segments [] = some []
  normalize_segments (s ∷ segments) =
      let segment = trim_space s in
      let rest : Option (List Bytes) = elim (normalize_segments segments) [
        | none ↦ none
        | some done ↦ some (normalize_segment segment ∷ done)
      ] in
      if is_empty segment then none else rest

  unfoldable pub normalize_all : Bytes × List Bytes → Option (List Bytes)
  unfolding normalize_segments
  normalize_all (first, segments) =
      let segment = trim_space first in
      let rest : Option (List Bytes) = elim (normalize_segments segments) [
        | none ↦ none
        | some done ↦ some (to_lower go segment ∷ done)
      ] in
      if is_empty segment then none else rest

  unfoldable pub normalize_language_tag : Bytes → Bytes
  unfolding normalize_all trim_space before split_at join
  normalize_language_tag raw =
      let tag = trim_space (before (λ c. c == b';') (trim_space raw)) in
      let joined : Bytes = elim (normalize_all (split_at b'-' tag)) [
        | none ↦ []
        | some done ↦ join b'-' done
      ] in
      if is_empty tag || bytes_eq tag (codes "*") then [] else joined

  -- the loop over the parts, which keeps the first of equal tags
  unfoldable pub collect_tags : List Bytes → List Bytes → List Bytes
  unfolding normalize_language_tag has_tag
  collect_tags [] tags = tags
  collect_tags (part ∷ parts) tags =
      let tag = normalize_language_tag part in
      collect_tags parts (if is_empty tag || has_tag tags tag then tags else tags ++ tag ∷ [])

  unfoldable pub first_region : List Bytes → Bytes
  unfolding to_upper
  first_region [] = []
  first_region (s ∷ segments) =
      if length s == 2 || length s == 3 then to_upper go s else first_region segments

  unfoldable pub describe_tags : List Bytes → Languages
  unfolding first_region split_at to_lower
  describe_tags [] = no_languages
  describe_tags (tag ∷ tags) =
      let (base, segments) = split_at b'-' tag in
      record {
        primary_tag = tag;
        primary_base = to_lower go base;
        primary_region = first_region segments;
        tags = tag ∷ tags;
      }

  -- `applyAcceptLanguageDetails` of an event with this header
  unfoldable pub accept_language_details : Bytes → Languages
  unfolding collect_tags describe_tags split
  accept_language_details accept_language =
      let raw = trim_space accept_language in
      if is_empty raw then no_languages else describe_tags (collect_tags (split b',' raw) [])

-- `applyTimezoneDetails`: the area and the location
unfoldable pub timezone_details : Bytes → Bytes × Bytes
unfolding trim_space split_at join
timezone_details timezone =
    let name = trim_space timezone in
    let (area, rest) = split_at b'/' name in
    if is_empty name then ([], []) else (area, join b'/' rest)
