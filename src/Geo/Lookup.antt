-- ===== src/Geo/Lookup.antt =====
-- What `Lookup` gives, and where it goes: the document of an event.
use formation_web_analytics.Base.{
  ◌≡◌, refl, sym, ◌∙◌, inl, inr, false, ◌&&◌, ◌||◌, Option, none, some, Bool-cases, Option-cases,
  Bytes, codes, is_empty, lookup, subst, ap, bytes_eq,
}
use mathlib.Core.Option.{some-injective}
use formation_web_analytics.Go.{Platform}
use formation_web_analytics.Go.Float.{
  Float64, is_nan, is_inf, float_lt, float_90, float_180, negative,
}
use formation_web_analytics.Event.{Event, Point, GeoResult}
use formation_web_analytics.Elastic.Document.{point, geo_point_document, event_document}
use formation_web_analytics.Elastic.Document.Lookup.{all_entries, lookup-event_document}
use formation_web_analytics.Geo.{CityRecord, Disk, Resolver, valid_point, described, look_up}

-- a point that passed the checks passes those of the document
valid_point-geo_point_document :
    (latitude longitude : Option Float64) (p : Point)
    → valid_point latitude longitude ≡ some p
    → geo_point_document (some p) ≡ some (point p.latitude p.longitude)
unfolding valid_point geo_point_document
valid_point-geo_point_document none longitude p h = absurd (cc)
valid_point-geo_point_document (some a) none p h = absurd (cc)
valid_point-geo_point_document (some a) (some b) p h =
    elim (Bool-cases (is_nan a || is_inf a || is_nan b || is_inf b)) [
      | inl bad ↦ let r : valid_point (some a) (some b) ≡ none = rw bad refl in absurd (cc (r, h))
      | inr finite ↦
          elim (Bool-cases (
            float_lt a (negative float_90)
            || float_lt float_90 a
            || float_lt b (negative float_180)
            || float_lt float_180 b)) [
              | inl out ↦
                  let r : valid_point (some a) (some b) ≡ none = rw (finite, out) refl in
                  absurd (cc (r, h))
              | inr within ↦
                  let r : valid_point (some a) (some b)
                      ≡ some (record { latitude = a; longitude = b }) =
                    rw (finite, within) refl in
                  let passed : geo_point_document (some (record { latitude = a; longitude = b }))
                      ≡ some (point a b) =
                    rw (finite, within) refl in
                  subst (λ p. geo_point_document (some p) ≡ some (point p.latitude p.longitude))
                    (some-injective _ _ (sym r ∙ h)) passed
            ]
    ]

module _ {Reader Address W : Type 0} (disk : Disk Reader Address W) where
  -- a result has a country or a city, and comes from a record of the database
  look_up-described :
      (r : Resolver Reader) (ip : Bytes) (result : GeoResult)
      → look_up disk r ip ≡ some result
      → (found : CityRecord) × (described found ≡ result)
        × ((is_empty result.country_iso_code
              && is_empty result.country_name
              && is_empty result.city_name)
            ≡ false)
  unfolding look_up
  look_up-described r ip result h = elim (Option-cases (disk.parse_address ip)) [
    | inl bad ↦ let e : look_up disk r ip ≡ none = rw (bad, look_up) refl in absurd (cc (e, h))
    | inr (address, good) ↦ elim (Option-cases (disk.find r.reader address)) [
      | inl absent ↦
          let e : look_up disk r ip ≡ none = rw (good, absent, look_up) refl in absurd (cc (e, h))
      | inr (found, there) ↦
          let d = described found in
          elim (Bool-cases
            (is_empty d.country_iso_code && is_empty d.country_name && is_empty d.city_name)) [
              | inl nameless ↦
                  let e : look_up disk r ip ≡ none = rw (good, there, nameless, look_up) refl in
                  absurd (cc (e, h))
              | inr named ↦
                  let e : look_up disk r ip ≡ some d = rw (good, there, named, look_up) refl in
                  subst
                    (λ x.
                      (found : CityRecord) × (described found ≡ x)
                      × ((is_empty x.country_iso_code
                            && is_empty x.country_name
                            && is_empty x.city_name)
                          ≡ false))
                    (some-injective _ _ (sym e ∙ h)) (found, refl, named)
            ]
    ]
  ]

  -- A result of `Lookup` names a country or a city; and if it has a point, the document of every event
  -- with that point holds it under `geo_location`: the check of the document never drops a point that
  -- was looked up.
  pub look_up-event_document :
      (go : Platform) (r : Resolver Reader) (ip : Bytes) (result : GeoResult)
      → look_up disk r ip ≡ some result
      → ((is_empty result.country_iso_code
            && is_empty result.country_name
            && is_empty result.city_name)
          ≡ false)
        × ((p : Point) (e : Event)
            → result.point ≡ some p
            → e.geo_location ≡ result.point
            → lookup (codes "geo_location") (event_document go e)
              ≡ some (point p.latitude p.longitude))
  unfolding described all_entries lookup bytes_eq
  look_up-event_document go r ip result h =
      let (found, same, named) = look_up-described r ip result h in
      (
        named,
        λ p. λ e. λ has. λ of_event.
            let valid : valid_point found.latitude found.longitude ≡ some p =
              ap (λ x. x.point) same ∙ has in
            let put = valid_point-geo_point_document found.latitude found.longitude p valid in
            lookup-event_document go e (codes "geo_location") ∙ (rw (of_event ∙ has, put) refl),
      )
