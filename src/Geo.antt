-- ===== src/Geo.antt =====
-- internal/geo/geo.go: the place of an address, and the reload of its database. The database reader,
-- the file system and package netip are a `Disk` over the state `W` of the world. `Lookup` holds the
-- lock that `ReloadIfChanged` takes to replace the reader, so each is one step.
pub mod Lookup
pub mod Reload
pub mod Watch
pub mod Examples
use formation_web_analytics.Base.{
  ℕ, ℤ, ◌≡◌, Bool, true, false, ◌&&◌, ◌||◌, Option, none, some, List, [], ◌∷◌, ltb, ◌==◌,
  if◌then◌else◌, Bytes, codes, is_empty, lookup, eq_ℤ, not, Result, ok, err,
}
use formation_web_analytics.Go.Float.{
  Float64, is_nan, is_inf, float_lt, float_90, float_180, negative,
}
use formation_web_analytics.Event.{Point, GeoResult}

-- `cityRecord`
pub record CityRecord : Type 0 where
  pub country_iso : Bytes
  pub country_names : List (Bytes × Bytes)
  pub city_names : List (Bytes × Bytes)
  pub latitude : Option Float64
  pub longitude : Option Float64

-- `os.FileInfo`, with what tells one file from another
pub record FileInfo : Type 0 where
  pub file : ℕ
  pub mod_time : ℤ
  pub size : ℤ

pub record Disk (Reader Address W : Type 0) : Type 0 where
  -- `netip.ParseAddr`
  pub parse_address : Bytes → Option Address
  -- `reader.Lookup(ip).Decode(&record)`, unless it is an error
  pub find : Reader → Address → Option CityRecord
  -- `maxminddb.Open`, `os.Stat`, and `reader.Close` with whether it succeeds
  pub open_db : Bytes → W → Option Reader × W
  pub stat : Bytes → W → Option FileInfo × W
  pub close : Reader → W → Bool × W

-- `maxMindResolver`
pub record Resolver (Reader : Type 0) : Type 0 where
  pub reader : Reader
  pub path : Bytes
  pub file_info : FileInfo

pub data GeoError : Type 0 where
  not_opened not_found not_closed : GeoError

-- `m[key]` of a map of strings
unfoldable pub name_at : Bytes → List (Bytes × Bytes) → Bytes
unfolding lookup
name_at key names = elim (lookup key names) [ none ↦ [] | some name ↦ name ]

-- `validPoint`
unfoldable pub valid_point : Option Float64 → Option Float64 → Option Point
unfolding is_nan is_inf float_lt
valid_point none longitude = none
valid_point (some latitude) none = none
valid_point (some latitude) (some longitude) =
    if is_nan latitude || is_inf latitude || is_nan longitude || is_inf longitude
    then none
    else if float_lt latitude (negative float_90)
        || float_lt float_90 latitude
        || float_lt longitude (negative float_180)
        || float_lt float_180 longitude
    then none
    else some (record { latitude = latitude; longitude = longitude })

-- what `Lookup` makes of a record
unfoldable pub described : CityRecord → GeoResult
unfolding name_at valid_point
described found = record {
  country_iso_code = found.country_iso;
  country_name = name_at (codes "en") found.country_names;
  city_name = name_at (codes "en") found.city_names;
  point = valid_point found.latitude found.longitude;
}

-- `!unchanged`
unfoldable pub is_changed : FileInfo → FileInfo → Bool
is_changed info known =
    not (info.file == known.file && eq_ℤ info.mod_time known.mod_time && eq_ℤ info.size known.size)

module _ {Reader Address W : Type 0} (disk : Disk Reader Address W) where
  -- `New`
  unfoldable pub new : Bytes → W → Result GeoError (Resolver Reader) × W
  new path w =
      let (reader, w₁) = disk.open_db path w in
      let (info, w₂) = disk.stat path w₁ in
      elim reader [
        | none ↦ (err not_opened, w₁)
        | some opened ↦ elim info [
          | none ↦ (err not_found, (disk.close opened w₂).1)
          | some file_info ↦
              (ok (record { reader = opened; path = path; file_info = file_info }), w₂)
        ]
      ]

  -- `Lookup`
  unfoldable pub look_up : Resolver Reader → Bytes → Option GeoResult
  unfolding described
  look_up r raw_ip = elim (disk.parse_address raw_ip) [
    | none ↦ none
    | some ip ↦ elim (disk.find r.reader ip) [
      | none ↦ none
      | some found ↦
          let result = described found in
          if is_empty result.country_iso_code
            && is_empty result.country_name
            && is_empty result.city_name
          then none
          else some result
    ]
  ]

  -- `ReloadIfChanged`: whether it reloaded, its error, and the resolver that it leaves
  unfoldable pub reload_if_changed :
      Resolver Reader → W → Bool × Option GeoError × Resolver Reader × W
  unfolding is_changed
  reload_if_changed r w =
      let (info, w₁) = disk.stat r.path w in
      let (reader, w₂) = disk.open_db r.path w₁ in
      elim info [
        | none ↦ (false, some not_found, r, w₁)
        | some file_info ↦
            if is_changed file_info r.file_info
            then elim reader [
              | none ↦ (false, some not_opened, r, w₂)
              | some opened ↦
                  let (closed, w₃) = disk.close r.reader w₂ in
                  (
                    true,
                    (if closed then none else some not_closed),
                    record r { reader = opened; file_info = file_info },
                    w₃,
                  )
            ]
            else (false, none, r, w₁)
      ]

  -- `Close`
  unfoldable pub close : Resolver Reader → W → Bool × W
  close r w = disk.close r.reader w
