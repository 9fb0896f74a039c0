-- ===== src/Geo/Examples.antt =====
-- The theorems on geo.go and on the watch, with a disk that numbers its readers and counts which are
-- open, and whose file is new after every opening.
use formation_web_analytics.Base.{
  ℕ, ◌+◌, ◌-◌, ◌==◌, ◌++◌, if◌then◌else◌, List, ◌≡◌, refl, pos, true, false, ◌&&◌, some, [], ◌∷◌,
  Bytes, codes, is_empty, lookup, arith, bytes_eq,
}
use formation_web_analytics.Go.Float.{float_90}
use formation_web_analytics.Event.{Event, Point, GeoResult}
use formation_web_analytics.Elastic.Document.{point, event_document}
use formation_web_analytics.Geo.{
  CityRecord, Disk, Resolver, described, look_up, name_at, reload_if_changed, valid_point,
}
use formation_web_analytics.Geo.Lookup.{look_up-event_document}
use formation_web_analytics.Geo.Reload.{HasReloaded, opened_by, reload_if_changed-HasReloaded}
use formation_web_analytics.Samples.{platform}

-- a city at 90 degrees north
abbrev pub city : CityRecord
city = record {
  country_iso = codes "NO";
  country_names = [];
  city_names = (codes "en", codes "Pole") ∷ [];
  latitude = some float_90;
  longitude = some 0;
}

-- the next number for a reader, and how often each number is open
abbrev World : Type 0
World = ℕ × (ℕ → ℕ)

abbrev disk : Disk ℕ (Unit {0}) World
disk = record {
  parse_address = λ s. some tt;
  find = λ reader. λ ip. some city;
  open_db = λ path. λ w. (some w.0, (w.0 + 1, λ x. if x == w.0 then w.1 x + 1 else w.1 x));
  stat = λ path. λ w. (some (record { file = w.0; mod_time = pos 0; size = pos 9 }), w);
  close = λ reader. λ w. (true, (w.0, λ x. if x == reader then w.1 x - 1 else w.1 x));
}

count : ℕ → List ℕ → ℕ
count x [] = 0
count x (y ∷ ys) = if x == y then count x ys + 1 else count x ys

abbrev Opens : World → List ℕ → Type 0
Opens w readers = (x : ℕ) → w.1 x ≡ count x readers

count-middle :
    (x y : ℕ) (before after : List ℕ)
    → count x (before ++ y ∷ after) ≡ count x (y ∷ before ++ after)
unfolding count
count-middle x y [] after = refl
count-middle x y (z ∷ before) after = ground (arith, count-middle x y before after)

open_db-Opens :
    (path : Bytes) (w : World) (readers : List ℕ)
    → Opens w readers
    → Opens (disk.open_db path w).1 (opened_by (disk.open_db path w).0 ++ readers)
unfolding count
open_db-Opens path w readers h x = ground (arith, h x)

stat-Opens :
    (path : Bytes) (w : World) (readers : List ℕ)
    → Opens w readers
    → Opens (disk.stat path w).1 readers
stat-Opens path w readers h = h

close-Opens :
    (reader : ℕ) (w : World) (before after : List ℕ)
    → Opens w (before ++ reader ∷ after)
    → Opens (disk.close reader w).1 (before ++ after)
unfolding count
close-Opens reader w before after h x = ground (arith, h x, count-middle x reader before after)

-- reader 0 is open, and reader 1 is the next
abbrev one_open : World
one_open = (1, λ x. if x == 0 then 1 else 0)

one_open-Opens : Opens one_open (0 ∷ [])
unfolding count
one_open-Opens x = ground arith

abbrev resolver : Resolver ℕ
resolver = record {
  reader = 0;
  path = codes "/geo.mmdb";
  file_info = record { file = 7; mod_time = pos 0; size = pos 9 };
}

abbrev result : GeoResult
result = described city

found : look_up disk resolver (codes "10.0.0.1") ≡ some result
unfolding look_up name_at valid_point lookup bytes_eq
found = refl

look_up-event_document_example :
    ((is_empty result.country_iso_code && is_empty result.country_name && is_empty result.city_name)
      ≡ false)
    × ((p : Point) (e : Event)
        → result.point ≡ some p
        → e.geo_location ≡ result.point
        → lookup (codes "geo_location") (event_document platform e)
          ≡ some (point p.latitude p.longitude))
look_up-event_document_example =
    look_up-event_document disk platform resolver (codes "10.0.0.1") result found

reload_if_changed-HasReloaded_example :
    HasReloaded disk Opens open_db-Opens stat-Opens close-Opens resolver [] one_open
      (reload_if_changed disk resolver one_open).0
      (reload_if_changed disk resolver one_open).2
      (reload_if_changed disk resolver one_open).3
reload_if_changed-HasReloaded_example =
    reload_if_changed-HasReloaded disk Opens open_db-Opens stat-Opens close-Opens resolver []
      one_open one_open-Opens
