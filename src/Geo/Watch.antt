-- ===== src/Geo/Watch.antt =====
-- `watchGeoIP` of cmd/collector/main.go, from the opening of the database to its end.
use formation_web_analytics.Base.{List, [], ◌∷◌, Bytes, Result, ok, err}
use formation_web_analytics.Geo.{Disk, Resolver, GeoError, new, reload_if_changed, close}

-- what the `select` receives
pub data Wakeup : Type 0 where
  context_done fired : Wakeup

module _ {Reader Address W : Type 0} (disk : Disk Reader Address W) (meanwhile : W → W) where
  -- `watchGeoIP`, where `meanwhile` is what happens up to the next midnight; an error is only logged
  unfoldable pub watch : List Wakeup → Resolver Reader → W → Resolver Reader × W
  unfolding reload_if_changed
  watch [] r w = (r, w)
  watch (context_done ∷ wakeups) r w = (r, w)
  watch (fired ∷ wakeups) r w =
      let (reloaded, error, r', w') = reload_if_changed disk r (meanwhile w) in watch wakeups r' w'

  -- what `main` does once `New` has answered: it exits on an error; otherwise the watch runs, and the
  -- deferred `Close`
  unfoldable pub watch_and_close : List Wakeup → Result GeoError (Resolver Reader) × W → W
  unfolding watch close
  watch_and_close wakeups (err e, w) = w
  watch_and_close wakeups (ok r, w) = let (r', w') = watch wakeups r w in (close disk r' w').1

  unfoldable pub open_watch_close : Bytes → List Wakeup → W → W
  unfolding new watch_and_close
  open_watch_close path wakeups w = watch_and_close wakeups (new disk path w)
