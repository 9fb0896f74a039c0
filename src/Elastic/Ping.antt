-- ===== src/Elastic/Ping.antt =====
-- `Ping` and `applyAuth` of internal/elastic/client.go.
use formation_web_analytics.Base.{
  ℕ, Bool, true, false, ◌&&◌, not, Option, none, some, [], ◌∷◌, ltb, ◌==◌, if◌then◌else◌, Bytes,
  is_empty,
}
use formation_web_analytics.Config.{Config}

-- the header `Authorization`: `ApiKey` with the key, or what `SetBasicAuth` makes of a name and a
-- password
pub data Authorization : Type 0 where
  api_key : Bytes → Authorization
  basic : Bytes → Bytes → Authorization

-- `applyAuth`
unfoldable pub authorization : Config → Authorization
authorization cfg =
    if not (is_empty cfg.elasticsearch_api_key)
    then api_key cfg.elasticsearch_api_key
    else basic cfg.elasticsearch_username cfg.elasticsearch_password

-- whether a text consists of `c`
unfoldable only : ℕ → Bytes → Bool
only c [] = true
only c (d ∷ s) = d == c && only c s

-- `strings.TrimRight(s, c)` for one byte
unfoldable pub trim_right : ℕ → Bytes → Bytes
unfolding only
trim_right c [] = []
trim_right c (d ∷ s) = if only c (d ∷ s) then [] else d ∷ trim_right c s

-- `Ping`: `get` is a request with its answer's status, unless it cannot be made or has no answer
unfoldable pub ping :
    {W : Type 0} → (Bytes → Authorization → W → Option ℕ × W) → Config → W → Bool × W
unfolding authorization trim_right
ping get cfg w =
    let (answer, w') = get (trim_right b'/' cfg.elasticsearch_url) (authorization cfg) w in
    (elim answer [ none ↦ false | some status ↦ ltb status 400 ], w')
