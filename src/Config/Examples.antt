-- ===== src/Config/Examples.antt =====
-- The parsers of settings at concrete texts, and the theorems on them.
use formation_web_analytics.Base.{
  if◌then◌else◌, ◌≡◌, refl, List, [], ◌∷◌, Bytes, codes, ok, err, lookup, insert, bytes_eq,
}
use formation_web_analytics.Config.{Set}
use formation_web_analytics.Go.Strings.{split}
use formation_web_analytics.Go.Numbers.{parse_int}
use formation_web_analytics.Config.Parse.{is_none, parse_domains, parse_list, parse_site_origins}
use formation_web_analytics.Config.Settings.{
  drop_policy_of, env_or_default, parsed, read_flags, read_sizes, read_times, value_of,
}
use formation_web_analytics.Config.{Config}
use formation_web_analytics.Config.Load.{configured, load, IsSound}
use formation_web_analytics.Config.Load.Sound.{load-IsSound}
use formation_web_analytics.Samples.{config, platform}

abbrev domains : List Bytes
domains = codes "a.io" ∷ codes "b.io" ∷ []

abbrev domain_set : Set
domain_set = (codes "a.io", tt) ∷ (codes "b.io", tt) ∷ []

parse_domains-two :
    parse_domains platform (codes " A.io,https://b.io:443/x,,a.io") ≡ ok (domains, domain_set)
unfolding parse_domains lookup insert bytes_eq
parse_domains-two = refl

abbrev sites : List (Bytes × Set)
sites = (codes "one", domain_set) ∷ (codes "two", (codes "c.io", tt) ∷ []) ∷ []

parse_site_origins-two : parse_site_origins platform (codes "one: a.io|b.io; two:c.io;") ≡ ok sites
unfolding parse_site_origins lookup insert bytes_eq is_none
parse_site_origins-two = refl

parse_list-bots : parse_list platform (codes "Bot, ,CURL") ≡ codes "bot" ∷ codes "curl" ∷ []
unfolding parse_list split
parse_list-bots = refl

-- an environment with the required settings and a batch size
abbrev pub getenv : Bytes → Bytes
getenv key =
    if bytes_eq key (codes "ALLOWED_DOMAINS")
    then codes "a.io, b.io"
    else if bytes_eq key (codes "ELASTICSEARCH_URL")
    then codes "http://es:9200"
    else if bytes_eq key (codes "GEOIP_DB_PATH")
    then codes "/geo.mmdb"
    else if bytes_eq key (codes "ELASTICSEARCH_API_KEY")
    then codes "key"
    else if bytes_eq key (codes "MAX_BATCH_SIZE")
    then codes " 20 "
    else []

abbrev pub loaded : Config
loaded = elim (load platform getenv (codes "dev")) [ ok cfg ↦ cfg | err e ↦ config ]

pub load-loaded : load platform getenv (codes "dev") ≡ ok loaded
unfolding load value_of env_or_default configured drop_policy_of read_sizes read_flags read_times
    parsed parse_domains parse_site_origins is_none bytes_eq lookup insert parse_int
load-loaded = refl

loaded-batch : loaded.max_batch_size ≡ 20
unfolding load value_of env_or_default configured drop_policy_of read_sizes read_flags read_times
    parsed parse_domains parse_site_origins is_none bytes_eq lookup insert parse_int
loaded-batch = refl

load-IsSound_example : IsSound loaded
load-IsSound_example = load-IsSound platform getenv (codes "dev") loaded load-loaded
