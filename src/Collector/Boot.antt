-- ===== src/Collector/Boot.antt =====
-- cmd/collector/main.go, lines 23 to 70: what `main` sets up, or why it exits with code 1.
mod Examples
use formation_web_analytics.Base.{◌+◌, ◌%◌, ◌^◌, ◌<◌, ◌≡◌, [], none, Option, Bytes, Result, ok, err}
use formation_web_analytics.Go.{Platform}
use formation_web_analytics.Config.{Config}
use formation_web_analytics.Config.Settings.{LoadError}
use formation_web_analytics.Config.Load.{load, IsSound}
use formation_web_analytics.Event.{Event}
use formation_web_analytics.Events.Decode.{Json}
use formation_web_analytics.Events.UserAgent.{Client}
use formation_web_analytics.Geo.{Disk, Resolver, GeoError, new, look_up}
use formation_web_analytics.Queue
use formation_web_analytics.Queue.{Queue}
use formation_web_analytics.Http.{Services}
use formation_web_analytics.Batcher.{Environment}
use formation_web_analytics.Batcher.Retries.{settled}
use formation_web_analytics.Batcher.Flush.{held}
use formation_web_analytics.Collector.Program.{Phase, selecting, Program, queue_of, begin, Reaches}

-- `os.Exit(1)`, and what is logged
pub data Failure : Type 0 where
  bad_settings : LoadError → Failure
  no_database : GeoError → Failure

pub record Booted (Reader W : Type 0) : Type 0 where
  pub config : Config
  pub resolver : Resolver Reader
  pub program : Program W

-- `environment` is what the parts that are built from the configuration, the sender and the ticker, make
-- of the world
module _ {Reader Address W : Type 0} (disk : Disk Reader Address W) (go : Platform) (json : Json)
    (parse_user_agent : Bytes → Option Client) (getenv : Bytes → Bytes)
    (environment : Config → Phase → Environment W) where
  -- what `httpapi.New` is given
  unfoldable pub services_with : Resolver Reader → Services
  unfolding look_up
  services_with resolver = record {
    go = go;
    json = json;
    parse_user_agent = parse_user_agent;
    geo_lookup = look_up disk resolver;
  }

  -- from the opened database on
  unfoldable pub boot_with :
      Config → Result GeoError (Resolver Reader) × W → Result Failure (Booted Reader W) × W
  unfolding services_with begin
  boot_with cfg (err e, w) = (err (no_database e), w)
  boot_with cfg (ok resolver, w) = (
    ok (record {
      config = cfg;
      resolver = resolver;
      program = begin (services_with resolver) cfg (environment cfg) w;
    }),
    w,
  )

  -- and from the configuration on
  unfoldable pub boot_from : Result LoadError Config → W → Result Failure (Booted Reader W) × W
  unfolding boot_with new
  boot_from (err e) w = (err (bad_settings e), w)
  boot_from (ok cfg) w = boot_with cfg (new disk cfg.geo_ip_db_path w)

  unfoldable pub boot : Bytes → W → Result Failure (Booted Reader W) × W
  unfolding boot_from load
  boot version w = boot_from (load go getenv version) w

  -- what is true of a program that was set up
  record IsBooted (b : Booted Reader W) (w : W) : Type 0 where
    sound : IsSound b.config
    begun : b.program ≡ begin (services_with b.resolver) b.config (environment b.config) w

  abbrev Boots : Result Failure (Booted Reader W) × W → Type 0
  Boots (err e, w) = Unit
  Boots (ok b, w) = IsBooted b w

  abbrev pub services_of : Booted Reader W → Services
  services_of b = services_with b.resolver

  -- What a tick of the ticker brings about, from `p` on: the program is back at the `select` with an empty
  -- queue, the gauge at 0 and no batch on its way; it accepted no event in between, and every event that was
  -- ever accepted is counted as indexed or failed, but for those lost or counted twice.
  pub record HasEmptied (b : Booted Reader W) (w : W) (p p' : Program W) : Type 0 where
    pub reached : Reaches (services_of b) b.config (environment b.config) w p'
    pub place : p'.place ≡ selecting
    pub phase : p'.phase ≡ p.phase
    pub empty : held (queue_of p') ≡ []
    pub depth : p'.collector.server.metrics.queued_current ≡ 0
    pub idle : p'.collector.flying ≡ none
    pub accepted :
        p'.collector.server.metrics.accepted_events ≡ p.collector.server.metrics.accepted_events
    pub counted :
        let c = p'.collector in
        (c.server.metrics.accepted_events + c.repeated) % 2 ^ 64
        ≡ (settled c.server.metrics + c.lost) % 2 ^ 64
