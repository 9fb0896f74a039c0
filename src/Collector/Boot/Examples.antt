-- ===== src/Collector/Boot/Examples.antt =====
-- A program set up from the sample settings and the sample database serves a request.
use formation_web_analytics.Base.{ℕ, some, true, ◌+◌, ◌-◌, pos, ◌*◌}
use formation_web_analytics.Config.{Config}
use formation_web_analytics.Config.Examples.{getenv, loaded}
use formation_web_analytics.Geo.{Disk, Resolver}
use formation_web_analytics.Geo.Examples.{city}
use formation_web_analytics.RateLimiter.{minute}
use formation_web_analytics.Http.{Services}
use formation_web_analytics.Batcher.{Environment}
use formation_web_analytics.Event.{Event}
use formation_web_analytics.Collector.{collect}
use formation_web_analytics.Collector.Boot.{Booted, services_with}
use formation_web_analytics.Collector.Program.{Phase, Program, begin}
use formation_web_analytics.Samples.{platform, services, request, delivering}

abbrev environment : Config → Phase → Environment ℕ
environment cfg f = delivering

-- a disk whose state is the number of open databases
abbrev disk : Disk (Unit {0}) (Unit {0}) ℕ
disk = record {
  parse_address = λ s. some tt;
  find = λ reader. λ ip. some city;
  open_db = λ path. λ n. (some tt, n + 1);
  stat = λ path. λ n. (some (record { file = n; mod_time = pos 0; size = pos 9 }), n);
  close = λ reader. λ n. (true, n - 1);
}

abbrev resolver : Resolver (Unit {0})
resolver = record {
  reader = tt;
  path = loaded.geo_ip_db_path;
  file_info = record { file = 1; mod_time = pos 0; size = pos 9 };
}

abbrev program : Program ℕ
program =
    begin
      (services_with disk platform services.json services.parse_user_agent getenv environment
        resolver)
      loaded (environment loaded) 1

abbrev booted : Booted (Unit {0}) ℕ
booted = record { config = loaded; resolver = resolver; program = program }

abbrev known : Services
known =
    services_with disk platform services.json services.parse_user_agent getenv environment resolver

-- after one request
abbrev served : Program ℕ
served = record program {
  collector = collect known loaded delivering request (60 * minute) (pos 5) program.collector;
}
