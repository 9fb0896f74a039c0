-- ===== src/Collector/Program/Stored.antt =====
-- What is true of every event from the request to Elasticsearch.
use formation_web_analytics.Base.{ℕ, ℤ, ◌≡◌, Bool, true, false, Option, List, All, Bytes, ok}
use formation_web_analytics.Event.{Event, GeoResult}
use formation_web_analytics.Config.{Config}
use formation_web_analytics.Events.Metadata.{Request, RequestMetadata}
use formation_web_analytics.Events.Fields.Private.{PrintsPlain, IsPrivate}
use formation_web_analytics.Http.{Services}
use formation_web_analytics.Http.Collect.{prepare, screen}
use formation_web_analytics.Http.Screening.{IsScreened, prepare-IsScreened, screen-All}
use formation_web_analytics.Http.Privacy.{prepare-IsPrivate}
use formation_web_analytics.Elastic.{Transport, send}
use formation_web_analytics.Elastic.Kept.{send-All}
use formation_web_analytics.Batcher.{Environment}
use formation_web_analytics.Collector.Program.{Phase, Program, Reaches}
use formation_web_analytics.Collector.Program.Contents.{Contains, Reaches-Contains}

-- an event that passed the checks of `handleCollect`, and names no query or fragment of a page
pub record IsStored (sv : Services) (cfg : Config) (e : Event) : Type 0 where
  pub screened : IsScreened sv cfg e
  pub private_addresses : IsPrivate e

renumbered-IsStored :
    (sv : Services) (cfg : Config) (e : Event) (id : Bytes)
    → IsStored sv cfg e
    → IsStored sv cfg (record e { document_id = id })
renumbered-IsStored sv cfg e id h =
    let within = h.screened.within in
    let plain = h.private_addresses in
    record {
      screened = record {
        within = record {
          type_name = within.type_name;
          site = within.site;
          session = within.session;
          anonymous = within.anonymous;
          user = within.user;
          path = within.path;
          title = within.title;
          url = within.url;
          referrer = within.referrer;
        };
        origin_allowed = h.screened.origin_allowed;
      };
      private_addresses = record { url = plain.url; referrer = plain.referrer; path = plain.path };
    }

module _ {W : Type 0} (sv : Services) (cfg : Config) (net : Transport W)
    (env : Phase → Environment W) (laws : PrintsPlain sv.go) (sanitizes : cfg.sanitize_urls ≡ true)
    (sends : (f : Phase) (batch : List Event) (w : W)
      → (env f).sender.send batch w ≡ send sv.go cfg.data_stream net batch w) where
  screen-IsStored :
      (lookup : Bytes → Option GeoResult) (allowed : Bool) (r : Request) (now : ℤ)
      (enriched : List Event)
      → screen (record sv { geo_lookup = lookup }) cfg allowed r now ≡ ok enriched
      → All (IsStored sv cfg) enriched
  screen-IsStored lookup allowed r now enriched h =
      let sv' : Services = record sv { geo_lookup = lookup } in
      let each : (m : RequestMetadata) (class : Bool × List Bytes) (geo : Option GeoResult)
            (now : ℤ) (event e : Event)
          → prepare sv' cfg m class geo now event ≡ ok e
          → IsStored sv cfg e =
        λ m. λ class. λ geo. λ now. λ event. λ e. λ h.
          let s = prepare-IsScreened sv' cfg m class geo now event e h in
          record {
            screened = record { within = s.within; origin_allowed = s.origin_allowed };
            private_addresses = prepare-IsPrivate sv' cfg laws sanitizes m class geo now event e h;
          } in
      screen-All sv' cfg (IsStored sv cfg) each allowed r now enriched h

  -- Where the sender is the Elasticsearch client and SANITIZE_URLS is on: in every state that the program
  -- reaches, in whatever order its goroutines take their steps and the GeoIP database is reloaded, every event
  -- in the queue and in the batch on its way is within the limits of `Validate`, has an origin that its site
  -- allows, and neither `?` nor `#` in its URL, its referrer and its path. The limits: without the white
  -- space around them, its type and its site are 1 to 128 letters, digits and `_.:-` (the texts that are
  -- stored keep that space); its session, anonymous and user ids, path, title, URL and referrer are no
  -- longer than MAX_FIELD_LENGTH. A context that is done stays done, and is what ends a pause early; of package net/url it is asked what it documents of a
  -- URL that it parsed.
  pub Reaches-IsStored :
      ((f : Phase) (w : W)
        → ((env f).cancelled w).0 ≡ true
        → ((env f).cancelled ((env f).cancelled w).1).0 ≡ true)
      → ((f : Phase) (delay : ℕ) (w : W)
          → ((env f).wait delay w).0 ≡ false
          → ((env f).cancelled ((env f).wait delay w).1).0 ≡ true)
      → (w : W) (p : Program W) → Reaches sv cfg env w p
      → Contains (IsStored sv cfg) p
  Reaches-IsStored sticky woken w p r =
      Reaches-Contains sv cfg env sticky woken (IsStored sv cfg) screen-IsStored
        (λ f. λ batch. λ w. λ h. rw (sends f batch w) (
          send-All (IsStored sv cfg) (renumbered-IsStored sv cfg) sv.go cfg.data_stream net batch w
            h))
        r
