-- ===== src/Http/Privacy.antt =====
-- `handleCollect` with SANITIZE_URLS on: no page address in the queue has a query or a fragment.
use formation_web_analytics.Base.{
  ℤ, ℕ, ◌≡◌, Bool, true, false, refl, Option, none, some, List, All, Bytes, ok, subst,
}
use formation_web_analytics.Config.{Config}
use formation_web_analytics.Event.{Event, GeoResult}
use formation_web_analytics.Queue.View.{IsValid}
use formation_web_analytics.RateLimiter.{allow}
use formation_web_analytics.Events.Fields.{normalize}
use formation_web_analytics.Events.Fields.Private.{
  PrintsPlain, IsPrivate, IsSanitized, apply_field_limits-IsPrivate,
}
use formation_web_analytics.Events.Metadata.{Request, RequestMetadata, client_ip, enrich, sanitize}
use formation_web_analytics.Http.{Server, Services, cors}
use formation_web_analytics.Http.Admission.{held}
use formation_web_analytics.Http.Collect.{mark_suspect, locate, prepare, screen, handle_collect}
use formation_web_analytics.Http.Screening.{marked, prepare-eq-ok, screen-All}
use formation_web_analytics.Http.Outcome.{handle_collect-Concluded, Concluded-All}

module _ (sv : Services) (cfg : Config) (laws : PrintsPlain sv.go)
    (sanitizes : cfg.sanitize_urls ≡ true) where
  enrich-IsSanitized :
      (m : RequestMetadata) (event : Event) (now : ℤ)
      → IsSanitized sv.go (enrich sv.go m cfg event now)
  unfolding enrich sanitize
  enrich-IsSanitized m event now =
      let normal = normalize sv.go event now in
      record {
        raw_url = normal.url;
        raw_referrer = normal.referrer;
        raw_path = normal.path;
        url = rw sanitizes refl;
        referrer = rw sanitizes refl;
        path = rw sanitizes refl;
      }

  mark_suspect-IsSanitized :
      (class : Bool × List Bytes) (e : Event)
      → IsSanitized sv.go e
      → IsSanitized sv.go (mark_suspect class e)
  unfolding mark_suspect
  mark_suspect-IsSanitized (true, reasons) e h = record {
    raw_url = h.raw_url;
    raw_referrer = h.raw_referrer;
    raw_path = h.raw_path;
    url = h.url;
    referrer = h.referrer;
    path = h.path;
  }
  mark_suspect-IsSanitized (false, reasons) e h = h

  locate-IsPrivate : (geo : Option GeoResult) (e : Event) → IsPrivate e → IsPrivate (locate geo e)
  unfolding locate
  locate-IsPrivate none e h = h
  locate-IsPrivate (some g) e h = record { url = h.url; referrer = h.referrer; path = h.path }

  pub prepare-IsPrivate :
      (m : RequestMetadata) (class : Bool × List Bytes) (geo : Option GeoResult) (now : ℤ)
      (event e : Event)
      → prepare sv cfg m class geo now event ≡ ok e
      → IsPrivate e
  prepare-IsPrivate m class geo now event e h =
      let (_, valid, same) = prepare-eq-ok sv cfg m class geo now event e h in
      let e' = enrich sv.go m cfg event now in
      let clean = mark_suspect-IsSanitized class e' (enrich-IsSanitized m event now) in
      let fine =
        apply_field_limits-IsPrivate sv.go laws cfg (marked sv cfg m class now event) clean valid in
      subst IsPrivate same (locate-IsPrivate geo _ fine)

  -- With SANITIZE_URLS on, if no event in a valid queue holds a page address with a query or a fragment, the
  -- same is true after any request: neither `?` nor `#` stands in the URL, the referrer or the path of
  -- an event. Of package
  -- net/url it is asked what it documents of a URL that it parsed: the marks stand in no part before
  -- the query and the fragment, nor in a URL that is printed without these.
  pub handle_collect-IsPrivate :
      (s : Server) (r : Request) (clock : ℕ) (now : ℤ)
      → IsValid s.queue
      → All IsPrivate (held s)
      → let s' = (handle_collect sv cfg s r clock now).1 in
        IsValid s'.queue × All IsPrivate (held s')
  handle_collect-IsPrivate s r clock now v h =
      let allowed = (allow s.limiter (client_ip sv.go r cfg.trust_proxy_headers) clock).0 in
      Concluded-All sv cfg IsPrivate s (cors sv.go cfg r) (screen sv cfg allowed r now)
        (handle_collect sv cfg s r clock now) v h
        (screen-All sv cfg IsPrivate prepare-IsPrivate allowed r now)
        (handle_collect-Concluded sv cfg s r clock now v)
