-- ===== src/Http/Screening.antt =====
-- What is true of the events that `handleCollect` hands to the queue.
use formation_web_analytics.Base.{
  ℤ, ◌≡◌, refl, Bool, true, false, ◌&&◌, not, Option, none, some, List, [], ◌∷◌, length, All, ◌≤◌,
  ltb, ltb→le, ◌==◌, Bytes, codes, Result, ok, err, refuse_if, refuse_if-eq-ok, >>=-eq-ok,
  ok-injective, not-false, ap, is_empty, subst, suc,
}
use formation_web_analytics.Go.Strings.{trim_space}
use formation_web_analytics.Config.{Config}
use formation_web_analytics.Event.{Event, GeoResult}
use formation_web_analytics.Events.Fields.{ValidationError, apply_field_limits, validate}
use formation_web_analytics.Events.Fields.Limits.{IsWithin, validate-IsWithin}
use formation_web_analytics.Events.Decode.{decode_batch}
use formation_web_analytics.Events.Metadata.{
  Request, RequestMetadata, enrich, new_request_metadata, allowed_domain,
}
use formation_web_analytics.Http.{
  Services, is_json_type, origin_allowed_for_site, url_matches_origin,
}
use formation_web_analytics.Http.Collect.{
  read_all, decoded, validated, mark_suspect, locate, prepare, prepare_all, prepare_batch, screen,
}

validated-eq-ok : (r : Result ValidationError (Unit {0})) → validated r ≡ ok tt → r ≡ ok tt
unfolding validated
validated-eq-ok (ok u) h = refl
validated-eq-ok (err e) h = absurd (cc)

module _ (sv : Services) (cfg : Config) where
  -- What an event was found to be before it is queued.
  pub record IsScreened (e : Event) : Type 0 where
    pub within : IsWithin cfg.max_field_length e
    pub origin_allowed : origin_allowed_for_site sv.go cfg e.site_id e.origin ≡ true

  locate-IsScreened :
      (geo : Option GeoResult) (e : Event) → IsScreened e → IsScreened (locate geo e)
  unfolding locate
  locate-IsScreened none e h = h
  locate-IsScreened (some g) e h = record {
    within = record {
      type_name = h.within.type_name;
      site = h.within.site;
      session = h.within.session;
      anonymous = h.within.anonymous;
      user = h.within.user;
      path = h.within.path;
      title = h.within.title;
      url = h.within.url;
      referrer = h.within.referrer;
    };
    origin_allowed = h.origin_allowed;
  }

  -- the event that `apply_field_limits` is given
  abbrev pub marked : RequestMetadata → Bool × List Bytes → ℤ → Event → Event
  marked m class now event = mark_suspect class (enrich sv.go m cfg event now)

  pub prepare-eq-ok :
      (m : RequestMetadata) (class : Bool × List Bytes) (geo : Option GeoResult) (now : ℤ)
      (event e : Event)
      → prepare sv cfg m class geo now event ≡ ok e
      → let shown = marked m class now event in
        let limited = apply_field_limits sv.go cfg shown in
        (origin_allowed_for_site sv.go cfg shown.site_id shown.origin ≡ true)
        × (validate sv.go cfg limited ≡ ok tt)
        × (locate geo limited ≡ e)
  unfolding prepare
  prepare-eq-ok m class geo now event e h =
      let shown = marked m class now event in
      let limited = apply_field_limits sv.go cfg shown in
      let (_, a, h₁) =
        >>=-eq-ok (refuse_if (not (origin_allowed_for_site sv.go cfg shown.site_id shown.origin)) _)
          _ h in
      let (_, b, h₂) =
        >>=-eq-ok
          (refuse_if
            (cfg.require_url_host_match && not (url_matches_origin sv.go shown.url shown.origin)) _)
          _ h₁ in
      let (_, c, h₃) = >>=-eq-ok (validated (validate sv.go cfg limited)) _ h₂ in
      (not-false _ (refuse_if-eq-ok _ _ a), validated-eq-ok _ c, ok-injective h₃)

  pub prepare-IsScreened :
      (m : RequestMetadata) (class : Bool × List Bytes) (geo : Option GeoResult) (now : ℤ)
      (event e : Event)
      → prepare sv cfg m class geo now event ≡ ok e
      → IsScreened e
  unfolding apply_field_limits
  prepare-IsScreened m class geo now event e h =
      let limited = apply_field_limits sv.go cfg (marked m class now event) in
      let (origin, valid, same) = prepare-eq-ok m class geo now event e h in
      let screened : IsScreened limited = record {
        within = validate-IsWithin sv.go cfg limited valid;
        origin_allowed = origin;
      } in
      subst IsScreened same (locate-IsScreened geo limited screened)

  -- what holds of each prepared event holds of them all
  pub prepare_all-All :
      (P : Event → Type 0)
      → ((m : RequestMetadata) (class : Bool × List Bytes) (geo : Option GeoResult) (now : ℤ)
            (event e : Event)
          → prepare sv cfg m class geo now event ≡ ok e
          → P e)
      → (m : RequestMetadata) (class : Bool × List Bytes) (geo : Option GeoResult) (now : ℤ)
        (batch enriched : List Event)
      → prepare_all sv cfg m class geo now batch ≡ ok enriched
      → All P enriched × (length enriched ≡ length batch)
  unfolding prepare_all
  prepare_all-All P each m class geo now [] enriched h =
      subst (λ es. All P es × (length es ≡ 0)) (ok-injective h) (tt, refl)
  prepare_all-All P each m class geo now (event ∷ batch) enriched h =
      let (e, a, h₁) = >>=-eq-ok (prepare sv cfg m class geo now event) _ h in
      let (es, b, h₂) = >>=-eq-ok (prepare_all sv cfg m class geo now batch) _ h₁ in
      let (rest, same) = prepare_all-All P each m class geo now batch es b in
      subst (λ xs. All P xs × (length xs ≡ suc (length batch))) (ok-injective h₂)
        ((each m class geo now event e a, rest), ap suc same)

  -- What a request was found to be before its events are queued.
  pub record IsAdmissible (r : Request) (enriched : List Event) : Type 0 where
    pub screened : All IsScreened enriched
    pub few : length enriched ≤ cfg.max_events_per_request
    pub origin : (cfg.require_origin && is_empty (trim_space (r.header (codes "Origin")))) ≡ false
    pub domain :
        allowed_domain sv.go cfg
          (new_request_metadata sv.go sv.parse_user_agent r cfg).request_domain
        ≡ true

  prepare_batch-All :
      (P : Event → Type 0)
      → ((m : RequestMetadata) (class : Bool × List Bytes) (geo : Option GeoResult) (now : ℤ)
            (event e : Event)
          → prepare sv cfg m class geo now event ≡ ok e
          → P e)
      → (r : Request) (now : ℤ) (batch enriched : List Event)
      → prepare_batch sv cfg r now batch ≡ ok enriched
      → All P enriched
        × (length enriched ≤ cfg.max_events_per_request)
        × (allowed_domain sv.go cfg
              (new_request_metadata sv.go sv.parse_user_agent r cfg).request_domain
            ≡ true)
  unfolding prepare_batch
  prepare_batch-All P each r now batch enriched h =
      let (_, a, h₁) =
        >>=-eq-ok (refuse_if (ltb cfg.max_events_per_request (length batch)) _) _ h in
      let (_, b, h₂) = >>=-eq-ok (refuse_if (not (allowed_domain sv.go cfg _)) _) _ h₁ in
      let (all, same) = prepare_all-All P each _ _ _ now batch enriched h₂ in
      (
        all,
        rw same (ltb→le cfg.max_events_per_request (length batch) (refuse_if-eq-ok _ _ a)),
        not-false _ (refuse_if-eq-ok _ _ b),
      )

  -- the checks of `screen` before those of `prepare_batch`
  pub screen-eq-ok :
      (allowed : Bool) (r : Request) (now : ℤ) (enriched : List Event)
      → screen sv cfg allowed r now ≡ ok enriched
      → (allowed ≡ true)
        × ((cfg.require_origin && is_empty (trim_space (r.header (codes "Origin")))) ≡ false)
        × (batch : List Event) × (prepare_batch sv cfg r now batch ≡ ok enriched)
  unfolding screen
  screen-eq-ok allowed r now enriched h =
      let (_, a, h₁) = >>=-eq-ok (refuse_if (not allowed) _) _ h in
      let (_, b, h₂) =
        >>=-eq-ok
          (refuse_if (cfg.require_origin && is_empty (trim_space (r.header (codes "Origin")))) _) _
          h₁ in
      let (_, c, h₃) =
        >>=-eq-ok (refuse_if (not (is_json_type sv.go (r.header (codes "Content-Type")))) _) _ h₂ in
      let (body, d, h₄) = >>=-eq-ok (read_all cfg r.body) _ h₃ in
      let (_, e, h₅) = >>=-eq-ok (refuse_if (length body == 0) _) _ h₄ in
      let (batch, f, h₆) = >>=-eq-ok (decoded (decode_batch sv.json body)) _ h₅ in
      (not-false _ (refuse_if-eq-ok _ _ a), refuse_if-eq-ok _ _ b, batch, h₆)

  -- what holds of each prepared event holds of every event for the queue
  pub screen-All :
      (P : Event → Type 0)
      → ((m : RequestMetadata) (class : Bool × List Bytes) (geo : Option GeoResult) (now : ℤ)
            (event e : Event)
          → prepare sv cfg m class geo now event ≡ ok e
          → P e)
      → (allowed : Bool) (r : Request) (now : ℤ) (enriched : List Event)
      → screen sv cfg allowed r now ≡ ok enriched
      → All P enriched
  screen-All P each allowed r now enriched h =
      let (_, _, batch, prepared) = screen-eq-ok allowed r now enriched h in
      (prepare_batch-All P each r now batch enriched prepared).0

  -- Only a request that the limiter let through, from an allowed domain, with an Origin where one is
  -- required and with no more events than allowed, gives events for the queue; each of them is
  -- within the limits of `Validate` and has an origin that its site allows. The limits: without the
  -- white space around them, its type and its site are 1 to 128 letters, digits and `_.:-` (the texts
  -- themselves may be longer); its session, anonymous and user ids, path, title, URL and referrer are
  -- no longer than MAX_FIELD_LENGTH.
  pub screen-IsAdmissible :
      (allowed : Bool) (r : Request) (now : ℤ) (enriched : List Event)
      → screen sv cfg allowed r now ≡ ok enriched
      → (allowed ≡ true) × IsAdmissible r enriched
  screen-IsAdmissible allowed r now enriched h =
      let (let_through, origin, batch, prepared) = screen-eq-ok allowed r now enriched h in
      let (screened, few, domain) =
        prepare_batch-All IsScreened prepare-IsScreened r now batch enriched prepared in
      (let_through, record { screened = screened; few = few; origin = origin; domain = domain })
