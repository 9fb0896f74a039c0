-- ===== src/Config/Load/Sound.antt =====
-- What `Load` makes sure of.
use formation_web_analytics.Base.{
  ◌<◌, ◌≤◌, ◌≡◌, ℤ, pos, negsuc, pos_part, ltb_ℤ, false, List, All, arith, Bytes, codes, is_empty,
  ||_false, Result, ok, err, refuse_if, >>=-eq-ok, ok-injective, refuse_if-eq-ok, subst, ap,
}
use formation_web_analytics.Go.{Platform}
use formation_web_analytics.Config.{Config, DropPolicy, Set}
use formation_web_analytics.Config.Parse.{ParseError, is_none, parse_domains, parse_site_origins}
use formation_web_analytics.Config.Lists.{
  IsListed, parse_domains-IsListed, HasOrigins, parse_site_origins-HasOrigins,
}
use formation_web_analytics.Config.Settings.{
  no_credentials, not_positive_number, not_positive_duration, backoff_reversed, Sizes, Flags, Times,
  parsed, drop_policy_of, bad_number, bad_duration, setting, env_or_default, read_sizes, read_flags,
  read_times, not_positive, is_negative,
}
use formation_web_analytics.Config.Load.{lacks_credentials, configured, load, IsSound}

not_positive-false : (n : ℤ) → not_positive n ≡ false → 0 < pos_part n
not_positive-false (pos n) h = ground arith
not_positive-false (negsuc n) h = absurd (ground arith)

backoffs-ordered :
    (least most : ℤ)
    → 0 < pos_part least
    → ltb_ℤ most least ≡ false
    → pos_part least ≤ pos_part most
backoffs-ordered (pos a) (pos b) p h = ground arith
backoffs-ordered (pos a) (negsuc b) p h = absurd (ground arith)
backoffs-ordered (negsuc a) b p h = absurd (omega arith)

parsed-eq-ok : {A : Type 0} (r : Result ParseError A) {a : A} → parsed r ≡ ok a → r ≡ ok a
unfolding parsed
parsed-eq-ok (ok b) h = ap ok (ok-injective h)
parsed-eq-ok (err e) h = absurd (cc)

-- the tests that are passed
bad_number-false :
    (n : Sizes) (t : Times)
    → bad_number n t ≡ false
    → (0 < pos_part n.max_batch_size)
      × (0 < pos_part n.max_queue_size)
      × (0 < pos_part n.max_payload_bytes)
      × (0 < pos_part n.max_events_per_request)
      × (0 < pos_part n.max_field_length)
      × (0 < pos_part n.max_payload_entries)
      × (0 < pos_part n.max_payload_depth)
      × (0 < pos_part t.rate_limit_max_clients)
unfolding bad_number
bad_number-false n t h =
    let (h₁, i) = ||_false _ (not_positive t.rate_limit_max_clients) h in
    let (h₂, _) = ||_false _ (is_negative t.rate_limit_per_minute) h₁ in
    let (h₃, _) = ||_false _ (is_negative n.max_retries) h₂ in
    let (h₄, g) = ||_false _ (not_positive n.max_payload_depth) h₃ in
    let (h₅, f) = ||_false _ (not_positive n.max_payload_entries) h₄ in
    let (h₆, e) = ||_false _ (not_positive n.max_field_length) h₅ in
    let (h₇, d) = ||_false _ (not_positive n.max_events_per_request) h₆ in
    let (h₈, c) = ||_false _ (not_positive n.max_payload_bytes) h₇ in
    let (a, b) = ||_false (not_positive n.max_batch_size) (not_positive n.max_queue_size) h₈ in
    (
      not_positive-false _ a,
      not_positive-false _ b,
      not_positive-false _ c,
      not_positive-false _ d,
      not_positive-false _ e,
      not_positive-false _ f,
      not_positive-false _ g,
      not_positive-false _ i,
    )

bad_duration-false :
    (n : Sizes) (t : Times)
    → bad_duration n t ≡ false
    → (0 < pos_part n.flush_interval)
      × (0 < pos_part n.retry_min_backoff)
      × (0 < pos_part t.read_timeout)
      × (0 < pos_part t.write_timeout)
      × (0 < pos_part t.idle_timeout)
unfolding bad_duration
bad_duration-false n t h =
    let (h₁, e) = ||_false _ (not_positive t.idle_timeout) h in
    let (h₂, d) = ||_false _ (not_positive t.write_timeout) h₁ in
    let (h₃, c) = ||_false _ (not_positive t.read_timeout) h₂ in
    let (h₄, _) = ||_false _ (not_positive n.retry_max_backoff) h₃ in
    let (a, b) = ||_false (not_positive n.flush_interval) (not_positive n.retry_min_backoff) h₄ in
    (
      not_positive-false _ a,
      not_positive-false _ b,
      not_positive-false _ c,
      not_positive-false _ d,
      not_positive-false _ e,
    )

module _ (go : Platform) (getenv : Bytes → Bytes) where
  configured-IsSound :
      (version : Bytes) (ds : List Bytes) (set : Set) (sites : List (Bytes × Set)) (n : Sizes)
      (f : Flags) (t : Times) (policy : DropPolicy)
      → IsListed ds set
      → All HasOrigins sites
      → is_none ds ≡ false
      → is_empty (setting go getenv (codes "ELASTICSEARCH_URL")) ≡ false
      → is_empty (setting go getenv (codes "GEOIP_DB_PATH")) ≡ false
      → lacks_credentials go getenv ≡ false
      → bad_number n t ≡ false
      → bad_duration n t ≡ false
      → ltb_ℤ n.retry_max_backoff n.retry_min_backoff ≡ false
      → IsSound (configured go getenv version (ds, set) sites n f t policy)
  unfolding configured
  configured-IsSound version ds set sites n f t policy listed origins some_domain url database
        credentials numbers durations ordered =
      let (batch, queue, payload, events, fields, entries, depth, clients) =
        bad_number-false n t numbers in
      let (interval, pause, read, write, idle) = bad_duration-false n t durations in
      record {
        listed = listed;
        has_domain = some_domain;
        sites = origins;
        has_url = url;
        has_database = database;
        has_credentials = credentials;
        batch = batch;
        queue = queue;
        payload = payload;
        events = events;
        fields = fields;
        entries = entries;
        depth = depth;
        clients = clients;
        interval = interval;
        timeouts = (read, write, idle);
        pause = pause;
        pauses = backoffs-ordered n.retry_min_backoff n.retry_max_backoff pause ordered;
      }

  -- A configuration that `Load` gives names at least one domain, the same ones in its list and its
  -- set and none empty; every site has an origin; the address, the database and credentials are
  -- there; sizes, limits of clients, intervals and timeouts are positive; and the least pause is at
  -- most the longest.
  pub load-IsSound :
      (version : Bytes) (cfg : Config) → load go getenv version ≡ ok cfg → IsSound cfg
  unfolding load
  load-IsSound version cfg h =
      let ((ds, set), a, h₁) =
        >>=-eq-ok (parsed (parse_domains go (getenv (codes "ALLOWED_DOMAINS")))) _ h in
      let (sites, b, h₂) =
        >>=-eq-ok (parsed (parse_site_origins go (getenv (codes "SITE_ORIGIN_MAP")))) _ h₁ in
      let (_, c, h₃) = >>=-eq-ok (refuse_if (is_none ds) _) _ h₂ in
      let (_, d, h₄) =
        >>=-eq-ok (refuse_if (is_empty (setting go getenv (codes "ELASTICSEARCH_URL"))) _) _ h₃ in
      let (_, e, h₅) =
        >>=-eq-ok (refuse_if (is_empty (setting go getenv (codes "GEOIP_DB_PATH"))) _) _ h₄ in
      let (_, f, h₆) = >>=-eq-ok (refuse_if (lacks_credentials go getenv) no_credentials) _ h₅ in
      let (n, _, h₇) = >>=-eq-ok (read_sizes go getenv) _ h₆ in
      let (fl, _, h₈) = >>=-eq-ok (read_flags go getenv) _ h₇ in
      let (t, _, h₉) = >>=-eq-ok (read_times go getenv) _ h₈ in
      let (policy, _, i₁) =
        >>=-eq-ok (drop_policy_of (env_or_default go getenv (codes "DROP_POLICY") (codes "reject")))
          _ h₉ in
      let (_, p, i₂) = >>=-eq-ok (refuse_if (bad_number n t) not_positive_number) _ i₁ in
      let (_, q, i₃) = >>=-eq-ok (refuse_if (bad_duration n t) not_positive_duration) _ i₂ in
      let (_, r, i₄) =
        >>=-eq-ok (refuse_if (ltb_ℤ n.retry_max_backoff n.retry_min_backoff) backoff_reversed) _
          i₃ in
      subst IsSound (ok-injective i₄) (
        configured-IsSound version ds set sites n fl t policy
          (parse_domains-IsListed go (getenv (codes "ALLOWED_DOMAINS")) ds set (parsed-eq-ok _ a))
          (parse_site_origins-HasOrigins go (getenv (codes "SITE_ORIGIN_MAP")) sites
            (parsed-eq-ok _ b))
          (refuse_if-eq-ok _ _ c) (refuse_if-eq-ok _ _ d) (refuse_if-eq-ok _ _ e)
          (refuse_if-eq-ok _ _ f) (refuse_if-eq-ok _ _ p) (refuse_if-eq-ok _ _ q)
          (refuse_if-eq-ok _ _ r))
