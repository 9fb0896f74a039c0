-- ===== src/Events/Fields/Limits.antt =====
-- `ApplyFieldLimits` and `Validate`: what is cut, what is refused, and how long accepted fields are.
use formation_web_analytics.Base.{
  ℕ, ◌-◌, ◌≤◌, ◌<◌, ◌≡◌, refl, true, false, ◌||◌, not, Option, none, some, [], ◌∷◌, ◌++◌, inl, inr,
  Bool-cases, Option-cases, length, length-append, ltb, leb, leb→le, leb→lt, ltb→le, le→ltb,
  le→leb_pos, ||_false, arith, if◌then◌else◌, Bytes, codes, is_empty, Result, ok, err, ◌>>◌,
  refuse_if, refuse_if-eq-ok, refuse-eq-ok, >>=-eq-ok, not-false,
}
use formation_web_analytics.Go.{Url, Platform}
use formation_web_analytics.Go.Strings.{trim_space}
use formation_web_analytics.Config.{Config}
use formation_web_analytics.Event.{Event}
use formation_web_analytics.Events.Payload.{too_long, truncate_string, truncate_payload}
use formation_web_analytics.Events.Payload.{validate_payload}
use formation_web_analytics.Events.Payload.Truncated.{truncate_string_lem}
use formation_web_analytics.Events.Fields.{
  ValidationError, invalid_type, invalid_site_id, invalid_url, invalid_url_scheme, is_identifier,
  strip, as_payload_error, any_too_long, truncate_url, truncate_url_field, has_other_scheme,
  validate_url_field, validate_timezone, validate, truncate_user_id, apply_field_limits,
}

fits : (s : Bytes) (n : ℕ) → 0 < n → too_long (truncate_string s n) n ≡ false
unfolding too_long
fits s n pos = le→ltb n (length (truncate_string s n)) (truncate_string_lem s n pos).0

any_fits : (s : Option Bytes) (n : ℕ) → 0 < n → any_too_long (truncate_user_id s n) n ≡ false
unfolding any_too_long truncate_user_id
any_fits none n pos = refl
any_fits (some s) n pos = fits s n pos

module _ (go : Platform) where
  length-truncate_url : (u : Url) (n : ℕ) → 0 < n → length (truncate_url go u n) ≤ n
  unfolding truncate_url
  length-truncate_url u n pos = elim (Bool-cases (leb (length (go.url_string (strip u))) n)) [
    | inl short ↦ rw short (leb→le _ n short)
    | inr long ↦ elim (Bool-cases (leb n (length prefix))) [
      | inl all ↦ rw (long, all) (omega arith)
      | inr some_left ↦
          let room = leb→lt n (length prefix) some_left in
          rw (long, some_left)
            (omega (
              arith,
              length-append prefix (truncate_string path (n - length prefix)),
              truncate_string_lem path (n - length prefix) (omega arith),
            ))
    ]
  ]
    where
      prefix : Bytes
      prefix = (if is_empty u.scheme then [] else u.scheme ++ codes "://") ++ u.host

      path : Bytes
      path = if is_empty (go.escaped_path (strip u)) then u.path else go.escaped_path (strip u)

  -- Whatever the URL parser does, a cut URL is no longer than a positive limit.
  length-truncate_url_field :
      (raw : Bytes) (n : ℕ) → 0 < n → length (truncate_url_field go raw n) ≤ n
  unfolding truncate_url_field
  length-truncate_url_field raw n pos = elim (Bool-cases (leb (length raw) n)) [
    | inl short ↦ rw (le→leb_pos n pos, short) (leb→le (length raw) n short)
    | inr long ↦ elim (Option-cases (go.url_parse raw)) [
      | inl bad ↦ rw (le→leb_pos n pos, long, bad) (omega arith)
      | inr (u, good) ↦ rw (le→leb_pos n pos, long, good) (length-truncate_url u n pos)
    ]
  ]

  -- the checks of `validateURLField` without the one on the length
  unfoldable pub check_url : Bytes → Result ValidationError (Unit {0})
  unfolding has_other_scheme
  check_url [] = ok tt
  check_url (c ∷ raw) = elim (go.url_parse (c ∷ raw)) [
    | none ↦ err invalid_url
    | some parsed ↦ refuse_if (has_other_scheme parsed) invalid_url_scheme
  ]

  validate_short_url :
      (raw : Bytes) (n : ℕ) → length raw ≤ n → validate_url_field go raw n ≡ check_url raw
  unfolding validate_url_field check_url
  validate_short_url [] n le = refl
  validate_short_url (c ∷ raw) n le = rw (le→ltb n (length (c ∷ raw)) le)

  -- what `Validate` has left to check of an event whose fields are cut
  unfoldable pub checks_left : Config → Event → Result ValidationError (Unit {0})
  unfolding as_payload_error
  checks_left cfg e = do
    let n = cfg.max_field_length
    refuse_if (not (is_identifier (trim_space e.type))) invalid_type
    refuse_if (not (is_identifier (trim_space e.site_id))) invalid_site_id
    check_url (truncate_url_field go e.url n)
    check_url (truncate_url_field go e.referrer n)
    validate_timezone go e.timezone e.timezone_offset_minutes
    as_payload_error (
        validate_payload cfg.max_payload_depth n cfg.max_payload_entries
          (truncate_payload n e.payload))

  -- With a positive field limit, an event that went through `ApplyFieldLimits` is refused for its
  -- type, its site, a URL that does not parse or has another scheme, its timezone or its payload,
  -- in this order, and never for the length of a field.
  pub validate-apply_field_limits :
      (cfg : Config) (e : Event)
      → 0 < cfg.max_field_length
      → validate go cfg (apply_field_limits go cfg e) ≡ checks_left cfg e
  unfolding validate apply_field_limits checks_left
  validate-apply_field_limits cfg e pos = rw (
    fits e.session_id n pos,
    fits e.anonymous_id n pos,
    any_fits e.user_id n pos,
    fits e.path n pos,
    fits e.title n pos,
    validate_short_url _ n (length-truncate_url_field e.url n pos),
    validate_short_url _ n (length-truncate_url_field e.referrer n pos),
  )
    where
      n : ℕ
      n = cfg.max_field_length

-- The fields that `Validate` bounds, in an accepted event.
pub record IsWithin (n : ℕ) (e : Event) : Type 0 where
  pub type_name : is_identifier (trim_space e.type) ≡ true
  pub site : is_identifier (trim_space e.site_id) ≡ true
  pub session : length e.session_id ≤ n
  pub anonymous : length e.anonymous_id ≤ n
  pub user : any_too_long e.user_id n ≡ false
  pub path : length e.path ≤ n
  pub title : length e.title ≤ n
  pub url : length e.url ≤ n
  pub referrer : length e.referrer ≤ n

module _ (go : Platform) where
  url_within : (raw : Bytes) (n : ℕ) → validate_url_field go raw n ≡ ok tt → length raw ≤ n
  unfolding validate_url_field
  url_within [] n h = omega arith
  url_within (c ∷ raw) n h = ltb→le n (length (c ∷ raw)) (refuse-eq-ok _ _ _ h).0

  -- In an event that `Validate` accepts, the type and the site are, without the white space around
  -- them, 1 to 128 letters, digits and `_.:-`, and the session, anonymous and user ids, the path, the
  -- title, the URL and the referrer are no longer than the limit. The type and the site as they stand,
  -- white space included, and the other texts of the event are not bounded.
  pub validate-IsWithin :
      (cfg : Config) (e : Event) → validate go cfg e ≡ ok tt → IsWithin cfg.max_field_length e
  unfolding validate too_long
  validate-IsWithin cfg e h =
      let n = cfg.max_field_length in
      let (_, a, h₁) = >>=-eq-ok (refuse_if (not (is_identifier (trim_space e.type))) _) _ h in
      let (_, b, h₂) = >>=-eq-ok (refuse_if (not (is_identifier (trim_space e.site_id))) _) _ h₁ in
      let (_, c, h₃) =
        >>=-eq-ok (refuse_if (ltb n (length e.session_id) || ltb n (length e.anonymous_id)) _) _
          h₂ in
      let (_, d, h₄) = >>=-eq-ok (refuse_if (any_too_long e.user_id n) _) _ h₃ in
      let (_, f, h₅) =
        >>=-eq-ok (refuse_if (ltb n (length e.path) || ltb n (length e.title)) _) _ h₄ in
      let (_, g, h₆) = >>=-eq-ok (validate_url_field go e.url n) _ h₅ in
      let (_, k, h₇) = >>=-eq-ok (validate_url_field go e.referrer n) _ h₆ in
      let ids = ||_false _ _ (refuse_if-eq-ok _ _ c) in
      let names = ||_false _ _ (refuse_if-eq-ok _ _ f) in
      record {
        type_name = not-false _ (refuse_if-eq-ok _ _ a);
        site = not-false _ (refuse_if-eq-ok _ _ b);
        session = ltb→le n _ ids.0;
        anonymous = ltb→le n _ ids.1;
        user = refuse_if-eq-ok _ _ d;
        path = ltb→le n _ names.0;
        title = ltb→le n _ names.1;
        url = url_within e.url n g;
        referrer = url_within e.referrer n k;
      }
