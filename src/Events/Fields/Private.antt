-- ===== src/Events/Fields/Private.antt =====
-- `sanitizeURL` and `sanitizePath` of internal/events/events.go: what an accepted event still says.
use formation_web_analytics.Base.{
  ℕ, ◌-◌, ◌≡◌, refl, true, ◌||◌, Option, none, some, [], ◌∷◌, ◌++◌, inl, inr, Bool-cases,
  Option-cases, length, leb, ltb, ◌==◌, All-append, All-take, arith, if◌then◌else◌, Bytes, codes,
  is_empty, ok, err, subst, refuse_if, refuse-eq-ok, >>=-eq-ok, not,
}
use formation_web_analytics.Go.{Url, Platform}
use formation_web_analytics.Go.Strings.{trim_space, before}
use formation_web_analytics.Go.Trim.{IsPlainByte, IsPlain, blank-IsPlain}
use formation_web_analytics.Config.{Config}
use formation_web_analytics.Event.{Event}
use formation_web_analytics.Events.Payload.{truncate_string, too_long}
use formation_web_analytics.Events.Fields.{
  strip, sanitize_path, sanitize_url, truncate_url, truncate_url_field, validate_url_field,
  invalid_url, invalid_url_scheme, has_other_scheme, validate, apply_field_limits, is_identifier,
  any_too_long,
}

truncate_string-IsPlain : (s : Bytes) (n : ℕ) → IsPlain s → IsPlain (truncate_string s n)
unfolding truncate_string
truncate_string-IsPlain s n h = elim (Bool-cases (leb n 0 || leb (length s) n)) [
  | inl all ↦ rw all h
  | inr cut ↦ rw cut (All-take IsPlainByte n s h)
]

sanitize_path-IsPlain : (s : Bytes) → IsPlain (sanitize_path s)
unfolding sanitize_path before
sanitize_path-IsPlain [] = tt
sanitize_path-IsPlain (c ∷ s) = elim (Bool-cases (c == b'?' || c == b'#')) [
  | inl mark ↦ rw mark tt
  | inr other ↦ rw other (ground arith, sanitize_path-IsPlain s)
]

-- What package net/url documents of a URL that it parsed: the parts before the query and the fragment
-- hold neither mark, unescaped; a printed URL with no query and no fragment holds none; and the escaped
-- path is empty for an empty path only.
pub record PrintsPlain (go : Platform) : Type 0 where
  pub string :
      (raw : Bytes) (u : Url) → go.url_parse raw ≡ some u → IsPlain (go.url_string (strip u))
  pub scheme : (raw : Bytes) (u : Url) → go.url_parse raw ≡ some u → IsPlain u.scheme
  pub host : (raw : Bytes) (u : Url) → go.url_parse raw ≡ some u → IsPlain u.host
  pub escaped :
      (raw : Bytes) (u : Url) → go.url_parse raw ≡ some u → IsPlain (go.escaped_path (strip u))
  pub no_path :
      (raw : Bytes) (u : Url)
      → go.url_parse raw ≡ some u
      → is_empty (go.escaped_path (strip u)) ≡ true
      → u.path ≡ []

module _ (go : Platform) (laws : PrintsPlain go) where
  prefix-IsPlain :
      (u : Url)
      → IsPlain u.scheme
      → IsPlain u.host
      → IsPlain ((if is_empty u.scheme then [] else u.scheme ++ codes "://") ++ u.host)
  prefix-IsPlain u scheme host =
      let marked : IsPlain (if is_empty u.scheme then [] else u.scheme ++ codes "://") =
        elim (Bool-cases (is_empty u.scheme)) [
          | inl none_named ↦ rw none_named tt
          | inr named ↦
              rw named (All-append IsPlainByte u.scheme (codes "://") scheme (omega arith))
        ] in
      All-append IsPlainByte _ u.host marked host

  path-IsPlain :
      (raw : Bytes) (u : Url)
      → go.url_parse raw ≡ some u
      → IsPlain (if is_empty (go.escaped_path (strip u)) then u.path else go.escaped_path (strip u))
  path-IsPlain raw u parsed = elim (Bool-cases (is_empty (go.escaped_path (strip u)))) [
    | inl no_path ↦ rw no_path (rw (laws.no_path raw u parsed no_path) tt)
    | inr path ↦ rw path (laws.escaped raw u parsed)
  ]

  truncate_url-IsPlain :
      (raw : Bytes) (u : Url) (n : ℕ) → go.url_parse raw ≡ some u → IsPlain (truncate_url go u n)
  unfolding truncate_url
  truncate_url-IsPlain raw u n parsed =
      let prefix = (if is_empty u.scheme then [] else u.scheme ++ codes "://") ++ u.host in
      let before_path = prefix-IsPlain u (laws.scheme raw u parsed) (laws.host raw u parsed) in
      elim (Bool-cases (leb (length (go.url_string (strip u))) n)) [
        | inl short ↦ rw short (laws.string raw u parsed)
        | inr long ↦ elim (Bool-cases (leb n (length prefix))) [
          | inl all ↦ rw (long, all) tt
          | inr some_left ↦
              rw (long, some_left)
                (All-append IsPlainByte prefix _ before_path
                  (truncate_string-IsPlain _ (n - length prefix) (path-IsPlain raw u parsed)))
        ]
      ]

  truncate_url_field-IsPlain :
      (raw : Bytes) (n : ℕ) → IsPlain raw → IsPlain (truncate_url_field go raw n)
  unfolding truncate_url_field
  truncate_url_field-IsPlain raw n h = elim (Bool-cases (leb n 0 || leb (length raw) n)) [
    | inl all ↦ rw all h
    | inr cut ↦ elim (Option-cases (go.url_parse raw)) [
      | inl bad ↦ rw (cut, bad) tt
      | inr (u, good) ↦ rw (cut, good) (truncate_url-IsPlain raw u n good)
    ]
  ]

  refused-IsPlain :
      (raw : Bytes) (n : ℕ)
      → go.url_parse raw ≡ none
      → validate_url_field go raw n ≡ ok tt
      → IsPlain raw
  unfolding validate_url_field
  refused-IsPlain [] n bad valid = tt
  refused-IsPlain (c ∷ raw) n bad valid =
      let (_, unparsed) = refuse-eq-ok _ _ _ valid in
      absurd (not_parsed (go.url_parse (c ∷ raw)) bad unparsed)
    where
      not_parsed :
          (p : Option Url)
          → p ≡ none
          → (elim p [
            | none ↦ err invalid_url
            | some parsed ↦ refuse_if (has_other_scheme parsed) invalid_url_scheme
          ])
            ≡ ok tt
          → ⊥
      not_parsed none e h = cc
      not_parsed (some u) e h = absurd (cc)

  -- a URL that does not parse, or is cut to nothing, is refused unless nothing is left of it
  unparsed-IsPlain :
      (raw : Bytes) (n : ℕ)
      → go.url_parse raw ≡ none
      → validate_url_field go (truncate_url_field go raw n) n ≡ ok tt
      → IsPlain (truncate_url_field go raw n)
  unfolding truncate_url_field
  unparsed-IsPlain raw n bad valid = elim (Bool-cases (leb n 0 || leb (length raw) n)) [
    | inl all ↦
        let same : truncate_url_field go raw n ≡ raw = rw all refl in
        rw same
          (refused-IsPlain raw n bad (subst (λ s. validate_url_field go s n ≡ ok tt) same valid))
    | inr cut ↦ rw (cut, bad) tt
  ]

  -- a URL that was sanitized and cut, and that `Validate` accepts
  pub sanitize_url-IsPlain :
      (raw : Bytes) (n : ℕ)
      → let cut = truncate_url_field go (sanitize_url go raw) n in
        validate_url_field go cut n ≡ ok tt → IsPlain cut
  unfolding sanitize_url
  sanitize_url-IsPlain raw n valid = elim (Bool-cases (is_empty (trim_space raw))) [
    | inl blank ↦ rw blank (truncate_url_field-IsPlain raw n (blank-IsPlain raw blank))
    | inr more ↦ elim (Option-cases (go.url_parse raw)) [
      | inl bad ↦
          let same : sanitize_url go raw ≡ raw = rw (more, bad) refl in
          rw same (
            unparsed-IsPlain raw n bad
              (subst (λ s. validate_url_field go (truncate_url_field go s n) n ≡ ok tt) same valid))
      | inr (u, good) ↦ rw (more, good) (truncate_url_field-IsPlain _ n (laws.string raw u good))
    ]
  ]

  -- the URLs of an event that `Validate` accepts
  validate-urls :
      (cfg : Config) (e : Event)
      → validate go cfg e ≡ ok tt
      → let n = cfg.max_field_length in
        (validate_url_field go e.url n ≡ ok tt) × (validate_url_field go e.referrer n ≡ ok tt)
  unfolding validate too_long
  validate-urls cfg e h =
      let n = cfg.max_field_length in
      let (_, _, h₁) = >>=-eq-ok (refuse_if (not (is_identifier (trim_space e.type))) _) _ h in
      let (_, _, h₂) = >>=-eq-ok (refuse_if (not (is_identifier (trim_space e.site_id))) _) _ h₁ in
      let (_, _, h₃) =
        >>=-eq-ok (refuse_if (ltb n (length e.session_id) || ltb n (length e.anonymous_id)) _) _
          h₂ in
      let (_, _, h₄) = >>=-eq-ok (refuse_if (any_too_long e.user_id n) _) _ h₃ in
      let (_, _, h₅) =
        >>=-eq-ok (refuse_if (ltb n (length e.path) || ltb n (length e.title)) _) _ h₄ in
      let (_, a, h₆) = >>=-eq-ok (validate_url_field go e.url n) _ h₅ in
      let (_, b, _) = >>=-eq-ok (validate_url_field go e.referrer n) _ h₆ in (a, b)

-- no field of an event that holds an address of a page has a query or a fragment
pub record IsPrivate (e : Event) : Type 0 where
  pub url : IsPlain e.url
  pub referrer : IsPlain e.referrer
  pub path : IsPlain e.path

-- an event with the page addresses that the sanitizer leaves
pub record IsSanitized (go : Platform) (e : Event) : Type 0 where
  pub raw_url : Bytes
  pub raw_referrer : Bytes
  pub raw_path : Bytes
  pub url : e.url ≡ sanitize_url go raw_url
  pub referrer : e.referrer ≡ sanitize_url go raw_referrer
  pub path : e.path ≡ sanitize_path raw_path

module _ (go : Platform) (laws : PrintsPlain go) where
  -- an event that was sanitized and cut, and that `Validate` accepts
  pub apply_field_limits-IsPrivate :
      (cfg : Config) (e : Event)
      → IsSanitized go e
      → validate go cfg (apply_field_limits go cfg e) ≡ ok tt
      → IsPrivate (apply_field_limits go cfg e)
  unfolding apply_field_limits
  apply_field_limits-IsPrivate cfg e clean h =
      let n = cfg.max_field_length in
      let (a, b) = validate-urls go laws cfg (apply_field_limits go cfg e) h in
      let fine : (raw : Bytes)
          → validate_url_field go (truncate_url_field go (sanitize_url go raw) n) n ≡ ok tt
          → IsPlain (truncate_url_field go (sanitize_url go raw) n) =
        λ raw. sanitize_url-IsPlain go laws raw n in
      record {
        url = rw clean.url (fine clean.raw_url (rw⁻¹ clean.url a));
        referrer = rw clean.referrer (fine clean.raw_referrer (rw⁻¹ clean.referrer b));
        path = rw clean.path (truncate_string-IsPlain _ n (sanitize_path-IsPlain clean.raw_path));
      }
