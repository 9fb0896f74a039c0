-- ===== src/Config/Lists.antt =====
-- What the parsers of internal/config/config.go make sure of.
use formation_web_analytics.Base.{
  ◌≡◌, refl, sym, ◌∙◌, ap, false, none, List, [], ◌∷◌, ◌++◌, map, All, inl, inr, All-append, Bytes,
  codes, is_empty, lookup, insert, ok, err, ◌>>=◌, ◌>>◌, refuse_if, >>=-eq-ok, ok-injective, arith,
  Option-cases, Bool-cases, subst, refuse_if-eq-ok, bytes_eq,
}
use formation_web_analytics.Go.{Platform}
use formation_web_analytics.Go.Strings.{trim_space, contains, split}
use formation_web_analytics.Config.{Set, normalize_domain}
use formation_web_analytics.Config.Parse.{
  invalid_domain, invalid_site_mapping, no_allowed_origins, cut, replace_all, is_none, add_domain,
  add_domains, parse_domains, as_set, add_site, add_sites, parse_site_origins,
}

abbrev names : Set → List Bytes
names = map (λ e. e.0)

names-insert : (k : Bytes) (m : Set) → lookup k m ≡ none → names (insert k tt m) ≡ names m ++ k ∷ []
unfolding lookup insert
names-insert k [] h = refl
names-insert k ((j, w) ∷ m) h = elim (Bool-cases (bytes_eq j k)) [
  | inl same ↦ absurd (ground arith)
  | inr other ↦ rw other (ap (λ xs. j ∷ xs) (names-insert k m (ground arith)))
]

-- What `parseDomains` keeps true of its list and its set: they hold the same domains, and none
-- is empty.
pub record IsListed (domains : List Bytes) (set : Set) : Type 0 where
  pub same : names set ≡ domains
  pub named : All (λ d. is_empty d ≡ false) domains

All-insert :
    {V : Type 0} (P : Bytes × V → Type 0) (k : Bytes) (v : V) (m : List (Bytes × V))
    → All P m
    → P (k, v)
    → All P (insert k v m)
unfolding insert
All-insert P k v [] h p = (p, tt)
All-insert P k v ((j, w) ∷ m) (q, h) p = elim (Bool-cases (bytes_eq j k)) [
  | inl same ↦ rw same (p, h)
  | inr other ↦ rw other (q, All-insert P k v m h p)
]

insert-nonempty : (k : Bytes) (m : Set) → is_none (names (insert k tt m)) ≡ false
unfolding insert is_none
insert-nonempty k [] = refl
insert-nonempty k ((j, w) ∷ m) = ground arith

as_set-nonempty :
    (go : Platform) (origins : List Bytes) (m : Set)
    → is_none (names m) ≡ false
    → is_none (names (as_set go origins m)) ≡ false
unfolding as_set
as_set-nonempty go [] m h = h
as_set-nonempty go (o ∷ origins) m h =
    as_set-nonempty go origins (insert o tt m) (insert-nonempty o m)

-- a site with a name and at least one origin
abbrev pub HasOrigins : Bytes × Set → Type 0
HasOrigins (site, set) = (is_empty site ≡ false) × (is_none (names set) ≡ false)

module _ (go : Platform) where
  add_domain-IsListed :
      (part : Bytes) (domains domains' : List Bytes) (set set' : Set)
      → IsListed domains set
      → add_domain go part (domains, set) ≡ ok (domains', set')
      → IsListed domains' set'
  unfolding add_domain
  add_domain-IsListed part domains domains' set set' l h =
      let domain = normalize_domain go part in
      elim (Bool-cases (is_empty domain)) [
        | inl empty ↦
            let r : add_domain go part (domains, set) ≡ ok (domains, set) = rw empty refl in
            subst (λ s. IsListed s.0 s.1) (ok-injective (sym r ∙ h)) l
        | inr full ↦ elim (Bool-cases (contains (codes "/") domain)) [
          | inl bad ↦
              let r : add_domain go part (domains, set) ≡ err invalid_domain =
                rw (full, bad) refl in
              absurd (cc (r, h))
          | inr fine ↦ elim (Option-cases (lookup domain set)) [
            | inl new ↦
                let r : add_domain go part (domains, set)
                    ≡ ok (domains ++ domain ∷ [], insert domain tt set) =
                  rw (full, fine, new) refl in
                subst (λ s. IsListed s.0 s.1) (ok-injective (sym r ∙ h))
                  (record {
                    same = names-insert domain set new ∙ ap (λ ds. ds ++ domain ∷ []) l.same;
                    named =
                        All-append (λ d. is_empty d ≡ false) domains (domain ∷ []) l.named
                          (full, tt);
                  })
            | inr (u, old) ↦
                let r : add_domain go part (domains, set) ≡ ok (domains, set) =
                  rw (full, fine, old) refl in
                subst (λ s. IsListed s.0 s.1) (ok-injective (sym r ∙ h)) l
          ]
        ]
      ]

  add_domains-IsListed :
      (parts domains domains' : List Bytes) (set set' : Set)
      → IsListed domains set
      → add_domains go parts (domains, set) ≡ ok (domains', set')
      → IsListed domains' set'
  unfolding add_domains
  add_domains-IsListed [] domains domains' set set' l h =
      subst (λ s. IsListed s.0 s.1) (ok-injective h) l
  add_domains-IsListed (part ∷ parts) domains domains' set set' l h =
      let ((ds, s), a, b) = >>=-eq-ok (add_domain go part (domains, set)) _ h in
      add_domains-IsListed parts ds domains' s set' (add_domain-IsListed part domains ds set s l a)
        b

  -- Where `parseDomains` succeeds, its set has exactly the domains of its list, in the same order, and
  -- no domain is empty.
  pub parse_domains-IsListed :
      (raw : Bytes) (domains : List Bytes) (set : Set)
      → parse_domains go raw ≡ ok (domains, set)
      → IsListed domains set
  unfolding parse_domains
  parse_domains-IsListed raw domains set h =
      add_domains-IsListed (split b',' raw) [] domains [] set (record { same = refl; named = tt }) h

  as_set-HasOrigins :
      (site : Bytes) (origins : List Bytes)
      → is_empty site ≡ false
      → is_none origins ≡ false
      → HasOrigins (site, as_set go origins [])
  unfolding as_set is_none
  as_set-HasOrigins site [] e h = absurd (cc)
  as_set-HasOrigins site (o ∷ origins) e h =
      (e, as_set-nonempty go origins (insert o tt []) (insert-nonempty o []))

  add_site-HasOrigins :
      (raw : Bytes) (before after : List (Bytes × Set))
      → All HasOrigins before
      → add_site go raw before ≡ ok after
      → All HasOrigins after
  unfolding add_site
  add_site-HasOrigins raw before after l h = elim (Bool-cases (is_empty (trim_space raw))) [
    | inl empty ↦
        let r : add_site go raw before ≡ ok before = rw empty refl in
        subst (All HasOrigins) (ok-injective (sym r ∙ h)) l
    | inr full ↦ elim (Option-cases (cut b':' (trim_space raw))) [
      | inl none_left ↦
          let r : add_site go raw before ≡ err invalid_site_mapping = rw (full, none_left) refl in
          absurd (cc (r, h))
      | inr ((site, rest), parts) ↦
          let r : add_site go raw before ≡ (do
            refuse_if (is_empty (trim_space site)) invalid_site_mapping
            (origins, _) ← parse_domains go (replace_all b'|' b',' rest)
            refuse_if (is_none origins) no_allowed_origins
            ok (insert (trim_space site) (as_set go origins []) before)) =
            rw (full, parts) refl in
          let (_, a, h₁) = >>=-eq-ok (refuse_if (is_empty (trim_space site)) _) _ (sym r ∙ h) in
          let ((origins, set), b, h₂) =
            >>=-eq-ok (parse_domains go (replace_all b'|' b',' rest)) _ h₁ in
          let (_, c, h₃) = >>=-eq-ok (refuse_if (is_none origins) _) _ h₂ in
          subst (All HasOrigins) (ok-injective h₃) (
            All-insert HasOrigins (trim_space site) (as_set go origins []) before l (
              as_set-HasOrigins (trim_space site) origins (refuse_if-eq-ok _ _ a)
                (refuse_if-eq-ok _ _ c)))
    ]
  ]

  add_sites-HasOrigins :
      (mappings : List Bytes) (before after : List (Bytes × Set))
      → All HasOrigins before
      → add_sites go mappings before ≡ ok after
      → All HasOrigins after
  unfolding add_sites
  add_sites-HasOrigins [] before after l h = subst (All HasOrigins) (ok-injective h) l
  add_sites-HasOrigins (mapping ∷ mappings) before after l h =
      let (next, a, b) = >>=-eq-ok (add_site go mapping before) _ h in
      add_sites-HasOrigins mappings next after (add_site-HasOrigins mapping before next l a) b

  -- Where `parseSiteOrigins` succeeds, every site of its map has a name and at least one allowed
  -- origin: no mapping locks a site out.
  pub parse_site_origins-HasOrigins :
      (raw : Bytes) (sites : List (Bytes × Set))
      → parse_site_origins go raw ≡ ok sites
      → All HasOrigins sites
  unfolding parse_site_origins
  parse_site_origins-HasOrigins raw sites h = elim (Bool-cases (is_empty (trim_space raw))) [
    | inl empty ↦
        let r : parse_site_origins go raw ≡ ok [] = rw empty refl in
        subst (All HasOrigins) (ok-injective (sym r ∙ h)) tt
    | inr full ↦
        let r : parse_site_origins go raw ≡ add_sites go (split b';' raw) [] = rw full refl in
        add_sites-HasOrigins (split b';' raw) [] sites tt (sym r ∙ h)
  ]
