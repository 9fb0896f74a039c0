-- ===== src/Config/Parse.antt =====
-- internal/config/config.go, lines 198 to 272: the settings that list domains, the origins of sites
-- and user agents.
use formation_web_analytics.Base.{
  ℕ, Bool, true, false, Option, none, some, List, [], ◌∷◌, ◌++◌, ◌==◌, if◌then◌else◌, Bytes, codes,
  is_empty, lookup, insert, Result, ok, err, ◌>>=◌, ◌>>◌, refuse_if,
}
use formation_web_analytics.Go.{Platform, to_lower}
use formation_web_analytics.Go.Strings.{trim_space, contains, split}
use formation_web_analytics.Config.{Set, normalize_domain}

pub data ParseError : Type 0 where
  invalid_domain invalid_site_mapping no_allowed_origins : ParseError

-- `strings.SplitN(s, sep, 2)`, where there are two parts
unfoldable pub cut : ℕ → Bytes → Option (Bytes × Bytes)
cut sep [] = none
cut sep (c ∷ s) =
    let rest = cut sep s in
    if c == sep then some ([], s) else elim rest [ none ↦ none | some (a, b) ↦ some (c ∷ a, b) ]

-- `strings.ReplaceAll` of one byte
unfoldable pub replace_all : ℕ → ℕ → Bytes → Bytes
replace_all old new [] = []
replace_all old new (c ∷ s) = (if c == old then new else c) ∷ replace_all old new s

-- `len(origins) == 0`
unfoldable pub is_none : List Bytes → Bool
is_none [] = true
is_none (_ ∷ _) = false

module _ (go : Platform) where
  -- `addDomain`, on the list and the set of domains so far
  unfoldable pub add_domain : Bytes → List Bytes × Set → Result ParseError (List Bytes × Set)
  unfolding normalize_domain contains
  add_domain part (domains, set) =
      let domain = normalize_domain go part in
      if is_empty domain
      then ok (domains, set)
      else if contains (codes "/") domain
      then err invalid_domain
      else elim (lookup domain set) [
        | some u ↦ ok (domains, set)
        | none ↦ ok (domains ++ domain ∷ [], insert domain tt set)
      ]

  unfoldable pub add_domains : List Bytes → List Bytes × Set → Result ParseError (List Bytes × Set)
  unfolding add_domain
  add_domains [] state = ok state
  add_domains (part ∷ parts) state = do next ← add_domain part state; add_domains parts next

  -- `parseDomains`
  unfoldable pub parse_domains : Bytes → Result ParseError (List Bytes × Set)
  unfolding add_domains split
  parse_domains raw = add_domains (split b',' raw) ([], [])

  -- the map from each of a list to nothing
  unfoldable pub as_set : List Bytes → Set → Set
  as_set [] set = set
  as_set (origin ∷ origins) set = as_set origins (insert origin tt set)

  -- one mapping of `parseSiteOrigins`
  unfoldable pub add_site : Bytes → List (Bytes × Set) → Result ParseError (List (Bytes × Set))
  unfolding trim_space cut replace_all parse_domains as_set
  add_site raw result =
      let mapping = trim_space raw in
      if is_empty mapping then ok result else elim (cut b':' mapping) [
        | none ↦ err invalid_site_mapping
        | some (site, rest) ↦ do
          refuse_if (is_empty (trim_space site)) invalid_site_mapping
          (origins, _) ← parse_domains (replace_all b'|' b',' rest)
          refuse_if (is_none origins) no_allowed_origins
          ok (insert (trim_space site) (as_set origins []) result)
      ]

  unfoldable pub add_sites :
      List Bytes → List (Bytes × Set) → Result ParseError (List (Bytes × Set))
  unfolding add_site
  add_sites [] result = ok result
  add_sites (mapping ∷ mappings) result = do next ← add_site mapping result; add_sites mappings next

  -- `parseSiteOrigins`
  unfoldable pub parse_site_origins : Bytes → Result ParseError (List (Bytes × Set))
  unfolding add_sites
  parse_site_origins raw =
      if is_empty (trim_space raw) then ok [] else add_sites (split b';' raw) []

  -- `parseList`
  unfoldable pub keep_items : List Bytes → List Bytes
  unfolding to_lower trim_space
  keep_items [] = []
  keep_items (part ∷ parts) =
      let item = trim_space (to_lower go part) in
      let rest = keep_items parts in if is_empty item then rest else item ∷ rest

  unfoldable pub parse_list : Bytes → List Bytes
  unfolding keep_items
  parse_list raw = keep_items (split b',' raw)
