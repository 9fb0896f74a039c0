-- ===== src/Events/Languages/Tags.antt =====
-- `applyAcceptLanguageDetails` of internal/events/request_metadata.go: which tags it keeps.
use formation_web_analytics.Base.{
  ◌≡◌, refl, ◌∙◌, ap, Bool, true, false, ◌&&◌, ◌||◌, not, List, [], ◌∷◌, ◌++◌, inl, inr, Bool-cases,
  ||_false, ||_assoc, Bytes, bytes_eq, bytes_eq→eq, bytes_eq_sym, is_empty, All, All-append, arith,
  if◌then◌else◌, subst,
}
use formation_web_analytics.Go.{Platform}
use formation_web_analytics.Go.Strings.{trim_space, split}
use formation_web_analytics.Events.Languages.{
  Languages, no_languages, has_tag, normalize_language_tag, collect_tags, describe_tags,
  accept_language_details,
}

-- no tag stands twice
abbrev pub IsDistinct : List Bytes → Type 0
IsDistinct [] = Unit
IsDistinct (t ∷ tags) = (has_tag tags t ≡ false) × IsDistinct tags

abbrev pub head_of : List Bytes → Bytes
head_of [] = []
head_of (t ∷ tags) = t

module _ (go : Platform) where
  -- whether the tag is the normal form of one of the parts, and not empty
  unfoldable pub is_tagged : List Bytes → Bytes → Bool
  is_tagged [] tag = false
  is_tagged (part ∷ parts) tag =
      let own = normalize_language_tag go part in
      not (is_empty own) && bytes_eq own tag || is_tagged parts tag

  -- the first normal form that is not empty
  unfoldable pub first_tag : List Bytes → Bytes
  first_tag [] = []
  first_tag (part ∷ parts) =
      let own = normalize_language_tag go part in if is_empty own then first_tag parts else own

has_tag-append :
    (tags : List Bytes) (new tag : Bytes)
    → has_tag (tags ++ new ∷ []) tag ≡ (has_tag tags tag || bytes_eq new tag)
unfolding has_tag
has_tag-append [] new tag = ground arith
has_tag-append (t ∷ tags) new tag = ground (arith, has_tag-append tags new tag)

IsDistinct-append :
    (tags : List Bytes) (new : Bytes)
    → IsDistinct tags
    → has_tag tags new ≡ false
    → IsDistinct (tags ++ new ∷ [])
unfolding has_tag
IsDistinct-append [] new d h = (refl, tt)
IsDistinct-append (t ∷ tags) new (fresh, d) h =
    let (other, absent) = ||_false (bytes_eq t new) (has_tag tags new) h in
    (
      rw (has_tag-append tags new t, fresh, bytes_eq_sym new t) other,
      IsDistinct-append tags new d absent,
    )

abbrev IsNamed : Bytes → Type 0
IsNamed tag = is_empty tag ≡ false

-- the tags after one part more
abbrev added : Bytes → List Bytes → List Bytes
added own tags = if is_empty own || has_tag tags own then tags else tags ++ own ∷ []

-- the first tag, if a part more gives one
head-added :
    (own first : Bytes) (tags : List Bytes)
    → All IsNamed tags
    → (if is_empty (head_of (added own tags)) then first else head_of (added own tags))
      ≡ (if is_empty (head_of tags) then if is_empty own then first else own else head_of tags)
unfolding has_tag
head-added own first [] n = elim (Bool-cases (is_empty own)) [
  | inl blank ↦ rw blank refl
  | inr named ↦ rw (named, named) refl
]
head-added own first (t ∷ tags) (named, n) =
    elim (Bool-cases (is_empty own || has_tag (t ∷ tags) own)) [
      | inl same ↦ rw (same, named) refl
      | inr more ↦ rw (more, named) refl
    ]

added-IsDistinct : (own : Bytes) (tags : List Bytes) → IsDistinct tags → IsDistinct (added own tags)
added-IsDistinct own tags d = elim (Bool-cases (is_empty own || has_tag tags own)) [
  | inl same ↦ rw same d
  | inr more ↦
      rw more (IsDistinct-append tags own d (||_false (is_empty own) (has_tag tags own) more).1)
]

added-IsNamed : (own : Bytes) (tags : List Bytes) → All IsNamed tags → All IsNamed (added own tags)
added-IsNamed own tags n = elim (Bool-cases (is_empty own || has_tag tags own)) [
  | inl same ↦ rw same n
  | inr more ↦ rw more (
      All-append IsNamed tags (own ∷ []) n
        ((||_false (is_empty own) (has_tag tags own) more).0, tt))
]

head_of-blank :
    (tags : List Bytes) → head_of tags ≡ (if is_empty (head_of tags) then [] else head_of tags)
head_of-blank [] = refl
head_of-blank ([] ∷ tags) = refl
head_of-blank ((c ∷ t) ∷ tags) = refl

-- what the loop makes of the tags before it
record Kept (go : Platform) (parts tags out : List Bytes) : Type 0 where
  tagged : (tag : Bytes) → has_tag out tag ≡ (has_tag tags tag || is_tagged go parts tag)
  distinct : IsDistinct out
  named : All IsNamed out
  head : head_of out ≡ (if is_empty (head_of tags) then first_tag go parts else head_of tags)

module _ (go : Platform) where
  -- one part more
  add_tag :
      (own : Bytes) (tags : List Bytes) (tag : Bytes)
      → has_tag (if is_empty own || has_tag tags own then tags else tags ++ own ∷ []) tag
        ≡ (has_tag tags tag || not (is_empty own) && bytes_eq own tag)
  add_tag own tags tag = elim (Bool-cases (is_empty own)) [
    | inl blank ↦ rw blank (ground arith)
    | inr named ↦ elim (Bool-cases (has_tag tags own)) [
      | inr fresh ↦ rw (named, fresh) (has_tag-append tags own tag)
      | inl known ↦ elim (Bool-cases (bytes_eq own tag)) [
        | inl same ↦
            let again : has_tag tags tag ≡ true =
              subst (λ t. has_tag tags t ≡ true) (bytes_eq→eq own tag same) known in
            rw (named, known, again) refl
        | inr other ↦ rw (named, known, other) (ground arith)
      ]
    ]
  ]

  collect_tags-Kept :
      (parts tags : List Bytes)
      → IsDistinct tags
      → All IsNamed tags
      → Kept go parts tags (collect_tags go parts tags)
  unfolding collect_tags is_tagged first_tag
  collect_tags-Kept [] tags d n = record {
    tagged = λ tag. ground arith;
    distinct = d;
    named = n;
    head = head_of-blank tags;
  }
  collect_tags-Kept (part ∷ parts) tags d n =
      let own = normalize_language_tag go part in
      let later =
        collect_tags-Kept parts (added own tags) (added-IsDistinct own tags d)
          (added-IsNamed own tags n) in
      record {
        tagged = λ tag.
            later.tagged tag
            ∙ ap (λ b. b || is_tagged go parts tag) (add_tag own tags tag)
            ∙ ||_assoc (has_tag tags tag) (not (is_empty own) && bytes_eq own tag)
                (is_tagged go parts tag);
        distinct = later.distinct;
        named = later.named;
        head = later.head ∙ head-added own (first_tag go parts) tags n;
      }

-- what an Accept-Language header says
pub record IsDescribed (go : Platform) (parts : List Bytes) (d : Languages) : Type 0 where
  pub tagged : (tag : Bytes) → has_tag d.tags tag ≡ is_tagged go parts tag
  pub distinct : IsDistinct d.tags
  pub primary : d.primary_tag ≡ first_tag go parts

describe_tags-tags : (go : Platform) (tags : List Bytes) → (describe_tags go tags).tags ≡ tags
unfolding describe_tags
describe_tags-tags go [] = refl
describe_tags-tags go (t ∷ tags) = refl

describe_tags-primary :
    (go : Platform) (tags : List Bytes) → (describe_tags go tags).primary_tag ≡ head_of tags
unfolding describe_tags
describe_tags-primary go [] = refl
describe_tags-primary go (t ∷ tags) = refl

-- no text, no tags
blank-IsDescribed :
    (go : Platform) (raw : Bytes)
    → is_empty raw ≡ true
    → IsDescribed go (split b',' raw) no_languages
unfolding normalize_language_tag is_tagged first_tag has_tag split
blank-IsDescribed go [] blank = record { tagged = λ tag. refl; distinct = tt; primary = refl }
blank-IsDescribed go (c ∷ s) blank = absurd (cc)

-- The tags of an Accept-Language header are the normal forms, other than the empty one, of the parts
-- between its commas, none twice; the primary tag is the first of them, and empty if there is none.
pub accept_language_details-IsDescribed :
    (go : Platform) (accept_language : Bytes)
    → IsDescribed go
        (split b',' (trim_space accept_language))
        (accept_language_details go accept_language)
unfolding accept_language_details
accept_language_details-IsDescribed go accept_language =
    let raw = trim_space accept_language in
    let kept = collect_tags-Kept go (split b',' raw) [] tt tt in
    elim (Bool-cases (is_empty raw)) [
      | inl blank ↦ rw blank (blank-IsDescribed go raw blank)
      | inr some_text ↦ rw some_text (record {
        tagged = λ tag.
            rw (describe_tags-tags go (collect_tags go (split b',' raw) [])) (kept.tagged tag);
        distinct = rw (describe_tags-tags go (collect_tags go (split b',' raw) [])) kept.distinct;
        primary = describe_tags-primary go (collect_tags go (split b',' raw) []) ∙ kept.head;
      })
    ]
