-- ===== src/Events/Payload/Truncated.antt =====
-- What truncation does to a payload, and what is left for validation to refuse.
use formation_web_analytics.Base.{
  ℕ, ◌+◌, ◌≤◌, ◌<◌, max, ◌≡◌, refl, ap, ap₂, false, inl, inr, Bool-cases, Option, none, some,
  length, take, length-take, take-all, leb, leb→le, le→leb_pos, sym, arith, Bytes, is_empty, ◌↔◌,
}
use formation_web_analytics.Event.{
  Value, null, boolean, number, text, object, array, integer, Fields, end, field, Items, nil, cons,
}
use formation_web_analytics.Events.Payload.{truncate_string, truncate_value, truncate_fields}
use formation_web_analytics.Events.Payload.{truncate_items}
use formation_web_analytics.Events.Payload.Accepts.{
  entries, entries_of, entries_in, height, height_of, height_in, IsClean, AllClean, EachClean,
}

-- A text cut to a positive length is no longer than that, and begins the text it was.
pub truncate_string_lem :
    (s : Bytes) (n : ℕ)
    → 0 < n
    → (length (truncate_string s n) ≤ n) × (truncate_string s n ≡ take n s)
unfolding truncate_string
truncate_string_lem s n pos = elim (Bool-cases (leb (length s) n)) [
  | inl short ↦
      let le = leb→le (length s) n short in rw (le→leb_pos n pos, short) (le, sym (take-all n s le))
  | inr long ↦ rw (le→leb_pos n pos, long) (omega (arith, length-take n s), refl)
]

-- the keys are short and not empty, and there are JSON values only
module _ (max_field_length : ℕ) where
  unfoldable mutual
    pub HasKeys : Value → Type 0
    HasKeys (object fs) = AllKeys fs
    HasKeys (array xs) = EachKeys xs
    HasKeys (integer n) = ⊥
    HasKeys _ = Unit

    pub AllKeys : Fields → Type 0
    AllKeys end = Unit
    AllKeys (field k v fs) =
        (is_empty k ≡ false) × (length k ≤ max_field_length) × HasKeys v × AllKeys fs

    pub EachKeys : Items → Type 0
    EachKeys nil = Unit
    EachKeys (cons v xs) = HasKeys v × EachKeys xs

module _ (n : ℕ) where
  mutual
    unfolding truncate_value entries

    entries-truncate : (v : Value) → entries (truncate_value n v) ≡ entries v
    entries-truncate null = refl
    entries-truncate (boolean b) = refl
    entries-truncate (number x) = refl
    entries-truncate (text s) = refl
    entries-truncate (object fs) = entries_of-truncate fs
    entries-truncate (array xs) = entries_in-truncate xs
    entries-truncate (integer k) = refl

    entries_of-truncate : (fs : Fields) → entries_of (truncate_fields n fs) ≡ entries_of fs
    entries_of-truncate end = refl
    entries_of-truncate (field k v fs) = omega (arith, entries-truncate v, entries_of-truncate fs)

    entries_in-truncate : (xs : Items) → entries_in (truncate_items n xs) ≡ entries_in xs
    entries_in-truncate nil = refl
    entries_in-truncate (cons v xs) = omega (arith, entries-truncate v, entries_in-truncate xs)

  mutual
    unfolding truncate_value height

    height-truncate : (v : Value) → height (truncate_value n v) ≡ height v
    height-truncate null = refl
    height-truncate (boolean b) = refl
    height-truncate (number x) = refl
    height-truncate (text s) = refl
    height-truncate (object fs) = ap (λ h. 1 + h) (height_of-truncate fs)
    height-truncate (array xs) = ap (λ h. 1 + h) (height_in-truncate xs)
    height-truncate (integer k) = refl

    height_of-truncate : (fs : Fields) → height_of (truncate_fields n fs) ≡ height_of fs
    height_of-truncate end = refl
    height_of-truncate (field k v fs) = ap₂ max (height-truncate v) (height_of-truncate fs)

    height_in-truncate : (xs : Items) → height_in (truncate_items n xs) ≡ height_in xs
    height_in-truncate nil = refl
    height_in-truncate (cons v xs) = ap₂ max (height-truncate v) (height_in-truncate xs)

  module _ (pos : 0 < n) where
    mutual
      unfolding truncate_value IsClean HasKeys

      IsClean-truncate : (v : Value) → IsClean n (truncate_value n v) ↔ HasKeys n v
      IsClean-truncate null = (λ h. h, λ h. h)
      IsClean-truncate (boolean b) = (λ h. h, λ h. h)
      IsClean-truncate (number x) = (λ h. h, λ h. h)
      IsClean-truncate (text s) = (λ h. tt, λ h. (truncate_string_lem s n pos).0)
      IsClean-truncate (object fs) = AllClean-truncate fs
      IsClean-truncate (array xs) = EachClean-truncate xs
      IsClean-truncate (integer k) = (λ h. h, λ h. h)

      AllClean-truncate : (fs : Fields) → AllClean n (truncate_fields n fs) ↔ AllKeys n fs
      AllClean-truncate end = (λ h. h, λ h. h)
      AllClean-truncate (field k v fs) = (
        λ (e, l, c, cs). (e, l, (IsClean-truncate v).0 c, (AllClean-truncate fs).0 cs),
        λ (e, l, c, cs). (e, l, (IsClean-truncate v).1 c, (AllClean-truncate fs).1 cs),
      )

      EachClean-truncate : (xs : Items) → EachClean n (truncate_items n xs) ↔ EachKeys n xs
      EachClean-truncate nil = (λ h. h, λ h. h)
      EachClean-truncate (cons v xs) = (
        λ (c, cs). ((IsClean-truncate v).0 c, (EachClean-truncate xs).0 cs),
        λ (c, cs). ((IsClean-truncate v).1 c, (EachClean-truncate xs).1 cs),
      )

-- what is left to ask of a payload whose texts are cut
abbrev pub HasShape : ℕ → ℕ → ℕ → Option Fields → Type 0
HasShape max_depth n max_entries none = Unit
HasShape max_depth n max_entries (some fs) =
    (1 + height_of fs ≤ max_depth) × AllKeys n fs × (entries_of fs ≤ max_entries)
