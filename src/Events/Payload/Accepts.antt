-- ===== src/Events/Payload/Accepts.antt =====
-- Which payloads `validatePayload` accepts, in terms of their size, height and texts.
use formation_web_analytics.Base.{
  ℕ, ◌+◌, ◌≤◌, max, ◌≡◌, refl, false, ◌||◌, Option, none, some, length, ltb, if◌then◌else◌, arith,
  is_empty, ok, err, refuse_if, refuse-eq-ok, refuse_if-eq-ok, ok-injective, >>=-eq-ok, ltb→le,
  le→ltb, ||_false, sym,
}
use formation_web_analytics.Event.{
  Value, null, boolean, number, text, object, array, integer, Fields, end, field, Items, nil, cons,
}
use formation_web_analytics.Events.Payload.{PayloadError, validate_value, validate_fields}
use formation_web_analytics.Events.Payload.{validate_items}

unfoldable mutual
  -- scalars and map entries count one each
  pub entries : Value → ℕ
  entries (object fs) = entries_of fs
  entries (array xs) = entries_in xs
  entries _ = 1

  pub entries_of : Fields → ℕ
  entries_of end = 0
  entries_of (field k v fs) = 1 + entries v + entries_of fs

  pub entries_in : Items → ℕ
  entries_in nil = 0
  entries_in (cons v xs) = entries v + entries_in xs

unfoldable mutual
  -- the number of levels
  pub height : Value → ℕ
  height (object fs) = 1 + height_of fs
  height (array xs) = 1 + height_in xs
  height _ = 1

  pub height_of : Fields → ℕ
  height_of end = 0
  height_of (field k v fs) = max (height v) (height_of fs)

  pub height_in : Items → ℕ
  height_in nil = 0
  height_in (cons v xs) = max (height v) (height_in xs)

module _ (max_field_length : ℕ) where
  unfoldable mutual
    -- texts are short, keys are short and not empty, and there are JSON values only
    pub IsClean : Value → Type 0
    IsClean (text s) = length s ≤ max_field_length
    IsClean (object fs) = AllClean fs
    IsClean (array xs) = EachClean xs
    IsClean (integer n) = ⊥
    IsClean _ = Unit

    pub AllClean : Fields → Type 0
    AllClean end = Unit
    AllClean (field k v fs) =
        (is_empty k ≡ false) × (length k ≤ max_field_length) × IsClean v × AllClean fs

    pub EachClean : Items → Type 0
    EachClean nil = Unit
    EachClean (cons v xs) = IsClean v × EachClean xs

module _ (max_depth max_field_length : ℕ) where
  -- what acceptance at `depth` with `n` entries means, for the three parts of a value
  abbrev ValueFits : Value → ℕ → ℕ → Type 0
  ValueFits v depth n =
      (n ≡ entries v) × (depth + height v ≤ max_depth + 1) × IsClean max_field_length v

  abbrev FieldsFit : Fields → ℕ → ℕ → Type 0
  FieldsFit fs depth n =
      (n ≡ entries_of fs) × (depth + height_of fs ≤ max_depth + 1) × AllClean max_field_length fs

  abbrev ItemsFit : Items → ℕ → ℕ → Type 0
  ItemsFit xs depth n =
      (n ≡ entries_in xs) × (depth + height_in xs ≤ max_depth + 1) × EachClean max_field_length xs

  scalar_fits :
      (depth n : ℕ) (e : PayloadError)
      → (if ltb max_depth depth then err e else ok 1) ≡ ok n
      → (n ≡ 1) × (depth + 1 ≤ max_depth + 1)
  scalar_fits depth n e h =
      let (b, r) = refuse-eq-ok (ltb max_depth depth) e (ok 1) h in
      (sym (ok-injective r), omega (arith, ltb→le max_depth depth b))

  mutual
    unfolding validate_value IsClean entries height

    value_sound :
        (v : Value) (depth n : ℕ)
        → validate_value max_depth max_field_length v depth ≡ ok n
        → ValueFits v depth n
    value_sound null depth n h = let (a, b) = scalar_fits depth n _ h in (a, b, tt)
    value_sound (boolean c) depth n h = let (a, b) = scalar_fits depth n _ h in (a, b, tt)
    value_sound (number x) depth n h = let (a, b) = scalar_fits depth n _ h in (a, b, tt)
    value_sound (text s) depth n h =
        let (b, r) = refuse-eq-ok _ _ (if ltb max_field_length (length s) then err _ else ok 1) h in
        let (c, q) = refuse-eq-ok _ _ (ok 1) r in
        (
          sym (ok-injective q),
          omega (arith, ltb→le max_depth depth b),
          ltb→le max_field_length (length s) c,
        )
    value_sound (object fs) depth n h =
        let (b, r) =
          refuse-eq-ok _ _ (validate_fields max_depth max_field_length fs (depth + 1)) h in
        let le = ltb→le max_depth depth b in
        let (e, f, g) = fields_sound fs (depth + 1) n (omega arith) r in (e, omega arith, g)
    value_sound (array xs) depth n h =
        let (b, r) =
          refuse-eq-ok _ _ (validate_items max_depth max_field_length xs (depth + 1)) h in
        let le = ltb→le max_depth depth b in
        let (e, f, g) = items_sound xs (depth + 1) n (omega arith) r in (e, omega arith, g)
    value_sound (integer k) depth n h = let (b, r) = refuse-eq-ok _ _ (err _) h in absurd (cc)

    fields_sound :
        (fs : Fields) (depth n : ℕ)
        → depth ≤ max_depth + 1
        → validate_fields max_depth max_field_length fs depth ≡ ok n
        → FieldsFit fs depth n
    fields_sound end depth n le h = (sym (ok-injective h), omega arith, tt)
    fields_sound (field k v fs) depth n le h =
        let (t, b, r) =
          >>=-eq-ok (refuse_if (is_empty k || ltb max_field_length (length k)) _) _ h in
        let (m, c, s) = >>=-eq-ok (validate_value max_depth max_field_length v depth) _ r in
        let (l, d, e) = >>=-eq-ok (validate_fields max_depth max_field_length fs depth) _ s in
        let key = ||_false (is_empty k) _ (refuse_if-eq-ok _ _ b) in
        let (v₁, v₂, v₃) = value_sound v depth m c in
        let (f₁, f₂, f₃) = fields_sound fs depth l le d in
        let sum = ok-injective e in
        (omega arith, omega arith, (key.0, ltb→le max_field_length (length k) key.1, v₃, f₃))

    items_sound :
        (xs : Items) (depth n : ℕ)
        → depth ≤ max_depth + 1
        → validate_items max_depth max_field_length xs depth ≡ ok n
        → ItemsFit xs depth n
    items_sound nil depth n le h = (sym (ok-injective h), omega arith, tt)
    items_sound (cons v xs) depth n le h =
        let (m, c, s) = >>=-eq-ok (validate_value max_depth max_field_length v depth) _ h in
        let (l, d, e) = >>=-eq-ok (validate_items max_depth max_field_length xs depth) _ s in
        let (v₁, v₂, v₃) = value_sound v depth m c in
        let (f₁, f₂, f₃) = items_sound xs depth l le d in
        let sum = ok-injective e in (omega arith, omega arith, (v₃, f₃))

  open_guard : (depth h : ℕ) → depth + (1 + h) ≤ max_depth + 1 → ltb max_depth depth ≡ false
  open_guard depth h le = le→ltb max_depth depth (omega arith)

  mutual
    unfolding validate_value IsClean entries height

    value_complete :
        (v : Value) (depth : ℕ)
        → IsClean max_field_length v
        → depth + height v ≤ max_depth + 1
        → validate_value max_depth max_field_length v depth ≡ ok (entries v)
    value_complete null depth c le = rw (open_guard depth 0 le)
    value_complete (boolean b) depth c le = rw (open_guard depth 0 le)
    value_complete (number x) depth c le = rw (open_guard depth 0 le)
    value_complete (text s) depth c le =
        rw (open_guard depth 0 le, le→ltb max_field_length (length s) c)
    value_complete (object fs) depth c le =
        rw (open_guard depth (height_of fs) le) (fields_complete fs (depth + 1) c (omega arith))
    value_complete (array xs) depth c le =
        rw (open_guard depth (height_in xs) le) (items_complete xs (depth + 1) c (omega arith))
    value_complete (integer k) depth c le = absurd c

    fields_complete :
        (fs : Fields) (depth : ℕ)
        → AllClean max_field_length fs
        → depth + height_of fs ≤ max_depth + 1
        → validate_fields max_depth max_field_length fs depth ≡ ok (entries_of fs)
    fields_complete end depth c le = refl
    fields_complete (field k v fs) depth (e, l, c, cs) le = rw (
      e,
      le→ltb max_field_length (length k) l,
      value_complete v depth c (omega arith),
      fields_complete fs depth cs (omega arith),
    )

    items_complete :
        (xs : Items) (depth : ℕ)
        → EachClean max_field_length xs
        → depth + height_in xs ≤ max_depth + 1
        → validate_items max_depth max_field_length xs depth ≡ ok (entries_in xs)
    items_complete nil depth c le = refl
    items_complete (cons v xs) depth (c, cs) le =
        rw (value_complete v depth c (omega arith), items_complete xs depth cs (omega arith))

  -- what a payload has to satisfy
  abbrev pub IsAccepted : ℕ → Option Fields → Type 0
  IsAccepted max_entries none = Unit
  IsAccepted max_entries (some fs) =
      (1 + height_of fs ≤ max_depth) × AllClean max_field_length fs × (entries_of fs ≤ max_entries)
