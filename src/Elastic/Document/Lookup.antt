-- ===== src/Elastic/Document/Lookup.antt =====
-- What a document holds under each key.
use formation_web_analytics.Base.{
  ◌≡◌, refl, sym, ◌∙◌, ap, inl, inr, Bool, true, false, ◌&&◌, ◌||◌, not, Option, none, some, List,
  [], ◌∷◌, ◌++◌, Bool-cases, arith, if◌then◌else◌, Bytes, bytes_eq, bytes_eq_iff, lookup,
  lookup-insert,
}
use formation_web_analytics.Go.{Platform}
use formation_web_analytics.Event.{Event, Fields, end, field}
use formation_web_analytics.Elastic.Document.{
  DocumentValue, BulkDocument, put, put_all, entries, payload_at, Kind, promoted, promotions,
  promote_fields, promote_payload_fields, event_document,
}

abbrev Entries : Type 0
Entries = List (Bytes × Option DocumentValue)

-- whether a key stands in a list of writes
unfoldable has_key : Bytes → Entries → Bool
has_key k [] = false
has_key k ((j, v) ∷ es) = bytes_eq j k || has_key k es

unfoldable is_distinct : Entries → Bool
unfolding has_key
is_distinct [] = true
is_distinct ((j, v) ∷ es) = not (has_key j es) && is_distinct es

-- the value of a write, or what was there
abbrev pub or_before : Option (Option DocumentValue) → Option DocumentValue → Option DocumentValue
or_before none before = before
or_before (some none) before = before
or_before (some (some v)) before = some v

lookup-put :
    (k j : Bytes) (v : Option DocumentValue) (d : BulkDocument)
    → lookup k (put j v d) ≡ (if bytes_eq j k then or_before (some v) (lookup k d) else lookup k d)
unfolding put
lookup-put k j none d = ground arith
lookup-put k j (some v) d = lookup-insert j k v d

lookup-other : (k : Bytes) (es : Entries) → has_key k es ≡ false → lookup k es ≡ none
unfolding has_key lookup
lookup-other k [] h = refl
lookup-other k ((j, v) ∷ es) h = ground (arith, lookup-other k es)

-- distinct keys are written once
lookup-put_all :
    (k : Bytes) (es : Entries) (d : BulkDocument)
    → is_distinct es ≡ true
    → lookup k (put_all es d) ≡ or_before (lookup k es) (lookup k d)
unfolding put_all is_distinct lookup
lookup-put_all k [] d h = refl
lookup-put_all k ((j, v) ∷ es) d h =
    let rest = lookup-put_all k es (put j v d) (ground arith) in
    elim (Bool-cases (bytes_eq j k)) [
      | inr other ↦ rest ∙ (rw (lookup-put k j v d, other) refl)
      | inl same ↦
          let e : j ≡ k = (bytes_eq_iff j k).0 same in
          let absent : lookup k es ≡ none = lookup-other k es (rw (← e) (ground arith)) in
          rest ∙ (rw (absent, lookup-put k j v d, same) refl)
    ]

put_all-append :
    (first bs : Entries) (d : BulkDocument) → put_all (first ++ bs) d ≡ put_all bs (put_all first d)
unfolding put_all
put_all-append [] bs d = refl
put_all-append ((j, v) ∷ first) bs d = put_all-append first bs (put j v d)

module _ (go : Platform) where
  promoted_entries : Fields → List (Kind × Bytes) → Entries
  promoted_entries fields [] = []
  promoted_entries fields ((kind, key) ∷ ps) =
      (key, promoted go kind (payload_at key fields)) ∷ promoted_entries fields ps

  promote_fields-put_all :
      (ps : List (Kind × Bytes)) (fields : Fields) (d : BulkDocument)
      → promote_fields go ps fields d ≡ put_all (promoted_entries fields ps) d
  unfolding promote_fields put_all promoted_entries
  promote_fields-put_all [] fields d = refl
  promote_fields-put_all ((kind, key) ∷ ps) fields d =
      promote_fields-put_all ps fields (put key (promoted go kind (payload_at key fields)) d)

  abbrev fields_of : Option Fields → Fields
  fields_of none = end
  fields_of (some fields) = fields

  promote_payload_fields-put_all :
      (p : Option Fields) (d : BulkDocument)
      → promote_payload_fields go p d ≡ put_all (promoted_entries (fields_of p) promotions) d
  unfolding promote_payload_fields put_all promoted_entries promoted payload_at put
  promote_payload_fields-put_all none d = refl
  promote_payload_fields-put_all (some end) d = refl
  promote_payload_fields-put_all (some (field k v fields)) d =
      promote_fields-put_all promotions (field k v fields) d

  -- Every key that may be in the document of an event, with its value if it has one: the fields of the
  -- event, and the entries of the payload that are promoted.
  unfoldable pub all_entries : Event → List (Bytes × Option DocumentValue)
  unfolding promoted_entries
  all_entries e = entries go e ++ promoted_entries (fields_of e.payload) promotions

  all_entries-distinct : (e : Event) → is_distinct (all_entries e) ≡ true
  unfolding is_distinct all_entries promoted_entries bytes_eq
  all_entries-distinct e = refl

  -- The document of an event holds under every key exactly the value that the table of fields and
  -- promoted payload entries gives, and nothing under a key that has no value there: in particular no
  -- promoted entry replaces a field of the event.
  pub lookup-event_document :
      (e : Event) (k : Bytes)
      → lookup k (event_document go e) ≡ or_before (lookup k (all_entries e)) none
  unfolding event_document all_entries lookup
  lookup-event_document e k =
      ap (λ d. lookup k d)
        (promote_payload_fields-put_all e.payload (put_all (entries go e) [])
          ∙ sym (
              put_all-append (entries go e) (promoted_entries (fields_of e.payload) promotions) []))
      ∙ lookup-put_all k (all_entries e) [] (all_entries-distinct e)
