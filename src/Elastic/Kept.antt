-- ===== src/Elastic/Kept.antt =====
-- What `Send` hands back is the batch that it was given, with document ids.
use formation_web_analytics.Base.{
  ◌≡◌, refl, inl, inr, ℤ, Bool, true, false, Option, none, some, List, [], ◌∷◌, length, All,
  All-append, Bool-cases, Option-cases, Bytes, is_empty, leb, ◌==◌, subst,
}
use mathlib.Core.Option.{some-injective, none-ne-some}
use formation_web_analytics.Go.{Platform}
use formation_web_analytics.Event.{Event}
use formation_web_analytics.Elastic.Document.{event_document}
use formation_web_analytics.Elastic.Sender.{BulkResult, nothing, all_again}
use formation_web_analytics.Elastic.{
  Transport, Line, Posted, not_made, no_response, answered, Verdict, omitted, indexed, retryable,
  failed, verdict, tally, is_retryable_status, count_item, read_answer, hex_encode,
  ensure_document_id, add_event, build_bulk_payload, send,
}

-- what holds of an event holds of it with another document id
module _ (P : Event → Type 0)
    (kept : (e : Event) (id : Bytes) → P e → P (record e { document_id = id })) where
  count_item-All :
      (v : Verdict) (e : Event) (r s : BulkResult)
      → P e
      → All P r.retry
      → count_item v e r ≡ some s
      → All P s.retry
  unfolding count_item
  count_item-All omitted e r s p all h = absurd (cc)
  count_item-All indexed e r s p all h = subst (λ r. All P r.retry) (some-injective _ _ h) all
  count_item-All retryable e r s p all h =
      subst (λ r. All P r.retry) (some-injective _ _ h) (All-append P r.retry (e ∷ []) all (p, tt))
  count_item-All failed e r s p all h = subst (λ r. All P r.retry) (some-injective _ _ h) all

  tally-All :
      (items : List ℤ) (batch : List Event) (r s : BulkResult)
      → All P batch
      → All P r.retry
      → tally items batch r ≡ some s
      → All P s.retry
  unfolding tally
  tally-All [] batch r s given all h = subst (λ r. All P r.retry) (some-injective _ _ h) all
  tally-All (i ∷ items) [] r s given all h = subst (λ r. All P r.retry) (some-injective _ _ h) all
  tally-All (i ∷ items) (x ∷ batch) r s (p, given) all h =
      elim (Option-cases (count_item (verdict i) x r)) [
        | inl bad ↦ absurd (none-ne-some _ (rw (bad, tally) at h))
        | inr (r', good) ↦
            tally-All items batch r' s given (count_item-All (verdict i) x r r' p all good)
              (rw (good, tally) at h)
      ]

  read_items-All :
      (items : List ℤ) (batch : List Event) (o : Option BulkResult)
      → All P batch
      → tally items batch nothing ≡ o
      → let answer : BulkResult × Bool = elim o [
        | none ↦ (all_again batch, true)
        | some r ↦ (r, false)
      ] in
        All P answer.0.retry
  read_items-All items batch none given h = given
  read_items-All items batch (some r) given h = tally-All items batch nothing r given tt h

  read_answer-All :
      (posted : Posted) (batch : List Event)
      → All P batch
      → All P (read_answer posted batch).0.retry
  unfolding read_answer
  read_answer-All not_made batch given = tt
  read_answer-All no_response batch given = given
  read_answer-All (answered status none) batch given =
      elim (Bool-cases (is_retryable_status status)) [
        | inl again ↦ rw again given
        | inr final ↦ elim (Bool-cases (leb 400 status)) [
          | inl bad ↦ rw (final, bad) tt
          | inr fine ↦ rw (final, fine) given
        ]
      ]
  read_answer-All (answered status (some parsed)) batch given =
      elim (Bool-cases (is_retryable_status status)) [
        | inl again ↦ rw again given
        | inr final ↦ elim (Bool-cases (leb 400 status)) [
          | inl bad ↦ rw (final, bad) tt
          | inr fine ↦ elim (Bool-cases parsed.errors) [
            | inr clean ↦ rw (final, fine, clean) tt
            | inl mixed ↦ elim (Bool-cases (length parsed.items == length batch)) [
              | inr other ↦ rw (final, fine, mixed, other) given
              | inl same ↦
                  rw (final, fine, mixed, same)
                    (read_items-All parsed.items batch (tally parsed.items batch nothing) given
                      refl)
            ]
          ]
        ]
      ]

  module _ (go : Platform) (data_stream : Bytes) {W : Type 0} (net : Transport W) where
    abbrev Given : Option Event → Type 0
    Given none = Unit
    Given (some e) = P e

    ensure_document_id-Given :
        (e : Event) (w : W) → P e → Given (ensure_document_id go data_stream net e w).0
    unfolding ensure_document_id
    ensure_document_id-Given e w p = elim (Bool-cases (is_empty e.document_id)) [
      | inr old ↦ rw old p
      | inl new ↦ elim (Option-cases (net.random_bytes w).0) [
        | inl out ↦ rw (new, out) tt
        | inr (bytes, read) ↦ rw (new, read) (kept e (hex_encode bytes) p)
      ]
    ]

    add_event-All :
        (e : Event) (batch : List Event) (numbered : Option Event) (w : W)
        (rest : Option (List Line) × List Event × W)
        → P e
        → All P batch
        → Given numbered
        → All P rest.1
        → All P (add_event go data_stream net e batch numbered w rest).1
    unfolding add_event
    add_event-All e batch none w rest p all given later = (p, all)
    add_event-All e batch (some e') w rest p all given later =
        elim (Bool-cases (net.encodes (event_document go e'))) [
          | inl encoded ↦ rw encoded (given, later)
          | inr unencoded ↦ rw unencoded (given, all)
        ]

    build_bulk_payload-All :
        (batch : List Event) (w : W)
        → All P batch
        → All P (build_bulk_payload go data_stream net batch w).1
    unfolding build_bulk_payload
    build_bulk_payload-All [] w h = tt
    build_bulk_payload-All (e ∷ batch) w (p, h) =
        let (numbered, w') = ensure_document_id go data_stream net e w in
        add_event-All e batch numbered w' (build_bulk_payload go data_stream net batch w') p h
          (ensure_document_id-Given e w p) (build_bulk_payload-All batch w' h)

    -- What holds of every event of a batch, whatever its document id, holds of the events that `Send` leaves
    -- in it and of those to be sent again.
    pub send-All :
        (batch : List Event) (w : W)
        → All P batch
        → let s = send go data_stream net batch w in All P s.batch × All P s.result.retry
    unfolding send
    send-All batch w h =
        let (payload, batch', w') = build_bulk_payload go data_stream net batch w in
        let all = build_bulk_payload-All batch w h in
        elim (Option-cases payload) [
          | inl unbuilt ↦ rw (unbuilt, send) (all, tt)
          | inr (lines, built) ↦
              rw (built, send) (all, read_answer-All (net.post lines w').0 batch' all)
        ]
