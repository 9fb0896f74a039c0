-- ===== src/Elastic/Answer.antt =====
-- What `Send` makes of an answer, and that the client is a `BulkSender`.
use formation_web_analytics.Base.{
  ℕ, ◌+◌, ◌≡◌, refl, sym, ◌∙◌, ap, ◌⊎◌, inl, inr, ℤ, Bool, true, false, Option, none, some, List,
  [], ◌∷◌, length, length-append, Bool-cases, Option-cases, Bytes, ◌==◌, ==_iff, leb, arith,
}
use mathlib.Core.Option.{some-injective, none-ne-some}
use formation_web_analytics.Go.{Platform}
use formation_web_analytics.Event.{Event}
use formation_web_analytics.Elastic.Sender.{BulkResult, nothing, all_again, Accounts, BulkSender}
use formation_web_analytics.Elastic.{
  Transport, BulkResponse, Posted, not_made, no_response, answered, Verdict, omitted, indexed,
  retryable, failed, verdict, tally, is_retryable_status, count_item, read_answer,
  ensure_document_id, build_bulk_payload, send,
}

abbrev total : BulkResult → ℕ
total r = r.indexed + r.failed + length r.retry

count_item-total :
    (v : Verdict) (e : Event) (r s : BulkResult) → count_item v e r ≡ some s → total s ≡ total r + 1
unfolding count_item
count_item-total omitted e r s h = absurd (cc)
count_item-total indexed e r s h = ap total (sym (some-injective _ _ h)) ∙ omega arith
count_item-total retryable e r s h =
    ap total (sym (some-injective _ _ h)) ∙ omega (arith, length-append r.retry (e ∷ []))
count_item-total failed e r s h = ap total (sym (some-injective _ _ h)) ∙ omega arith

-- The loop over the items puts each event into one of the three places.
tally-total :
    (items : List ℤ) (batch : List Event) (r s : BulkResult)
    → length items ≡ length batch
    → tally items batch r ≡ some s
    → total s ≡ total r + length batch
unfolding tally
tally-total [] [] r s e h = ap total (sym (some-injective _ _ h)) ∙ omega arith
tally-total [] (x ∷ batch) r s e h = absurd (omega arith)
tally-total (i ∷ items) [] r s e h = absurd (omega arith)
tally-total (i ∷ items) (x ∷ batch) r s e h = elim (Option-cases (count_item (verdict i) x r)) [
  | inl bad ↦ absurd (none-ne-some _ (rw (bad, tally) at h))
  | inr (r', good) ↦
      let first = count_item-total (verdict i) x r r' good in
      let rest = tally-total items batch r' s (omega arith) (rw (good, tally) at h) in omega arith
]

-- what `Send` owes for a batch, before the world is added
record AnswerAccounts (batch : List Event) (out : BulkResult × Bool) : Type 0 where
  settled : out.1 ≡ false → total out.0 ≡ length batch
  refused :
      out.1 ≡ true
      → (out.0.indexed ≡ 0) × (out.0.failed ≡ 0) × ((out.0.retry ≡ []) ⊎ (out.0.retry ≡ batch))

gives_up : (batch : List Event) → AnswerAccounts batch (nothing, true)
gives_up batch = record { settled = λ e. absurd (cc); refused = λ e. (refl, refl, inl refl) }

asks_again : (batch : List Event) → AnswerAccounts batch (all_again batch, true)
asks_again batch = record { settled = λ e. absurd (cc); refused = λ e. (refl, refl, inr refl) }

settles :
    (batch : List Event) (r : BulkResult) → total r ≡ length batch → AnswerAccounts batch (r, false)
settles batch r h = record { settled = λ e. h; refused = λ e. absurd (cc) }

tallied :
    (items : List ℤ) (batch : List Event) (o : Option BulkResult)
    → length items ≡ length batch
    → tally items batch nothing ≡ o
    → AnswerAccounts batch (elim o [ none ↦ (all_again batch, true) | some r ↦ (r, false) ])
tallied items batch none e h = asks_again batch
tallied items batch (some r) e h =
    settles batch r (tally-total items batch nothing r e h ∙ omega arith)

read_body :
    (body : Option BulkResponse) (batch : List Event) (status : ℕ)
    → is_retryable_status status ≡ false
    → leb 400 status ≡ false
    → AnswerAccounts batch (read_answer (answered status body) batch)
unfolding read_answer
read_body none batch status a b = rw (a, b) (asks_again batch)
read_body (some parsed) batch status a b = elim (Bool-cases parsed.errors) [
  | inr clean ↦
      rw (a, b, clean) (settles batch (record nothing { indexed = length batch }) (omega arith))
  | inl some_bad ↦ elim (Bool-cases (length parsed.items == length batch)) [
    | inr differ ↦ rw (a, b, some_bad, differ) (asks_again batch)
    | inl same ↦ rw (a, b, some_bad, same) (tallied parsed.items batch _ ((==_iff _ _).0 same) refl)
  ]
]

read_answer-accounts :
    (p : Posted) (batch : List Event) → AnswerAccounts batch (read_answer p batch)
read_answer-accounts not_made batch = unfold read_answer in gives_up batch
read_answer-accounts no_response batch = unfold read_answer in asks_again batch
read_answer-accounts (answered status body) batch = elim (Bool-cases (is_retryable_status status)) [
  | inl again ↦ unfold read_answer in rw again (asks_again batch)
  | inr no_more ↦ elim (Bool-cases (leb 400 status)) [
    | inl refused ↦ unfold read_answer in rw (no_more, refused) (gives_up batch)
    | inr fine ↦ read_body body batch status no_more fine
  ]
]

module _ (go : Platform) (data_stream : Bytes) {W : Type 0} (net : Transport W) where
  length-build_bulk_payload :
      (batch : List Event) (w : W)
      → length (build_bulk_payload go data_stream net batch w).1 ≡ length batch
  unfolding build_bulk_payload
  length-build_bulk_payload [] w = refl
  length-build_bulk_payload (e ∷ batch) w =
      ground (arith, length-build_bulk_payload batch (ensure_document_id go data_stream net e w).1)

  -- `Client.Send` accounts for every event of its batch, whatever the network answers.
  pub send-Accounts :
      (batch : List Event) (w : W) → Accounts batch (send go data_stream net batch w)
  unfolding send
  send-Accounts batch w =
      let built = build_bulk_payload go data_stream net batch w in
      let same = length-build_bulk_payload batch w in
      elim (Option-cases built.0) [
        | inl unfit ↦
            rw (unfit, send)
              (record {
                same_length = same;
                settled = λ e. absurd (cc);
                refused = λ e. (refl, refl, inl refl);
              })
        | inr (lines, fit) ↦
            let a = read_answer-accounts (net.post lines built.2).0 built.1 in
            rw (fit, send)
              (record {
                same_length = same;
                settled = λ e. a.settled e ∙ same;
                refused = a.refused;
              })
      ]

  -- the client as the sender that the batcher is given
  abbrev pub client : BulkSender W
  client = record { send = send go data_stream net; accounts = send-Accounts }
