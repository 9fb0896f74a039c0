-- ===== src/Elastic.antt =====
-- internal/elastic/client.go: the bulk request, its answer, and the backoff between attempts.
-- The network, the encoder and the random source are a `Transport` over the state `W` of the world.
-- Compression, the printing of JSON and the request's other headers are left out.
pub mod Sender
pub mod Answer
pub mod Backoff
pub mod Payload
pub mod Ping
pub mod Kept
pub mod Document
mod Examples
use formation_web_analytics.Base.{
  ℕ, zero, suc, ◌%◌, ◌+◌, ◌-◌, ◌*◌, ◌/◌, ℤ, pos, negsuc, Bool, true, false, ◌&&◌, ◌||◌, not, Option,
  none, some, List, [], ◌∷◌, ◌++◌, length, ltb, leb, ◌==◌, if◌then◌else◌, Bytes, is_empty,
}
use formation_web_analytics.Event.{Event}
use formation_web_analytics.Go.{Platform}
use Document.{BulkDocument, event_document}
use Sender.{BulkResult, nothing, all_again, Sent}

-- a decoded bulk response: its `errors` flag and the create status of each item
pub record BulkResponse : Type 0 where
  pub errors : Bool
  pub items : List ℤ

-- How a request ended: it could not be made, there was no response, or a response with a status and
-- a body, which is `none` if it does not decode.
pub data Posted : Type 0 where
  not_made no_response : Posted
  answered : ℕ → Option BulkResponse → Posted

-- A line of the payload: the action for an event, or its document.
pub data Line : Type 0 where
  create : Bytes → Bytes → Line
  document : BulkDocument → Line

pub record Transport (W : Type 0) : Type 0 where
  -- `rand.Read` of 16 bytes, if the source works
  pub random_bytes : W → Option Bytes × W
  -- whether a document encodes; the strings of an action always do
  pub encodes : BulkDocument → Bool
  -- the request with the lines of the payload
  pub post : List Line → W → Posted × W

unfoldable pub is_retryable_status : ℕ → Bool
is_retryable_status status = status == 408 || status == 429 || leb 500 status

-- what an item's create status says of its event
pub data Verdict : Type 0 where
  omitted indexed retryable failed : Verdict

unfoldable pub verdict : ℤ → Verdict
unfolding is_retryable_status
verdict (negsuc n) = failed
verdict (pos n) =
    if n == 0
    then omitted
    else if leb 200 n && ltb n 300 || n == 409
    then indexed
    else if is_retryable_status n
    then retryable
    else failed

-- one round of the loop over the items; `none` is an item with no status
unfoldable pub count_item : Verdict → Event → BulkResult → Option BulkResult
count_item omitted e r = none
count_item indexed e r = some (record r { indexed = r.indexed + 1 })
count_item retryable e r = some (record r { retry = r.retry ++ e ∷ [] })
count_item failed e r = some (record r { failed = r.failed + 1 })

-- the loop, which is entered only with as many items as events
unfoldable pub tally : List ℤ → List Event → BulkResult → Option BulkResult
unfolding verdict count_item
tally (s ∷ items) (e ∷ batch) r = elim (count_item (verdict s) e r) [
  | none ↦ none
  | some r' ↦ tally items batch r'
]
tally _ _ r = some r

-- `Send` from the response on: the result, and whether there is an error
unfoldable pub read_answer : Posted → List Event → BulkResult × Bool
unfolding is_retryable_status tally
read_answer not_made batch = (nothing, true)
read_answer no_response batch = (all_again batch, true)
read_answer (answered status body) batch =
    if is_retryable_status status
    then (all_again batch, true)
    else if leb 400 status
    then (nothing, true)
    else elim body [
      | none ↦ (all_again batch, true)
      | some parsed ↦
          if not parsed.errors
          then (record nothing { indexed = length batch }, false)
          else if not (length parsed.items == length batch)
          then (all_again batch, true)
          else elim (tally parsed.items batch nothing) [
            | none ↦ (all_again batch, true)
            | some result ↦ (result, false)
          ]
    ]

-- `hex.EncodeToString`
unfoldable pub hex_digit : ℕ → ℕ
hex_digit n = if ltb n 10 then n + b'0' else n - 10 + b'a'

unfoldable pub hex_encode : Bytes → Bytes
unfolding hex_digit
hex_encode [] = []
hex_encode (c ∷ s) = hex_digit (c / 16) ∷ hex_digit (c % 16) ∷ hex_encode s

module _ (go : Platform) (data_stream : Bytes) {W : Type 0} (net : Transport W) where
  -- `EnsureDocumentID`
  unfoldable pub ensure_document_id : Event → W → Option Event × W
  unfolding hex_encode
  ensure_document_id e w =
      if not (is_empty e.document_id)
      then (some e, w)
      else let (id, w') = net.random_bytes w in
        (
          elim id [ none ↦ none | some bytes ↦ some (record e { document_id = hex_encode bytes }) ],
          w',
        )

  -- the two lines of an event, before those of the rest of the batch
  unfoldable pub with_lines : Event → Option (List Line) → Option (List Line)
  unfolding event_document
  with_lines e none = none
  with_lines e (some lines) =
      some (create data_stream e.document_id ∷ document (event_document go e) ∷ lines)

  -- one round of the loop of `BuildBulkPayload`, with the event as it was numbered, and what the rest
  -- of the loop does if it is reached
  unfoldable pub add_event :
      Event
      → List Event
      → Option Event
      → W
      → Option (List Line) × List Event × W
      → Option (List Line) × List Event × W
  unfolding with_lines
  add_event e batch none w rest = (none, e ∷ batch, w)
  add_event e batch (some e') w (lines, batch', w') =
      if net.encodes (event_document go e')
      then (with_lines e' lines, e' ∷ batch', w')
      else (none, e' ∷ batch, w)

  -- `BuildBulkPayload`: the lines, if it succeeds, and the batch, whose events it numbers in place
  unfoldable pub build_bulk_payload : List Event → W → Option (List Line) × List Event × W
  unfolding ensure_document_id add_event
  build_bulk_payload [] w = (some [], [], w)
  build_bulk_payload (e ∷ batch) w =
      let (numbered, w') = ensure_document_id e w in
      add_event e batch numbered w' (build_bulk_payload batch w')

  -- `Client.Send`
  unfoldable pub send : List Event → W → Sent W
  unfolding build_bulk_payload read_answer
  send batch w =
      let (payload, batch', w') = build_bulk_payload batch w in
      elim payload [
        | none ↦ record { batch = batch'; result = nothing; is_error = true; world = w' }
        | some lines ↦
            let (posted, w'') = net.post lines w' in
            let (result, is_error) = read_answer posted batch' in
            record { batch = batch'; result = result; is_error = is_error; world = w'' }
      ]
