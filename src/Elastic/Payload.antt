-- ===== src/Elastic/Payload.antt =====
-- The payload of a bulk request: the lines of its events, and what sending the same events again
-- does to them.
use formation_web_analytics.Base.{◌≡◌, refl, true, false, some, List, [], ◌∷◌, All, Bytes, is_empty}
use formation_web_analytics.Go.{Platform}
use formation_web_analytics.Event.{Event}
use formation_web_analytics.Elastic.Document.{event_document}
use formation_web_analytics.Elastic.{
  Transport, Line, create, document, ensure_document_id, with_lines, add_event, build_bulk_payload,
}

-- two lines for each event: the action with its id, and its document
unfoldable pub lines_of : Platform → Bytes → List Event → List Line
lines_of go data_stream [] = []
lines_of go data_stream (e ∷ batch) =
    create data_stream e.document_id
    ∷ document (event_document go e)
    ∷ lines_of go data_stream batch

module _ (go : Platform) (data_stream : Bytes) {W : Type 0} (net : Transport W) where
  -- an event that has an id, and whose document encodes
  abbrev pub IsReady : Event → Type 0
  IsReady e = (is_empty e.document_id ≡ false) × (net.encodes (event_document go e) ≡ true)

  ensure_document_id-same :
      (e : Event) (w : W)
      → is_empty e.document_id ≡ false
      → ensure_document_id go data_stream net e w ≡ (some e, w)
  unfolding ensure_document_id
  ensure_document_id-same e w h = rw h refl

  -- Ready events are printed as they are.
  pub build_bulk_payload-IsReady :
      (batch : List Event) (w : W)
      → All IsReady batch
      → build_bulk_payload go data_stream net batch w
        ≡ (some (lines_of go data_stream batch), batch, w)
  unfolding build_bulk_payload add_event with_lines lines_of
  build_bulk_payload-IsReady [] w h = refl
  build_bulk_payload-IsReady (e ∷ batch) w ((numbered, encodes), rest) =
      rw (ensure_document_id-same e w numbered, build_bulk_payload-IsReady batch w rest, encodes)
        refl
