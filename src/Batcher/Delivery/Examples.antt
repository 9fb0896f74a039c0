-- ===== src/Batcher/Delivery/Examples.antt =====
-- The theorems on the loop of the batcher, with a server that takes every batch.
use formation_web_analytics.Base.{
  ℕ, ◌<◌, inl, inr, Bool-cases, is_empty, arith, ◌≡◌, refl, true, false, some, List, [], ◌∷◌,
}
use formation_web_analytics.Event.{Event}
use formation_web_analytics.Queue.{Queue}
use formation_web_analytics.Elastic.{
  Line, add_event, build_bulk_payload, ensure_document_id, read_answer, send, with_lines,
}
use formation_web_analytics.Metrics.{new_registry}
use formation_web_analytics.Batcher.Delivery.{Accepts}
use formation_web_analytics.Batcher.Loop.{
  Loop, HasCaughtUp, ticked, notified, run_once, ticked-HasCaughtUp, notified-HasCaughtUp,
}
use formation_web_analytics.Batcher.Examples.{two, two-IsValid}
use formation_web_analytics.Samples.{platform, accepting, delivering, config}

pub delivering-live : (w : ℕ) → (delivering.cancelled w).0 ≡ false
delivering-live w = refl

pub delivering-woken :
    (delay w : ℕ)
    → (delivering.wait delay w).0 ≡ false
    → (delivering.cancelled (delivering.wait delay w).1).0 ≡ true
delivering-woken delay w h = cc

pub delivering-quiet : (w : ℕ) (q : Queue Event) → delivering.meanwhile w q ≡ q
delivering-quiet w q = refl

-- every event of a batch can be numbered and encoded
accepting-numbers :
    (e : Event) (w : ℕ)
    → (e' : Event) × ((ensure_document_id platform config.data_stream accepting e w).0 ≡ some e')
unfolding ensure_document_id
accepting-numbers e w = elim (Bool-cases (is_empty e.document_id)) [
  | inl new ↦ rw new (_, refl)
  | inr old ↦ rw old (_, refl)
]

accepting-builds :
    (events : List Event) (w : ℕ)
    → (lines : List Line) × ((build_bulk_payload platform config.data_stream accepting events w).0
        ≡ some lines)
unfolding build_bulk_payload add_event with_lines
accepting-builds [] w = ([], refl)
accepting-builds (e ∷ events) w =
    let first = ensure_document_id platform config.data_stream accepting e w in
    let (e', numbered) = accepting-numbers e w in
    let (lines, built) = accepting-builds events first.1 in rw (numbered, built) (_, refl)

pub accepting-takes :
    (events : List Event) (w : ℕ)
    → let sent = send platform config.data_stream accepting events w in
      (sent.result.retry ≡ []) × (sent.is_error ≡ false)
unfolding send read_answer
accepting-takes events w =
    let (lines, built) = accepting-builds events w in rw (built, send) (refl, refl)

pub delivering-Accepts :
    (events : List Event) (w : ℕ) → Accepts delivering config config.max_retries 0 events w
delivering-Accepts events w = inl (accepting-takes events w)

max_batch_size-positive : 0 < config.max_batch_size
max_batch_size-positive = omega arith

-- the batcher at the head of its loop
abbrev running : Loop ℕ
running = record { queue = two; metrics = new_registry; world = 0; ready = true; finished = false }

ticked-HasCaughtUp_example :
    HasCaughtUp delivering config 1 running (run_once delivering config ticked running)
ticked-HasCaughtUp_example =
    ticked-HasCaughtUp delivering config delivering-live delivering-woken delivering-quiet
      delivering-Accepts running two-IsValid

notified-HasCaughtUp_example :
    HasCaughtUp delivering config config.max_batch_size running
      (run_once delivering config notified running)
notified-HasCaughtUp_example =
    notified-HasCaughtUp delivering config delivering-live delivering-woken delivering-quiet
      delivering-Accepts running two-IsValid max_batch_size-positive
