-- ===== src/Elastic/Examples.antt =====
-- The theorems on client.go with a server that refuses every bulk request, and a pause.
use formation_web_analytics.Base.{
  arith, ◌≡◌, none, codes, lookup, List, ℕ, ◌<◌, ◌+◌, ◌*◌, ◌/◌, ◌^◌, min, max, pos, ◌≤ℤ◌, [], ◌∷◌,
}
use formation_web_analytics.Elastic.{send}
use formation_web_analytics.Elastic.Sender.{Accounts}
use formation_web_analytics.Elastic.Answer.{send-Accounts}
use formation_web_analytics.Elastic.Backoff.{backoff, backoff_bounds}
use formation_web_analytics.Elastic.{Line, build_bulk_payload}
use formation_web_analytics.Elastic.Payload.{lines_of}
use formation_web_analytics.Elastic.Document.{event_document}
use formation_web_analytics.Elastic.Document.Lookup.{all_entries, or_before, lookup-event_document}
use formation_web_analytics.Event.{Event}
use formation_web_analytics.Samples.{accepting, config, platform, view_event, refusing}

send-Accounts_example :
    Accounts
      (view_event ∷ view_event ∷ [])
      (send platform config.data_stream refusing (view_event ∷ view_event ∷ []) 0)
send-Accounts_example =
    send-Accounts platform config.data_stream refusing (view_event ∷ view_event ∷ []) 0

least-below : (limit : ℕ) → 0 < limit → 0 < limit
least-below limit above = above

within-int64 : max (max 1 10) 100 + max (max 1 10) 100 / 4 < 2 ^ 63
within-int64 = omega arith

backoff_bounds_example :
    (pos (min (max 1 10 * 2 ^ 3) (max (max 1 10) 100)) ≤ℤ backoff (λ limit. 0) 10 100 3)
    × (backoff (λ limit. 0) 10 100 3
        ≤ℤ pos (
            min (max 1 10 * 2 ^ 3) (max (max 1 10) 100)
            + min (max 1 10 * 2 ^ 3) (max (max 1 10) 100) / 4))
backoff_bounds_example = backoff_bounds (λ limit. 0) 10 100 3 least-below within-int64

abbrev batch : List Event
batch = view_event ∷ []

-- the lines of the sample batch at state 0
abbrev lines : List Line
lines =
    lines_of platform config.data_stream
      (build_bulk_payload platform config.data_stream accepting batch 0).1

lookup-event_document_example :
    lookup (codes "site_id") (event_document platform view_event)
    ≡ or_before (lookup (codes "site_id") (all_entries platform view_event)) none
lookup-event_document_example = lookup-event_document platform view_event (codes "site_id")
