-- ===== src/Batcher/Examples.antt =====
-- The theorems on batcher.go with a client whose server refuses every request.
use formation_web_analytics.Base.{
  ℕ, ◌<◌, take, length, arith, ◌≡◌, refl, true, false, List, [], ◌∷◌,
}
use formation_web_analytics.Event.{Event, zero_event}
use formation_web_analytics.Queue
use formation_web_analytics.Queue.{Queue}
use formation_web_analytics.Queue.Fifo.{front}
use formation_web_analytics.Queue.View.{IsValid, contents, view}
use formation_web_analytics.Metrics.{new_registry}
use formation_web_analytics.Batcher.{flush, flush_while, send_with_retry}
use formation_web_analytics.Batcher.Retries.{Conserved, send_with_retry-Conserved}
use formation_web_analytics.Batcher.Flush.{Accounted, flush-Accounted}
use formation_web_analytics.Batcher.Rounds.{HasEnded, flush_while-HasEnded}
use formation_web_analytics.Samples.{config, environment, view_event}

abbrev batch : List Event
batch = view_event ∷ view_event ∷ []

send_with_retry-Conserved_example :
    Conserved 2 new_registry
      (send_with_retry environment config batch new_registry 0).error
      (send_with_retry environment config batch new_registry 0).pending
      (send_with_retry environment config batch new_registry 0).metrics
send_with_retry-Conserved_example =
    send_with_retry-Conserved environment config batch new_registry 0

-- two events, round the end of three slots
abbrev pub two : Queue Event
two = record {
  items = view_event ∷ view_event ∷ view_event ∷ [];
  head = 2;
  size = 2;
  capacity = 3;
  notify_ch = 1;
}

pub two-IsValid : IsValid two
two-IsValid = omega arith

two-not_empty : 0 < length (contents zero_event two)
two-not_empty = omega arith

sticky :
    (w : ℕ)
    → (environment.cancelled w).0 ≡ true
    → (environment.cancelled (environment.cancelled w).1).0 ≡ true
sticky w h = h

woken :
    (delay w : ℕ)
    → (environment.wait delay w).0 ≡ false
    → (environment.cancelled (environment.wait delay w).1).0 ≡ true
woken delay w h = absurd (cc)

keeps : (w : ℕ) (p : Queue Event) → IsValid p → IsValid (environment.meanwhile w p)
keeps w p v = v

flush-Accounted_example :
    ((Queue.drain zero_event two 2).0
      ≡ take (front (view zero_event two) 2) (contents zero_event two))
    × IsValid (flush environment config two new_registry 0).1
    × Accounted
        (length (Queue.drain zero_event two 2).0)
        (environment.meanwhile 0 (Queue.drain zero_event two 2).1)
        new_registry
        (flush environment config two new_registry 0).0
        (flush environment config two new_registry 0).1
        (flush environment config two new_registry 0).2
flush-Accounted_example =
    flush-Accounted environment config sticky woken two new_registry 0 two-IsValid two-not_empty
      keeps

quiet : (w : ℕ) (q : Queue Event) → environment.meanwhile w q ≡ q
quiet w q = refl

enough : length (contents zero_event two) < 3
enough = omega arith

pub one-positive : 0 < 1
one-positive = omega arith

flush_while-HasEnded_example :
    HasEnded 1 two new_registry
      (flush_while environment config 3 1 two new_registry 0).0
      (flush_while environment config 3 1 two new_registry 0).1
      (flush_while environment config 3 1 two new_registry 0).2
flush_while-HasEnded_example =
    flush_while-HasEnded environment config sticky woken quiet 3 1 two new_registry 0 two-IsValid
      one-positive enough
