-- ===== src/Elastic/Sender.antt =====
-- The interface `elastic.BulkSender` between the batcher and the client.
use formation_web_analytics.Base.{ℕ, ◌+◌, ◌≡◌, ◌⊎◌, Bool, true, false, List, [], length}
use formation_web_analytics.Event.{Event}

pub record BulkResult : Type 0 where
  pub indexed : ℕ
  pub failed : ℕ
  pub retry : List Event

-- `BulkResult{}` and `BulkResult{Retry: batch}`
abbrev pub nothing : BulkResult
nothing = record { indexed = 0; failed = 0; retry = [] }

abbrev pub all_again : List Event → BulkResult
all_again batch = record { indexed = 0; failed = 0; retry = batch }

-- What `Send` leaves: the events of the batch, numbered in place, the result, whether there is an
-- error, and the world.
pub record Sent (W : Type 0) : Type 0 where
  pub batch : List Event
  pub result : BulkResult
  pub is_error : Bool
  pub world : W

-- With no error every event is indexed, failed or to be sent again. With an error nothing was
-- counted, and the whole batch or none of it is to be sent again.
pub record Accounts {W : Type 0} (given : List Event) (s : Sent W) : Type 0 where
  pub same_length : length s.batch ≡ length given
  pub settled :
      s.is_error ≡ false → s.result.indexed + s.result.failed + length s.result.retry ≡ length given
  pub refused :
      s.is_error ≡ true
      → (s.result.indexed ≡ 0)
        × (s.result.failed ≡ 0)
        × ((s.result.retry ≡ []) ⊎ (s.result.retry ≡ s.batch))

pub record BulkSender (W : Type 0) : Type 0 where
  pub send : List Event → W → Sent W
  pub accounts : (batch : List Event) (w : W) → Accounts batch (send batch w)
