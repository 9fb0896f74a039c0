-- ===== src/Queue/Examples.antt =====
-- Runs of queue.go on small queues, and its theorems at concrete inputs.
use formation_web_analytics.Base.{ℕ, ◌≡◌, refl, false, List, [], ◌∷◌, arith}
use formation_web_analytics.Queue.{Queue, enqueue, drop_newest, prepend, drain, len, new}
use formation_web_analytics.Queue.Fifo
use formation_web_analytics.Queue.Fifo.{Op, enqueue_all, enqueue_some, put_back, take_out, count}
use formation_web_analytics.Queue.Fifo.{Reply, admitted, dropped, done, got, held}
use formation_web_analytics.Queue.View.{IsValid}
use formation_web_analytics.Queue.Trace.{run, new-run_refines}

-- 7 and 8, round the end of three slots
abbrev wrapped : Queue ℕ
wrapped = record { items = 8 ∷ 0 ∷ 7 ∷ []; head = 2; size = 2; capacity = 3; notify_ch = 0 }

wrapped-IsValid : IsValid wrapped
wrapped-IsValid = omega arith

abbrev calls : List (Op ℕ)
calls =
    enqueue_all (9 ∷ 10 ∷ [])
    ∷ enqueue_some (9 ∷ 10 ∷ [])
    ∷ take_out 2
    ∷ put_back (7 ∷ 8 ∷ 6 ∷ [])
    ∷ count
    ∷ take_out 0
    ∷ take_out 1
    ∷ []

run-wrapped :
    run 0 wrapped calls
    ≡ admitted false
      ∷ dropped 1
      ∷ got (7 ∷ 8 ∷ [])
      ∷ done
      ∷ held 4
      ∷ got (7 ∷ 8 ∷ 6 ∷ 9 ∷ [])
      ∷ got []
      ∷ []
unfolding run enqueue drop_newest prepend drain len
run-wrapped = refl

new-run_refines_example :
    run 0 (new 0 3) calls ≡ Fifo.run (record { pending = []; capacity = 3 }) calls
new-run_refines_example = new-run_refines 0 3 calls
