-- ===== src/Queue/Trace.antt =====
-- Sequences of calls of queue.go, in the order in which the mutex lets them through.
use formation_web_analytics.Base.{
  ℕ, ◌≡◌, refl, sym, ◌∙◌, ap, ap₂, List, [], ◌∷◌, length-replicate, length-tabulate, arith,
}
use formation_web_analytics.Queue.{Queue, enqueue, drop_newest, prepend, drain, len, new}
use formation_web_analytics.Queue.Fifo
use formation_web_analytics.Queue.Fifo.{Fifo, Op, enqueue_all, enqueue_some, put_back, take_out}
use formation_web_analytics.Queue.Fifo.{count, Reply, admitted, dropped, done, got, held}
use formation_web_analytics.Queue.View.{IsValid, view}
use formation_web_analytics.Queue.Refine.{enqueue_refines, drop_newest_refines, prepend_refines}
use formation_web_analytics.Queue.Drain.{drain_refines}

module _ {ℓ} {A : Type ℓ} (d : A) where
  unfoldable pub run : Queue A → List (Op A) → List (Reply A)
  run q [] = []
  run q (enqueue_all b ∷ ops) = let (r, q') = enqueue q b in admitted r ∷ run q' ops
  run q (enqueue_some b ∷ ops) = let (r, q') = drop_newest q b in dropped r ∷ run q' ops
  run q (put_back b ∷ ops) = done ∷ run (prepend d q b) ops
  run q (take_out n ∷ ops) = let (r, q') = drain d q n in got r ∷ run q' ops
  run q (count ∷ ops) = held (len q) ∷ run q ops

  -- what a reply and the list behind it make of the rest of a run
  abbrev then_run {κ} : {R : Type κ} → (R → Reply A) → List (Op A) → R × Fifo A → List (Reply A)
  then_run reply ops (r, f) = reply r ∷ Fifo.run f ops

  -- No sequence of calls tells a valid ring from the list that it holds.
  pub run_refines :
      (q : Queue A) (ops : List (Op A)) → IsValid q → run q ops ≡ Fifo.run (view d q) ops
  unfolding run Fifo.run len
  run_refines q [] v = refl
  run_refines q (enqueue_all b ∷ ops) v =
      let (v', e) = enqueue_refines d q b v in
      ap (λ rs. admitted (enqueue q b).0 ∷ rs) (run_refines (enqueue q b).1 ops v')
      ∙ ap (then_run admitted ops) e
  run_refines q (enqueue_some b ∷ ops) v =
      let (v', e) = drop_newest_refines d q b v in
      ap (λ rs. dropped (drop_newest q b).0 ∷ rs) (run_refines (drop_newest q b).1 ops v')
      ∙ ap (then_run dropped ops) e
  run_refines q (put_back b ∷ ops) v =
      let (v', e) = prepend_refines d q b v in
      ap (λ rs. done ∷ rs) (run_refines (prepend d q b) ops v' ∙ ap (λ f. Fifo.run f ops) e)
  run_refines q (take_out n ∷ ops) v =
      let (v', e) = drain_refines d q n v in
      ap (λ rs. got (drain d q n).0 ∷ rs) (run_refines (drain d q n).1 ops v')
      ∙ ap (then_run got ops) e
  run_refines q (count ∷ ops) v =
      ap₂ (λ n rs. held n ∷ rs) (sym (length-tabulate q.size _)) (run_refines q ops v)

  -- A new queue is valid and empty, also at capacity 0.
  pub new-IsValid : (capacity : ℕ) → IsValid (new d capacity)
  unfolding new
  new-IsValid capacity = omega (arith, length-replicate capacity d)

  -- From `New`, every sequence of calls of `Enqueue`, `DropNewest`, `Prepend`, `Drain` and `Len` is
  -- answered as by an empty list of that capacity.
  pub new-run_refines :
      (capacity : ℕ) (ops : List (Op A))
      → run (new d capacity) ops ≡ Fifo.run (record { pending = []; capacity = capacity }) ops
  unfolding new
  new-run_refines capacity ops = run_refines (new d capacity) ops (new-IsValid capacity)
