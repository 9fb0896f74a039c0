-- ===== src/Queue/Drain.antt =====
-- `Drain` against the list: it takes from the front and clears what it takes.
use native.Mathlib.Nat.{mod-lt}
use formation_web_analytics.Base.{
  ℕ, ◌+◌, ◌-◌, ◌%◌, ◌≤◌, ◌<◌, ◌≡◌, sym, ◌∙◌, ap, ap₂, [], get_or, take, drop, tabulate,
  tabulate_ext, take-nil, drop-nil, take-tabulate, drop-tabulate, length-tabulate, arith, inl, inr,
  Bool-cases, ◌==◌, if◌then◌else◌, ==_iff,
}
use formation_web_analytics.Queue.{Queue, drain_loop, drain_count, drain}
use formation_web_analytics.Queue.Fifo
use formation_web_analytics.Queue.Fifo.{Fifo}
use formation_web_analytics.Queue.Slots.{slot-add, length-drain_loop, drain_loop-tabulate}
use formation_web_analytics.Queue.Slots.{get_or-drain_loop}
use formation_web_analytics.Queue.View.{IsValid, contents, view}

drain_count-le {ℓ} : {A : Type ℓ} (q : Queue A) (m : ℕ) → drain_count q m ≤ q.size
unfolding drain_count
drain_count-le q m = ground arith

module _ {ℓ} {A : Type ℓ} (d : A) (q : Queue A) (v : IsValid q) (some_held : 0 < q.size) (n : ℕ)
    (le : n ≤ q.size) where
  open q use {items, head, size, capacity}

  -- the state of a queue that is not empty after `n` of its items are drained
  abbrev drained : Queue A
  drained = record q {
    items = (drain_loop d head capacity n 0 items).1;
    head = if size - n == 0 then 0 else (head + n) % capacity;
    size = size - n;
  }

  drained-IsValid : IsValid drained
  drained-IsValid = ground (
    arith,
    length-drain_loop d head capacity n 0 items,
    mod-lt (head + n) {m = capacity} (omega arith),
  )

  read-take : (drain_loop d head capacity n 0 items).0 ≡ take n (contents d q)
  read-take =
      drain_loop-tabulate d head capacity n 0 items (omega arith) (omega arith)
      ∙ tabulate_ext n _ _ (λ k lt. ap (λ i. get_or items ((head + i) % capacity) d) (omega arith))
      ∙ sym (take-tabulate n size _ le)

  new_head : (i : ℕ) → i < size - n → drained.head ≡ (head + n) % capacity
  new_head i lt = ground arith

  contents-drained : contents d drained ≡ drop n (contents d q)
  contents-drained =
      tabulate_ext (size - n) _ _ (λ i lt.
        ap (λ k. get_or (drain_loop d head capacity n 0 items).1 k d)
          (ap (λ h. (h + i) % capacity) (new_head i lt) ∙ slot-add head capacity n i)
        ∙ get_or-drain_loop d head capacity n 0 (n + i) items (omega arith) (omega arith)
            (omega arith))
      ∙ sym (drop-tabulate n size _ le)

module _ {ℓ} {A : Type ℓ} (d : A) where
  nothing_held : (q : Queue A) → q.size ≡ 0 → contents d q ≡ []
  nothing_held q e = ap (λ n. tabulate n (λ i. get_or q.items ((q.head + i) % q.capacity) d)) e

  front-view : (q : Queue A) (m : ℕ) → Fifo.front (view d q) m ≡ drain_count q m
  unfolding Fifo.front drain_count
  front-view q m = rw length-tabulate

  -- On a valid queue, `Drain` returns the front of the list, at most `max_items` of it, and all of
  -- it for 0; the rest stays, in order, the capacity is kept, and the queue stays valid.
  pub drain_refines :
      (q : Queue A) (max_items : ℕ)
      → IsValid q
      → IsValid (drain d q max_items).1
        × (((drain d q max_items).0, view d (drain d q max_items).1)
            ≡ Fifo.drain (view d q) max_items)
  unfolding drain Fifo.drain
  drain_refines q max_items v = elim (Bool-cases (q.size == 0)) [
    | inl empty ↦
        let e = nothing_held q ((==_iff q.size 0).0 empty) in
        let n = Fifo.front (view d q) max_items in
        rw empty (
          v,
          ap₂ (λ xs ys. (xs, record { pending = ys; capacity = q.capacity }))
              (sym (ap (take n) e ∙ take-nil n)) (e ∙ sym (ap (drop n) e ∙ drop-nil n)),
        )
    | inr held ↦
        let n = drain_count q max_items in
        let le = drain_count-le q max_items in
        let pos : 0 < q.size = ground arith in
        rw (held, front-view)
          (
            drained-IsValid d q v pos n le,
            ap₂ (λ xs ys. (xs, record { pending = ys; capacity = q.capacity }))
                (read-take d q v pos n le) (contents-drained d q v pos n le),
          )
  ]
