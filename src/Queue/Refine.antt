-- ===== src/Queue/Refine.antt =====
-- The methods of queue.go keep the invariant and act on the list that the queue holds as
-- `Queue.Fifo` says.
use formation_web_analytics.Base.{
  ◌+◌, ◌-◌, ◌≤◌, ◌≡◌, refl, sym, ◌∙◌, ap, ap₂, true, List, [], ◌∷◌, ◌++◌, append-nil, append_assoc,
  length, take, length-tabulate, length-take, take-all, arith, inl, inr, Bool-cases, ltb, leb,
  leb→le, ltb→lt, ltb→le,
}
use formation_web_analytics.Queue.{
  Queue, notify, append, enqueue, drop_newest, grow, put_front, put_all_front, prepend,
}
use formation_web_analytics.Queue.Fifo
use formation_web_analytics.Queue.Fifo.{Fifo}
use formation_web_analytics.Queue.View.{
  IsValid, contents, view, notify-IsValid, view-notify, put_back, put_back-IsValid,
  contents-put_back, put_front-IsValid, contents-put_front, grow-IsValid, contents-grow,
}

-- A batch that fits has been put behind the items of `q`.
record Extended {ℓ} {A : Type ℓ} (d : A) (q q' : Queue A) (batch : List A) : Type ℓ where
  valid : IsValid q'
  held : contents d q' ≡ contents d q ++ batch
  same_capacity : q'.capacity ≡ q.capacity

-- A batch has been put before the items of `q`.
record Restored {ℓ} {A : Type ℓ} (d : A) (q q' : Queue A) (batch : List A) : Type ℓ where
  valid : IsValid q'
  held : contents d q' ≡ batch ++ contents d q
  same_capacity : q'.capacity ≡ q.capacity
  grown : q'.size ≡ q.size + length batch

module _ {ℓ} {A : Type ℓ} (d : A) where
  append-Extended :
      (q : Queue A) (batch : List A)
      → IsValid q
      → q.size + length batch ≤ q.capacity
      → Extended d q (append q batch) batch
  unfolding append
  append-Extended q [] v fits = record {
    valid = v;
    held = sym (append-nil _);
    same_capacity = refl;
  }
  append-Extended q (x ∷ batch) v fits =
      let rest =
        append-Extended (put_back d x q) batch (put_back-IsValid d x v (omega arith))
          (omega arith) in
      record {
        valid = rest.valid;
        held =
            rest.held
            ∙ ap (λ xs. xs ++ batch) (contents-put_back d x v (omega arith))
            ∙ append_assoc (contents d q) (x ∷ []) batch;
        same_capacity = rest.same_capacity;
      }

  notified-Extended :
      {q q' : Queue A} {batch : List A} → Extended d q q' batch → Extended d q (notify q') batch
  notified-Extended {q} {q'} e = record {
    valid = notify-IsValid d e.valid;
    held = ap (λ f. f.pending) (view-notify d q') ∙ e.held;
    same_capacity = ap (λ f. f.capacity) (view-notify d q') ∙ e.same_capacity;
  }

  put_all_front-Restored :
      (q : Queue A) (batch : List A)
      → IsValid q
      → q.size + length batch ≤ q.capacity
      → Restored d q (put_all_front batch q) batch
  unfolding put_all_front
  put_all_front-Restored q [] v fits = record {
    valid = v;
    held = refl;
    same_capacity = refl;
    grown = omega arith;
  }
  put_all_front-Restored q (x ∷ batch) v fits =
      let rest = put_all_front-Restored q batch v (omega arith) in
      record {
        valid = put_front-IsValid d x rest.valid (omega (arith, rest.grown, rest.same_capacity));
        held =
            contents-put_front d x rest.valid (omega (arith, rest.grown, rest.same_capacity))
            ∙ ap (λ xs. x ∷ xs) rest.held;
        same_capacity = unfold put_front in rest.same_capacity;
        grown = unfold put_front in omega (arith, rest.grown);
      }

  view-Extended :
      {q q' : Queue A} {batch : List A}
      → Extended d q q' batch
      → view d q' ≡ record { pending = contents d q ++ batch; capacity = q.capacity }
  view-Extended e = λ i. record { pending = e.held i; capacity = e.same_capacity i }

  pub length-contents : (q : Queue A) → length (contents d q) ≡ q.size
  length-contents q = length-tabulate q.size _

  -- `Enqueue` on a valid queue leaves it valid, answers as the list does, and holds its list after.
  pub enqueue_refines :
      (q : Queue A) (batch : List A)
      → IsValid q
      → IsValid (enqueue q batch).1
        × (((enqueue q batch).0, view d (enqueue q batch).1) ≡ Fifo.enqueue (view d q) batch)
  unfolding enqueue Fifo.enqueue
  enqueue_refines q batch v = elim (Bool-cases (ltb q.capacity (q.size + length batch))) [
    | inl full ↦ rw (full, length-contents) (rw full (v, refl))
    | inr fits ↦
        let e = notified-Extended (append-Extended q batch v (ground arith)) in
        rw (fits, length-contents) (rw fits (e.valid, ap (λ f. (true, f)) (view-Extended e)))
  ]

  -- On a valid queue, `DropNewest` keeps the part of the batch that fits, in order, counts the
  -- rest, and leaves the queue valid.
  pub drop_newest_refines :
      (q : Queue A) (batch : List A)
      → IsValid q
      → IsValid (drop_newest q batch).1
        × (((drop_newest q batch).0, view d (drop_newest q batch).1)
            ≡ Fifo.drop_newest (view d q) batch)
  unfolding drop_newest Fifo.drop_newest
  drop_newest_refines q batch v = elim (Bool-cases (leb q.capacity q.size)) [
    | inl full ↦
        rw (full, length-contents)
          (
            v,
            let gone : capacity - size ≡ 0 = omega (arith, leb→le capacity size full) in
                ap₂ (λ n xs. (n, record { pending = xs; capacity = capacity }))
                  (omega (arith, gone))
                  (sym (append-nil _) ∙ ap (λ n. contents d q ++ take n batch) (sym gone)),
          )
    | inr open' ↦ elim (Bool-cases (leb (length batch) (q.capacity - q.size))) [
      | inl fits ↦
          let e = notified-Extended (append-Extended q batch v (ground arith)) in
          rw (open', fits, length-contents)
            (
              e.valid,
              let few = leb→le (length batch) (capacity - size) fits in
                  ap₂ (λ n f. (n, f)) (omega (arith, few))
                    (view-Extended e
                      ∙ ap (λ xs. record { pending = contents d q ++ xs; capacity = capacity })
                          (sym (take-all (capacity - size) batch few))),
            )
      | inr over ↦
          let part = take (q.capacity - q.size) batch in
          let e =
            notified-Extended (
              append-Extended q part v (ground (arith, length-take (q.capacity - q.size) batch))) in
          rw (open', over, length-contents)
            (e.valid, ap (λ f. (length batch - (q.capacity - q.size), f)) (view-Extended e))
    ]
  ]
    where
      open q use {size, capacity}

  Restored-prepend :
      (q q' : Queue A) (batch : List A)
      → Restored d q q' batch
      → IsValid (notify q')
        × (view d (notify q') ≡ record { pending = batch ++ contents d q; capacity = q.capacity })
  Restored-prepend q q' batch r = (
    notify-IsValid d r.valid,
    view-notify d q' ∙ (λ i. record { pending = r.held i; capacity = r.same_capacity i }),
  )

  -- On a valid queue, `Prepend` puts the whole batch in front, in order, raises the capacity only
  -- to make room, and leaves the queue valid.
  pub prepend_refines :
      (q : Queue A) (batch : List A)
      → IsValid q
      → IsValid (prepend d q batch) × (view d (prepend d q batch) ≡ Fifo.prepend (view d q) batch)
  unfolding prepend Fifo.prepend
  prepend_refines q batch v = elim (Bool-cases (ltb capacity (size + length batch))) [
    | inl full ↦
        let big = grow d q (size + length batch) in
        let more = ltb→lt capacity (size + length batch) full in
        let (valid, shown) = Restored-prepend big (put_all_front batch big) batch (
          put_all_front-Restored big batch (grow-IsValid d (size + length batch) v (omega arith))
            (omega arith)) in
        rw (full, length-contents)
          (
            valid,
            shown
                ∙ ap₂ (λ xs c. record { pending = batch ++ xs; capacity = c })
                    (contents-grow d q _ (omega arith)) (omega arith),
          )
    | inr fits ↦
        let less = ltb→le capacity (size + length batch) fits in
        let (valid, shown) =
          Restored-prepend q (put_all_front batch q) batch
            (put_all_front-Restored q batch v (omega arith)) in
        rw (fits, length-contents)
          (
            valid,
            shown
                ∙ ap (λ c. record { pending = batch ++ contents d q; capacity = c }) (omega arith),
          )
  ]
    where
      open q use {size, capacity}
