-- ===== src/Queue/View.antt =====
-- The invariant of queue.go, the list that a queue holds, and what one round of each loop does to it.
use Prim.Native.Nat.add
use native.Mathlib.Nat.{mod-eq_of_lt, mod-lt, add-zero}
use formation_web_analytics.Base.{
  ℕ, suc, ◌+◌, ◌-◌, ◌%◌, ◌≤◌, ◌<◌, max, ◌≡◌, refl, sym, ◌∙◌, ap, ap₂, List, [], ◌∷◌, ◌++◌, length,
  get_or, set, replicate, tabulate, tabulate_ext, tabulate-suc, tabulate_congr, get_or-set_self,
  get_or-set_ne, length-set, length-replicate, arith,
}
use formation_web_analytics.Queue.{Queue, notify, grow, copy_loop, put_front}
use formation_web_analytics.Queue.Fifo.{Fifo}
use formation_web_analytics.Queue.Slots.{slot_ne, slot-back, length-copy_loop}
use formation_web_analytics.Queue.Slots.{get_or-copy_loop}

-- The representation invariant. A queue of capacity 0 keeps `head` at 0.
pub record IsValid {ℓ} {A : Type ℓ} (q : Queue A) : Type 0 where
  pub storage : length q.items ≡ q.capacity
  pub room : q.size ≤ q.capacity
  pub head_in : q.head < max 1 q.capacity
  pub token : q.notify_ch ≤ 1

module _ {ℓ} {A : Type ℓ} (d : A) where
  -- the items in the order in which they leave
  abbrev pub contents : Queue A → List A
  contents q = tabulate q.size (λ i. get_or q.items ((q.head + i) % q.capacity) d)

  abbrev pub view : Queue A → Fifo A
  view q = record { pending = contents q; capacity = q.capacity }

  pub notify-IsValid : {q : Queue A} → IsValid q → IsValid (notify q)
  unfolding notify
  notify-IsValid v = ground arith

  pub view-notify : (q : Queue A) → view (notify q) ≡ view q
  unfolding notify
  view-notify q = ground arith

  -- what one round of `append` does
  abbrev pub put_back : A → Queue A → Queue A
  put_back x q = record q {
    items = set q.items ((q.head + q.size) % q.capacity) x;
    size = q.size + 1;
  }

  pub put_back-IsValid :
      {q : Queue A} (x : A) → IsValid q → q.size < q.capacity → IsValid (put_back x q)
  put_back-IsValid {q} x v lt =
      ground (arith, length-set q.items ((q.head + q.size) % q.capacity) x)

  pub contents-put_back :
      {q : Queue A} (x : A)
      → IsValid q
      → q.size < q.capacity
      → contents (put_back x q) ≡ contents q ++ x ∷ []
  contents-put_back {q} x v lt =
      tabulate_congr {n = size + 1} {m = suc size} _ slots (omega arith) (λ i h. refl)
      ∙ tabulate-suc size slots
      ∙ ap₂ (λ xs y. xs ++ y ∷ [])
          (tabulate_ext size _ _ λ i h.
            get_or-set_ne items x d (λ e. slot_ne head capacity i size (omega arith) h lt (sym e)))
          (get_or-set_self items _ x d
            (omega (arith, mod-lt (head + size) {m = capacity} (omega arith))))
    where
      open q use {items, head, size, capacity}

      slots : ℕ → A
      slots i = get_or (set items ((head + size) % capacity) x) ((head + i) % capacity) d

  pub put_front-IsValid :
      {q : Queue A} (x : A) → IsValid q → q.size < q.capacity → IsValid (put_front x q)
  unfolding put_front
  put_front-IsValid {q} x v lt = ground (
    arith,
    length-set q.items ((q.head + q.capacity - 1) % q.capacity) x,
    mod-lt (q.head + q.capacity - 1) {m = q.capacity} (omega arith),
  )

  pub contents-put_front :
      {q : Queue A} (x : A)
      → IsValid q
      → q.size < q.capacity
      → contents (put_front x q) ≡ x ∷ contents q
  unfolding put_front
  contents-put_front {q} x v lt =
      tabulate_congr {n = size + 1} {m = suc size} _ slots (omega arith) (λ i h. refl)
      ∙ ap₂ ◌∷◌ first (
          tabulate_ext size _ _ λ i h.
            get_or-set_ne items x d (λ e.
              slot_ne before capacity 0 (suc i) inside (omega arith) (omega arith) (origin ∙ e))
            ∙ ap (λ k. get_or items k d) (slot-back head capacity i (omega arith)))
    where
      open q use {items, head, size, capacity}

      before : ℕ
      before = (head + capacity - 1) % capacity

      inside : before < capacity
      inside = mod-lt (head + capacity - 1) (omega arith)

      origin : (before + 0) % capacity ≡ before
      origin = rw add-zero (mod-eq_of_lt inside)

      slots : ℕ → A
      slots i = get_or (set items before x) ((before + i) % capacity) d

      first : slots 0 ≡ x
      first =
          ap (λ k. get_or (set items before x) k d) origin
          ∙ get_or-set_self items before x d (omega arith)

  pub grow-IsValid :
      {q : Queue A} (capacity : ℕ) → IsValid q → q.size ≤ capacity → IsValid (grow d q capacity)
  unfolding grow
  grow-IsValid {q} capacity v h =
      omega
        (arith, length-copy_loop d q q.size 0 (replicate capacity d), length-replicate capacity d)

  pub contents-grow :
      (q : Queue A) (capacity : ℕ) → q.size ≤ capacity → contents (grow d q capacity) ≡ contents q
  unfolding grow
  contents-grow q capacity h = tabulate_ext q.size _ _ λ i lt.
      ap (λ k. get_or (copy_loop q d q.size 0 (replicate capacity d)) k d)
        (mod-eq_of_lt {n = 0 + i} {m = capacity} (omega arith) ∙ add.zero i)
      ∙ get_or-copy_loop d q q.size 0 i (replicate capacity d)
          (omega (arith, length-replicate capacity d)) (omega arith) (omega arith)
