-- ===== src/Queue.antt =====
-- internal/queue/queue.go: the bounded in-memory queue, a ring over a slice.
-- Each method runs whole under the queue's mutex, so a method is a function from the state before it
-- to the state after it, beside its result. Its element is any type; `zero_item` is Go's zero value,
-- which `make` fills a slice with. `int` arithmetic here is on lengths of slices that are in memory
-- at once, far below 2^63, and is written on natural numbers. `notify_ch` is the number of tokens in
-- the channel, whose buffer holds one.
pub mod Fifo
mod Slots
pub mod View
pub mod Refine
pub mod Drain
pub mod Trace
mod Examples
use formation_web_analytics.Base.{
  ℕ, zero, suc, ◌+◌, ◌-◌, ◌%◌, Bool, true, false, List, [], ◌∷◌, length, take, get_or, set,
  replicate, ltb, leb, ◌==◌, ◌||◌, if◌then◌else◌,
}

pub record Queue {ℓ} (A : Type ℓ) : Type ℓ where
  pub items : List A
  pub head : ℕ
  pub size : ℕ
  pub capacity : ℕ
  pub notify_ch : ℕ

module _ {ℓ} {A : Type ℓ} where
  -- a send in a `select` with a `default`: dropped if the buffer of one is full
  pub notify : Queue A → Queue A
  notify q = if ltb q.notify_ch 1 then record q { notify_ch = q.notify_ch + 1 } else q

  -- `append`: one write behind the last item for each item of the batch
  pub append : Queue A → List A → Queue A
  append q [] = q
  append q (x ∷ batch) =
      append
        (record q { items = set q.items ((q.head + q.size) % q.capacity) x; size = q.size + 1 })
        batch

  pub enqueue : Queue A → List A → Bool × Queue A
  unfolding append notify
  enqueue q batch =
      if ltb q.capacity (q.size + length batch) then (false, q) else (true, notify (append q batch))

  -- `available <= 0` is tested on the integers, where `capacity - size` may be negative
  unfoldable pub drop_newest : Queue A → List A → ℕ × Queue A
  unfolding append notify
  drop_newest q batch =
      let available = q.capacity - q.size in
      if leb q.capacity q.size
      then (length batch, q)
      else if leb (length batch) available
      then (0, notify (append q batch))
      else (length batch - available, notify (append q (take available batch)))

  -- `for i := range q.size { items[i] = q.items[(q.head+i)%q.capacity] }`, with `n` rounds left
  pub copy_loop : Queue A → A → ℕ → ℕ → List A → List A
  copy_loop q zero_item zero i items = items
  copy_loop q zero_item (suc n) i items =
      copy_loop q zero_item n (i + 1)
        (set items i (get_or q.items ((q.head + i) % q.capacity) zero_item))

  pub grow : A → Queue A → ℕ → Queue A
  unfolding copy_loop
  grow zero_item q capacity = record q {
    items = copy_loop q zero_item q.size 0 (replicate capacity zero_item);
    head = 0;
    capacity = capacity;
  }

  -- one round of the loop of `Prepend`; `head - 1 + capacity` is not negative where `capacity > 0`
  pub put_front : A → Queue A → Queue A
  put_front x q =
      let head = (q.head + q.capacity - 1) % q.capacity in
      record q { items = set q.items head x; head = head; size = q.size + 1 }

  -- `for i := len(batch) - 1; i >= 0; i--`: the last item goes first
  pub put_all_front : List A → Queue A → Queue A
  unfolding put_front
  put_all_front [] q = q
  put_all_front (x ∷ batch) q = put_front x (put_all_front batch q)

  pub prepend : A → Queue A → List A → Queue A
  unfolding grow put_all_front notify
  prepend zero_item q batch = notify (
      put_all_front batch (
        if ltb q.capacity (q.size + length batch)
        then grow zero_item q (q.size + length batch)
        else q))

  -- the loop of `Drain`, with `n` rounds left: what it reads, and the cleared slots
  pub drain_loop : A → ℕ → ℕ → ℕ → ℕ → List A → List A × List A
  drain_loop zero_item head capacity zero i items = ([], items)
  drain_loop zero_item head capacity (suc n) i items =
      let index = (head + i) % capacity in
      let (drained, items') =
        drain_loop zero_item head capacity n (i + 1) (set items index zero_item) in
      (get_or items index zero_item ∷ drained, items')

  -- `max <= 0 || max > q.size` drains all
  pub drain_count : Queue A → ℕ → ℕ
  drain_count q max = if leb max 0 || ltb q.size max then q.size else max

  pub drain : A → Queue A → ℕ → List A × Queue A
  unfolding drain_loop drain_count
  drain zero_item q max =
      if q.size == 0
      then ([], q)
      else let count = drain_count q max in
        let (drained, items) = drain_loop zero_item q.head q.capacity count 0 q.items in
        let size = q.size - count in
        (
          drained,
          record q {
            items = items;
            head = if size == 0 then 0 else (q.head + count) % q.capacity;
            size = size;
          },
        )

  unfoldable pub len : Queue A → ℕ
  len q = q.size

unfoldable pub new {ℓ} : {A : Type ℓ} → A → ℕ → Queue A
new zero_item capacity = record {
  items = replicate capacity zero_item;
  head = 0;
  size = 0;
  capacity = capacity;
  notify_ch = 0;
}
