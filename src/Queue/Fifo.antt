-- ===== src/Queue/Fifo.antt =====
-- What internal/queue promises its clients: a list of pending items with a nominal capacity. Items
-- leave from the front; `prepend` puts a batch back in front and may raise the capacity.
use formation_web_analytics.Base.{
  ℕ, ◌+◌, ◌-◌, max, Bool, true, false, List, [], ◌∷◌, ◌++◌, length, take, drop, ltb, leb, ◌||◌,
  if◌then◌else◌,
}

pub record Fifo {ℓ} (A : Type ℓ) : Type ℓ where
  pub pending : List A
  pub capacity : ℕ

module _ {ℓ} {A : Type ℓ} where
  -- all of the batch or nothing
  unfoldable pub enqueue : Fifo A → List A → Bool × Fifo A
  enqueue f batch =
      if ltb f.capacity (length f.pending + length batch)
      then (false, f)
      else (true, record f { pending = f.pending ++ batch })

  -- as much of the batch as fits, and the number of items that did not
  unfoldable pub drop_newest : Fifo A → List A → ℕ × Fifo A
  drop_newest f batch =
      let room = f.capacity - length f.pending in
      (length batch - room, record f { pending = f.pending ++ take room batch })

  unfoldable pub prepend : Fifo A → List A → Fifo A
  prepend f batch = record {
    pending = batch ++ f.pending;
    capacity = max f.capacity (length f.pending + length batch);
  }

  -- at most `max_items` from the front; 0 asks for all
  unfoldable pub front : Fifo A → ℕ → ℕ
  front f max_items =
      let n = length f.pending in if leb max_items 0 || ltb n max_items then n else max_items

  unfoldable pub drain : Fifo A → ℕ → List A × Fifo A
  drain f max_items = (
    take (front f max_items) f.pending,
    record f { pending = drop (front f max_items) f.pending },
  )

-- The calls of a client, and what each returns to it.
pub data Op {ℓ} (A : Type ℓ) : Type ℓ where
  enqueue_all : List A → Op A
  enqueue_some : List A → Op A
  put_back : List A → Op A
  take_out : ℕ → Op A
  count : Op A

pub data Reply {ℓ} (A : Type ℓ) : Type ℓ where
  admitted : Bool → Reply A
  dropped : ℕ → Reply A
  done : Reply A
  got : List A → Reply A
  held : ℕ → Reply A

module _ {ℓ} {A : Type ℓ} where
  unfoldable pub run : Fifo A → List (Op A) → List (Reply A)
  run f [] = []
  run f (enqueue_all b ∷ ops) = let (r, f') = enqueue f b in admitted r ∷ run f' ops
  run f (enqueue_some b ∷ ops) = let (r, f') = drop_newest f b in dropped r ∷ run f' ops
  run f (put_back b ∷ ops) = done ∷ run (prepend f b) ops
  run f (take_out n ∷ ops) = let (r, f') = drain f n in got r ∷ run f' ops
  run f (count ∷ ops) = held (length f.pending) ∷ run f ops
