-- ===== src/Queue/Slots.antt =====
-- Indices modulo the capacity, and what the loops of queue.go do to single slots.
use native.Mathlib.Nat.{mod-eq_of_lt, mod-eq-sub-mod, mod-add-mod}
use native.Mathlib.Decide.{dec_lt}
use formation_web_analytics.Base.{
  ℕ, zero, suc, ◌+◌, ◌-◌, ◌%◌, ◌≤◌, ◌<◌, ◌≡◌, ◌≢◌, refl, ◌∙◌, ap, ap₂, ◌⊎◌, inl, inr, List, ◌∷◌,
  length, get_or, tabulate, tabulate_ext, get_or-set_self, get_or-set_ne, length-set, arith,
}
use formation_web_analytics.Queue.{Queue, copy_loop, drain_loop}

-- An index below twice the capacity wraps at most once.
wrap-cases : (a c : ℕ) → a < c + c → (a % c ≡ a) × (a < c) ⊎ (a % c ≡ a - c) × (c ≤ a)
wrap-cases a c h = elim (dec_lt a c) [
  | yes lt ↦ inl (mod-eq_of_lt lt, lt)
  | no ge ↦ inr (
    mod-eq-sub-mod {n = a} {m = c} (omega arith) ∙ mod-eq_of_lt {n = a - c} {m = c} (omega arith),
    omega arith,
  )
]

-- Two offsets below the capacity name two slots.
pub slot_ne : (h c i n : ℕ) → h < c → i < n → n < c → (h + i) % c ≢ (h + n) % c
slot_ne h c i n hh lt hn =
    omega (arith, wrap-cases (h + i) c (omega arith), wrap-cases (h + n) c (omega arith))

pub slot-add : (h c k i : ℕ) → ((h + k) % c + i) % c ≡ (h + (k + i)) % c
slot-add h c k i = rw mod-add-mod (ap (λ a. a % c) (omega arith))

-- One step back and `i + 1` steps on are `i` steps on.
pub slot-back : (h c i : ℕ) → 0 < c → ((h + c - 1) % c + suc i) % c ≡ (h + i) % c
slot-back h c i pos =
    mod-add-mod (h + c - 1) c (suc i)
    ∙ mod-eq-sub-mod {n = h + c - 1 + suc i} {m = c} (omega arith)
    ∙ ap (λ a. a % c) (omega arith)

module _ {ℓ} {A : Type ℓ} (d : A) where
  pub length-copy_loop :
      (q : Queue A) (n i : ℕ) (items : List A) → length (copy_loop q d n i items) ≡ length items
  unfolding copy_loop
  length-copy_loop q zero i items = refl
  length-copy_loop q (suc n) i items = length-copy_loop q n (i + 1) _ ∙ length-set items i _

  copy_loop_before :
      (q : Queue A) (n i j : ℕ) (items : List A)
      → j < i
      → get_or (copy_loop q d n i items) j d ≡ get_or items j d
  unfolding copy_loop
  copy_loop_before q zero i j items h = refl
  copy_loop_before q (suc n) i j items h =
      copy_loop_before q n (i + 1) j _ (omega arith) ∙ get_or-set_ne items _ d (omega arith)

  -- the loop of `grow` moves the item at offset `j` to index `j`
  pub get_or-copy_loop :
      (q : Queue A) (n i j : ℕ) (items : List A)
      → i + n ≤ length items
      → i ≤ j
      → j < i + n
      → get_or (copy_loop q d n i items) j d ≡ get_or q.items ((q.head + j) % q.capacity) d
  unfolding copy_loop
  get_or-copy_loop q zero i j items fits lo hi = absurd (omega arith)
  get_or-copy_loop q (suc n) i j items fits lo hi = elim (dec_lt i j) [
    | yes lt ↦
        get_or-copy_loop q n (i + 1) j _
          (omega (arith, length-set items i (get_or q.items ((q.head + i) % q.capacity) d)))
          (omega arith) (omega arith)
    | no ge ↦
        let e : j ≡ i = omega arith in
        rw e (
          copy_loop_before q n (i + 1) i _ (omega arith)
          ∙ get_or-set_self items i _ d (omega arith))
  ]

  pub length-drain_loop :
      (h c n i : ℕ) (items : List A) → length (drain_loop d h c n i items).1 ≡ length items
  unfolding drain_loop
  length-drain_loop h c zero i items = refl
  length-drain_loop h c (suc n) i items = length-drain_loop h c n (i + 1) _ ∙ length-set items _ d

  -- the slots behind the drained ones are left alone
  pub get_or-drain_loop :
      (h c n i j : ℕ) (items : List A)
      → h < c
      → i + n ≤ j
      → j < c
      → get_or (drain_loop d h c n i items).1 ((h + j) % c) d ≡ get_or items ((h + j) % c) d
  unfolding drain_loop
  get_or-drain_loop h c zero i j items hh lo hi = refl
  get_or-drain_loop h c (suc n) i j items hh lo hi =
      get_or-drain_loop h c n (i + 1) j _ hh (omega arith) hi
      ∙ get_or-set_ne items d d (slot_ne h c i j hh (omega arith) hi)

  -- what the loop of `Drain` reads, though it clears slots as it goes
  pub drain_loop-tabulate :
      (h c n i : ℕ) (items : List A)
      → h < c
      → i + n ≤ c
      → (drain_loop d h c n i items).0 ≡ tabulate n (λ k. get_or items ((h + (i + k)) % c) d)
  unfolding drain_loop
  drain_loop-tabulate h c zero i items hh hi = refl
  drain_loop-tabulate h c (suc n) i items hh hi =
      ap₂ ◌∷◌ (ap (λ k. get_or items ((h + k) % c) d) (omega arith)) (
        drain_loop-tabulate h c n (i + 1) _ hh (omega arith)
        ∙ tabulate_ext n _ _ λ k lt.
          get_or-set_ne items d d (slot_ne h c i (i + 1 + k) hh (omega arith) (omega arith))
          ∙ ap (λ m. get_or items ((h + m) % c) d) (omega arith))
