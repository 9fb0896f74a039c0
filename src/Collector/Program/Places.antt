-- ===== src/Collector/Program/Places.antt =====
-- Which phases and places of the program go together.
use formation_web_analytics.Base.{ℕ, ◌≡◌, true, false, Option, none, some, List, subst}
use formation_web_analytics.Event.{Event}
use formation_web_analytics.Collector.Program.{
  Phase, serving, closing, stopping, draining, timed_out, drained, Place, selecting, ended, looping,
  sending, is_draining, is_stopped,
}

-- a batch is on its way exactly while it is sent
abbrev pub Carries : Place → Option (List Event) → Type 0
Carries (sending least) flying = (batch : List Event) × (flying ≡ some batch)
Carries _ flying = flying ≡ none

-- a drain runs the loop of `flushAll`, and nothing runs once it ended
abbrev pub Fits : Phase → Place → Type 0
Fits draining (looping least) = least ≡ 1
Fits draining (sending least) = least ≡ 1
Fits draining _ = ⊥
Fits (drained fine) ended = Unit
Fits (drained fine) _ = ⊥
Fits _ _ = Unit

pub Fits-select : (f : Phase) (least : ℕ) → Fits f selecting → Fits f (looping least)
Fits-select draining least h = absurd h
Fits-select (drained fine) least h = absurd h
Fits-select serving least h = tt
Fits-select closing least h = tt
Fits-select stopping least h = tt
Fits-select timed_out least h = tt

pub Fits-send : (f : Phase) (least : ℕ) → Fits f (looping least) → Fits f (sending least)
Fits-send draining least h = h
Fits-send (drained fine) least h = absurd h
Fits-send serving least h = tt
Fits-send closing least h = tt
Fits-send stopping least h = tt
Fits-send timed_out least h = tt

pub Fits-sent : (f : Phase) (least : ℕ) → Fits f (sending least) → Fits f (looping least)
Fits-sent draining least h = h
Fits-sent (drained fine) least h = absurd h
Fits-sent serving least h = tt
Fits-sent closing least h = tt
Fits-sent stopping least h = tt
Fits-sent timed_out least h = tt

-- a loop of `Run` returns to it
pub Fits-leave :
    (f : Phase) (least : ℕ) → is_draining f ≡ false → Fits f (looping least) → Fits f selecting
unfolding is_draining
Fits-leave draining least d h = absurd (cc)
Fits-leave (drained fine) least d h = absurd h
Fits-leave serving least d h = tt
Fits-leave closing least d h = tt
Fits-leave stopping least d h = tt
Fits-leave timed_out least d h = tt

-- `Run` ends once its context is done
pub Fits-stopped : (f : Phase) → is_stopped f ≡ true → Fits f ended
unfolding is_stopped
Fits-stopped draining s = absurd (cc)
Fits-stopped (drained fine) s = absurd (cc)
Fits-stopped serving s = absurd (cc)
Fits-stopped closing s = absurd (cc)
Fits-stopped stopping s = tt
Fits-stopped timed_out s = tt

pub drained-stopped : (f : Phase) → f ≡ drained true → is_stopped f ≡ true → ⊥
unfolding is_stopped
drained-stopped f e s = let h : false ≡ true = subst (λ f. is_stopped f ≡ true) e s in absurd (cc)

-- the loop of a drain
pub Fits-drain : (f : Phase) (least : ℕ) → is_draining f ≡ true → Fits f (looping least) → least ≡ 1
unfolding is_draining
Fits-drain draining least d h = h
Fits-drain (drained fine) least d h = absurd h
Fits-drain serving least d h = absurd (cc)
Fits-drain closing least d h = absurd (cc)
Fits-drain stopping least d h = absurd (cc)
Fits-drain timed_out least d h = absurd (cc)

pub drained-idle :
    (a : Place) (flying : Option (List Event))
    → Fits (drained true) a
    → Carries a flying
    → flying ≡ none
drained-idle ended flying h c = c
drained-idle selecting flying h c = absurd h
drained-idle (looping least) flying h c = absurd h
drained-idle (sending least) flying h c = absurd h

-- a program that drained is at no select and in no loop
pub drained-looping : (f : Phase) (least : ℕ) → f ≡ drained true → Fits f (looping least) → ⊥
drained-looping f least e h = subst (λ f. Fits f (looping least)) e h

pub drained-selecting : (f : Phase) → f ≡ drained true → Fits f selecting → ⊥
drained-selecting f e h = subst (λ f. Fits f selecting) e h
