-- ===== src/GlassDoor/Timing.antt =====
-- What holds of a windoor between two events, and how long it takes to open and to shut.
use griefly.Prelude.{ℕ, zero, suc, ◌+◌, ◌≡◌, List, [], ◌∷◌, arith, ltb, if◌then◌else◌}
use griefly.GlassDoor.{
  GlassDoor, State, Event, ticks, opened, closed, opening, closing, full, empty, new,
  after_world_creation, open_it, step,
}

-- A windoor lets things through its side when it is open and at no other time, and `Process` is
-- called unless it is shut.
pub record IsValid (d : GlassDoor) : Type 0 where
  pub passable_open : d.state ≡ opened → d.passable_dir ≡ full
  pub blocks_shut : (d.state ≡ opened → ⊥) → d.passable_dir ≡ empty
  pub resting : d.state ≡ closed → d.freq ≡ 0
  pub running : (d.state ≡ closed → ⊥) → d.freq ≡ 1

new-IsValid : (garbage passable : ℕ) → IsValid (after_world_creation (new garbage passable))
unfolding new after_world_creation
new-IsValid garbage passable = ground arith

step-IsValid : (now : ℕ) (e : Event) (d : GlassDoor) → IsValid d → IsValid (step now e d)
unfolding step
step-IsValid now e d v = ground arith

-- A history: the events with their ticks.
pub run : List (ℕ × Event) → GlassDoor → GlassDoor
run [] d = d
run ((now, e) ∷ es) d = run es (step now e d)

run_keeps : (es : List (ℕ × Event)) (d : GlassDoor) → IsValid d → IsValid (run es d)
unfolding run
run_keeps [] d v = v
run_keeps ((now, e) ∷ es) d v = run_keeps es (step now e d) (step-IsValid now e d v)

-- A windoor placed in the world is valid after any history of events, whatever
-- its passability and its `last_tick` were before.
windoor_run-IsValid :
    (garbage passable : ℕ) (es : List (ℕ × Event))
    → IsValid (run es (after_world_creation (new garbage passable)))
windoor_run-IsValid garbage passable es = run_keeps es _ (new-IsValid garbage passable)

-- The n ticks after `now`.
pub ticks_from : ℕ → ℕ → GlassDoor → GlassDoor
ticks_from now zero d = d
ticks_from now (suc n) d = step (now + suc n) ticks (ticks_from now n d)

-- The state n ticks after the door was opened.
abbrev pub state_after : ℕ → State
state_after n =
    if ltb n 10 then opening else if ltb n 61 then opened else if ltb n 71 then closing else closed

abbrev last_tick_after : ℕ → ℕ → ℕ
last_tick_after now n =
    if ltb n 10 then now else if ltb n 61 then now + 10 else if ltb n 71 then now + 61 else now + 71

record Phase (now n : ℕ) (d : GlassDoor) : Type 0 where
  state_lem : d.state ≡ state_after n
  last_lem : d.last_tick ≡ last_tick_after now n
  freq_lem : d.freq ≡ (if ltb n 71 then 1 else 0)

opened-Phase : (now : ℕ) (d : GlassDoor) → d.state ≡ closed → Phase now 0 (open_it now d)
unfolding open_it
opened-Phase now d h = ground arith

step-Phase :
    (now n : ℕ) (d : GlassDoor) → Phase now n d → Phase now (suc n) (step (now + suc n) ticks d)
unfolding step
step-Phase now n d p = ground arith

ticks_from-Phase :
    (now n : ℕ) (d : GlassDoor) → d.state ≡ closed → Phase now n (ticks_from now n (open_it now d))
unfolding ticks_from
ticks_from-Phase now zero d h = opened-Phase now d h
ticks_from-Phase now (suc n) d h = step-Phase now n _ (ticks_from-Phase now n d h)

-- A closed windoor that is opened and left alone is opening for 10 ticks, open
-- for 51, closing for 10, and closed from then on.
pub windoor_cycle :
    (now n : ℕ) (d : GlassDoor)
    → d.state ≡ closed
    → (ticks_from now n (open_it now d)).state ≡ state_after n
windoor_cycle now n d h = (ticks_from-Phase now n d h).state_lem
