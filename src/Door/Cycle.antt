-- ===== src/Door/Cycle.antt =====
-- A door that is opened and left alone opens, waits, and shuts again.
use griefly.Prelude.{ℕ, zero, suc, ◌+◌, ◌≡◌, ltb, if◌then◌else◌, arith}
use griefly.Door.{Door, State, opened, closed, opening, closing, open_it, ticks, step}

-- The n ticks after `now`.
pub ticks_from : ℕ → ℕ → Door → Door
ticks_from now zero d = d
ticks_from now (suc n) d = step (now + suc n) ticks (ticks_from now n d)

-- The state n ticks after the door was opened.
abbrev pub state_after : ℕ → State
state_after n =
    if ltb n 12 then opening else if ltb n 63 then opened else if ltb n 75 then closing else closed

abbrev last_tick_after : ℕ → ℕ → ℕ
last_tick_after now n =
    if ltb n 12 then now else if ltb n 63 then now + 12 else if ltb n 75 then now + 63 else now + 75

record Phase (now n : ℕ) (d : Door) : Type 0 where
  state_lem : d.state ≡ state_after n
  last_lem : d.last_tick ≡ last_tick_after now n
  freq_lem : d.freq ≡ (if ltb n 75 then 1 else 0)

opened-Phase : (now : ℕ) (d : Door) → d.state ≡ closed → Phase now 0 (open_it now d)
unfolding open_it
opened-Phase now d h = ground arith

step-Phase : (now n : ℕ) (d : Door) → Phase now n d → Phase now (suc n) (step (now + suc n) ticks d)
unfolding step
step-Phase now n d p = ground arith

ticks_from-Phase :
    (now n : ℕ) (d : Door) → d.state ≡ closed → Phase now n (ticks_from now n (open_it now d))
unfolding ticks_from
ticks_from-Phase now zero d h = opened-Phase now d h
ticks_from-Phase now (suc n) d h = step-Phase now n _ (ticks_from-Phase now n d h)

-- A closed door that is opened and left alone is opening for 12 ticks, open for 51, closing for 12, and closed from
-- then on.
pub open_cycle :
    (now n : ℕ) (d : Door)
    → d.state ≡ closed
    → (ticks_from now n (open_it now d)).state ≡ state_after n
open_cycle now n d h = (ticks_from-Phase now n d h).state_lem
