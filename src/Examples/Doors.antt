-- ===== src/Examples/Doors.antt =====
-- Doors and windoors: sources/core/objects/Door.cpp.
use griefly.Prelude.{ℕ, ◌≡◌, refl, true, List, [], ◌∷◌}
use griefly.Door.{
  Door, Event, new, nontransparent, plain, closed, welded, ticks, bumped, attacked, welding_tool,
  other, open_it,
}
use griefly.Door.Invariant.{IsValid, run, run-new-IsValid}
use griefly.Door.Cycle.{ticks_from, state_after, open_cycle}
use griefly.GlassDoor
use griefly.GlassDoor.{GlassDoor}

abbrev history : List (ℕ × Event)
history =
    (5, bumped true)
    ∷ (6, ticks)
    ∷ (20, ticks)
    ∷ (21, attacked other)
    ∷ (40, ticks)
    ∷ (41, attacked (welding_tool true))
    ∷ []

run-new-IsValid_example : IsValid (run history (new nontransparent 99))
run-new-IsValid_example = run-new-IsValid nontransparent 99 history

abbrev welded_door : Door
welded_door = record (new plain 99) { state = welded; welded_overlay = true }

new-closed : (new nontransparent 99).state ≡ closed
unfolding new
new-closed = refl

open_cycle_example :
    (ticks_from 100 70 (open_it 100 (new nontransparent 99))).state ≡ state_after 70
open_cycle_example = open_cycle 100 70 (new nontransparent 99) new-closed

abbrev windoor_history : List (ℕ × GlassDoor.Event)
windoor_history =
    (5, GlassDoor.bumped true)
    ∷ (6, GlassDoor.ticks)
    ∷ (20, GlassDoor.ticks)
    ∷ (21, GlassDoor.attacked)
    ∷ []

abbrev shut_windoor : GlassDoor
shut_windoor = record {
  state = GlassDoor.closed;
  last_tick = 99;
  freq = 0;
  passable_dir = 0;
  look = GlassDoor.plain_look;
}
