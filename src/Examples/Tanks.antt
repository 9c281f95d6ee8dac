-- ===== src/Examples/Tanks.antt =====
-- Tanks: sources/core/objects/movable/GasTank.cpp.
use griefly.Prelude.{ℕ, ◌≡◌, true, false, some, List, [], ◌∷◌}
use griefly.Prelude.Int.{pos}
use griefly.Atmos.Gas.{AtmosData, Quantity}
use griefly.GasTank.{Place, new_tank, process, magic_process, Event, is_attacked, burns, ticks, run}
use griefly.GasTank.Leaks.{all_of, IsBroken, run_keeps, Refilled, magic_process-Refilled}

abbrev tile : AtmosData
tile = record {
  gases = record { oxygen = pos 230; co2 = pos 1; nytrogen = pos 750; plasma = pos 0 };
  energy = pos 1000;
  pressure = pos 9810;
  volume = pos 1;
  temperature = pos 40;
  fire = false;
}

abbrev place : Place
place = record { tank = new_tank; tile = some tile }

abbrev history : List Event
history = is_attacked true ∷ ticks ∷ burns 8 ∷ is_attacked true ∷ ticks ∷ []

run_keeps_example :
    ((q : Quantity) → all_of q (run history place) ≡ all_of q place)
    × ((n : ℕ) → IsBroken n place → IsBroken n (run history place))
run_keeps_example = run_keeps history place

magic_process-Refilled_example :
    Refilled (process place).tank.air (magic_process place).tank.air
    × ((magic_process place).tile ≡ (process place).tile)
magic_process-Refilled_example = magic_process-Refilled place
