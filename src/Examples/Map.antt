-- ===== src/Examples/Map.antt =====
-- The grid of cells: sources/core/atmos/AtmosGrid.h and AtmosGrid.cpp.
use griefly.Prelude.{
  ℕ, zero, suc, ◌≡◌, refl, true, some, none, inr, List, replicate, length-replicate, arith,
}
use griefly.Prelude.Int.{pos}
use griefly.Atmos.Gas.{IsPhysical}
use griefly.Atmos.Cell.{Cell, Side, clear}
use griefly.Atmos.Grid.{
  Grid, width, height, cell_index, places_before, near_in_group, near_by_coordinates,
  belongs_to_stage, spread, process,
}
use griefly.Atmos.Grid.Stages.{Touches, stage_independent}
use griefly.Atmos.Grid.Step.{Keeps, GridPhysical}
use griefly.Atmos.Grid.Tick.{IsSized, spread-Keeps, process-IsSized}

abbrev air_cell : Cell
air_cell = record {
  mixture = record {
    gases = record { oxygen = pos 230; co2 = pos 1; nytrogen = pos 750; plasma = pos 7 };
    energy = pos 1000;
    pressure = pos 0;
    volume = pos 1;
    temperature = pos 0;
    fire = true;
  };
  flows = record { left = pos 0; up = pos 0; down = pos 0; right = pos 0 };
  flags = clear;
}

-- Two by three groups.
abbrev station : Grid
station = record { group_height = 2; group_width = 3; cells = replicate 6144 air_cell }

station-IsSized : IsSized station
station-IsSized = length-replicate 6144 air_cell

air_cell-IsPhysical : IsPhysical air_cell.mixture
air_cell-IsPhysical = record {
  oxygen_pos = omega arith;
  co2_pos = omega arith;
  nytrogen_pos = omega arith;
  plasma_pos = omega arith;
  energy_pos = omega arith;
}

GridPhysical-replicate : (n : ℕ) → GridPhysical (replicate n air_cell)
GridPhysical-replicate zero = tt
GridPhysical-replicate (suc n) = (air_cell-IsPhysical, GridPhysical-replicate n)

spread-Keeps_example :
    (after : List Cell) × (spread 7 station ≡ some after) × Keeps station.cells after
spread-Keeps_example = spread-Keeps 7 station station-IsSized

process-IsSized_example :
    (h : Grid) × (process 7 station ≡ some h)
    × IsSized h
    × (width h ≡ width station)
    × (height h ≡ height station)
    × GridPhysical h.cells
process-IsSized_example = process-IsSized 7 station station-IsSized (GridPhysical-replicate 6144)

abbrev column : ℕ
column = 4

abbrev row : ℕ
row = 9

its_turn : belongs_to_stage column row 0 7 ≡ true
unfolding belongs_to_stage
its_turn = refl

next_to-Touches : Touches column row 5 9
next_to-Touches = inr ((omega arith, omega arith), refl)

stage_independent_example : (column ≡ column) × (row ≡ row)
stage_independent_example =
    stage_independent 0 7 column row column row 5 9 its_turn its_turn next_to-Touches
      next_to-Touches

-- Of the first place of the array no neighbour is found at the left or above.
below :
    (near_in_group 0 Side.left ≡ none)
    × (near_in_group 31 Side.left ≡ none)
    × (near_in_group 0 Side.up ≡ none)
    × (near_in_group 32 Side.left ≡ some 0)
unfolding near_in_group places_before
below = (refl, refl, refl, refl)

-- A coordinate of -1 is in C++ another cell of the array, or below it.
wrong_cell :
    (near_by_coordinates 2 0 32 Side.left ≡ some 992) × (near_by_coordinates 2 0 5 Side.left ≡ none)
unfolding near_by_coordinates places_before cell_index
wrong_cell = (refl, refl)
