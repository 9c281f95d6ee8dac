-- ===== src/Examples/Air.antt =====
-- Mixtures and cells: sources/core/atmos.
use griefly.Prelude.{◌≡◌, refl, Bool, true, false, some, none, arith}
use griefly.Prelude.Int.{ℤ, pos, negsuc, ◌+ℤ◌}
use griefly.Atmos.Gas.{Gas, AtmosData, gas, amount, IsPhysical}
use griefly.Atmos.Gas.Burning.{burn_for, burn_for_ends}
use griefly.Atmos.Holder.{Pair, connect}
use griefly.Atmos.Holder.Transfer.{connect_conserves}
use griefly.Atmos.Cell.{
  Cell, Five, Side, entry, shares, level_left, sums, shares, level_left, process_five_cells,
  space_tile, clear,
}
use griefly.Atmos.Cell.Balance.{total, process_five_cells_conserves}
use griefly.Atmos.Cell.Settling.{AllPhysical}

abbrev mixture : ℤ → ℤ → Bool → AtmosData
mixture oxygen plasma fire = record {
  gases = record { oxygen = oxygen; co2 = pos 1; nytrogen = pos 750; plasma = plasma };
  energy = pos 1000;
  pressure = pos 0;
  volume = pos 1;
  temperature = pos 0;
  fire = fire;
}

abbrev burning : AtmosData
burning = mixture (pos 230) (pos 40) true

abbrev air : AtmosData
air = mixture (pos 231) (pos 0) false

burning-IsPhysical : IsPhysical burning
burning-IsPhysical = record {
  oxygen_pos = omega arith;
  co2_pos = omega arith;
  nytrogen_pos = omega arith;
  plasma_pos = omega arith;
  energy_pos = omega arith;
}

air-IsPhysical : IsPhysical air
air-IsPhysical = record {
  oxygen_pos = omega arith;
  co2_pos = omega arith;
  nytrogen_pos = omega arith;
  plasma_pos = omega arith;
  energy_pos = omega arith;
}

burn_for_ends_example : (burn_for 41 burning).fire ≡ false
burn_for_ends_example = burn_for_ends 41 burning burning-IsPhysical (omega arith)

abbrev two_mixtures : Pair
two_mixtures = record { owner = burning; guest = air }

connect_conserves_example :
    let q = connect (pos 700) (pos 2000) (negsuc 3) two_mixtures in
    ((i : Gas)
      → amount i q.owner.gases +ℤ amount i q.guest.gases
        ≡ amount i two_mixtures.owner.gases +ℤ amount i two_mixtures.guest.gases)
    × (q.owner.energy +ℤ q.guest.energy ≡ two_mixtures.owner.energy +ℤ two_mixtures.guest.energy)
connect_conserves_example = connect_conserves (pos 700) (pos 2000) (negsuc 3) two_mixtures

abbrev cell_of : AtmosData → Cell
cell_of m = record {
  mixture = m;
  flows = record { left = pos 0; up = pos 2; down = negsuc 1; right = pos 0 };
  flags = clear;
}

-- A wall above, burning plasma to the left, a hole in the floor below.
abbrev room : Five
room = record {
  near = record {
    left = some (cell_of burning);
    up = none;
    down = some (record (cell_of air) { flags = space_tile });
    right = some (cell_of air);
  };
  center = cell_of air;
}

room-AllPhysical : AllPhysical room
room-AllPhysical = record {
  near_left = burning-IsPhysical;
  near_up = tt;
  near_down = air-IsPhysical;
  near_right = air-IsPhysical;
  center = air-IsPhysical;
}

process_five_cells_conserves_example :
    total (gas Gas.plasma) (process_five_cells room) ≡ total (gas Gas.plasma) room
process_five_cells_conserves_example = process_five_cells_conserves room (gas Gas.plasma)

-- What becomes of the cell to the left.
abbrev left_after : Cell
left_after = level_left (shares (sums room.near room.center)) (cell_of burning)

left_after_lem : entry Side.left (process_five_cells room).near ≡ some left_after
unfolding process_five_cells
left_after_lem = refl
