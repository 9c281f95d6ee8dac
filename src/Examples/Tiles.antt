-- ===== src/Examples/Tiles.antt =====
-- A tile with what stands on it: sources/core/objects/Tile.cpp.
use griefly.Prelude.{◌≡◌, refl, true, some, none, List, [], ◌∷◌, arith}
use griefly.Prelude.Int.{pos, ◌+ℤ◌, ◌-ℤ◌}
use griefly.Geometry.{Dir, Vector, vd_left, index, dir_vectors, dir_to_vdir}
use griefly.Tile.{can_pass, get_passable, Object, Turf, full_levels, new_tile, set_turf}
use griefly.Tile.History.{Event, adds, removes, passable_set, run}
use griefly.Tile.Passing.{everything_lets, get_passable_exact}
use griefly.Tile.Flags.{FlagsRight, run-FlagsRight}
use griefly.Tile.Moving.{IsOnMap, move_to_dir, move_by, move_coordinate}

-- A door on the west side, and a crate.
abbrev door : Object
door = record { id = 7; levels = record full_levels { left = 0 }; transparent = true }

abbrev crate : Object
crate = record { id = 8; levels = record full_levels { whole = 20 }; transparent = true }

abbrev floor : Turf
floor = record {
  object = record { id = 3; levels = full_levels; transparent = true };
  atmos_state = pos 1;
}

abbrev history : List Event
history =
    adds (some door)
    ∷ adds (some crate)
    ∷ adds none
    ∷ passable_set 7 Dir.west 100
    ∷ removes (some 8)
    ∷ removes (some 9)
    ∷ []

get_passable_exact_example :
    let t = run history (new_tile 0) in
    can_pass (get_passable Dir.west t.sums) 30 ≡ everything_lets Dir.west 30 t
get_passable_exact_example = get_passable_exact 0 history Dir.west 30 (omega arith)

run-FlagsRight_example : FlagsRight (run history (set_turf (some floor) (new_tile 0)))
run-FlagsRight_example = run-FlagsRight 0 (some floor) history

abbrev map_size : Vector
map_size = record { x = pos 64; y = pos 32; z = pos 1 }

abbrev place : Vector
place = record { x = pos 5; y = pos 31; z = pos 0 }

abbrev west_of_place : Vector
west_of_place = record { x = pos 4; y = pos 31; z = pos 0 }

place-IsOnMap : IsOnMap map_size place
place-IsOnMap = record {
  x_low = omega arith;
  x_high = omega arith;
  y_low = omega arith;
  y_high = omega arith;
  z_low = omega arith;
  z_high = omega arith;
}

goes_west : move_to_dir map_size Dir.west place ≡ some west_of_place
unfolding move_to_dir dir_to_vdir index dir_vectors move_by move_coordinate ◌+ℤ◌ ◌-ℤ◌
goes_west = refl

vector_of_west : dir_to_vdir Dir.west ≡ some vd_left
unfolding dir_to_vdir index dir_vectors
vector_of_west = refl
