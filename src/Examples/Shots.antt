-- ===== src/Examples/Shots.antt =====
-- Projectiles: sources/core/objects/movable/Projectiles.cpp.
use griefly.Prelude.{◌≡◌, refl, some, none, [], true}
use griefly.Prelude.Int.{pos, negsuc}
use griefly.Geometry.{Dir, Vector, zero_vector}
use griefly.Projectile.{
  make_movement_pattern, make_movement_loops, loops_from, diagonal, process_movement,
}
use griefly.Projectile.Trajectory.{target_from}
use griefly.Projectile.Steps.{shot, in_flight, shot_arrives}

abbrev shooter : Vector
shooter = record { x = pos 10; y = pos 10; z = pos 1 }

abbrev aim : Vector
aim = record { x = negsuc 4; y = pos 2; z = pos 0 }

shot_arrives_example : shot aim Dir.south shooter ≡ some (target_from shooter (negsuc 4) (pos 2))
shot_arrives_example = shot_arrives aim Dir.south shooter

-- A shot at the shooter's own tile has no step to take.
own_tile : process_movement (λ d. true) (in_flight [] 0 Dir.south) ≡ none
unfolding process_movement
own_tile = refl

own_tile_pattern : make_movement_pattern zero_vector Dir.south ≡ some []
unfolding make_movement_pattern make_movement_loops loops_from diagonal
own_tile_pattern = refl
