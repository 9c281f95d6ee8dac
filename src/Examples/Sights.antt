-- ===== src/Examples/Sights.antt =====
-- Lines of sight: sources/core/LosCalculator.cpp.
use griefly.Prelude.{◌≡◌, refl, arith, not, some}
use griefly.Prelude.Int.{pos, negsuc, ◌==ℤ◌, ◌+ℤ◌, ◌-ℤ◌, ◌*ℤ◌}
use griefly.Geometry.{Vector}
use griefly.Sight.{
  MapInterface, Seen, ray_trace, source_of, corner_of, corner_point_to_point, calculate, vis_idx,
}
use griefly.Sight.Trace.{line_is_clear, ray_trace_line}
use griefly.Sight.View.{IsView, calculate-IsView}

-- A room with a wall across it.
abbrev room : MapInterface
room = record { width = 9; height = 7; depth = 1; is_transparent = λ x y z. not (x ==ℤ pos 5) }

abbrev viewer : Vector
viewer = record { x = pos 2; y = pos 3; z = pos 0 }

ray_trace_line_example :
    ray_trace room (source_of room viewer) (corner_of room viewer (pos 5) (negsuc 1))
    ≡ some (line_is_clear room (source_of room viewer) (corner_of room viewer (pos 5) (negsuc 1)))
ray_trace_line_example =
    ray_trace_line room (source_of room viewer) (corner_of room viewer (pos 5) (negsuc 1))

calculate-IsView_example :
    (s : Seen) × (calculate room viewer ≡ some s)
    × IsView room (corner_point_to_point (source_of room viewer)) s
calculate-IsView_example = calculate-IsView room viewer (omega arith) (omega arith)

-- Two tiles that share an entry of the visibility array.
shared_entry :
    vis_idx viewer (record { x = pos 3; y = negsuc 9; z = pos 0 })
    ≡ vis_idx viewer (record { x = pos 2; y = pos 14; z = pos 0 })
unfolding ◌+ℤ◌ ◌-ℤ◌ ◌*ℤ◌
shared_entry = refl
