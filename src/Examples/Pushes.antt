-- ===== src/Examples/Pushes.antt =====
-- Forces: sources/core/objects/PhysicsEngine.cpp.
use griefly.Prelude.{◌≡◌, inl, inr, refl, some, arith}
use griefly.Prelude.Int.{pos, negsuc}
use griefly.Geometry.{Dir, Vector}
use griefly.Physics.{Motion}
use griefly.Physics.Ticks.{IsPlane, IsWeak}
use griefly.Physics.Rest.{drift, comes_to_rest}

abbrev kick : Vector
kick = record { x = negsuc 449; y = pos 230; z = pos 0 }

-- Pushed to the west and a little to the south.
abbrev pushed : Motion
pushed = record {
  force = kick;
  main = Dir.west;
  secondary = Dir.south;
  error = pos 1100;
  error_per_main = pos 1046;
}

west-IsPlane : IsPlane Dir.west
unfolding IsPlane
west-IsPlane = inl refl

south-IsPlane : IsPlane Dir.south
unfolding IsPlane
south-IsPlane = inr (inr (inr refl))

comes_to_rest_example : (n : Motion) × (drift 7 pushed ≡ some n) × IsWeak n.force n.main n.secondary
comes_to_rest_example = comes_to_rest 7 pushed west-IsPlane south-IsPlane (omega arith)
