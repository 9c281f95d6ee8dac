-- ===== src/Physics.antt =====
-- Forces on movables: PhysicsEngine::ProcessForceTick and ApplyForce of
-- sources/core/objects/PhysicsEngine.cpp, and the fields and functions of
-- sources/core/objects/movable/Movable.cpp that use them. Whether TryMove succeeds and whether the turf
-- has friction depend on the world, and are arguments here. A lookup of a direction without a vector
-- is `none`. What an `int` overflows at is left out.
pub mod Ticks
pub mod Rest
use griefly.Prelude.{
  ℕ, zero, suc, ◌≡◌, Bool, true, false, not, if◌then◌else◌, ltb, max, min, Option, none, some,
}
use griefly.Prelude.Int.{ℤ, pos, ◌+ℤ◌, ◌-ℤ◌, ◌*ℤ◌, ◌/ℤ◌, ltb_ℤ, leb_ℤ, abs}
use griefly.Geometry.{
  Dir, Vector, Dir-discrete, zero_vector, add, sub, scale, is_non_zero, is_zero, dir_to_vdir,
  projection_to_dir,
}

abbrev pub force_unit : ℤ
force_unit = pos 100

abbrev pub error_scale : ℤ
error_scale = pos 2048

-- The fields of a Movable that a force changes.
pub record Motion : Type 0 where
  pub force : Vector
  pub main : Dir
  pub secondary : Dir
  pub error : ℤ
  pub error_per_main : ℤ

-- What ProcessForceTick returns, with the error that it writes.
pub record Step : Type 0 where
  pub dir : Dir
  pub vector : Vector
  pub error : ℤ

-- The directions in the order in which they are tried, and the error.
pub record Choice : Type 0 where
  pub first : Dir
  pub other : Dir
  pub error : ℤ

unfoldable pub choose : Motion → Choice
choose m =
    if leb_ℤ (error_scale /ℤ pos 2) m.error
    then record { first = m.secondary; other = m.main; error = m.error -ℤ error_scale }
    else record { first = m.main; other = m.secondary; error = m.error +ℤ m.error_per_main }

-- The last lines: a step of one unit in a direction.
unfoldable pub unit_step : Dir → ℤ → Option Step
unit_step d error = elim (dir_to_vdir d) [
  | none ↦ none
  | some v ↦ some (record { dir = d; vector = scale v force_unit; error = error })
]

-- ProcessForceTick after its first test.
unfoldable pub try_step : Vector → Choice → Option Step
try_step force c =
    if ltb_ℤ (projection_to_dir force c.first) force_unit
    then (if leb_ℤ force_unit (projection_to_dir force c.other)
        then unit_step c.other (pos 0)
        else some (record { dir = Dir.all; vector = zero_vector; error = pos 0 }))
    else unit_step c.first c.error

-- ProcessForceTick
unfoldable pub process_force_tick : Motion → Option Step
process_force_tick m = try_step m.force (choose m)

unfoldable pub is_all : Dir → Bool
is_all Dir.all = true
is_all Dir.west = false
is_all Dir.east = false
is_all Dir.north = false
is_all Dir.south = false
is_all Dir.up = false
is_all Dir.down = false
is_all Dir.southeast = false
is_all Dir.southwest = false
is_all Dir.northeast = false
is_all Dir.northwest = false

abbrev pub same_dir : Dir → Dir → Bool
same_dir a b = elim (Dir-discrete a b) [ yes p ↦ true | no p ↦ false ]

-- The directions of the two components of a force.
unfoldable pub horizontal : Vector → Dir
horizontal f = if ltb_ℤ (pos 0) f.x then Dir.east else Dir.west

unfoldable pub vertical : Vector → Dir
vertical f = if ltb_ℤ (pos 0) f.y then Dir.south else Dir.north

-- PhysicsEngine::ApplyForce
unfoldable pub apply_force : Vector → Motion → Motion
unfolding horizontal vertical
apply_force addition m =
    let force = add m.force addition in
    let swapped = ltb (abs force.x) (abs force.y) in
    let main = if swapped then vertical force else horizontal force in
    let secondary = if swapped then horizontal force else vertical force in
    record {
      force = force;
      main = main;
      secondary = secondary;
      error = if same_dir m.secondary secondary then m.error else pos 0;
      error_per_main =
          (pos (min (abs force.x) (abs force.y)) *ℤ error_scale)
          /ℤ pos (max 1 (max (abs force.x) (abs force.y)));
    }

-- Movable::ApplyForce; the Bool says whether the movable is added to the physics engine.
unfoldable pub movable_apply_force : Vector → Motion → Motion × Bool
movable_apply_force force m =
    if is_zero force then (m, false) else (apply_force force m, is_zero m.force)

-- Movable::ProcessForce after the step is found.
unfoldable pub take_step : Bool → Bool → Step → Motion → Motion
take_step moved friction s m =
    if is_all s.dir
    then record m { error = s.error }
    else if not moved
    then record m { error = pos 0; force = zero_vector }
    else if friction
    then record m { error = s.error; force = sub m.force s.vector }
    else record m { error = s.error }

-- Movable::ProcessForce
unfoldable pub process_force : Bool → Bool → Motion → Option Motion
process_force moved friction m =
    if not (is_non_zero m.force)
    then some m
    else elim (process_force_tick m) [ none ↦ none | some s ↦ some (take_step moved friction s m) ]
