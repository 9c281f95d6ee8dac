-- ===== src/Projectile.antt =====
-- The trajectory of a Projectile: MakeMovementPattern and MakeMovementLoops of
-- sources/core/objects/movable/Projectiles.cpp, and ProcessMovement's step through it. kv::Abort and a
-- failed kv::Assert are `none`. CheckPassable and the move itself depend on the world: whether the
-- projectile passes is an argument.
pub mod Trajectory
pub mod Steps
use griefly.Prelude.{
  ℕ, zero, suc, ◌+◌, ◌*◌, ◌%◌, ◌==◌, Bool, true, false, not, ◌&&◌, ◌||◌, ltb, if◌then◌else◌, Option,
  none, some, List, [], ◌∷◌, ◌++◌, length, get_elem?,
}
use griefly.Prelude.Int.{ℤ, pos, ◌-ℤ◌, ltb_ℤ, leb_ℤ, abs}
use griefly.Geometry.{Dir, Vector}

-- The rounds of MakeMovementLoops that are left; `shuffle` is whether the variable is 1.
unfoldable pub loops_from : ℕ → ℕ → Bool → ℤ → Dir → Dir → List Dir
loops_from zero i shuffle z d1 d2 = []
loops_from (suc n) i shuffle z d1 d2 =
    if shuffle || ltb_ℤ z (pos i)
    then d1 ∷ loops_from n (i + 1) false z d1 d2
    else d2 ∷ loops_from n (i + 1) true z d1 d2

-- MakeMovementLoops, for a movement that is empty before.
unfoldable pub make_movement_loops : ℕ → ℕ → Dir → Dir → List Dir
make_movement_loops d1_number d2_number d1 d2 =
    loops_from (d2_number + d1_number) 0 true (pos (2 * d2_number) -ℤ pos 1) d1 d2

abbrev pub is_sideways : Dir → Bool
is_sideways Dir.west = true
is_sideways Dir.east = true
is_sideways Dir.all = false
is_sideways Dir.north = false
is_sideways Dir.south = false
is_sideways Dir.up = false
is_sideways Dir.down = false
is_sideways Dir.southeast = false
is_sideways Dir.southwest = false
is_sideways Dir.northeast = false
is_sideways Dir.northwest = false

-- The first branch: a target on a diagonal.
unfoldable pub diagonal : ℤ → ℤ → Dir → List Dir
diagonal x y facing =
    if ltb_ℤ y (pos 0)
    then (if is_sideways facing
        then (if ltb_ℤ (pos 0) x
            then make_movement_loops (abs y) (abs x) Dir.east Dir.north
            else make_movement_loops (abs y) (abs x) Dir.west Dir.north)
        else if ltb_ℤ (pos 0) x
        then make_movement_loops (abs y) (abs x) Dir.north Dir.east
        else make_movement_loops (abs y) (abs x) Dir.north Dir.west)
    else if is_sideways facing
    then (if ltb_ℤ (pos 0) x
        then make_movement_loops (abs y) (abs x) Dir.east Dir.south
        else make_movement_loops (abs y) (abs x) Dir.west Dir.south)
    else if ltb_ℤ (pos 0) x
    then make_movement_loops (abs y) (abs x) Dir.south Dir.east
    else make_movement_loops (abs y) (abs x) Dir.south Dir.west

-- A quadrant: its two tests, y larger and x larger; no movement is made when neither holds.
unfoldable pub quadrant : Bool → Bool → ℕ → ℕ → Dir → Dir → List Dir
quadrant y_larger x_larger abs_x abs_y across along =
    if y_larger
    then make_movement_loops abs_y abs_x along across
    else if x_larger
    then make_movement_loops abs_x abs_y across along
    else []

-- MakeMovementPattern
unfoldable pub make_movement_pattern : Vector → Dir → Option (List Dir)
make_movement_pattern target facing =
    let x = target.x in
    let y = target.y in
    if abs x == abs y
    then some (diagonal x y facing)
    else if leb_ℤ (pos 0) x && leb_ℤ (pos 0) y
    then some (quadrant (ltb_ℤ x y) (ltb_ℤ y x) (abs x) (abs y) Dir.east Dir.south)
    else if leb_ℤ x (pos 0) && leb_ℤ y (pos 0)
    then some
        (quadrant (ltb (abs x) (abs y)) (ltb (abs y) (abs x)) (abs x) (abs y) Dir.west Dir.north)
    else if ltb_ℤ x (pos 0) && ltb_ℤ (pos 0) y
    then some
        (quadrant (ltb_ℤ (pos (abs x)) y) (ltb (abs y) (abs x)) (abs x) (abs y) Dir.west Dir.south)
    else if ltb_ℤ (pos 0) x && ltb_ℤ y (pos 0)
    then some (
        quadrant (ltb_ℤ x (pos (abs y))) (ltb_ℤ (pos (abs y)) x) (abs x) (abs y) Dir.east Dir.north)
    else none

pub record Flight : Type 0 where
  pub movement : List Dir
  pub current_step : ℕ
  pub direction : Dir

-- ProcessMovement, with what CheckPassable answers for the step's direction.
unfoldable pub process_movement : (Dir → Bool) → Flight → Option (Flight × Bool)
process_movement passes f = elim (get_elem? f.movement f.current_step) [
  | none ↦ none
  | some step ↦
      if passes step
      then some (
        record f { direction = step; current_step = (f.current_step + 1) % length f.movement },
        true,
      )
      else some (record f { direction = step }, false)
]
