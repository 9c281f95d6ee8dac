-- ===== src/Sight.antt =====
-- The line of sight: sources/core/LosCalculator.cpp. The map is its interface: sizes, and
-- whether a tile is transparent. The loops of the rays run on fuel, and an access out of the visibility
-- array is `none`.
pub mod Ray
pub mod Trace
pub mod View
use griefly.Prelude.{
  ℕ, zero, suc, ◌+◌, ◌*◌, ◌==◌, Bool, true, false, not, ◌&&◌, ◌||◌, ltb, if◌then◌else◌, Option,
  none, some, List, [], ◌∷◌, ◌++◌, replicate, get_elem?, set,
}
use griefly.Prelude.Int.{ℤ, pos, negsuc, ◌+ℤ◌, ◌-ℤ◌, ◌*ℤ◌, ◌/ℤ◌, ◌%ℤ◌, ◌==ℤ◌, ltb_ℤ, leb_ℤ, abs}
use griefly.Geometry.{Vector}
use griefly.Objects.{◌>>=◌}

pub record MapInterface : Type 0 where
  pub width : ℕ
  pub height : ℕ
  pub depth : ℕ
  pub is_transparent : ℤ → ℤ → ℤ → Bool

abbrev pub ray_multiplier : ℤ
ray_multiplier = pos 2

abbrev pub size_sq : ℤ
size_sq = pos 12

-- PosToCorner
abbrev pub pos_to_corner : ℤ → ℤ
pos_to_corner p = p *ℤ ray_multiplier

-- CornerToPos
abbrev pub corner_to_pos : ℤ → ℤ
corner_to_pos c = c /ℤ ray_multiplier

-- Sign
unfoldable pub sign : ℤ → ℤ
sign value = if ltb_ℤ (pos 0) value then pos 1 else if ltb_ℤ value (pos 0) then negsuc 0 else pos 0

-- CornerPointToPoint
abbrev pub corner_point_to_point : Vector → Vector
corner_point_to_point p = record {
  x = corner_to_pos p.x;
  y = corner_to_pos p.y;
  z = corner_to_pos p.z;
}

abbrev pub is_even : ℤ → Bool
is_even a = (a %ℤ ray_multiplier) ==ℤ pos 0

abbrev pub in_range : ℤ → ℕ → Bool
in_range a size = leb_ℤ (pos 0) a && ltb_ℤ a (pos size)

-- The loop of BresenX, and of BresenY with the coordinates swapped: `clear` is whether the ray passes
-- a point, `delta` and `deltaerr` the distances along and across, `incrstep` and `deltastep` the steps.
unfoldable pub bresen : (ℤ → ℤ → Bool) → ℤ → ℤ → ℤ → ℤ → ℤ → ℕ → ℤ → ℤ → ℤ → Option Bool
bresen clear target delta deltaerr incrstep deltastep zero x y error = none
bresen clear target delta deltaerr incrstep deltastep (suc fuel) x y error =
    let next_error = error +ℤ deltaerr in
    let is_over = leb_ℤ delta next_error in
    let rest =
      bresen clear target delta deltaerr incrstep deltastep fuel (x +ℤ incrstep)
        (if is_over then y +ℤ deltastep else y)
        (if is_over then next_error -ℤ delta else next_error) in
    if x ==ℤ target then some true else if clear x y then rest else some false

module _ (map : MapInterface) where
  -- CheckBorders
  unfoldable pub check_borders : Vector → Bool
  check_borders p = in_range p.x map.width && in_range p.y map.height && in_range p.z map.depth

  -- CheckCorner
  abbrev pub check_corner : Vector → Bool
  unfolding check_borders
  check_corner p = check_borders (corner_point_to_point p)

  -- LosCalculator::Istransparent
  abbrev pub sees : ℤ → ℤ → ℤ → Bool
  sees x y z = map.is_transparent (corner_to_pos x) (corner_to_pos y) (corner_to_pos z)

  -- The tests of a point in BresenX and BresenY, with the steps to the target along both axes.
  unfoldable pub is_clear : ℤ → ℤ → ℤ → ℤ → ℤ → Bool
  is_clear z step_x step_y x y =
      if is_even x && is_even y
      then sees (x +ℤ step_x) y z || sees x (y +ℤ step_y) z
      else if is_even x
      then sees (x -ℤ step_x) y z && sees (x +ℤ step_x) y z
      else if is_even y
      then sees x (y -ℤ step_y) z && sees x (y +ℤ step_y) z
      else sees x y z

  unfoldable pub bresen_x : Vector → Vector → Option Bool
  bresen_x source target =
      let delta_x = abs (source.x -ℤ target.x) in
      let deltaerr = abs (source.y -ℤ target.y) in
      let deltastep = sign (target.y -ℤ source.y) in
      let incrstep = sign (target.x -ℤ source.x) in
      bresen (λ x y. is_clear source.z incrstep deltastep x y) target.x (pos delta_x) (pos deltaerr)
        incrstep deltastep (suc delta_x) source.x source.y (pos 0)

  unfoldable pub bresen_y : Vector → Vector → Option Bool
  bresen_y source target =
      let delta_y = abs (source.y -ℤ target.y) in
      let deltaerr = abs (source.x -ℤ target.x) in
      let deltastep = sign (target.x -ℤ source.x) in
      let incrstep = sign (target.y -ℤ source.y) in
      bresen (λ y x. is_clear source.z deltastep incrstep x y) target.y (pos delta_y) (pos deltaerr)
        incrstep deltastep (suc delta_y) source.y source.x (pos 0)

  -- RayTrace
  unfoldable pub ray_trace : Vector → Vector → Option Bool
  ray_trace source target =
      if ltb (abs (source.y -ℤ target.y)) (abs (source.x -ℤ target.x))
      then bresen_x source target
      else bresen_y source target

abbrev pub visible_tiles_size : ℕ
visible_tiles_size = 4 * (12 + 2) * (12 + 2)

-- The list of visible points, and the array of what is in it.
pub record Seen : Type 0 where
  pub retlist : List Vector
  pub visibility : List ℕ

abbrev pub nothing_seen : Seen
nothing_seen = record { retlist = []; visibility = replicate visible_tiles_size 0 }

abbrev pub vis_idx : Vector → Vector → ℤ
vis_idx center p = pos 2 *ℤ size_sq *ℤ (p.x -ℤ center.x +ℤ size_sq) +ℤ (p.y -ℤ center.y +ℤ size_sq)

abbrev pub offset : Vector → ℤ → ℤ → Vector
offset at dx dy = record { x = at.x +ℤ dx; y = at.y +ℤ dy; z = at.z }

-- A loop over an int: so many rounds from a value on.
unfoldable pub for_each : ℕ → ℤ → (ℤ → Seen → Option Seen) → Seen → Option Seen
for_each zero i body s = some s
for_each (suc n) i body s = body i s >>= for_each n (i +ℤ pos 1) body

module _ (map : MapInterface) where
  -- MarkTilesOfCornerAsVisible, a tile
  unfoldable pub mark_tile : Vector → Vector → Seen → Option Seen
  mark_tile center p s = if not (check_borders map p) then some s else elim (vis_idx center p) [
    | negsuc n ↦ some s
    | pos n ↦ elim (get_elem? s.visibility n) [
      | none ↦ none
      | some v ↦
          if v == 1
          then some s
          else some (record { retlist = s.retlist ++ (p ∷ []); visibility = set s.visibility n 1 })
    ]
  ]

  -- MarkTilesOfCornerAsVisible
  unfoldable pub mark_tiles_of_corner_as_visible : Vector → Vector → Seen → Option Seen
  mark_tiles_of_corner_as_visible at center =
      for_each 2 (negsuc 0) (λ dx. for_each 2 (negsuc 0) (λ dy. mark_tile center (offset at dx dy)))

  -- Calculate, a corner
  unfoldable pub look_at : Vector → Vector → Seen → Option Seen
  look_at source p s =
      if not (check_corner map p)
      then some s
      else (ray_trace map source p >>= λ free.
          if free
          then mark_tiles_of_corner_as_visible (corner_point_to_point p)
              (corner_point_to_point source) s
          else some s)

  abbrev pub source_of : Vector → Vector
  source_of at = record {
    x = pos_to_corner at.x +ℤ pos 1;
    y = pos_to_corner at.y +ℤ pos 1;
    z = pos_to_corner at.z +ℤ pos 1;
  }

  abbrev pub corner_of : Vector → ℤ → ℤ → Vector
  corner_of at i j = record {
    x = pos_to_corner (at.x +ℤ i);
    y = pos_to_corner (at.y +ℤ j);
    z = pos_to_corner at.z;
  }

  -- Calculate
  unfoldable pub calculate : Vector → Option Seen
  calculate at =
      for_each 24 (negsuc 11)
        (λ i. for_each 24 (negsuc 11) (λ j. look_at (source_of at) (corner_of at i j))) nothing_seen
