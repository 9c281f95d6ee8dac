-- ===== src/Geometry.antt =====
-- Directions and vectors: sources/core_headers/Dir.h and the geometry of sources/core/KvGlobals.h.
-- A table lookup out of the table's range is undefined behaviour in C++, and `none` here.
pub mod Reversal
pub mod Projection
use griefly.Prelude.{ℕ, ◌+◌, ◌≡◌, refl, Bool, ◌&&◌, ◌||◌, not, true, false, Option, some, none}
use griefly.Prelude.{if◌then◌else◌, ltb, leb, List, [], ◌∷◌, get_elem?}
use griefly.Prelude.Int.{ℤ, pos, negsuc, ◌+ℤ◌, ◌*ℤ◌, ◌==ℤ◌, ltb_ℤ, leb_ℤ, abs}

pub data Dir : Type 0 where
  all west east north south up down southeast southwest northeast northwest : Dir

pub Dir-discrete : Discrete Dir
Dir-discrete = hlevel

-- static_cast<int>(dir): the enum's values.
unfoldable pub index : Dir → ℤ
index all = negsuc 0
index west = pos 0
index east = pos 1
index north = pos 2
index south = pos 3
index up = pos 4
index down = pos 5
index southeast = pos 6
index southwest = pos 7
index northeast = pos 8
index northwest = pos 9

pub record Vector : Type 0 where
  pub x : ℤ
  pub y : ℤ
  pub z : ℤ

abbrev pub zero_vector : Vector
zero_vector = record { x = pos 0; y = pos 0; z = pos 0 }

-- operator+= and operator+
unfoldable pub add : Vector → Vector → Vector
add v w = record { x = v.x +ℤ w.x; y = v.y +ℤ w.y; z = v.z +ℤ w.z }

-- operator*= and operator*
unfoldable pub scale : Vector → ℤ → Vector
scale v k = record { x = v.x *ℤ k; y = v.y *ℤ k; z = v.z *ℤ k }

-- operator-= and operator-: the right side, multiplied by -1, is added.
unfoldable pub sub : Vector → Vector → Vector
unfolding add scale
sub v w = add v (scale w (negsuc 0))

unfoldable pub is_non_zero : Vector → Bool
is_non_zero v = not (v.x ==ℤ pos 0) || not (v.y ==ℤ pos 0) || not (v.z ==ℤ pos 0)

unfoldable pub is_zero : Vector → Bool
unfolding is_non_zero
is_zero v = not (is_non_zero v)

abbrev pub vd_left : Vector
vd_left = record { x = negsuc 0; y = pos 0; z = pos 0 }

abbrev pub vd_right : Vector
vd_right = record { x = pos 1; y = pos 0; z = pos 0 }

abbrev pub vd_up : Vector
vd_up = record { x = pos 0; y = negsuc 0; z = pos 0 }

abbrev pub vd_down : Vector
vd_down = record { x = pos 0; y = pos 1; z = pos 0 }

abbrev pub vd_zup : Vector
vd_zup = record { x = pos 0; y = pos 0; z = pos 1 }

abbrev pub vd_zdown : Vector
vd_zdown = record { x = pos 0; y = pos 0; z = negsuc 0 }

unfoldable pub dir_vectors : List Vector
dir_vectors = vd_left ∷ vd_right ∷ vd_up ∷ vd_down ∷ vd_zup ∷ vd_zdown ∷ []

-- A C array at an index: out of range there is nothing to read.
abbrev pub read {ℓ} : {A : Type ℓ} → List A → ℤ → Option A
read xs (pos i) = get_elem? xs i
read xs (negsuc i) = none

unfoldable pub dir_to_vdir : Dir → Option Vector
unfolding index dir_vectors
dir_to_vdir d = read dir_vectors (index d)

abbrev dir_to_byond_table : List ℕ
dir_to_byond_table = 3 ∷ 2 ∷ 1 ∷ 0 ∷ 3 ∷ 3 ∷ 4 ∷ 5 ∷ 6 ∷ 7 ∷ []

dir_to_byond : Dir → Option ℕ
unfolding index
dir_to_byond d = read dir_to_byond_table (index d)

unfoldable pub projection_to_dir : Vector → Dir → ℤ
projection_to_dir v west = negsuc 0 *ℤ v.x
projection_to_dir v east = v.x
projection_to_dir v north = negsuc 0 *ℤ v.y
projection_to_dir v south = v.y
projection_to_dir v _ = pos 0

pub vdir_to_dir : Vector → Dir
vdir_to_dir v =
    if ltb (abs v.y) (abs v.x) && ltb (abs v.z) (abs v.x)
    then (if ltb_ℤ (pos 0) v.x then east else west)
    else if leb (abs v.z) (abs v.y)
    then (if leb_ℤ (pos 0) v.y then south else north)
    else (if ltb_ℤ (pos 0) v.z then up else down)

unfoldable pub revert_dir : Dir → Dir
revert_dir all = all
revert_dir north = south
revert_dir south = north
revert_dir west = east
revert_dir east = west
revert_dir up = down
revert_dir down = up
revert_dir northeast = southwest
revert_dir southwest = northeast
revert_dir southeast = northwest
revert_dir northwest = southeast
