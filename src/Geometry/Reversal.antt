-- ===== src/Geometry/Reversal.antt =====
-- RevertDir and DirToVDir of sources/core/KvGlobals.h: opposite directions.
use griefly.Prelude.{◌≡◌, refl, true, arith}
use griefly.Prelude.Int.{ℤ, negsuc, ◌*ℤ◌, ◌+ℤ◌, int_laws}
use griefly.Geometry.{Dir, Vector, revert_dir, dir_to_vdir, scale, sub, is_zero}
use mathlib.Core.Option

-- Reverting a direction twice gives it back.
pub revert_dir-revert_dir : (d : Dir) → revert_dir (revert_dir d) ≡ d
unfolding revert_dir
revert_dir-revert_dir d = ground arith

-- The vector of the reverted direction is the vector of the direction times -1, and the one lookup
-- is out of the table exactly when the other is.
pub dir_to_vdir-revert_dir :
    (d : Dir) → dir_to_vdir (revert_dir d) ≡ Option.map (λ v. scale v (negsuc 0)) (dir_to_vdir d)
unfolding dir_to_vdir revert_dir scale ◌*ℤ◌
dir_to_vdir-revert_dir Dir.all = refl
dir_to_vdir-revert_dir _ = refl

cancel : (a : ℤ) → a +ℤ (a *ℤ negsuc 0) ≡ ℤ.pos 0
cancel a = omega int_laws

-- A vector less itself is zero.
pub sub_self : (v : Vector) → is_zero (sub v v) ≡ true
unfolding is_zero sub
sub_self v = rw (cancel v.x, cancel v.y, cancel v.z)
