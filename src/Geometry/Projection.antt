-- ===== src/Geometry/Projection.antt =====
-- VDirToDir and ProjectionToDir of sources/core/KvGlobals.h.
use griefly.Prelude.{ℕ, suc, ◌≡◌, some, max, arith}
use griefly.Prelude.Int.{pos, ◌*ℤ◌, abs}
use griefly.Geometry.{Dir, Vector, vdir_to_dir, dir_to_vdir, projection_to_dir, scale}

-- Of a vector in the plane the direction found is the one in which it points furthest: its
-- projection there is the larger of the two components' absolute values.
pub projection_to_dir-vdir_to_dir :
    (v : Vector) → v.z ≡ pos 0 → projection_to_dir v (vdir_to_dir v) ≡ pos (max (abs v.x) (abs v.y))
unfolding projection_to_dir vdir_to_dir ◌*ℤ◌
projection_to_dir-vdir_to_dir v flat = ground arith

-- A positive multiple of a direction's vector leads back to the direction.
pub vdir_to_dir-dir_to_vdir :
    (d : Dir) (v : Vector) (k : ℕ)
    → dir_to_vdir d ≡ some v
    → vdir_to_dir (scale v (pos (suc k))) ≡ d
unfolding dir_to_vdir vdir_to_dir scale ◌*ℤ◌
vdir_to_dir-dir_to_vdir d v k h = ground arith
