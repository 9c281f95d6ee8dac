-- ===== src/Examples/Space.antt =====
-- Directions and vectors: sources/core/KvGlobals.h.
use griefly.Prelude.{◌≡◌, refl, some}
use griefly.Prelude.Int.{pos, negsuc}
use griefly.Geometry.{Dir, index, dir_vectors, Vector, vd_left, dir_to_vdir}

abbrev push : Vector
push = record { x = negsuc 4; y = pos 3; z = pos 0 }

dir_to_vdir-west : dir_to_vdir Dir.west ≡ some vd_left
unfolding dir_to_vdir index dir_vectors
dir_to_vdir-west = refl
