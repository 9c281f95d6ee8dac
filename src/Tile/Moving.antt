-- ===== src/Tile/Moving.antt =====
-- MoveToDir, and GetNeighbourImpl with it: where the neighbour of a tile is on a map of a size.
use griefly.Prelude.{
  refl, ap, ◌∙◌, Option-cases, ◌≡◌, ◌⊎◌, inl, inr, ◌||◌, if◌then◌else◌, Option, none, some, arith,
}
use griefly.Prelude.Int.{ℤ, pos, negsuc, ◌+ℤ◌, ◌-ℤ◌, ◌≤ℤ◌, ◌<ℤ◌, leb_ℤ, int_laws, parts_of}
use griefly.Geometry.{Dir, Vector, index, dir_vectors, dir_to_vdir, revert_dir}

-- A coordinate by a step, and back when that leads off the map.
unfoldable pub move_coordinate : ℤ → ℤ → ℤ → ℤ
move_coordinate size step x =
    let moved = x +ℤ step in
    if leb_ℤ size moved || leb_ℤ moved (negsuc 0) then moved -ℤ step else moved

-- A position, and the size of the map, is three numbers.
unfoldable pub move_by : Vector → Vector → Vector → Vector
unfolding move_coordinate
move_by size step p = record {
  x = move_coordinate size.x step.x p.x;
  y = move_coordinate size.y step.y p.y;
  z = move_coordinate size.z step.z p.z;
}

-- MoveToDir
unfoldable pub move_to_dir : Vector → Dir → Vector → Option Vector
move_to_dir size d p = elim (dir_to_vdir d) [ none ↦ none | some step ↦ some (move_by size step p) ]

pub record IsOnMap (size p : Vector) : Type 0 where
  pub x_low : pos 0 ≤ℤ p.x
  pub x_high : p.x <ℤ size.x
  pub y_low : pos 0 ≤ℤ p.y
  pub y_high : p.y <ℤ size.y
  pub z_low : pos 0 ≤ℤ p.z
  pub z_high : p.z <ℤ size.z

move_coordinate_range :
    (size step x : ℤ)
    → pos 0 ≤ℤ x
    → x <ℤ size
    → (pos 0 ≤ℤ move_coordinate size step x) × (move_coordinate size step x <ℤ size)
unfolding move_coordinate
move_coordinate_range size step x lo hi = grind int_laws

move_by-IsOnMap : (size step p : Vector) → IsOnMap size p → IsOnMap size (move_by size step p)
unfolding move_by
move_by-IsOnMap size step p h =
    let x = move_coordinate_range size.x step.x p.x h.x_low h.x_high in
    let y = move_coordinate_range size.y step.y p.y h.y_low h.y_high in
    let z = move_coordinate_range size.z step.z p.z h.z_low h.z_high in
    record { x_low = x.0; x_high = x.1; y_low = y.0; y_high = y.1; z_low = z.0; z_high = z.1 }

move_to_dir-some :
    (size p q : Vector) (d : Dir)
    → move_to_dir size d p ≡ some q
    → (step : Vector) × (dir_to_vdir d ≡ some step) × (q ≡ move_by size step p)
unfolding move_to_dir
move_to_dir-some size p q d e = elim (Option-cases (dir_to_vdir d)) [
  | inl h ↦ grind (arith, h)
  | inr (step, h) ↦ (step, h, grind (arith, h))
]

-- From a position on the map MoveToDir never leads off it, in any direction that has a vector.
move_to_dir-IsOnMap :
    (size p q : Vector) (d : Dir) → IsOnMap size p → move_to_dir size d p ≡ some q → IsOnMap size q
move_to_dir-IsOnMap size p q d h e =
    let (step, found, moved) = move_to_dir-some size p q d e in
    rw moved (move_by-IsOnMap size step p h)

-- A coordinate that no step moves stays, and one that a step moves a step back moves back.
stays : (size x : ℤ) → pos 0 ≤ℤ x → x <ℤ size → move_coordinate size (pos 0) x ≡ x
unfolding move_coordinate
stays size x lo hi = grind int_laws

back :
    (size x a b : ℤ)
    → a +ℤ b ≡ pos 0
    → pos 0 ≤ℤ x
    → x <ℤ size
    → (move_coordinate size a x ≡ x) ⊎ (move_coordinate size b (move_coordinate size a x) ≡ x)
unfolding move_coordinate
back size x a b e lo hi = let parts = parts_of e in grind int_laws

abbrev vec : ℤ → ℤ → ℤ → Vector
vec x y z = record { x = x; y = y; z = z }

-- A step and its opposite along one axis: the first is stopped at the edge, or the second undoes it.
Undone : Vector → Vector → Vector → Vector → Type 0
Undone size a b p = (move_by size a p ≡ p) ⊎ (move_by size b (move_by size a p) ≡ p)

along_x :
    (size p : Vector) (a b : ℤ)
    → a +ℤ b ≡ pos 0
    → IsOnMap size p
    → Undone size (vec a (pos 0) (pos 0)) (vec b (pos 0) (pos 0)) p
unfolding Undone move_by
along_x size p a b e h =
    let y = stays size.y p.y h.y_low h.y_high in
    let z = stays size.z p.z h.z_low h.z_high in
    elim (back size.x p.x a b e h.x_low h.x_high) [
      | inl same ↦ inl (rw (same, y, z) refl)
      | inr undone ↦ inr (rw (y, z) (rw (undone, y, z) refl))
    ]

along_y :
    (size p : Vector) (a b : ℤ)
    → a +ℤ b ≡ pos 0
    → IsOnMap size p
    → Undone size (vec (pos 0) a (pos 0)) (vec (pos 0) b (pos 0)) p
unfolding Undone move_by
along_y size p a b e h =
    let x = stays size.x p.x h.x_low h.x_high in
    let z = stays size.z p.z h.z_low h.z_high in
    elim (back size.y p.y a b e h.y_low h.y_high) [
      | inl same ↦ inl (rw (same, x, z) refl)
      | inr undone ↦ inr (rw (x, z) (rw (undone, x, z) refl))
    ]

along_z :
    (size p : Vector) (a b : ℤ)
    → a +ℤ b ≡ pos 0
    → IsOnMap size p
    → Undone size (vec (pos 0) (pos 0) a) (vec (pos 0) (pos 0) b) p
unfolding Undone move_by
along_z size p a b e h =
    let x = stays size.x p.x h.x_low h.x_high in
    let y = stays size.y p.y h.y_low h.y_high in
    elim (back size.z p.z a b e h.z_low h.z_high) [
      | inl same ↦ inl (rw (same, x, y) refl)
      | inr undone ↦ inr (rw (x, y) (rw (undone, x, y) refl))
    ]

move_to_dir-found :
    (size p step : Vector) (d : Dir)
    → dir_to_vdir d ≡ some step
    → move_to_dir size d p ≡ some (move_by size step p)
unfolding move_to_dir
move_to_dir-found size p step d e = grind (arith, e)

as_steps :
    (size p a b : Vector) (d : Dir)
    → dir_to_vdir d ≡ some a
    → dir_to_vdir (revert_dir d) ≡ some b
    → Undone size a b p
    → (move_to_dir size d p ≡ some p)
      ⊎ ((q : Vector) × (move_to_dir size d p ≡ some q)
          × (move_to_dir size (revert_dir d) q ≡ some p))
unfolding Undone
as_steps size p a b d ea eb u = elim u [
  | inl same ↦ inl (move_to_dir-found size p a d ea ∙ ap some same)
  | inr undone ↦ inr (
    move_by size a p,
    move_to_dir-found size p a d ea,
    move_to_dir-found size (move_by size a p) b (revert_dir d) eb ∙ ap some undone,
  )
]

-- From a position on the map a step in one of the six directions that have a vector is
-- stopped at the edge, or the step in the reverted direction undoes it.
pub move_to_dir-revert_dir :
    (size p : Vector) (d : Dir) (step : Vector)
    → IsOnMap size p
    → dir_to_vdir d ≡ some step
    → (move_to_dir size d p ≡ some p)
      ⊎ ((q : Vector) × (move_to_dir size d p ≡ some q)
          × (move_to_dir size (revert_dir d) q ≡ some p))
unfolding dir_to_vdir index dir_vectors revert_dir ◌+ℤ◌
move_to_dir-revert_dir size p Dir.west step h e =
    as_steps size p _ _ Dir.west refl refl (along_x size p (negsuc 0) (pos 1) refl h)
move_to_dir-revert_dir size p Dir.east step h e =
    as_steps size p _ _ Dir.east refl refl (along_x size p (pos 1) (negsuc 0) refl h)
move_to_dir-revert_dir size p Dir.north step h e =
    as_steps size p _ _ Dir.north refl refl (along_y size p (negsuc 0) (pos 1) refl h)
move_to_dir-revert_dir size p Dir.south step h e =
    as_steps size p _ _ Dir.south refl refl (along_y size p (pos 1) (negsuc 0) refl h)
move_to_dir-revert_dir size p Dir.up step h e =
    as_steps size p _ _ Dir.up refl refl (along_z size p (pos 1) (negsuc 0) refl h)
move_to_dir-revert_dir size p Dir.down step h e =
    as_steps size p _ _ Dir.down refl refl (along_z size p (negsuc 0) (pos 1) refl h)
move_to_dir-revert_dir size p Dir.all step h e = grind (arith, e)
move_to_dir-revert_dir size p Dir.southeast step h e = grind (arith, e)
move_to_dir-revert_dir size p Dir.southwest step h e = grind (arith, e)
move_to_dir-revert_dir size p Dir.northeast step h e = grind (arith, e)
move_to_dir-revert_dir size p Dir.northwest step h e = grind (arith, e)
