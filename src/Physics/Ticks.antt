-- ===== src/Physics/Ticks.antt =====
-- What a force does in one tick, and how directions follow a force.
use griefly.Prelude.{
  ℕ, ◌*◌, ◌/◌, ◌≤◌, ◌≡◌, ◌⊎◌, inl, inr, refl, ap, ◌∙◌, arith, Bool-cases, ltb, true, false, some,
  max, min,
}
use griefly.Prelude.Int.{ℤ, pos, ◌≤ℤ◌, ◌<ℤ◌, ◌*ℤ◌, ◌/ℤ◌, abs, ltb_ℤ, leb_ℤ}
use griefly.Geometry.{
  Dir, Vector, add, zero_vector, projection_to_dir, dir_to_vdir, scale, index, dir_vectors, vd_left,
  vd_right, vd_up, vd_down,
}
use griefly.Physics.{
  Motion, Step, Choice, choose, unit_step, try_step, force_unit, error_scale, process_force_tick,
  horizontal, vertical, apply_force,
}

-- A direction of the plane: those that ApplyForce chooses, and those of a new Movable.
unfoldable pub IsPlane : Dir → Type 0
IsPlane d = (d ≡ Dir.west) ⊎ (d ≡ Dir.east) ⊎ (d ≡ Dir.north) ⊎ (d ≡ Dir.south)

unit_step-some :
    (d : Dir) (error : ℤ)
    → IsPlane d
    → (v : Vector) × (dir_to_vdir d ≡ some v)
      × (unit_step d error ≡ some (record { dir = d; vector = scale v force_unit; error = error }))
unfolding unit_step dir_to_vdir index dir_vectors IsPlane
unit_step-some d error (inl e) = (vd_left, rw e refl, rw e refl)
unit_step-some d error (inr (inl e)) = (vd_right, rw e refl, rw e refl)
unit_step-some d error (inr (inr (inl e))) = (vd_up, rw e refl, rw e refl)
unit_step-some d error (inr (inr (inr e))) = (vd_down, rw e refl, rw e refl)

-- A step of one unit in a direction in which the force has as much.
abbrev pub UnitStep : Vector → Step → Type 0
UnitStep force s =
    (force_unit ≤ℤ projection_to_dir force s.dir)
    × ((v : Vector) × (dir_to_vdir s.dir ≡ some v) × (s.vector ≡ scale v force_unit))

-- There is nowhere to go.
abbrev pub IsWeak : Vector → Dir → Dir → Type 0
IsWeak force a b =
    (projection_to_dir force a <ℤ force_unit) × (projection_to_dir force b <ℤ force_unit)

as_unit :
    (force : Vector) (d : Dir) (error : ℤ)
    → IsPlane d
    → force_unit ≤ℤ projection_to_dir force d
    → (s : Step) × (unit_step d error ≡ some s) × (s.dir ≡ d) × UnitStep force s
as_unit force d error h strong =
    let (v, found, step) = unit_step-some d error h in
    (
      record { dir = d; vector = scale v force_unit; error = error },
      step,
      refl,
      (strong, (v, found, refl)),
    )

try_step_exact :
    (force : Vector) (c : Choice)
    → IsPlane c.first
    → IsPlane c.other
    → (s : Step) × (try_step force c ≡ some s)
      × ((s.dir ≡ Dir.all) × IsWeak force c.first c.other
          ⊎ ((s.dir ≡ c.first) ⊎ (s.dir ≡ c.other)) × UnitStep force s)
unfolding try_step
try_step_exact force c hf ho =
    elim (Bool-cases (ltb_ℤ (projection_to_dir force c.first) force_unit)) [
      | inr strong ↦
          let (s, found, dir, unit) = as_unit force c.first c.error hf (ground (arith, strong)) in
          (s, rw strong found, inr (inl dir, unit))
      | inl weak ↦ elim (Bool-cases (leb_ℤ force_unit (projection_to_dir force c.other))) [
        | inl strong ↦
            let (s, found, dir, unit) = as_unit force c.other (pos 0) ho (ground (arith, strong)) in
            (s, rw (weak, strong) found, inr (inr dir, unit))
        | inr weaker ↦ (
          record { dir = Dir.all; vector = zero_vector; error = pos 0 },
          rw (weak, weaker) refl,
          inl (refl, (ground (arith, weak), ground (arith, weaker))),
        )
      ]
    ]

choose_cases :
    (m : Motion)
    → ((choose m).first ≡ m.main) × ((choose m).other ≡ m.secondary)
      ⊎ ((choose m).first ≡ m.secondary) × ((choose m).other ≡ m.main)
unfolding choose
choose_cases m = ground arith

Ends : Vector → Dir → Dir → Step → Type 0
Ends force a b s =
    (s.dir ≡ Dir.all) × IsWeak force a b ⊎ ((s.dir ≡ a) ⊎ (s.dir ≡ b)) × UnitStep force s

-- The order of the two directions does not matter.
reorder :
    (force : Vector) (s : Step) (p q a b : Dir)
    → (p ≡ a) × (q ≡ b) ⊎ (p ≡ b) × (q ≡ a)
    → Ends force p q s
    → Ends force a b s
unfolding Ends
reorder force s p q a b (inl (e, f)) (inl (stop, weak)) =
    inl (stop, (rw (← e) weak.0, rw (← f) weak.1))
reorder force s p q a b (inr (e, f)) (inl (stop, weak)) =
    inl (stop, (rw (← f) weak.1, rw (← e) weak.0))
reorder force s p q a b (inl (e, f)) (inr (inl d, unit)) = inr (inl (d ∙ e), unit)
reorder force s p q a b (inl (e, f)) (inr (inr d, unit)) = inr (inr (d ∙ f), unit)
reorder force s p q a b (inr (e, f)) (inr (inl d, unit)) = inr (inr (d ∙ e), unit)
reorder force s p q a b (inr (e, f)) (inr (inr d, unit)) = inr (inl (d ∙ f), unit)

-- The directions are of the plane in either order.
ordered :
    (p q a b : Dir)
    → (p ≡ a) × (q ≡ b) ⊎ (p ≡ b) × (q ≡ a)
    → IsPlane a
    → IsPlane b
    → IsPlane p × IsPlane q
ordered p q a b (inl (e, f)) ha hb = (rw e ha, rw f hb)
ordered p q a b (inr (e, f)) ha hb = (rw e hb, rw f ha)

-- When the two directions of a motion are of the plane, ProcessForceTick returns: a
-- step of one unit in one of them in which the force has a whole unit, or no step, and then the force
-- has no whole unit in either.
pub process_force_tick_exact :
    (m : Motion)
    → IsPlane m.main
    → IsPlane m.secondary
    → (s : Step) × (process_force_tick m ≡ some s)
      × ((s.dir ≡ Dir.all) × IsWeak m.force m.main m.secondary
          ⊎ ((s.dir ≡ m.main) ⊎ (s.dir ≡ m.secondary)) × UnitStep m.force s)
unfolding process_force_tick Ends
process_force_tick_exact m hm hs =
    let c = choose m in
    let order = choose_cases m in
    let planes = ordered c.first c.other m.main m.secondary order hm hs in
    let (s, found, ends) = try_step_exact m.force c planes.0 planes.1 in
    (s, found, reorder m.force s c.first c.other m.main m.secondary order ends)

IsPlane-horizontal : (f : Vector) → IsPlane (horizontal f)
unfolding horizontal IsPlane
IsPlane-horizontal f = ground arith

IsPlane-vertical : (f : Vector) → IsPlane (vertical f)
unfolding vertical IsPlane
IsPlane-vertical f = ground arith

share_of_scale : (a b : ℕ) → a ≤ b → (a * 2048) / max 1 b ≤ 2048
share_of_scale a b h = grind arith

projection-horizontal : (f : Vector) → projection_to_dir f (horizontal f) ≡ pos (abs f.x)
unfolding horizontal projection_to_dir ◌*ℤ◌
projection-horizontal f = ground arith

projection-vertical : (f : Vector) → projection_to_dir f (vertical f) ≡ pos (abs f.y)
unfolding vertical projection_to_dir ◌*ℤ◌
projection-vertical f = ground arith

error_range :
    (a b : ℕ)
    → let e = (pos (min a b) *ℤ error_scale) /ℤ pos (max 1 (max a b)) in
      (pos 0 ≤ℤ e) × (e ≤ℤ error_scale)
unfolding ◌*ℤ◌ ◌/ℤ◌
error_range a b =
    let bound = share_of_scale (min a b) (max a b) (omega arith) in (ground arith, ground arith)

larger_right : (a b : ℕ) → ltb a b ≡ true → b ≡ max a b
larger_right a b h = ground arith

smaller_left : (a b : ℕ) → ltb a b ≡ true → a ≡ min a b
smaller_left a b h = ground arith

larger_left : (a b : ℕ) → ltb a b ≡ false → a ≡ max a b
larger_left a b h = ground arith

smaller_right : (a b : ℕ) → ltb a b ≡ false → b ≡ min a b
smaller_right a b h = ground arith

-- After ApplyForce the main direction is one in which the force points furthest,
-- the secondary one that of the other component, both are of the plane, and the error per step
-- is between 0 and its scale.
apply_force_steers :
    (addition : Vector) (m : Motion)
    → let n = apply_force addition m in
      IsPlane n.main
      × IsPlane n.secondary
      × (projection_to_dir n.force n.main ≡ pos (max (abs n.force.x) (abs n.force.y)))
      × (projection_to_dir n.force n.secondary ≡ pos (min (abs n.force.x) (abs n.force.y)))
      × (pos 0 ≤ℤ n.error_per_main)
      × (n.error_per_main ≤ℤ error_scale)
unfolding apply_force
apply_force_steers addition m =
    let f = add m.force addition in
    let px = projection-horizontal f in
    let py = projection-vertical f in
    let range = error_range (abs f.x) (abs f.y) in
    elim (Bool-cases (ltb (abs f.x) (abs f.y))) [
      | inl swapped ↦ rw swapped (
        IsPlane-vertical f,
        IsPlane-horizontal f,
        py ∙ ap pos (larger_right _ _ swapped),
        px ∙ ap pos (smaller_left _ _ swapped),
        range.0,
        range.1,
      )
      | inr kept ↦ rw kept (
        IsPlane-horizontal f,
        IsPlane-vertical f,
        px ∙ ap pos (larger_left _ _ kept),
        py ∙ ap pos (smaller_right _ _ kept),
        range.0,
        range.1,
      )
    ]
