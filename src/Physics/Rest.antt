-- ===== src/Physics/Rest.antt =====
-- A movable that moves freely over a floor with friction comes to rest.
use griefly.Prelude.{
  ℕ, zero, suc, ◌+◌, ◌*◌, ◌<◌, ◌≡◌, ◌⊎◌, inl, inr, refl, sym, ap, ◌∙◌, arith, Bool-cases, true,
  false, Option, none, some,
}
use griefly.Prelude.Int.{◌≤ℤ◌, ◌*ℤ◌, abs, int_laws, parts_apart}
use griefly.Geometry.{
  Dir, Vector, add, sub, scale, is_non_zero, projection_to_dir, dir_to_vdir, index, dir_vectors,
  vd_left, vd_right, vd_up, vd_down,
}
use mathlib.Core.Option.{some-injective}
use griefly.Physics.{Motion, Step, force_unit, process_force, take_step, is_all}
use griefly.Physics.Ticks.{IsPlane, IsWeak, UnitStep, process_force_tick_exact}

-- How much force there is in the plane.
abbrev pub strength : Vector → ℕ
strength f = abs f.x + abs f.y

-- n ticks in which every move succeeds and the turf has friction.
pub drift : ℕ → Motion → Option Motion
drift zero m = some m
drift (suc n) m = elim (process_force true true m) [ none ↦ none | some m' ↦ drift n m' ]

left_weakens :
    (f : Vector)
    → force_unit ≤ℤ projection_to_dir f Dir.west
    → strength (sub f (scale vd_left force_unit)) + 100 ≡ strength f
unfolding projection_to_dir sub scale add
left_weakens f strong = grind (int_laws, parts_apart f.x, parts_apart f.y)

right_weakens :
    (f : Vector)
    → force_unit ≤ℤ projection_to_dir f Dir.east
    → strength (sub f (scale vd_right force_unit)) + 100 ≡ strength f
unfolding projection_to_dir sub scale add
right_weakens f strong = grind (int_laws, parts_apart f.x, parts_apart f.y)

up_weakens :
    (f : Vector)
    → force_unit ≤ℤ projection_to_dir f Dir.north
    → strength (sub f (scale vd_up force_unit)) + 100 ≡ strength f
unfolding projection_to_dir sub scale add
up_weakens f strong = grind (int_laws, parts_apart f.x, parts_apart f.y)

down_weakens :
    (f : Vector)
    → force_unit ≤ℤ projection_to_dir f Dir.south
    → strength (sub f (scale vd_down force_unit)) + 100 ≡ strength f
unfolding projection_to_dir sub scale add
down_weakens f strong = grind (int_laws, parts_apart f.x, parts_apart f.y)

-- The same, for a direction known to be one that has the vector.
through :
    (f v w : Vector) (d e : Dir)
    → d ≡ e
    → dir_to_vdir e ≡ some w
    → (force_unit ≤ℤ projection_to_dir f e
        → strength (sub f (scale w force_unit)) + 100 ≡ strength f)
    → dir_to_vdir d ≡ some v
    → force_unit ≤ℤ projection_to_dir f d
    → strength (sub f (scale v force_unit)) + 100 ≡ strength f
through f v w d e same known weakens found strong =
    let equal = some-injective v w (sym found ∙ ap dir_to_vdir same ∙ known) in
    rw equal (weakens (rw (← same) strong))

-- A step that is taken off the force takes a unit off its strength.
strength-sub :
    (f v : Vector) (d : Dir)
    → IsPlane d
    → dir_to_vdir d ≡ some v
    → force_unit ≤ℤ projection_to_dir f d
    → strength (sub f (scale v force_unit)) + 100 ≡ strength f
unfolding dir_to_vdir index dir_vectors IsPlane
strength-sub f v d (inl e) = through f v vd_left d Dir.west e refl (left_weakens f)
strength-sub f v d (inr (inl e)) = through f v vd_right d Dir.east e refl (right_weakens f)
strength-sub f v d (inr (inr (inl e))) = through f v vd_up d Dir.north e refl (up_weakens f)
strength-sub f v d (inr (inr (inr e))) = through f v vd_down d Dir.south e refl (down_weakens f)

IsStrong : Motion → Type 0
IsStrong m =
    (force_unit ≤ℤ projection_to_dir m.force m.main)
    ⊎ (force_unit ≤ℤ projection_to_dir m.force m.secondary)

-- What a free tick does: nothing to a force without a whole unit, and else a unit less.
record Tick (m n : Motion) : Type 0 where
  same_main : n.main ≡ m.main
  same_secondary : n.secondary ≡ m.secondary
  effect :
      (n.force ≡ m.force) × IsWeak m.force m.main m.secondary
      ⊎ (strength n.force + 100 ≡ strength m.force) × IsStrong m

zero-IsWeak :
    (f : Vector) (a b : Dir) → is_non_zero f ≡ false → IsPlane a → IsPlane b → IsWeak f a b
unfolding is_non_zero projection_to_dir IsPlane ◌*ℤ◌
zero-IsWeak f a b h ha hb = (ground arith, ground arith)

moving : (d : Dir) → IsPlane d → is_all d ≡ false
unfolding is_all IsPlane
moving d h = ground arith

stopped-Tick :
    (m : Motion) (s : Step)
    → s.dir ≡ Dir.all
    → IsWeak m.force m.main m.secondary
    → Tick m (take_step true true s m)
unfolding take_step is_all
stopped-Tick m s stop weak =
    rw (ap is_all stop)
      (record { same_main = refl; same_secondary = refl; effect = inl (refl, weak) })

moving-Tick :
    (m : Motion) (s : Step)
    → IsPlane s.dir
    → IsStrong m
    → UnitStep m.force s
    → Tick m (take_step true true s m)
unfolding take_step
moving-Tick m s plane strong (enough, (v, found, step)) = rw (moving s.dir plane) (record {
  same_main = refl;
  same_secondary = refl;
  effect = inr (rw step (strength-sub m.force v s.dir plane found enough), strong);
})

step-Tick :
    (m : Motion) (s : Step)
    → IsPlane m.main
    → IsPlane m.secondary
    → (s.dir ≡ Dir.all) × IsWeak m.force m.main m.secondary
      ⊎ ((s.dir ≡ m.main) ⊎ (s.dir ≡ m.secondary)) × UnitStep m.force s
    → Tick m (take_step true true s m)
unfolding IsStrong
step-Tick m s hm hs (inl (stop, weak)) = stopped-Tick m s stop weak
step-Tick m s hm hs (inr (inl d, unit)) = moving-Tick m s (rw d hm) (inl (rw (← d) unit.0)) unit
step-Tick m s hm hs (inr (inr d, unit)) = moving-Tick m s (rw d hs) (inr (rw (← d) unit.0)) unit

free-Tick :
    (m : Motion)
    → IsPlane m.main
    → IsPlane m.secondary
    → (n : Motion) × (process_force true true m ≡ some n) × Tick m n
unfolding process_force
free-Tick m hm hs = elim (Bool-cases (is_non_zero m.force)) [
  | inr still ↦ (
    m,
    rw still refl,
    record {
      same_main = refl;
      same_secondary = refl;
      effect = inl (refl, zero-IsWeak m.force m.main m.secondary still hm hs);
    },
  )
  | inl pushed ↦
      let (s, found, ends) = process_force_tick_exact m hm hs in
      (take_step true true s m, rw (pushed, found) refl, step-Tick m s hm hs ends)
]

-- Enough ticks for the strength, or none are needed.
Enough : ℕ → Motion → Type 0
Enough k m = (strength m.force < k * 100) ⊎ IsWeak m.force m.main m.secondary

Enough-next : (k : ℕ) (m n : Motion) → Tick m n → Enough (suc k) m → Enough k n
unfolding Enough IsStrong
Enough-next k m n t e = elim t.effect [
  | inl (same, weak) ↦ inr (rw (same, t.same_main, t.same_secondary) weak)
  | inr (less, strong) ↦ elim e [
    | inl few ↦ inl (omega (arith, less, few))
    | inr weak ↦ elim strong [
      | inl a ↦ absurd (omega (arith, a, weak.0))
      | inr b ↦ absurd (omega (arith, b, weak.1))
    ]
  ]
]

drift-suc :
    (k : ℕ) (m n : Motion) → process_force true true m ≡ some n → drift (suc k) m ≡ drift k n
unfolding drift
drift-suc k m n e = grind (arith, e)

drift_ends :
    (k : ℕ) (m : Motion)
    → IsPlane m.main
    → IsPlane m.secondary
    → Enough k m
    → (n : Motion) × (drift k m ≡ some n) × IsWeak n.force n.main n.secondary
unfolding drift Enough
drift_ends zero m hm hs (inl e) = absurd (omega (arith, e))
drift_ends zero m hm hs (inr weak) = (m, refl, weak)
drift_ends (suc k) m hm hs e =
    let (n, found, t) = free-Tick m hm hs in
    let (last, rest, weak) =
      drift_ends k n (rw t.same_main hm) (rw t.same_secondary hs) (Enough-next k m n t e) in
    (last, drift-suc k m n found ∙ rest, weak)

-- A movable whose force has two directions of the plane, and which moves freely in every tick over turfs
-- with friction, comes to rest: after any number of ticks of which each unit of the force's two
-- components together is less, no whole unit is left in either direction.
pub comes_to_rest :
    (k : ℕ) (m : Motion)
    → IsPlane m.main
    → IsPlane m.secondary
    → strength m.force < k * 100
    → (n : Motion) × (drift k m ≡ some n) × IsWeak n.force n.main n.secondary
unfolding Enough
comes_to_rest k m hm hs e = drift_ends k m hm hs (inl e)
