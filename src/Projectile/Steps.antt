-- ===== src/Projectile/Steps.antt =====
-- A projectile that nothing stops walks its movement step by step.
use griefly.Prelude.{
  ℕ, zero, suc, ◌+◌, ◌%◌, ◌≡◌, refl, ap, ◌∙◌, arith, true, Option, none, some, List, [], ◌∷◌,
  length, length-drop, drop, get_elem?,
}
use native.Mathlib.Nat.{mod-eq_of_lt}
use griefly.Geometry.{Dir, Vector, add, dir_to_vdir}
use griefly.Projectile.{Flight, make_movement_pattern, process_movement}
use griefly.Projectile.Trajectory.{after, follow, target_from, pattern-cases}

-- A number of calls of process_movement that all pass, each with the move it makes.
unfoldable pub fly : ℕ → Flight → Vector → Option Vector
fly zero f p = some p
fly (suc n) f p = elim (process_movement (λ d. true) f) [
  | none ↦ none
  | some r ↦ after (dir_to_vdir r.0.direction) (λ v. fly n r.0 (add p v))
]

abbrev pub in_flight : List Dir → ℕ → Dir → Flight
in_flight m s d = record { movement = m; current_step = s; direction = d }

process_movement_step :
    (m : List Dir) (s : ℕ) (d facing : Dir)
    → get_elem? m s ≡ some d
    → process_movement (λ d. true) (in_flight m s facing)
      ≡ some (in_flight m ((s + 1) % length m) d, true)
unfolding process_movement
process_movement_step m s d facing e = grind (arith, e)

drop-cons :
    (s : ℕ) (m : List Dir) (d : Dir) (ds : List Dir)
    → drop s m ≡ d ∷ ds
    → (get_elem? m s ≡ some d) × (drop (suc s) m ≡ ds)
drop-cons zero [] d ds e = absurd (grind (arith, e))
drop-cons zero (x ∷ xs) d ds e = (grind (arith, e), grind (arith, e))
drop-cons (suc s) [] d ds e = absurd (grind (arith, e))
drop-cons (suc s) (x ∷ xs) d ds e = drop-cons s xs d ds e

next_step :
    (s : ℕ) (m : List Dir) (d e : Dir) (ds : List Dir)
    → drop s m ≡ d ∷ e ∷ ds
    → (s + 1) % length m ≡ suc s
next_step s m d e ds h =
    let l = length-drop s m in mod-eq_of_lt (omega (arith, l, ap length h)) ∙ omega arith

fly_one :
    (n : ℕ) (m : List Dir) (s k : ℕ) (d facing : Dir) (p : Vector)
    → (s + 1) % length m ≡ k
    → get_elem? m s ≡ some d
    → fly (suc n) (in_flight m s facing) p
      ≡ after (dir_to_vdir d) (λ v. fly n (in_flight m k d) (add p v))
unfolding fly
fly_one n m s k d facing p ek e =
    ap
      (λ r. elim r [
        | none ↦ none
        | some r ↦ after (dir_to_vdir r.0.direction) (λ v. fly n r.0 (add p v))
      ])
      (process_movement_step m s d facing e)
    ∙ ap (λ k. after (dir_to_vdir d) (λ v. fly n (in_flight m k d) (add p v))) ek

same_after :
    (o : Option Vector) (f g : Vector → Option Vector)
    → ((v : Vector) → f v ≡ g v)
    → after o f ≡ after o g
same_after none f g h = refl
same_after (some v) f g h = h v

fly-drop :
    (rest m : List Dir) (s : ℕ) (facing : Dir) (p : Vector)
    → drop s m ≡ rest
    → fly (length rest) (in_flight m s facing) p ≡ follow rest p
unfolding follow fly
fly-drop [] m s facing p h = refl
fly-drop (d ∷ []) m s facing p h = fly_one 0 m s _ d facing p refl (drop-cons s m d [] h).0
fly-drop (d ∷ e ∷ ds) m s facing p h =
    fly_one (suc (length ds)) m s (suc s) d facing p (next_step s m d e ds h)
      (drop-cons s m d (e ∷ ds) h).0
    ∙ same_after (dir_to_vdir d) _ _
        (λ v. fly-drop (e ∷ ds) m (suc s) d (add p v) (drop-cons s m d (e ∷ ds) h).1)

-- The flight that a movement pattern gives, for as many steps as the movement has.
unfoldable pub shot : Vector → Dir → Vector → Option Vector
shot target facing p = elim (make_movement_pattern target facing) [
  | none ↦ none
  | some path ↦ fly (length path) (in_flight path 0 facing) p
]

-- For every target and facing make_movement_pattern finds a movement, without abort, and a projectile
-- that passes everywhere and calls process_movement once for each step of the movement, from its first
-- step on, is then at its starting position plus the target's x and y: no call fails on the way.
pub shot_arrives :
    (target : Vector) (facing : Dir) (p : Vector)
    → shot target facing p ≡ some (target_from p target.x target.y)
unfolding shot
shot_arrives target facing p =
    let found = pattern-cases target facing in
    ap (λ o. elim o [ none ↦ none | some path ↦ fly (length path) (in_flight path 0 facing) p ])
      found.1
    ∙ fly-drop found.0 found.0 0 facing p refl
    ∙ found.2 p
