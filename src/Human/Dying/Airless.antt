-- ===== src/Human/Dying/Airless.antt =====
-- How soon a body without oxygen is dead.
use griefly.Prelude.{
  ℕ, suc, ◌+◌, ◌-◌, ◌*◌, ◌≤◌, ◌<◌, ◌≡◌, ap, ◌∙◌, inl, inr, true, false, some, List, [], ◌∷◌, length,
  All, arith, Bool-cases,
}
use griefly.Prelude.Int.{pos, ◌+ℤ◌, ◌≤ℤ◌, int_laws}
use griefly.Human.{Human, calculate_health}
use griefly.Human.Living.{Scene, live, live_through}
use griefly.Atmos.Gas.{AtmosData}
use griefly.Random.{Engine}
use griefly.Human.Dying.{Starves, live-Starves, live_dead}

-- What n ticks without oxygen have left of a body.
record Dwindles (n : ℕ) (h : Human) : Type 0 where
  at_first : calculate_health h +ℤ pos (n * 100) ≤ℤ pos 10000
  later : 100 < n → calculate_health h +ℤ pos ((n - 100) * 200) ≤ℤ pos 0
  alive : h.dead ≡ false

Starves-Dwindles :
    (n : ℕ) (h g : Human)
    → Dwindles n h
    → Starves h g
    → g.dead ≡ false
    → Dwindles (suc n) g × (n < 150)
Starves-Dwindles n h g d e alive = (
  record {
    at_first = grind (int_laws, e.slowly);
    later = λ lt. grind (int_laws, e.fast, d.later);
    alive = alive;
  },
  grind (int_laws, e.lives, e.fast, d.later),
)

module _ {G : Type 0} (engine : Engine G) where
  live_through_dead :
      (airs : List (ℕ × AtmosData)) (s : Scene G)
      → s.human.dead ≡ true
      → (live_through engine airs s).human.dead ≡ true
  unfolding live_through
  live_through_dead [] s dead = dead
  live_through_dead ((tick, air) ∷ rest) s dead = live_through_dead rest _ (
      ap (λ t. t.human.dead) (live_dead engine tick true (record s { air = some air }) dead) ∙ dead)

  live_through_starving :
      (n : ℕ) (airs : List (ℕ × AtmosData)) (s : Scene G)
      → Dwindles n s.human
      → All (λ a. a.1.gases.oxygen ≤ℤ pos 0) airs
      → 151 ≤ n + length airs
      → n ≤ 150
      → (live_through engine airs s).human.dead ≡ true
  unfolding live_through
  live_through_starving n [] s d empty le small = absurd (omega arith)
  live_through_starving n ((tick, air) ∷ rest) s d airless le small =
      let now = record s { air = some air } in
      let next = live engine tick true now in
      elim (Bool-cases next.human.dead) [
        | inl dead ↦ live_through_dead rest next dead
        | inr alive ↦
            let d' =
              Starves-Dwindles n s.human next.human d
                (live-Starves engine tick air s d.alive airless.0) alive in
            live_through_starving (suc n) rest next d'.0 airless.1 (omega arith)
              (omega (arith, d'.1))
      ]

  -- A living human with at most the greatest health is dead after 151 or more ticks of Live in airs
  -- that have no oxygen, whatever else they hold and whatever random numbers are drawn.
  pub starving_human_dies :
      (airs : List (ℕ × AtmosData)) (s : Scene G)
      → s.human.dead ≡ false
      → calculate_health s.human ≤ℤ pos 10000
      → All (λ a. a.1.gases.oxygen ≤ℤ pos 0) airs
      → 151 ≤ length airs
      → (live_through engine airs s).human.dead ≡ true
  starving_human_dies airs s alive healthy airless long =
      live_through_starving 0 airs s
        record { at_first = omega int_laws; later = λ lt. absurd (omega arith); alive = alive }
        airless (omega arith) (omega arith)
