-- ===== src/Human/Dying.antt =====
-- What a tick of Live costs a body that has no oxygen.
pub mod Airless
use griefly.Prelude.{
  ℕ, zero, suc, ◌+◌, ◌-◌, ◌*◌, ◌≤◌, ◌<◌, ◌≡◌, refl, sym, ap, subst, ◌∙◌, ◌⊎◌, inl, inr, Bool, true,
  false, not, Option, none, some, List, [], ◌∷◌, length, All, arith, Bool-cases,
}
use griefly.Prelude.Int.{
  ℤ, pos, negsuc, ◌+ℤ◌, ◌-ℤ◌, ◌*ℤ◌, ◌≤ℤ◌, ◌<ℤ◌, ltb_ℤ, leb_ℤ, max_ℤ, int_laws, parts_of,
}
use griefly.HumanInterface.Indicators.{Indicators, update_environment}
use griefly.Human.{
  Human, calculate_health, apply_burn_damage, apply_suffocation_damage, apply_toxins_damage,
  set_laying, on_death, lie_down, stand_up,
}
use griefly.Human.Living.{
  Scene, lowest_health, is_uncomfortable, suffer_temperature, is_poisonous, is_above_death,
  breathe_plasma, suffocate, breathe, live_in, live_in_air, tick_timer, collapse, die, after_air,
  live, live_through, is_critical, lie_if_standing,
}
use griefly.Atmos.Gas.{Gas, AtmosData, update_macro_params}
use griefly.Atmos.Holder.{remove_gase}
use griefly.Random.{Engine, SynchronizedRandom, generate}

-- One body against another: at least so much less health, and not dead because of it.
abbrev Loses : ℕ → Human → Human → Type 0
Loses n h g = (calculate_health g +ℤ pos n ≤ℤ calculate_health h) × (g.dead ≡ h.dead)

suffer_temperature-Loses :
    (tick : ℕ) (air : AtmosData) (h : Human) → Loses 0 h (suffer_temperature tick air h)
unfolding suffer_temperature calculate_health apply_burn_damage
suffer_temperature-Loses tick air h = (grind int_laws, grind arith)

suffered-Loses :
    (tick : ℕ) (air : AtmosData) (h : Human) (i : Indicators)
    → Loses 0 h (suffer_temperature tick air (record h { interface = i }))
unfolding calculate_health
suffered-Loses tick air h i = suffer_temperature-Loses tick air (record h { interface = i })

apply_suffocation_damage-Loses : (h : Human) → Loses 100 h (apply_suffocation_damage (pos 100) h)
unfolding calculate_health apply_suffocation_damage
apply_suffocation_damage-Loses h = (grind int_laws, refl)

apply_toxins_damage-Loses : (h : Human) → Loses 0 h (apply_toxins_damage (pos 50) h)
unfolding calculate_health apply_toxins_damage
apply_toxins_damage-Loses h = (grind int_laws, refl)

set_laying-Loses : (h : Human) → Loses 0 h (set_laying true h)
unfolding calculate_health set_laying lie_down
set_laying-Loses h = (omega int_laws, refl)

tick_timer-Loses : (h : Human) → Loses 0 h (tick_timer h)
unfolding calculate_health tick_timer
tick_timer-Loses h = (omega int_laws, refl)

-- So much less health, or too little to live.
abbrev Worsens : ℕ → Human → Human → Type 0
Worsens n h g =
    ((calculate_health g +ℤ pos n ≤ℤ calculate_health h) ⊎ (calculate_health g <ℤ lowest_health))
    × (g.dead ≡ h.dead)

then-Worsens : (h g k : Human) (n : ℕ) → Loses 0 h g → Worsens n g k → Worsens n h k
then-Worsens h g k n l w = grind int_laws

then_both-Worsens : (h g k : Human) (m n : ℕ) → Worsens m h g → Worsens n g k → Worsens (m + n) h k
then_both-Worsens h g k m n l w = grind int_laws

-- What Live does to a living body without oxygen.
pub record Starves (h g : Human) : Type 0 where
  pub slowly : (g.dead ≡ true) ⊎ (calculate_health g +ℤ pos 100 ≤ℤ calculate_health h)
  pub fast :
      calculate_health h <ℤ pos 100
      → (g.dead ≡ true) ⊎ (calculate_health g +ℤ pos 200 ≤ℤ calculate_health h)
  pub lives : (g.dead ≡ true) ⊎ (lowest_health ≤ℤ calculate_health g)

die-Starves :
    {G : Type 0} (h : Human) (s : Scene G)
    → Worsens 100 h s.human
    → (calculate_health h <ℤ pos 100 → Worsens 200 h s.human)
    → Starves h (die s).human
unfolding die on_death
die-Starves h s w f = record {
  slowly = grind int_laws;
  fast = λ lt. grind (int_laws, f lt);
  lives = grind int_laws;
}

module _ {G : Type 0} (engine : Engine G) where
  suffocate-Loses :
      (one_in period tick : ℕ) (s : Scene G)
      → Loses 100 s.human (suffocate engine one_in period tick s).human
  unfolding suffocate calculate_health apply_suffocation_damage
  suffocate-Loses one_in period tick s = (grind int_laws, grind arith)

  breathe-Worsens :
      (tick : ℕ) (oxygen : ℤ) (air : AtmosData) (s : Scene G)
      → oxygen ≤ℤ pos 0
      → Worsens 100 s.human (breathe engine tick oxygen air s).human
  unfolding breathe
  breathe-Worsens tick oxygen air s le =
      grind (arith, suffocate-Loses 5 3 tick (record s { air = some air }))

  live_in-Worsens :
      (tick : ℕ) (air : AtmosData) (s : Scene G)
      → air.gases.oxygen ≤ℤ pos 0
      → Worsens 100 s.human (live_in engine tick air s).human
  unfolding live_in
  live_in-Worsens tick air s le =
      let i =
        update_environment air.temperature air.pressure air.gases.oxygen air.gases.plasma
          s.human.interface in
      let g = suffer_temperature tick air (record s.human { interface = i }) in
      let cool = suffered-Loses tick air s.human i in
      let t = apply_toxins_damage (pos 50) g in
      grind (
        arith,
        then-Worsens s.human g _ 100 cool
            (breathe-Worsens tick air.gases.oxygen air (record s { human = g }) le),
        then-Worsens s.human g _ 100 cool (
            then-Worsens g t _ 100 (apply_toxins_damage-Loses g) (
              breathe-Worsens tick air.gases.oxygen (breathe_plasma air) (record s { human = t })
                le)),
      )

  lie_if_standing-Loses : (h : Human) → Loses 0 h (lie_if_standing h)
  lie_if_standing-Loses h = grind (int_laws, set_laying-Loses h)

  collapse_critical-Worsens :
      (tick : ℕ) (s : Scene G)
      → calculate_health s.human <ℤ pos 0
      → Worsens 100 s.human (collapse engine tick s).human
  unfolding collapse
  collapse_critical-Worsens tick s lt =
      let h = lie_if_standing s.human in
      then-Worsens s.human h _ 100 (lie_if_standing-Loses s.human) grind
        (arith, suffocate-Loses 4 4 tick (record s { human = h }))

  collapse-Worsens : (tick : ℕ) (s : Scene G) → Worsens 0 s.human (collapse engine tick s).human
  unfolding collapse
  collapse-Worsens tick s = grind (int_laws, collapse_critical-Worsens tick s)

  after_air-Starves :
      (tick : ℕ) (air : AtmosData) (s : Scene G)
      → air.gases.oxygen ≤ℤ pos 0
      → Starves s.human (after_air engine tick (live_in engine tick air s)).human
  unfolding after_air
  after_air-Starves tick air s le =
      let breathed = live_in engine tick air s in
      let timed = record breathed { human = tick_timer breathed.human } in
      let timer : Worsens 100 s.human timed.human =
        then_both-Worsens s.human breathed.human timed.human 100 0 (live_in-Worsens tick air s le)
          (inl (tick_timer-Loses breathed.human).0, (tick_timer-Loses breathed.human).1) in
      die-Starves s.human (collapse engine tick timed)
        (then_both-Worsens s.human timed.human _ 100 0 timer (collapse-Worsens tick timed))
        (λ lt.
          then_both-Worsens s.human timed.human _ 100 100 timer
            (collapse_critical-Worsens tick timed (omega (int_laws, timer))))

  pub live_alive :
      (tick : ℕ) (air : AtmosData) (s : Scene G)
      → s.human.dead ≡ false
      → live engine tick true (record s { air = some air })
        ≡ after_air engine tick (live_in engine tick air (record s { air = some air }))
  unfolding live live_in_air
  live_alive tick air s alive = rw alive refl

  pub live-Starves :
      (tick : ℕ) (air : AtmosData) (s : Scene G)
      → s.human.dead ≡ false
      → air.gases.oxygen ≤ℤ pos 0
      → Starves s.human (live engine tick true (record s { air = some air })).human
  live-Starves tick air s alive le =
      subst (λ t. Starves s.human t.human) (sym (live_alive tick air s alive))
        (after_air-Starves tick air (record s { air = some air }) le)

  -- A dead body is left as it is.
  pub live_dead :
      (tick : ℕ) (has_owner : Bool) (s : Scene G)
      → s.human.dead ≡ true
      → live engine tick has_owner s ≡ s
  unfolding live
  live_dead tick has_owner s dead = rw dead refl
