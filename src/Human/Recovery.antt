-- ===== src/Human/Recovery.antt =====
-- How a body in good air gets its breath back.
use griefly.Prelude.{
  ℕ, suc, ◌*◌, ◌≡◌, refl, sym, ap, subst, ◌∙◌, true, false, some, List, [], ◌∷◌, length, All, arith,
}
use griefly.Prelude.Int.{ℤ, pos, ◌-ℤ◌, ◌≤ℤ◌, ◌<ℤ◌, max_ℤ, int_laws, parts_of}
use griefly.HumanInterface.Indicators.{update_environment}
use griefly.Human.{Human, calculate_health, apply_suffocation_damage, regeneration}
use griefly.Human.Living.{
  Scene, is_uncomfortable, suffer_temperature, is_poisonous, breathe_oxygen, breathe, live_in,
  tick_timer, collapse, die, after_air, live, live_through,
}
use griefly.Human.Dying.{live_alive}
use griefly.Atmos.Gas.{AtmosData}
use griefly.Random.{Engine}

-- An air to live in.
pub record IsGood (air : AtmosData) : Type 0 where
  pub has_oxygen : pos 0 <ℤ air.gases.oxygen
  pub is_warm : is_uncomfortable air.temperature ≡ false
  pub is_clean : air.gases.plasma ≤ℤ pos 35

-- A body that has recovered for n ticks from the suffocation of another, and is as it was otherwise.
pub record Recovered (n : ℕ) (h g : Human) : Type 0 where
  pub suffocation_less : g.suffocation_damage ≡ max_ℤ (pos 0) (h.suffocation_damage -ℤ pos (n * 50))
  pub max_health_kept : g.max_health ≡ h.max_health
  pub toxins_kept : g.toxins_damage ≡ h.toxins_damage
  pub burn_kept : g.burn_damage ≡ h.burn_damage
  pub brute_kept : g.brute_damage ≡ h.brute_damage
  pub lying_kept : g.lying ≡ h.lying
  pub dead_kept : g.dead ≡ h.dead

breathing : AtmosData → Human → Human
breathing air h = record h {
  interface =
      update_environment air.temperature air.pressure air.gases.oxygen air.gases.plasma h.interface;
}

rested : AtmosData → Human → Human
rested air h = tick_timer (regeneration (breathing air h))

rested-Recovered :
    (air : AtmosData) (h : Human) → pos 0 ≤ℤ h.suffocation_damage → Recovered 1 h (rested air h)
unfolding rested breathing tick_timer regeneration apply_suffocation_damage
rested-Recovered air h p = record {
  suffocation_less = grind int_laws;
  max_health_kept = grind arith;
  toxins_kept = grind arith;
  burn_kept = grind arith;
  brute_kept = grind arith;
  lying_kept = grind arith;
  dead_kept = grind arith;
}

suffer_temperature_warm :
    (tick : ℕ) (air : AtmosData) (h : Human)
    → is_uncomfortable air.temperature ≡ false
    → suffer_temperature tick air h ≡ h
unfolding suffer_temperature
suffer_temperature_warm tick air h e = rw e refl

is_poisonous_clean : (plasma : ℤ) (h : Human) → plasma ≤ℤ pos 35 → is_poisonous plasma h ≡ false
unfolding is_poisonous
is_poisonous_clean plasma h le = grind arith

die_well : {G : Type 0} (s : Scene G) → pos 0 ≤ℤ calculate_health s.human → die s ≡ s
unfolding die
die_well s le = grind arith

tick_timer-health : (h : Human) → calculate_health (tick_timer h) ≡ calculate_health h
unfolding tick_timer calculate_health
tick_timer-health h = refl

Recovered-health :
    (n : ℕ) (h g : Human)
    → pos 0 ≤ℤ h.suffocation_damage
    → Recovered n h g
    → calculate_health h ≤ℤ calculate_health g
unfolding calculate_health
Recovered-health n h g p r = omega (
  int_laws,
  less,
  parts_of r.max_health_kept,
  parts_of r.toxins_kept,
  parts_of r.burn_kept,
  parts_of r.brute_kept,
)
  where
    less : g.suffocation_damage ≤ℤ h.suffocation_damage
    less = rw r.suffocation_less (grind int_laws)

regeneration-health :
    (air : AtmosData) (h : Human)
    → pos 0 ≤ℤ h.suffocation_damage
    → calculate_health h ≤ℤ calculate_health (regeneration (breathing air h))
unfolding calculate_health regeneration apply_suffocation_damage breathing
regeneration-health air h p = grind int_laws

Recovered-suc :
    (n : ℕ) (h g k : Human)
    → pos 0 ≤ℤ h.suffocation_damage
    → Recovered 1 h g
    → Recovered n g k
    → Recovered (suc n) h k
Recovered-suc n h g k p r q = record {
  suffocation_less = rw q.suffocation_less (rw r.suffocation_less (grind int_laws));
  max_health_kept = q.max_health_kept ∙ r.max_health_kept;
  toxins_kept = q.toxins_kept ∙ r.toxins_kept;
  burn_kept = q.burn_kept ∙ r.burn_kept;
  brute_kept = q.brute_kept ∙ r.brute_kept;
  lying_kept = q.lying_kept ∙ r.lying_kept;
  dead_kept = q.dead_kept ∙ r.dead_kept;
}

module _ {G : Type 0} (engine : Engine G) where
  breathe_well :
      (tick : ℕ) (air : AtmosData) (s : Scene G)
      → pos 0 <ℤ air.gases.oxygen
      → breathe engine tick air.gases.oxygen air s
        ≡ record s { human = regeneration s.human; air = some (breathe_oxygen air) }
  unfolding breathe
  breathe_well tick air s lt = grind arith

  collapse_well :
      (tick : ℕ) (s : Scene G) → pos 0 ≤ℤ calculate_health s.human → collapse engine tick s ≡ s
  unfolding collapse
  collapse_well tick s le = grind arith

  live_in-rested :
      (tick : ℕ) (air : AtmosData) (s : Scene G)
      → IsGood air
      → live_in engine tick air s
        ≡ record s { human = regeneration (breathing air s.human); air = some (breathe_oxygen air) }
  unfolding live_in breathing
  live_in-rested tick air s g =
      let h = breathing air s.human in
      rw (suffer_temperature_warm tick air h g.is_warm) (
        rw (is_poisonous_clean air.gases.plasma h g.is_clean)
          (breathe_well tick air (record s { human = h }) g.has_oxygen))

  after_air_well :
      (tick : ℕ) (s : Scene G)
      → pos 0 ≤ℤ calculate_health s.human
      → after_air engine tick s ≡ record s { human = tick_timer s.human }
  unfolding after_air
  after_air_well tick s h =
      let timed = record s { human = tick_timer s.human } in
      let well = subst (λ x. pos 0 ≤ℤ x) (sym (tick_timer-health s.human)) h in
      rw (collapse_well tick timed well) (die_well timed well)

  live-rested :
      (tick : ℕ) (air : AtmosData) (s : Scene G)
      → IsGood air
      → s.human.dead ≡ false
      → pos 0 ≤ℤ s.human.suffocation_damage
      → pos 0 ≤ℤ calculate_health s.human
      → (live engine tick true (record s { air = some air })).human ≡ rested air s.human
  unfolding rested
  live-rested tick air s g alive p well =
      let now = record s { air = some air } in
      let breath = record now {
        human = regeneration (breathing air s.human);
        air = some (breathe_oxygen air);
      } in
      ap (λ t. t.human)
        (live_alive engine tick air s alive
          ∙ ap (after_air engine tick) (live_in-rested tick air now g)
          ∙ after_air_well tick breath (omega (arith, regeneration-health air s.human p, well)))

  -- A living human that is not critical and breathes good air gets 50 of suffocation off each tick,
  -- down to none, and keeps its other damages, its posture and its life.
  pub live_through-Recovered :
      (airs : List (ℕ × AtmosData)) (s : Scene G)
      → All (λ a. IsGood a.1) airs
      → s.human.dead ≡ false
      → pos 0 ≤ℤ s.human.suffocation_damage
      → pos 0 ≤ℤ calculate_health s.human
      → Recovered (length airs) s.human (live_through engine airs s).human
  unfolding live_through
  live_through-Recovered [] s good alive p well = record {
    suffocation_less = grind int_laws;
    max_health_kept = refl;
    toxins_kept = refl;
    burn_kept = refl;
    brute_kept = refl;
    lying_kept = refl;
    dead_kept = refl;
  }
  live_through-Recovered ((tick, air) ∷ rest) s good alive p well =
      let now = record s { air = some air } in
      let once =
        subst (Recovered 1 s.human) (sym (live-rested tick air s good.0 alive p well))
          (rested-Recovered air s.human p) in
      let left = Recovered-health 1 s.human _ p once in
      Recovered-suc (length rest) s.human _ _ p once (
        live_through-Recovered rest (live engine tick true now) good.1 (once.dead_kept ∙ alive)
          (rw once.suffocation_less (grind int_laws)) (omega (arith, left)))
