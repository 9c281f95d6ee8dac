-- ===== src/Human/Breathing.antt =====
-- What Live takes from the air, and how a body recovers in good air.
use griefly.Prelude.{
  ℕ, ◌≡◌, refl, sym, subst, ◌∙◌, ◌⊎◌, inl, inr, Bool, true, false, if◌then◌else◌, Option, some,
  arith,
}
use griefly.Prelude.Int.{ℤ, pos, ◌+ℤ◌, ◌-ℤ◌, ◌≤ℤ◌, ◌<ℤ◌, ltb_ℤ, int_laws}
use griefly.Human.{Human}
use griefly.Human.Living.{
  Scene, is_poisonous, breathe_plasma, breathe_oxygen, suffocate, breathe, live_in, live_in_air,
  collapse, die, after_air, live,
}
use griefly.Atmos.Gas.{AtmosData, update_macro_params}
use griefly.Atmos.Holder.{remove_gase, add_gase}
use griefly.Random.{Engine}

-- What a breath has done to an air: oxygen becomes as much CO2, plasma is taken one at a time.
pub record Breathed (before after : AtmosData) : Type 0 where
  pub oxygen_to_co2 :
      after.gases.oxygen +ℤ after.gases.co2 ≡ before.gases.oxygen +ℤ before.gases.co2
  pub oxygen_taken :
      after.gases.oxygen
      ≡ before.gases.oxygen -ℤ (if ltb_ℤ (pos 0) before.gases.oxygen then pos 1 else pos 0)
  pub plasma_taken :
      (after.gases.plasma ≡ before.gases.plasma)
      ⊎ ((after.gases.plasma ≡ before.gases.plasma -ℤ pos 1) × (pos 35 <ℤ before.gases.plasma))
  pub nytrogen_kept : after.gases.nytrogen ≡ before.gases.nytrogen
  pub energy_kept : after.energy ≡ before.energy
  pub volume_kept : after.volume ≡ before.volume

abbrev pub Leaves : Option AtmosData → AtmosData → Type 0
Leaves after before = (air : AtmosData) × (after ≡ some air) × Breathed before air

same-Breathed : (air : AtmosData) → air.gases.oxygen ≤ℤ pos 0 → Breathed air air
same-Breathed air h = record {
  oxygen_to_co2 = refl;
  oxygen_taken = grind int_laws;
  plasma_taken = inl refl;
  nytrogen_kept = refl;
  energy_kept = refl;
  volume_kept = refl;
}

breathe_oxygen-Breathed :
    (air : AtmosData) → pos 0 <ℤ air.gases.oxygen → Breathed air (breathe_oxygen air)
unfolding add_gase remove_gase update_macro_params
breathe_oxygen-Breathed air h = record {
  oxygen_to_co2 = grind int_laws;
  oxygen_taken = grind int_laws;
  plasma_taken = inl (grind arith);
  nytrogen_kept = grind arith;
  energy_kept = grind arith;
  volume_kept = grind arith;
}

-- RemoveGase of one plasma, for an air that has some.
record PlasmaLess (before after : AtmosData) : Type 0 where
  plasma_less : after.gases.plasma ≡ before.gases.plasma -ℤ pos 1
  oxygen_kept : after.gases.oxygen ≡ before.gases.oxygen
  co2_kept : after.gases.co2 ≡ before.gases.co2
  nytrogen_kept : after.gases.nytrogen ≡ before.gases.nytrogen
  energy_kept : after.energy ≡ before.energy
  volume_kept : after.volume ≡ before.volume

breathe_plasma-PlasmaLess :
    (air : AtmosData) → pos 35 <ℤ air.gases.plasma → PlasmaLess air (breathe_plasma air)
unfolding remove_gase update_macro_params
breathe_plasma-PlasmaLess air h = record {
  plasma_less = grind int_laws;
  oxygen_kept = grind arith;
  co2_kept = grind arith;
  nytrogen_kept = grind arith;
  energy_kept = grind arith;
  volume_kept = grind arith;
}

after_plasma-Breathed :
    (air mid after : AtmosData)
    → pos 35 <ℤ air.gases.plasma
    → PlasmaLess air mid
    → Breathed mid after
    → after.gases.plasma ≡ mid.gases.plasma
    → Breathed air after
after_plasma-Breathed air mid after lt p b e = record {
  oxygen_to_co2 = cc (b.oxygen_to_co2, p.oxygen_kept, p.co2_kept);
  oxygen_taken = cc (b.oxygen_taken, p.oxygen_kept);
  plasma_taken = inr (e ∙ p.plasma_less, lt);
  nytrogen_kept = b.nytrogen_kept ∙ p.nytrogen_kept;
  energy_kept = b.energy_kept ∙ p.energy_kept;
  volume_kept = b.volume_kept ∙ p.volume_kept;
}

breathe_oxygen-plasma : (air : AtmosData) → (breathe_oxygen air).gases.plasma ≡ air.gases.plasma
unfolding add_gase remove_gase update_macro_params
breathe_oxygen-plasma air = grind arith

-- The air after `breathe`, and whether there was oxygen.
abbrev after_breath_if : Bool → AtmosData → AtmosData
after_breath_if true air = breathe_oxygen air
after_breath_if false air = air

abbrev after_breath : AtmosData → AtmosData
after_breath air = after_breath_if (ltb_ℤ (pos 0) air.gases.oxygen) air

after_breath_if-Breathed :
    (air : AtmosData) (b : Bool)
    → ltb_ℤ (pos 0) air.gases.oxygen ≡ b
    → Breathed air (after_breath_if b air)
after_breath_if-Breathed air true e = breathe_oxygen-Breathed air (grind arith)
after_breath_if-Breathed air false e = same-Breathed air (grind arith)

after_breath-plasma : (air : AtmosData) → (after_breath air).gases.plasma ≡ air.gases.plasma
after_breath-plasma air = grind (arith, breathe_oxygen-plasma air)

module _ {G : Type 0} (engine : Engine G) where
  suffocate-air :
      (one_in period tick : ℕ) (s : Scene G) → (suffocate engine one_in period tick s).air ≡ s.air
  unfolding suffocate
  suffocate-air one_in period tick s = refl

  after_air-air : (tick : ℕ) (s : Scene G) → (after_air engine tick s).air ≡ s.air
  unfolding after_air collapse die suffocate
  after_air-air tick s = grind arith

  breathe-air :
      (tick : ℕ) (oxygen : ℤ) (air : AtmosData) (s : Scene G)
      → air.gases.oxygen ≡ oxygen
      → (breathe engine tick oxygen air s).air ≡ some (after_breath air)
  unfolding breathe suffocate
  breathe-air tick oxygen air s e = grind (arith, e)

  either-Leaves :
      (b : Bool) (air : AtmosData) (poisoned clean : Scene G)
      → (b ≡ true → pos 35 <ℤ air.gases.plasma)
      → poisoned.air ≡ some (after_breath (breathe_plasma air))
      → clean.air ≡ some (after_breath air)
      → Leaves (if b then poisoned else clean).air air
  either-Leaves true air poisoned clean h e e' = (
    _,
    e,
    after_plasma-Breathed air (breathe_plasma air) _ (h refl)
        (breathe_plasma-PlasmaLess air (h refl))
        (after_breath_if-Breathed (breathe_plasma air) _ refl)
        (after_breath-plasma (breathe_plasma air)),
  )
  either-Leaves false air poisoned clean h e e' = (_, e', after_breath_if-Breathed air _ refl)

  is_poisonous-plasma : (plasma : ℤ) (h : Human) → is_poisonous plasma h ≡ true → pos 35 <ℤ plasma
  unfolding is_poisonous
  is_poisonous-plasma plasma h e = grind arith

  breathe_plasma-oxygen : (air : AtmosData) → (breathe_plasma air).gases.oxygen ≡ air.gases.oxygen
  unfolding remove_gase update_macro_params
  breathe_plasma-oxygen air = grind arith

  live_in-Leaves :
      (tick : ℕ) (air : AtmosData) (s : Scene G) → Leaves (live_in engine tick air s).air air
  unfolding live_in
  live_in-Leaves tick air s =
      either-Leaves _ air _ _ (is_poisonous-plasma _ _)
        (breathe-air tick _ (breathe_plasma air) _ (breathe_plasma-oxygen air))
        (breathe-air tick _ air _ refl)

  -- A tick of a living human in an air turns at most one oxygen into one CO2, exactly one where there
  -- is oxygen; takes at most one plasma, and only above the threshold; and keeps the nytrogen, the
  -- energy and the volume.
  pub live-Leaves :
      (tick : ℕ) (air : AtmosData) (s : Scene G)
      → s.human.dead ≡ false
      → Leaves (live engine tick true (record s { air = some air })).air air
  unfolding live live_in_air
  live-Leaves tick air s alive =
      subst (λ o. Leaves o air) (sym (rw alive (after_air-air tick _)))
        (live_in-Leaves tick air (record s { air = some air }))
