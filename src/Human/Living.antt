-- ===== src/Human/Living.antt =====
-- Human::Live of sources/core/objects/mobs/Human.cpp: one tick of a body in the air that it breathes.
-- The air is that of the tank behind a mask or that of the owner, and what it is left as is the result.
-- x
use griefly.Prelude.{
  ℕ, ◌%◌, Bool, true, not, ◌&&◌, ltb, ◌==◌, if◌then◌else◌, Option, none, some, List, [], ◌∷◌,
}
use griefly.Prelude.Int.{ℤ, pos, negsuc, ◌-ℤ◌, ltb_ℤ, leb_ℤ, max_ℤ, abs}
use griefly.HumanInterface.Indicators.{
  regular_temperature, human_plasma_toxins_threshold, zero_temperature_pressure_border,
  update_environment, update_health,
}
use griefly.Human.{
  Human, Notice, too_hot, too_cold, gasps, post, calculate_health, apply_burn_damage,
  apply_suffocation_damage, apply_toxins_damage, regeneration, set_laying, on_death,
}
use griefly.Atmos.Gas.{Gas, AtmosData}
use griefly.Atmos.Holder.{add_gase, remove_gase}
use griefly.Random.{Engine, SynchronizedRandom, generate}

-- What Live reads and changes: the body, the air (HumanInterface's mask and its tank, or the owner's
-- holder), and the random numbers.
pub record Scene (G : Type 0) : Type 0 where
  pub human : Human
  pub air : Option AtmosData
  pub random : SynchronizedRandom G

abbrev human_plasma_toxins_damage : ℤ
human_plasma_toxins_damage = pos 50

abbrev pub lowest_health : ℤ
lowest_health = negsuc 9999

unfoldable pub is_uncomfortable : ℤ → Bool
is_uncomfortable temperature = ltb 3 (abs (regular_temperature -ℤ temperature))

abbrev complaint : AtmosData → Notice
complaint air =
    if ltb_ℤ regular_temperature air.temperature
      && ltb_ℤ zero_temperature_pressure_border air.pressure
    then too_hot
    else too_cold

-- The damage of an air that is too hot or too cold.
unfoldable pub suffer_temperature : ℕ → AtmosData → Human → Human
suffer_temperature tick air h =
    let damage = max_ℤ (pos 1) (pos (abs (regular_temperature -ℤ air.temperature))) in
    let hurt = apply_burn_damage damage h in
    if is_uncomfortable air.temperature
    then (if tick % 13 == 0 then post (complaint air) hurt else hurt)
    else h

unfoldable pub is_poisonous : ℤ → Human → Bool
is_poisonous plasma h =
    ltb_ℤ human_plasma_toxins_threshold plasma && leb_ℤ (pos 0) (calculate_health h)

abbrev pub is_above_death : Human → Bool
is_above_death h = leb_ℤ lowest_health (calculate_health h)

abbrev pub breathe_plasma : AtmosData → AtmosData
breathe_plasma air = (remove_gase Gas.plasma (pos 1) air).0

abbrev pub breathe_oxygen : AtmosData → AtmosData
breathe_oxygen air = add_gase Gas.co2 (pos 1) (remove_gase Gas.oxygen (pos 1) air).0

-- The health indicator and the timer.
unfoldable pub tick_timer : Human → Human
tick_timer h = record h {
  interface = update_health (calculate_health h) h.interface;
  lay_timer = max_ℤ (pos 0) (h.lay_timer -ℤ pos 1);
}

abbrev pub is_critical : Human → Bool
is_critical h = ltb_ℤ (calculate_health h) (pos 0)

abbrev pub lie_if_standing : Human → Human
lie_if_standing h = if h.lying then h else set_laying true h

unfoldable pub die : {G : Type 0} → Scene G → Scene G
die s =
    if not (is_above_death s.human) && not s.human.dead
    then record s { human = on_death s.human }
    else s

module _ {G : Type 0} (engine : Engine G) where
  -- Without air: the damage, and a gasp one time in `one_in` on every `period`th tick. The random
  -- number is drawn on every tick.
  unfoldable pub suffocate : ℕ → ℕ → ℕ → Scene G → Scene G
  suffocate one_in period tick s =
      let drawn = generate engine s.random in
      let hurt = apply_suffocation_damage (pos 100) s.human in
      record s {
        human = (if (drawn.0 % one_in == 0) && (tick % period == 0) then post gasps hurt else hurt);
        random = drawn.1;
      }

  -- The part of Live for a holder, after UpdateEnvironment and the temperature; `oxygen` and `plasma`
  -- are what was read before.
  unfoldable pub breathe : ℕ → ℤ → AtmosData → Scene G → Scene G
  breathe tick oxygen air s =
      if ltb_ℤ (pos 0) oxygen
      then record s { human = regeneration s.human; air = some (breathe_oxygen air) }
      else if is_above_death s.human
      then suffocate 5 3 tick (record s { air = some air })
      else record s { air = some air }

  unfoldable pub live_in : ℕ → AtmosData → Scene G → Scene G
  live_in tick air s =
      let oxygen = air.gases.oxygen in
      let plasma = air.gases.plasma in
      let h = record s.human {
        interface = update_environment air.temperature air.pressure oxygen plasma s.human.interface;
      } in
      let g = suffer_temperature tick air h in
      if is_poisonous plasma g
      then breathe tick oxygen (breathe_plasma air)
          (record s { human = apply_toxins_damage human_plasma_toxins_damage g })
      else breathe tick oxygen air (record s { human = g })

  abbrev pub live_in_air_of : ℕ → Option AtmosData → Scene G → Scene G
  live_in_air_of tick none s = s
  live_in_air_of tick (some air) s = live_in tick air s

  unfoldable pub live_in_air : ℕ → Scene G → Scene G
  live_in_air tick s = live_in_air_of tick s.air s

  -- A critical body lies down and loses more.
  unfoldable pub collapse : ℕ → Scene G → Scene G
  collapse tick s =
      let down = record s { human = lie_if_standing s.human } in
      let worse = if is_above_death down.human then suffocate 4 4 tick down else down in
      if is_critical s.human then worse else s

  unfoldable pub after_air : ℕ → Scene G → Scene G
  after_air tick s = die (collapse tick (record s { human = tick_timer s.human }))

  -- Live, for an owner that is valid or not.
  unfoldable pub live : ℕ → Bool → Scene G → Scene G
  live tick has_owner s =
      if s.human.dead then s else if has_owner then after_air tick (live_in_air tick s) else s

  -- One tick after the other, each with its number and the air that is there.
  unfoldable pub live_through : List (ℕ × AtmosData) → Scene G → Scene G
  live_through [] s = s
  live_through ((tick, air) ∷ rest) s =
      live_through rest (live tick true (record s { air = some air }))
