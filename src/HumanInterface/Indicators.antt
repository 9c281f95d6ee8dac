-- ===== src/HumanInterface/Indicators.antt =====
-- The buttons of sources/core/objects/mobs/HumanInterface.cpp that show a human's state: the Update
-- functions. A button is what its sprite's state says; places on the screen are left out.
use griefly.Prelude.{
  ℕ, ◌*◌, ◌/◌, ◌≤◌, ◌-◌, ◌≡◌, refl, sym, ap, subst, ◌↔◌, Bool, true, false, if◌then◌else◌, arith,
}
use griefly.Prelude.Int.{
  ℤ, pos, negsuc, ◌-ℤ◌, ◌*ℤ◌, ◌/ℤ◌, ◌≤ℤ◌, ◌<ℤ◌, ltb_ℤ, min_ℤ, max_ℤ, parts_of, int_laws,
}

-- `oxygen` and `toxins` tell whether the state is states::OXYGEN and states::TOXINS.
pub record Indicators : Type 0 where
  pub oxygen : Bool
  pub toxins : Bool
  pub temperature : ℤ
  pub health : ℤ
  pub is_laying : Bool
  pub is_pulling : Bool

abbrev pub human_max_health : ℤ
human_max_health = pos 10000

abbrev pub regular_temperature : ℤ
regular_temperature = pos 40

abbrev pub human_plasma_toxins_threshold : ℤ
human_plasma_toxins_threshold = pos 35

abbrev pub zero_temperature_pressure_border : ℤ
zero_temperature_pressure_border = pos 1000

-- HumanInterface::HumanInterface
abbrev pub new_indicators : Indicators
new_indicators = record {
  oxygen = true;
  toxins = true;
  temperature = pos 0;
  health = pos 0;
  is_laying = false;
  is_pulling = false;
}

-- The state of the thermometer.
unfoldable pub temperature_state : ℤ → ℤ → ℤ
temperature_state temperature pressure =
    if ltb_ℤ pressure zero_temperature_pressure_border
    then negsuc 3
    else min_ℤ (pos 4) (max_ℤ (negsuc 3) ((temperature -ℤ regular_temperature) /ℤ pos 6))

-- UpdateEnvironment
unfoldable pub update_environment : ℤ → ℤ → ℤ → ℤ → Indicators → Indicators
update_environment temperature pressure oxygen plasma i = record i {
  oxygen = (if ltb_ℤ oxygen (pos 1) then false else true);
  temperature = temperature_state temperature pressure;
  toxins = ltb_ℤ human_plasma_toxins_threshold plasma;
}

abbrev max_non_crit_state : ℤ
max_non_crit_state = pos 5

-- The state of the health indicator.
unfoldable pub health_state : ℤ → ℤ
health_state health =
    let state = max_ℤ (pos 0) ((health *ℤ max_non_crit_state) /ℤ human_max_health) in
    if ltb_ℤ health (pos 0) then pos 6 else max_non_crit_state -ℤ state

-- UpdateHealth
abbrev pub update_health : ℤ → Indicators → Indicators
update_health health i = record i { health = health_state health }

-- UpdateLaying
abbrev pub update_laying : Bool → Indicators → Indicators
update_laying is_laying i = record i { is_laying = is_laying }

-- UpdatePulling
abbrev pub update_pulling : Bool → Indicators → Indicators
update_pulling is_pulling i = record i { is_pulling = is_pulling }

-- The thermometer shows a state from -4 to 4.
pub temperature_state_range :
    (temperature pressure : ℤ)
    → (negsuc 3 ≤ℤ temperature_state temperature pressure)
      × (temperature_state temperature pressure ≤ℤ pos 4)
unfolding temperature_state
temperature_state_range t p = grind int_laws

five_parts : (n : ℕ) → n ≤ 10000 → n * 5 / 10000 ≤ 5
five_parts n h = grind arith

five_parts_full : (n : ℕ) → n ≤ 10000 → n * 5 / 10000 ≡ 5 → n ≡ 10000
five_parts_full n h e = grind arith

health_state-pos : (n : ℕ) → n ≤ 10000 → health_state (pos n) ≡ pos (5 - n * 5 / 10000)
unfolding health_state
health_state-pos n h = grind (int_laws, five_parts n h)

health_state-negsuc : (n : ℕ) → health_state (negsuc n) ≡ pos 6
unfolding health_state
health_state-negsuc n = ground arith

-- What the health indicator's state says of a health.
pub record Shows (health : ℤ) (state : ℤ) : Type 0 where
  pub at_least : pos 0 ≤ℤ state
  pub at_most : state ≤ℤ pos 6
  pub critical : (state ≡ pos 6) ↔ (health <ℤ pos 0)
  pub whole : (state ≡ pos 0) ↔ (health ≡ human_max_health)

-- A health that is at most the greatest is shown by a state from 0 to 6, which is 6 for a
-- negative health alone, and 0 for the greatest health alone.
pub health_state-Shows :
    (health : ℤ) → health ≤ℤ human_max_health → Shows health (health_state health)
health_state-Shows (pos n) le =
    let five = five_parts n (omega arith) in
    let is_five = five_parts_full n (omega arith) in
    subst (Shows (pos n)) (sym (health_state-pos n (omega arith))) record {
      at_least = omega arith;
      at_most = omega arith;
      critical = (λ e. absurd (omega (arith, parts_of e, five)), λ lt. absurd (omega arith));
      whole =
          (λ e. ap pos (is_five (omega (arith, parts_of e, five))), λ e. rw (parts_of e).0 refl);
    }
health_state-Shows (negsuc n) le = subst (Shows (negsuc n)) (sym (health_state-negsuc n)) record {
  at_least = omega arith;
  at_most = omega arith;
  critical = (λ e. omega arith, λ lt. refl);
  whole = (λ e. absurd (omega (arith, parts_of e)), λ e. absurd (omega (arith, parts_of e)));
}
