-- ===== src/Atmos/Gas.antt =====
-- sources/core/atmos/AtmosConstants.h: the gas mixture of a tile or a tank, one tick of burning, and
-- temperature and pressure. An `int` is an integer: the program's own quantities stay far below
-- 2^31, where signed overflow would be undefined.
pub mod Burning
use griefly.Prelude.{ℕ, ◌≡◌, Bool, true, false, if◌then◌else◌, not}
use griefly.Prelude.Int.{ℤ, pos, ◌+ℤ◌, ◌-ℤ◌, ◌*ℤ◌, ◌/ℤ◌, ◌==ℤ◌, ◌≤ℤ◌, min_ℤ, max_ℤ}

-- The indexes into `gases`.
pub data Gas : Type 0 where
  oxygen co2 nytrogen plasma : Gas

-- int gases[GASES_NUM]
pub record Gases : Type 0 where
  pub oxygen : ℤ
  pub co2 : ℤ
  pub nytrogen : ℤ
  pub plasma : ℤ

abbrev pub amount : Gas → Gases → ℤ
amount Gas.oxygen g = g.oxygen
amount Gas.co2 g = g.co2
amount Gas.nytrogen g = g.nytrogen
amount Gas.plasma g = g.plasma

-- gases[gas] = n
abbrev pub put : Gas → ℤ → Gases → Gases
put Gas.oxygen n g = record g { oxygen = n }
put Gas.co2 n g = record g { co2 = n }
put Gas.nytrogen n g = record g { nytrogen = n }
put Gas.plasma n g = record g { plasma = n }

-- A loop over the gases whose rounds are independent.
abbrev pub each : (Gas → ℤ) → Gases
each f = record {
  oxygen = f Gas.oxygen;
  co2 = f Gas.co2;
  nytrogen = f Gas.nytrogen;
  plasma = f Gas.plasma;
}

abbrev pub freedom : Gas → ℤ
freedom Gas.oxygen = pos 5
freedom Gas.co2 = pos 6
freedom Gas.nytrogen = pos 5
freedom Gas.plasma = pos 8

abbrev pub max_gas_level : ℤ
max_gas_level = pos 1000

abbrev energy_const : ℤ
energy_const = pos 100

abbrev pub o2_multiplier : ℤ
o2_multiplier = pos 2

pub record AtmosData : Type 0 where
  pub gases : Gases
  pub energy : ℤ
  pub pressure : ℤ
  pub volume : ℤ
  pub temperature : ℤ
  pub fire : Bool

-- What moves between mixtures and is neither made nor lost there.
pub data Quantity : Type 0 where
  gas : Gas → Quantity
  energy : Quantity

abbrev pub measure : Quantity → AtmosData → ℤ
measure (gas i) d = amount i d.gases
measure energy d = d.energy

-- The loops that add up the gases, weighted and not.
abbrev pub sum_of : (Gas → ℤ) → ℤ
sum_of f = pos 0 +ℤ f Gas.oxygen +ℤ f Gas.co2 +ℤ f Gas.nytrogen +ℤ f Gas.plasma

abbrev pub moles : Gases → ℤ
moles g = sum_of (λ i. amount i g)

abbrev burn_scale : ℤ
burn_scale = pos 32

abbrev energy_multiplier : ℤ
energy_multiplier = pos 4

unfoldable pub max_burn : Gases → ℤ
max_burn g = min_ℤ (g.oxygen /ℤ o2_multiplier) g.plasma

unfoldable pub burn_amount : ℤ → ℤ
burn_amount most = min_ℤ most (max_ℤ (pos 1) (most /ℤ burn_scale))

-- The assignments after the tests, for the amount that burns.
unfoldable pub burn_gases : ℤ → AtmosData → AtmosData
burn_gases burn d = record d {
  gases = record d.gases {
    oxygen = d.gases.oxygen -ℤ burn *ℤ o2_multiplier;
    plasma = d.gases.plasma -ℤ burn;
    co2 = d.gases.co2 +ℤ burn;
  };
  energy = d.energy +ℤ burn *ℤ energy_multiplier;
}

-- ProccesBurning
unfoldable pub process_burning : AtmosData → AtmosData
process_burning d =
    if not d.fire
    then d
    else let most = max_burn d.gases in
      if most ==ℤ pos 0 then record d { fire = false } else burn_gases (burn_amount most) d

temperature_of : AtmosData → ℤ
temperature_of d =
    let sum = sum_of (λ i. amount i d.gases *ℤ freedom i) /ℤ pos 2 in
    if sum ==ℤ pos 0 then pos 0 else (d.energy *ℤ energy_const) /ℤ sum

pressure_of : AtmosData → ℤ
pressure_of d = if d.volume ==ℤ pos 0 then pos 0 else (moles d.gases *ℤ d.temperature) /ℤ d.volume

-- UpdateMacroParams: the pressure is taken from the new temperature.
unfoldable pub update_macro_params : AtmosData → AtmosData
unfolding temperature_of pressure_of
update_macro_params d =
    let heated = record d { temperature = temperature_of d } in
    record heated { pressure = pressure_of heated }

-- No gas and no energy is below zero.
pub record IsPhysical (d : AtmosData) : Type 0 where
  pub oxygen_pos : pos 0 ≤ℤ d.gases.oxygen
  pub co2_pos : pos 0 ≤ℤ d.gases.co2
  pub nytrogen_pos : pos 0 ≤ℤ d.gases.nytrogen
  pub plasma_pos : pos 0 ≤ℤ d.gases.plasma
  pub energy_pos : pos 0 ≤ℤ d.energy
