-- ===== src/GasTank.antt =====
-- GasTank, MagicGasTank and PlasmaGasTank of sources/core/objects/movable/GasTank.h and GasTank.cpp. The
-- tank's mixture and the tile's are those of AtmosHolder. Chat messages are left out; the random
-- number of ApplyFire is an argument.
pub mod Leaks
use griefly.Prelude.{
  ℕ, ◌+◌, ◌%◌, Bool, true, false, ◌==◌, if◌then◌else◌, Option, none, some, List, [], ◌∷◌,
}
use griefly.Prelude.Int.{ℤ, pos, ◌-ℤ◌, ◌*ℤ◌, ◌/ℤ◌, min_ℤ, max_ℤ}
use griefly.Atmos.Gas.{Gas, AtmosData, amount}
use griefly.Atmos.Holder.{Pair, empty, add_gase, add_energy, remove_gase, connect_default}

pub data State : Type 0 where
  opened closed broken : State

abbrev pub is_broken : State → Bool
is_broken broken = true
is_broken _ = false

abbrev is_closed : State → Bool
is_closed closed = true
is_closed _ = false

pub record GasTank : Type 0 where
  pub state : State
  pub air : AtmosData
  -- the overlay that shows the pressure
  pub overlay_id : ℤ
  -- how often "-1" is behind the sprite's state
  pub breaks : ℕ

-- A tank, and the tile that owns it, if it is on one.
pub record Place : Type 0 where
  pub tank : GasTank
  pub tile : Option AtmosData

abbrev o2_tank_amount : ℤ
o2_tank_amount = pos 10000

abbrev o2_tank_energy : ℤ
o2_tank_energy = pos 5000

abbrev plasma_tank_amount : ℤ
plasma_tank_amount = pos 10000

abbrev base_pressure : ℤ
base_pressure = pos 160000

abbrev overlays_size : ℤ
overlays_size = pos 4

-- GasTank::GasTank
unfoldable pub new_tank : GasTank
new_tank = record {
  state = closed;
  air = add_energy o2_tank_energy (add_gase Gas.oxygen o2_tank_amount empty);
  overlay_id = pos 0;
  breaks = 0;
}

-- PlasmaGasTank::PlasmaGasTank
unfoldable pub new_plasma_tank : GasTank
new_plasma_tank = record new_tank {
  air =
      add_gase Gas.plasma plasma_tank_amount (remove_gase Gas.oxygen o2_tank_amount new_tank.air).0;
}

-- AttackBy, with a hand or not
unfoldable pub attack_by : Bool → GasTank → GasTank
attack_by false t = t
attack_by true t = record t { state = turned t.state }
  where
    turned : State → State
    turned broken = broken
    turned opened = closed
    turned closed = opened

-- Break
unfoldable pub break_apart : GasTank → GasTank
break_apart t = if is_broken t.state then t else record t { state = broken; breaks = t.breaks + 1 }

-- ApplyFire
unfoldable pub apply_fire : ℕ → GasTank → GasTank
apply_fire random t = if is_broken t.state then t else if random % 8 == 0 then break_apart t else t

-- The index into OVERLAYS_STATES.
unfoldable pub overlay_of : ℤ → ℤ
overlay_of pressure =
    min_ℤ (max_ℤ ((pressure *ℤ overlays_size) /ℤ base_pressure) (pos 0)) (overlays_size -ℤ pos 1)

-- The exchange of Process with the tile.
unfoldable pub leak : GasTank → Option AtmosData → Place
leak t none = record { tank = t; tile = none }
leak t (some tile) =
    let p = connect_default (record { owner = t.air; guest = tile }) in
    record { tank = record t { air = p.owner }; tile = some p.guest }

-- GasTank::Process
unfoldable pub process : Place → Place
process p =
    let t = record p.tank { overlay_id = overlay_of p.tank.air.pressure } in
    if is_closed t.state then record p { tank = t } else leak t p.tile

-- The first two lines of MagicGasTank::Process after GasTank::Process.
unfoldable pub purify : AtmosData → AtmosData
purify air =
    let no_co2 = (remove_gase Gas.co2 air.gases.co2 air).0 in
    (remove_gase Gas.nytrogen no_co2.gases.nytrogen no_co2).0

-- The rest of MagicGasTank::Process.
unfoldable pub refill : AtmosData → AtmosData
refill air =
    let pure = purify air in
    let full = add_gase Gas.oxygen (max_ℤ (pos 0) (o2_tank_amount -ℤ pure.gases.oxygen)) pure in
    add_energy (max_ℤ (pos 0) (o2_tank_energy -ℤ full.energy)) full

-- MagicGasTank::Process
unfoldable pub magic_process : Place → Place
magic_process p = let q = process p in record q { tank = record q.tank { air = refill q.tank.air } }

pub data Event : Type 0 where
  is_attacked : Bool → Event
  burns : ℕ → Event
  ticks : Event

unfoldable pub step : Event → Place → Place
step (is_attacked hand) p = record p { tank = attack_by hand p.tank }
step (burns random) p = record p { tank = apply_fire random p.tank }
step ticks p = process p

unfoldable pub run : List Event → Place → Place
run [] p = p
run (e ∷ es) p = run es (step e p)
