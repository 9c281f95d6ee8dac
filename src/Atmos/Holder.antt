-- ===== src/Atmos/Holder.antt =====
-- sources/core/atmos/AtmosHolder.h and AtmosHolder.cpp: operations on a mixture. A holder reads and
-- writes through `data_ptr_`: its own record, or a cell of the grid. The functions here take and
-- return what the pointer leads to; the two sides of `connect` are different records.
pub mod Transfer
use griefly.Prelude.{ℕ, ◌≡◌, Bool, true, false, if◌then◌else◌}
use griefly.Prelude.Int.{ℤ, pos, ◌+ℤ◌, ◌-ℤ◌, ◌*ℤ◌, ◌/ℤ◌, ltb_ℤ, to_int16}
use griefly.Atmos.Gas.{Gas, Gases, AtmosData, amount, put, each, max_gas_level, update_macro_params}

-- AtmosHolder::AtmosHolder
pub empty : AtmosData
empty = record {
  gases = each (λ _. pos 0);
  energy = pos 0;
  pressure = pos 0;
  volume = pos 1;
  temperature = pos 0;
  fire = false;
}

-- A level below 0 or above the greatest counts as that.
pub clamp_level : ℤ → ℤ
clamp_level level =
    let capped = if ltb_ℤ max_gas_level level then max_gas_level else level in
    if ltb_ℤ capped (pos 0) then pos 0 else capped

-- The share of an amount at a level.
pub share : ℤ → ℤ → ℤ
share n level = (n *ℤ level) /ℤ max_gas_level

pub record Sides : Type 0 where
  pub owner : ℤ
  pub guest : ℤ

-- What `Connect` does to each gas and to the energy: both sides put their share in, and the owner
-- takes `div` of it back.
pub exchange : ℤ → ℤ → ℤ → Sides → Sides
unfolding share
exchange level_owner level_guest div s =
    let from_owner = share s.owner level_owner in
    let from_guest = share s.guest level_guest in
    let loc = from_owner +ℤ from_guest in
    let to_owner = share loc div in
    record {
      owner = s.owner -ℤ from_owner +ℤ to_owner;
      guest = s.guest -ℤ from_guest +ℤ (loc -ℤ to_owner);
    }

pub record Pair : Type 0 where
  pub owner : AtmosData
  pub guest : AtmosData

-- The two mixtures after the exchange, before the macro parameters are brought up to date.
pub mix : ℤ → ℤ → ℤ → Pair → Pair
unfolding exchange
mix level_owner level_guest div p =
    let swap = exchange level_owner level_guest div in
    let gas = λ (i : Gas).
      swap (record { owner = amount i p.owner.gases; guest = amount i p.guest.gases }) in
    let heat = swap (record { owner = p.owner.energy; guest = p.guest.energy }) in
    record {
      owner = record p.owner { gases = each (λ i. (gas i).owner); energy = heat.owner };
      guest = record p.guest { gases = each (λ i. (gas i).guest); energy = heat.guest };
    }

-- AtmosHolder::Connect
pub connect : ℤ → ℤ → ℤ → Pair → Pair
unfolding clamp_level mix
connect level_owner level_guest div p =
    let q = mix (clamp_level level_owner) (clamp_level level_guest) (clamp_level div) p in
    record { owner = update_macro_params q.owner; guest = update_macro_params q.guest }

-- `Connect` with its default arguments.
unfoldable pub connect_default : Pair → Pair
unfolding connect
connect_default p = connect max_gas_level max_gas_level (pos 500) p

unfoldable pub add_gase : Gas → ℤ → AtmosData → AtmosData
add_gase gase n d =
    update_macro_params (record d { gases = put gase (amount gase d.gases +ℤ n) d.gases })

unfoldable pub add_energy : ℤ → AtmosData → AtmosData
add_energy energy d = update_macro_params (record d { energy = d.energy +ℤ energy })

pub set_volume : ℤ → AtmosData → AtmosData
set_volume volume d = update_macro_params (record d { volume = to_int16 volume })

-- RemoveGase returns how much it took.
unfoldable pub remove_gase : Gas → ℤ → AtmosData → AtmosData × ℤ
remove_gase gase n d =
    let held = amount gase d.gases in
    if ltb_ℤ held n
    then (update_macro_params (record d { gases = put gase (pos 0) d.gases }), held)
    else (update_macro_params (record d { gases = put gase (held -ℤ n) d.gases }), n)

pub truncate : AtmosData → AtmosData
truncate d = update_macro_params (record d { gases = each (λ _. pos 0); energy = pos 0 })

pub ignite : AtmosData → AtmosData
ignite d = record d { fire = true }

-- AddDefaultValues: the air of a station.
pub add_default_values : AtmosData → AtmosData
unfolding add_gase add_energy
add_default_values d =
    add_energy (pos 1000)
      (add_gase Gas.co2 (pos 1) (add_gase Gas.oxygen (pos 230) (add_gase Gas.nytrogen (pos 750) d)))
