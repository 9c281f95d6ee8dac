-- ===== src/GasTank/Leaks.antt =====
-- What a tank holds and lets out.
use griefly.Prelude.{ℕ, ◌≡◌, refl, ap, ◌∙◌, true, false, Option, none, some, List, [], ◌∷◌, arith}
use griefly.Prelude.Int.{ℤ, pos, ◌+ℤ◌, ◌-ℤ◌, ◌≤ℤ◌, max_ℤ, int_laws}
use griefly.Atmos.Gas.{
  AtmosData, Quantity, gas, energy, measure, max_gas_level, update_macro_params,
}
use griefly.Atmos.Holder.{add_gase, add_energy, remove_gase, connect_default}
use griefly.Atmos.Holder.Transfer.{connect_conserves}
use griefly.GasTank.{
  State, broken, GasTank, Place, attack_by, break_apart, apply_fire, overlay_of, leak, process,
  purify, refill, magic_process, Event, is_attacked, burns, ticks, step, run,
}

-- The overlay is in OVERLAYS_STATES.
overlay_of-range : (pressure : ℤ) → (pos 0 ≤ℤ overlay_of pressure) × (overlay_of pressure ≤ℤ pos 3)
unfolding overlay_of
overlay_of-range pressure = grind int_laws

on_tile : Option AtmosData → Quantity → ℤ
on_tile none q = pos 0
on_tile (some air) q = measure q air

-- All of a gas or of the energy in the tank and on the tile.
pub all_of : Quantity → Place → ℤ
unfolding on_tile
all_of q p = measure q p.tank.air +ℤ on_tile p.tile q

leak-all_of :
    (q : Quantity) (t : GasTank) (tile : Option AtmosData)
    → all_of q (leak t tile) ≡ all_of q (record { tank = t; tile = tile })
unfolding leak all_of on_tile connect_default
leak-all_of q t none = refl
leak-all_of (gas i) t (some tile) =
    (connect_conserves max_gas_level max_gas_level (pos 500)
        (record { owner = t.air; guest = tile })).0
      i
leak-all_of energy t (some tile) =
    (connect_conserves max_gas_level max_gas_level (pos 500)
      (record { owner = t.air; guest = tile })).1

process-all_of : (q : Quantity) (p : Place) → all_of q (process p) ≡ all_of q p
unfolding process all_of on_tile
process-all_of q p = at p.tank.state
  where
    t : State → GasTank
    t s = record p.tank { state = s; overlay_id = overlay_of p.tank.air.pressure }

    at :
        (s : State)
        → all_of q (process (record p { tank = record p.tank { state = s } })) ≡ all_of q p
    at State.opened = leak-all_of q (t State.opened) p.tile
    at State.closed = refl
    at State.broken = leak-all_of q (t State.broken) p.tile

step-all_of : (e : Event) (q : Quantity) (p : Place) → all_of q (step e p) ≡ all_of q p
unfolding step all_of on_tile apply_fire break_apart attack_by
step-all_of (is_attacked true) q p = refl
step-all_of (is_attacked false) q p = refl
step-all_of (burns random) q p = grind arith
step-all_of ticks q p = process-all_of q p

leak-state : (t : GasTank) (tile : Option AtmosData) → (leak t tile).tank.state ≡ t.state
unfolding leak
leak-state t none = refl
leak-state t (some tile) = refl

leak-breaks : (t : GasTank) (tile : Option AtmosData) → (leak t tile).tank.breaks ≡ t.breaks
unfolding leak
leak-breaks t none = refl
leak-breaks t (some tile) = refl

-- A tank that is broken, and has broken so often.
abbrev pub IsBroken : ℕ → Place → Type 0
IsBroken n p = (p.tank.state ≡ broken) × (p.tank.breaks ≡ n)

step-IsBroken : (e : Event) (n : ℕ) (p : Place) → IsBroken n p → IsBroken n (step e p)
unfolding step apply_fire break_apart attack_by process
step-IsBroken (is_attacked true) n p b = (grind (arith, b.0), b.1)
step-IsBroken (is_attacked false) n p b = b
step-IsBroken (burns random) n p b = rw b.0 (refl, b.1)
step-IsBroken ticks n p b = rw b.0 (leak-state _ p.tile, leak-breaks _ p.tile ∙ b.1)

-- Whatever happens to a tank, all of each gas and of the energy in the tank and on its tile stays what
-- it was, and a broken tank stays broken and does not break again.
pub run_keeps :
    (es : List Event) (p : Place)
    → ((q : Quantity) → all_of q (run es p) ≡ all_of q p)
      × ((n : ℕ) → IsBroken n p → IsBroken n (run es p))
unfolding run
run_keeps [] p = (λ q. refl, λ n b. b)
run_keeps (e ∷ es) p =
    let rest = run_keeps es (step e p) in
    (λ q. rest.0 q ∙ step-all_of e q p, λ n b. rest.1 n (step-IsBroken e n p b))

-- What a magic tank holds after a tick.
pub record Refilled (before after : AtmosData) : Type 0 where
  pub no_co2 : after.gases.co2 ≡ pos 0
  pub no_nytrogen : after.gases.nytrogen ≡ pos 0
  pub oxygen_full : after.gases.oxygen ≡ max_ℤ (pos 10000) before.gases.oxygen
  pub plasma_kept : after.gases.plasma ≡ before.gases.plasma
  pub energy_full : after.energy ≡ max_ℤ (pos 5000) before.energy

record Purified (before after : AtmosData) : Type 0 where
  no_co2 : after.gases.co2 ≡ pos 0
  no_nytrogen : after.gases.nytrogen ≡ pos 0
  oxygen_kept : after.gases.oxygen ≡ before.gases.oxygen
  plasma_kept : after.gases.plasma ≡ before.gases.plasma
  energy_kept : after.energy ≡ before.energy

purify-Purified : (air : AtmosData) → Purified air (purify air)
unfolding purify remove_gase update_macro_params
purify-Purified air = record {
  no_co2 = grind int_laws;
  no_nytrogen = grind int_laws;
  oxygen_kept = grind arith;
  plasma_kept = grind arith;
  energy_kept = grind arith;
}

top_up : (most a : ℤ) → a +ℤ max_ℤ (pos 0) (most -ℤ a) ≡ max_ℤ most a
top_up most a = grind int_laws

refill-Refilled : (air : AtmosData) → Refilled air (refill air)
unfolding refill add_gase add_energy update_macro_params
refill-Refilled air =
    let pure = purify-Purified air in
    record {
      no_co2 = pure.no_co2;
      no_nytrogen = pure.no_nytrogen;
      oxygen_full = top_up (pos 10000) _ ∙ ap (max_ℤ (pos 10000)) pure.oxygen_kept;
      plasma_kept = pure.plasma_kept;
      energy_full = top_up (pos 5000) _ ∙ ap (max_ℤ (pos 5000)) pure.energy_kept;
    }

-- A tick of a magic tank is one of a tank, after which it has no CO2 and no nytrogen, its plasma, and
-- at least 10000 of oxygen and 5000 of energy, or what it had of them where that is more.
pub magic_process-Refilled :
    (p : Place)
    → Refilled (process p).tank.air (magic_process p).tank.air
      × ((magic_process p).tile ≡ (process p).tile)
unfolding magic_process
magic_process-Refilled p = (refill-Refilled (process p).tank.air, refl)
