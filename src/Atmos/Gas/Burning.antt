-- ===== src/Atmos/Gas/Burning.antt =====
-- One tick of burning, ProccesBurning of sources/core/atmos/AtmosConstants.h.
use griefly.Prelude.{ℕ, zero, suc, ◌≡◌, refl, inl, inr, true, false, arith}
use griefly.Prelude.{Bool-cases}
use griefly.Prelude.Int.{ℤ, pos, ◌+ℤ◌, ◌-ℤ◌, ◌*ℤ◌, ◌≤ℤ◌, ◌<ℤ◌, int_laws, parts_apart}
use griefly.Atmos.Gas.{AtmosData, IsPhysical, process_burning, max_burn, burn_amount, burn_gases}

max_burn_bounds :
    (d : AtmosData)
    → IsPhysical d
    → (pos 0 ≤ℤ max_burn d.gases)
      × (max_burn d.gases ≤ℤ d.gases.plasma)
      × (max_burn d.gases *ℤ pos 2 ≤ℤ d.gases.oxygen)
unfolding max_burn
max_burn_bounds d v = grind (int_laws, parts_apart d.gases.oxygen)

burn_amount_bounds :
    (most : ℤ) → pos 1 ≤ℤ most → (pos 1 ≤ℤ burn_amount most) × (burn_amount most ≤ℤ most)
unfolding burn_amount
burn_amount_bounds most h = grind (int_laws, parts_apart most)

-- One tick of burning takes no gas and no energy below zero, when none was.
pub process_burning-IsPhysical : (d : AtmosData) → IsPhysical d → IsPhysical (process_burning d)
unfolding process_burning burn_gases
process_burning-IsPhysical d v =
    grind (int_laws, max_burn_bounds d v, burn_amount_bounds (max_burn d.gases))

-- One tick of burning turns plasma into as much carbon dioxide, takes twice as much oxygen, releases energy in
-- proportion, and touches nothing else but the flame.
process_burning_trades :
    (d : AtmosData)
    → let e = process_burning d in
      (e.gases.plasma +ℤ e.gases.co2 ≡ d.gases.plasma +ℤ d.gases.co2)
      × (e.gases.oxygen +ℤ (d.gases.plasma -ℤ e.gases.plasma) *ℤ pos 2 ≡ d.gases.oxygen)
      × (e.energy ≡ d.energy +ℤ (d.gases.plasma -ℤ e.gases.plasma) *ℤ pos 4)
      × (e.gases.nytrogen ≡ d.gases.nytrogen)
      × (e.pressure ≡ d.pressure)
      × (e.volume ≡ d.volume)
      × (e.temperature ≡ d.temperature)
unfolding process_burning burn_gases
process_burning_trades d = grind int_laws

-- A flame that lasts has eaten plasma.
process_burning_eats :
    (d : AtmosData)
    → IsPhysical d
    → (process_burning d).fire ≡ true
    → (process_burning d).gases.plasma <ℤ d.gases.plasma
unfolding process_burning burn_gases
process_burning_eats d v lit =
    grind (int_laws, max_burn_bounds d v, burn_amount_bounds (max_burn d.gases))

-- Where there is no flame, or nothing to burn, the tick changes nothing but puts the flame out.
process_burning_idle : (d : AtmosData) → d.fire ≡ false → process_burning d ≡ d
unfolding process_burning
process_burning_idle d dark = ground arith

-- n ticks.
pub burn_for : ℕ → AtmosData → AtmosData
burn_for zero d = d
burn_for (suc n) d = burn_for n (process_burning d)

burn_for_idle : (n : ℕ) (d : AtmosData) → d.fire ≡ false → burn_for n d ≡ d
unfolding burn_for
burn_for_idle zero d dark = refl
burn_for_idle (suc n) d dark = rw (process_burning_idle d dark) (burn_for_idle n d dark)

-- A fire that is fed nothing goes out: from a mixture with nothing below zero, after any number of
-- ticks greater than its plasma.
pub burn_for_ends :
    (n : ℕ) (d : AtmosData) → IsPhysical d → d.gases.plasma <ℤ pos n → (burn_for n d).fire ≡ false
unfolding burn_for
burn_for_ends zero d v h = absurd (omega (int_laws, v.plasma_pos))
burn_for_ends (suc n) d v h = elim (Bool-cases (process_burning d).fire) [
  | inl lit ↦
      burn_for_ends n (process_burning d) (process_burning-IsPhysical d v)
        (omega (arith, process_burning_eats d v lit))
  | inr dark ↦ rw (burn_for_idle n (process_burning d) dark) dark
]
