-- ===== src/Atmos/Cell/Settling.antt =====
-- What ProcessFiveCells and Finalize leave in a cell: nothing below zero, one flame for all.
use griefly.Prelude.{ℕ, ◌≡◌, refl, Option, some, none, arith, Bool, ◌&&◌}
use griefly.Prelude.Int.{ℤ, pos, ◌+ℤ◌, ◌≤ℤ◌, ◌/ℤ◌, ◌%ℤ◌, int_laws, parts_apart}
use griefly.Atmos.Gas.{AtmosData, amount, each, IsPhysical, update_macro_params}
use griefly.Atmos.Gas.Burning.{process_burning-IsPhysical}
use griefly.Atmos.Cell.{
  Side, Cell, Five, Sums, Shares, entry, add_near, sums, shares, level, non_zero, four_fifths,
  process_five_cells, vent, finalize_cell,
}
use mathlib.Core.Option
use mathlib.Core.Option.{some-injective}

-- A cell that is there holds nothing below zero.
abbrev pub Holds : Option Cell → Type 0
Holds none = Unit
Holds (some c) = IsPhysical c.mixture

pub record AllPhysical (f : Five) : Type 0 where
  pub near_left : Holds f.near.left
  pub near_up : Holds f.near.up
  pub near_down : Holds f.near.down
  pub near_right : Holds f.near.right
  pub center : IsPhysical f.center.mixture

record SumsPhysical (s : Sums) : Type 0 where
  oxygen_pos : pos 0 ≤ℤ s.gases.oxygen
  co2_pos : pos 0 ≤ℤ s.gases.co2
  nytrogen_pos : pos 0 ≤ℤ s.gases.nytrogen
  plasma_pos : pos 0 ≤ℤ s.gases.plasma
  energy_pos : pos 0 ≤ℤ s.energy

add_near-SumsPhysical :
    (s : Sums) (o : Option Cell) → SumsPhysical s → Holds o → SumsPhysical (add_near s o)
add_near-SumsPhysical s none v h = v
add_near-SumsPhysical s (some c) v h = omega int_laws

sums-SumsPhysical : (f : Five) → AllPhysical f → SumsPhysical (sums f.near f.center)
unfolding sums
sums-SumsPhysical f v =
    add_near-SumsPhysical _ (some f.center)
      (add_near-SumsPhysical _ f.near.right
        (add_near-SumsPhysical _ f.near.down
          (add_near-SumsPhysical _ f.near.up
            (add_near-SumsPhysical _ f.near.left (omega arith) v.near_left) v.near_up)
          v.near_down)
        v.near_right)
      v.center

share_pos : (a : ℤ) (n : ℕ) → pos 0 ≤ℤ a → (pos 0 ≤ℤ a /ℤ pos n) × (pos 0 ≤ℤ a %ℤ pos n)
share_pos a n h = grind (int_laws, parts_apart a)

-- Of the local variables after the second loop.
record SharesPhysical (s : Shares) : Type 0 where
  each_pos :
      (d : AtmosData) → IsPhysical (record d { gases = s.average; energy = s.energy_average })
  center_pos :
      (d : AtmosData)
      → IsPhysical (record d {
        gases = each (λ i. amount i s.average +ℤ amount i s.remains);
        energy = s.energy_average +ℤ s.energy_remains;
      })

shares-SharesPhysical : (s : Sums) → SumsPhysical s → SharesPhysical (shares s)
unfolding shares
shares-SharesPhysical s v =
    let oxygen = share_pos s.gases.oxygen s.near_size v.oxygen_pos in
    let co2 = share_pos s.gases.co2 s.near_size v.co2_pos in
    let nytrogen = share_pos s.gases.nytrogen s.near_size v.nytrogen_pos in
    let plasma = share_pos s.gases.plasma s.near_size v.plasma_pos in
    let energy = share_pos s.energy s.near_size v.energy_pos in
    record {
      each_pos = λ d. record {
        oxygen_pos = oxygen.0;
        co2_pos = co2.0;
        nytrogen_pos = nytrogen.0;
        plasma_pos = plasma.0;
        energy_pos = energy.0;
      };
      center_pos = λ d. record {
        oxygen_pos = sum_pos _ _ oxygen;
        co2_pos = sum_pos _ _ co2;
        nytrogen_pos = sum_pos _ _ nytrogen;
        plasma_pos = sum_pos _ _ plasma;
        energy_pos = sum_pos _ _ energy;
      };
    }
  where
    sum_pos : (a b : ℤ) → (pos 0 ≤ℤ a) × (pos 0 ≤ℤ b) → pos 0 ≤ℤ a +ℤ b
    sum_pos a b h = omega int_laws

map-Holds :
    (g : Cell → Cell) (o : Option Cell)
    → ((c : Cell) → IsPhysical (g c).mixture)
    → Holds (Option.map g o)
map-Holds g none h = tt
map-Holds g (some c) h = h c

-- ProcessFiveCells leaves none of five cells with less than nothing of a gas or of energy, when they
-- had none below zero before.
pub process_five_cells-AllPhysical : (f : Five) → AllPhysical f → AllPhysical (process_five_cells f)
unfolding process_five_cells
process_five_cells-AllPhysical f v = record {
  near_left = map-Holds _ f.near.left lit;
  near_up = map-Holds _ f.near.up lit;
  near_down = map-Holds _ f.near.down lit;
  near_right = map-Holds _ f.near.right lit;
  center = kept.center_pos (process_five_cells f).center.mixture;
}
  where
    kept : SharesPhysical (shares (sums f.near f.center))
    kept = shares-SharesPhysical _ (sums-SumsPhysical f v)

    lit : (c : Cell) → IsPhysical (level (shares (sums f.near f.center)) c).mixture
    lit c = kept.each_pos (record c.mixture { fire = (shares (sums f.near f.center)).fire })

four_fifths_pos : (a : ℤ) → pos 0 ≤ℤ a → pos 0 ≤ℤ four_fifths a
four_fifths_pos a h = grind (int_laws, parts_apart a)

vent-IsPhysical : (c : Cell) → IsPhysical c.mixture → IsPhysical (vent c).mixture
unfolding vent
vent-IsPhysical c v = ground (
  arith,
  four_fifths_pos c.mixture.gases.oxygen,
  four_fifths_pos c.mixture.gases.co2,
  four_fifths_pos c.mixture.gases.nytrogen,
  four_fifths_pos c.mixture.gases.plasma,
  four_fifths_pos c.mixture.energy,
)

macro_params-IsPhysical : (d : AtmosData) → IsPhysical d → IsPhysical (update_macro_params d)
unfolding update_macro_params
macro_params-IsPhysical d v = ground arith

-- The step of Finalize on a cell leaves no gas and no energy of it below zero, when none was.
pub finalize_cell-IsPhysical :
    (c : Cell) → IsPhysical c.mixture → IsPhysical (finalize_cell c).mixture
unfolding finalize_cell
finalize_cell-IsPhysical c v =
    macro_params-IsPhysical _ (process_burning-IsPhysical _ (vent-IsPhysical c v))

map-fire :
    (g : Cell → Cell) (flame : Bool) (o : Option Cell) (c : Cell)
    → ((b : Cell) → (g b).mixture.fire ≡ flame)
    → Option.map g o ≡ some c
    → c.mixture.fire ≡ flame
map-fire g flame none c h e = cc
map-fire g flame (some b) c h e = ground (arith, h b)

-- It burns if one of the five burnt, and there is plasma and oxygen in the five together.
abbrev pub flame : Sums → Bool
flame s = s.fire && non_zero s.gases.plasma && non_zero s.gases.oxygen

-- After ProcessFiveCells a neighbour that takes part and the center share one flame: they burn
-- exactly when one of the five burned and the five have plasma and oxygen.
pub process_five_cells_fire :
    (f : Five) (d : Side) (c : Cell)
    → entry d (process_five_cells f).near ≡ some c
    → (c.mixture.fire ≡ flame (sums f.near f.center))
      × ((process_five_cells f).center.mixture.fire ≡ flame (sums f.near f.center))
unfolding process_five_cells
process_five_cells_fire f Side.left c h = (map-fire _ _ f.near.left c (λ b. refl) h, refl)
process_five_cells_fire f Side.up c h = (map-fire _ _ f.near.up c (λ b. refl) h, refl)
process_five_cells_fire f Side.down c h = (map-fire _ _ f.near.down c (λ b. refl) h, refl)
process_five_cells_fire f Side.right c h = (map-fire _ _ f.near.right c (λ b. refl) h, refl)
