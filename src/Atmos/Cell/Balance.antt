-- ===== src/Atmos/Cell/Balance.antt =====
-- ProcessFiveCells keeps the gas and the energy of the five cells.
use griefly.Prelude.{◌≡◌, Option, some, none}
use griefly.Prelude.Int.{ℤ, pos, ◌+ℤ◌, int_laws}
use griefly.Atmos.Gas.{Gas, Quantity, gas, energy, measure}
use griefly.Atmos.Cell.{Cell, Five, process_five_cells}

-- How much of a quantity a cell holds; where there is no cell, nothing.
abbrev pub held : Quantity → Option Cell → ℤ
held q none = pos 0
held q (some c) = measure q c.mixture

-- What five cells hold together.
abbrev pub total : Quantity → Five → ℤ
total q f =
    held q f.near.left
    +ℤ held q f.near.up
    +ℤ held q f.near.down
    +ℤ held q f.near.right
    +ℤ measure q f.center.mixture

abbrev five : Option Cell → Option Cell → Option Cell → Option Cell → Cell → Five
five a b c d e = record { near = record { left = a; up = b; down = c; right = d }; center = e }

record Conserves (f g : Five) : Type 0 where
  oxygen : total (gas Gas.oxygen) g ≡ total (gas Gas.oxygen) f
  co2 : total (gas Gas.co2) g ≡ total (gas Gas.co2) f
  nytrogen : total (gas Gas.nytrogen) g ≡ total (gas Gas.nytrogen) f
  plasma : total (gas Gas.plasma) g ≡ total (gas Gas.plasma) f
  energy : total energy g ≡ total energy f

-- One case for each choice of the neighbours that take part.
process_near-Conserves :
    (a b c d : Option Cell) (e : Cell)
    → Conserves (five a b c d e) (process_five_cells (five a b c d e))
unfolding process_five_cells
process_near-Conserves none none none none e = omega int_laws
process_near-Conserves none none none (some d) e = omega int_laws
process_near-Conserves none none (some c) none e = omega int_laws
process_near-Conserves none none (some c) (some d) e = omega int_laws
process_near-Conserves none (some b) none none e = omega int_laws
process_near-Conserves none (some b) none (some d) e = omega int_laws
process_near-Conserves none (some b) (some c) none e = omega int_laws
process_near-Conserves none (some b) (some c) (some d) e = omega int_laws
process_near-Conserves (some a) none none none e = omega int_laws
process_near-Conserves (some a) none none (some d) e = omega int_laws
process_near-Conserves (some a) none (some c) none e = omega int_laws
process_near-Conserves (some a) none (some c) (some d) e = omega int_laws
process_near-Conserves (some a) (some b) none none e = omega int_laws
process_near-Conserves (some a) (some b) none (some d) e = omega int_laws
process_near-Conserves (some a) (some b) (some c) none e = omega int_laws
process_near-Conserves (some a) (some b) (some c) (some d) e = omega int_laws

by_quantity : {f g : Five} → Conserves f g → (q : Quantity) → total q g ≡ total q f
by_quantity c (gas Gas.oxygen) = c.oxygen
by_quantity c (gas Gas.co2) = c.co2
by_quantity c (gas Gas.nytrogen) = c.nytrogen
by_quantity c (gas Gas.plasma) = c.plasma
by_quantity c energy = c.energy

-- After ProcessFiveCells the cells have between them as much of each gas, and as much energy, as
-- before, whichever neighbours take part.
pub process_five_cells_conserves :
    (f : Five) (q : Quantity) → total q (process_five_cells f) ≡ total q f
process_five_cells_conserves f =
    by_quantity (process_near-Conserves f.near.left f.near.up f.near.down f.near.right f.center)
