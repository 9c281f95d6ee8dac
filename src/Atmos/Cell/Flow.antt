-- ===== src/Atmos/Cell/Flow.antt =====
-- The flows that ProcessFiveCells records: how much gas crosses each side, as ProcessTileMove of
-- sources/core/atmos/Atmos.cpp reads them.
use griefly.Prelude.{◌≡◌, Option, some, ap}
use griefly.Prelude.Int.{ℤ, ◌+ℤ◌, ◌-ℤ◌, int_laws}
use griefly.Atmos.Gas.{moles}
use griefly.Atmos.Cell.{
  Side, Cell, Five, Shares, sums, shares, gain, gain_of, entry, revert, process_five_cells,
  level_left, level_up, level_down, level_right,
}
use mathlib.Core.Option

abbrev settled : Five → Shares
settled f = shares (sums f.near f.center)

abbrev gained : Shares → Cell → ℤ
gained s c = moles s.average -ℤ moles c.mixture.gases

inflow : (s : Shares) (c : Cell) (n : ℤ) → n +ℤ gain s.average c.mixture.gases ≡ n +ℤ gained s c
inflow s c n = omega int_laws

outflow :
    (s : Shares) (c : Cell) (n : ℤ) (o : Option Cell)
    → o ≡ some c
    → n -ℤ gain_of s o ≡ n -ℤ gained s c
outflow s c n o h = rw (h, gain_of) (omega int_laws)

-- In ProcessFiveCells, across each side with a neighbour that takes part, the neighbour's flow towards the center grows by the moles that it gains, and the
-- center's flow towards the neighbour falls by as much.
process_five_cells_flow :
    (f : Five) (d : Side) (c : Cell)
    → entry d f.near ≡ some c
    → let g = process_five_cells f in
      (c' : Cell) × (entry d g.near ≡ some c')
      × (entry (revert d) c'.flows
          ≡ entry (revert d) c.flows +ℤ (moles c'.mixture.gases -ℤ moles c.mixture.gases))
      × (entry d g.center.flows
          ≡ entry d f.center.flows -ℤ (moles c'.mixture.gases -ℤ moles c.mixture.gases))
unfolding process_five_cells
process_five_cells_flow f Side.left c h = (
  level_left (settled f) c,
  ap (Option.map (level_left (settled f))) h,
  inflow (settled f) c _,
  outflow (settled f) c _ _ h,
)
process_five_cells_flow f Side.up c h = (
  level_up (settled f) c,
  ap (Option.map (level_up (settled f))) h,
  inflow (settled f) c _,
  outflow (settled f) c _ _ h,
)
process_five_cells_flow f Side.down c h = (
  level_down (settled f) c,
  ap (Option.map (level_down (settled f))) h,
  inflow (settled f) c _,
  outflow (settled f) c _ _ h,
)
process_five_cells_flow f Side.right c h = (
  level_right (settled f) c,
  ap (Option.map (level_right (settled f))) h,
  inflow (settled f) c _,
  outflow (settled f) c _ _ h,
)
