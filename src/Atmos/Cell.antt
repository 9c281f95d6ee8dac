-- ===== src/Atmos/Cell.antt =====
-- The cells of sources/core/atmos/AtmosGrid.h, and ProcessFiveCells and Finalize's step of
-- sources/core/atmos/AtmosGrid.cpp. The five pointers of `near_cells` are four optional cells and
-- the center; they lead to different cells, so what is written through them is returned.
pub mod Balance
pub mod Flow
pub mod Settling
use griefly.Prelude.{ℕ, suc, ◌+◌, ◌*◌, ◌/◌, ◌%◌, Bool, true, false, not, ◌&&◌, ◌||◌, ◌==◌}
use griefly.Prelude.{if◌then◌else◌, Option, some, none}
use griefly.Prelude.Int.{ℤ, pos, ◌+ℤ◌, ◌-ℤ◌, ◌*ℤ◌, ◌/ℤ◌, ◌%ℤ◌, ◌==ℤ◌}
use griefly.Atmos.Gas.{Gas, Gases, AtmosData, amount, each, process_burning, update_macro_params}
use mathlib.Core.Option

-- `Flags` is a char of seven bits.
abbrev pub clear : ℕ
clear = 0

abbrev pub up_block : ℕ
up_block = 1

abbrev pub down_block : ℕ
down_block = 2

abbrev pub left_block : ℕ
left_block = 4

abbrev pub right_block : ℕ
right_block = 8

abbrev pub center_block : ℕ
center_block = 16

abbrev pub space_tile : ℕ
space_tile = 32

abbrev pub no_objects : ℕ
no_objects = 64

-- `flags & bit`, at a power of two.
abbrev pub has_flag : ℕ → ℕ → Bool
has_flag flags bit = (flags / bit) % 2 == 1

-- Cell::SetUnpassable, `flags |= bit`
abbrev pub set_unpassable : ℕ → ℕ → ℕ
set_unpassable flags bit = if has_flag flags bit then flags else flags + bit

-- An array with one entry for each of the four directions: the indexes 0 to 3 of DIRS.
pub record Quad {ℓ} (A : Type ℓ) : Type ℓ where
  pub left : A
  pub up : A
  pub down : A
  pub right : A

-- An index below DIRS_SIZE: the order of DIRS and of INDEXES_TO_DIRS, west north south east.
pub data Side : Type 0 where
  left up down right : Side

abbrev pub entry {ℓ} : {A : Type ℓ} → Side → Quad A → A
entry Side.left q = q.left
entry Side.up q = q.up
entry Side.down q = q.down
entry Side.right q = q.right

-- REVERT_DIRS_INDEXES
abbrev pub revert : Side → Side
revert Side.left = Side.right
revert Side.up = Side.down
revert Side.down = Side.up
revert Side.right = Side.left

-- DIRS and REVERT_DIRS
abbrev pub block : Side → ℕ
block Side.left = left_block
block Side.up = up_block
block Side.down = down_block
block Side.right = right_block

-- Cell; `data` is a reserved word.
pub record Cell : Type 0 where
  pub mixture : AtmosData
  pub flows : Quad ℤ
  pub flags : ℕ

-- Cell::IsPassable
abbrev pub is_passable : Cell → ℕ → Bool
is_passable c bit = not (has_flag c.flags bit)

-- Cell::Truncate
pub truncate : Cell → Cell
truncate c = record c { mixture = record c.mixture { gases = each (λ _. pos 0); energy = pos 0 } }

-- The local variables of ProcessFiveCells after its first loop.
pub record Sums : Type 0 where
  pub gases : Gases
  pub energy : ℤ
  pub fire : Bool
  pub near_size : ℕ

abbrev no_sums : Sums
no_sums = record { gases = each (λ _. pos 0); energy = pos 0; fire = false; near_size = 0 }

abbrev pub add_cell : Sums → Cell → Sums
add_cell s c = record {
  gases = each (λ i. amount i s.gases +ℤ amount i c.mixture.gases);
  energy = s.energy +ℤ c.mixture.energy;
  fire = s.fire || c.mixture.fire;
  near_size = suc s.near_size;
}

abbrev pub add_near : Sums → Option Cell → Sums
add_near s none = s
add_near s (some c) = add_cell s c

unfoldable pub sums : Quad (Option Cell) → Cell → Sums
sums near center =
    add_cell
      (add_near (add_near (add_near (add_near no_sums near.left) near.up) near.down) near.right)
      center

-- What every cell gets, and what is left over for the center.
pub record Shares : Type 0 where
  pub average : Gases
  pub remains : Gases
  pub energy_average : ℤ
  pub energy_remains : ℤ
  pub fire : Bool

abbrev pub non_zero : ℤ → Bool
non_zero a = not (a ==ℤ pos 0)

unfoldable pub shares : Sums → Shares
shares s = record {
  average = each (λ i. amount i s.gases /ℤ pos s.near_size);
  remains = each (λ i. amount i s.gases %ℤ pos s.near_size);
  energy_average = s.energy /ℤ pos s.near_size;
  energy_remains = s.energy %ℤ pos s.near_size;
  fire = s.fire && non_zero s.gases.plasma && non_zero s.gases.oxygen;
}

-- The sum of the differences `gases_average[i] - nearby.data.gases[i]`, in the loop's order.
abbrev pub gain : Gases → Gases → ℤ
gain average held =
    (average.oxygen -ℤ held.oxygen)
    +ℤ (average.co2 -ℤ held.co2)
    +ℤ (average.nytrogen -ℤ held.nytrogen)
    +ℤ (average.plasma -ℤ held.plasma)

-- The assignments to a nearby cell but for its flow.
abbrev pub level : Shares → Cell → Cell
level s c = record c {
  mixture = record c.mixture { gases = s.average; energy = s.energy_average; fire = s.fire };
}

-- How much flows from the center into a neighbour.
abbrev gain_of : Shares → Option Cell → ℤ
gain_of s none = pos 0
gain_of s (some c) = gain s.average c.mixture.gases

-- The neighbour's flow is kept under the opposite direction, REVERT_DIRS_INDEXES.
unfoldable pub level_left : Shares → Cell → Cell
level_left s c = record (level s c) {
  flows = record c.flows { right = c.flows.right +ℤ gain s.average c.mixture.gases };
}

unfoldable pub level_up : Shares → Cell → Cell
level_up s c = record (level s c) {
  flows = record c.flows { down = c.flows.down +ℤ gain s.average c.mixture.gases };
}

unfoldable pub level_down : Shares → Cell → Cell
level_down s c = record (level s c) {
  flows = record c.flows { up = c.flows.up +ℤ gain s.average c.mixture.gases };
}

unfoldable pub level_right : Shares → Cell → Cell
level_right s c = record (level s c) {
  flows = record c.flows { left = c.flows.left +ℤ gain s.average c.mixture.gases };
}

unfoldable pub level_center : Shares → Quad (Option Cell) → Cell → Cell
level_center s near c = record c {
  mixture = record c.mixture {
    gases = each (λ i. amount i s.average +ℤ amount i s.remains);
    energy = s.energy_average +ℤ s.energy_remains;
    fire = s.fire;
  };
  flows = record {
    left = c.flows.left -ℤ gain_of s near.left;
    up = c.flows.up -ℤ gain_of s near.up;
    down = c.flows.down -ℤ gain_of s near.down;
    right = c.flows.right -ℤ gain_of s near.right;
  };
}

pub record Five : Type 0 where
  pub near : Quad (Option Cell)
  pub center : Cell

-- ProcessFiveCells
unfoldable pub process_five_cells : Five → Five
unfolding sums shares level_left level_up level_down level_right level_center
process_five_cells f =
    let s = shares (sums f.near f.center) in
    record {
      near = record {
        left = Option.map (level_left s) f.near.left;
        up = Option.map (level_up s) f.near.up;
        down = Option.map (level_down s) f.near.down;
        right = Option.map (level_right s) f.near.right;
      };
      center = level_center s f.near f.center;
    }

abbrev pub four_fifths : ℤ → ℤ
four_fifths n = (n *ℤ pos 4) /ℤ pos 5

unfoldable pub vent : Cell → Cell
vent c =
    if has_flag c.flags space_tile
    then record c {
      mixture = record c.mixture {
        gases = each (λ i. four_fifths (amount i c.mixture.gases));
        energy = four_fifths c.mixture.energy;
      };
    }
    else c

-- The body of the loop of Finalize.
unfoldable pub finalize_cell : Cell → Cell
unfolding vent
finalize_cell c =
    let v = vent c in record v { mixture = update_macro_params (process_burning v.mixture) }
