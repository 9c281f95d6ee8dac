-- ===== src/Atmos/Grid.antt =====
-- AtmosGrid of sources/core/atmos/AtmosGrid.h and AtmosGrid.cpp: the cells in memory, group by group,
-- and one tick. An access out of the array is undefined behaviour in C++, and `none` here; so is a
-- size for which the constructor aborts. Coordinates and ticks are not
-- negative, but a coordinate of a neighbour may be -1.
pub mod Addressing
pub mod Stages
pub mod Step
pub mod Turn
pub mod Passes
pub mod Tick
use griefly.Prelude.{ℕ, zero, suc, ◌+◌, ◌-◌, ◌*◌, ◌/◌, ◌%◌, Bool, true, false, not, ◌&&◌, ◌||◌}
use griefly.Prelude.{◌==◌, ltb, if◌then◌else◌, Option, some, none, List, [], ◌∷◌, map}
use griefly.Prelude.{get_elem?, set, length, replicate}
use griefly.Prelude.Int.{ℤ, pos}
use griefly.Atmos.Gas.{each}
use griefly.Atmos.Cell.{
  Side, Quad, Cell, Five, revert, block, clear, center_block, is_passable, process_five_cells,
  finalize_cell,
}

abbrev pub cell_group_size : ℕ
cell_group_size = 32

abbrev pub amount_cells_in_group : ℕ
amount_cells_in_group = 1024

abbrev pub stages_amount : ℕ
stages_amount = 5

pub record Grid : Type 0 where
  pub group_height : ℕ
  pub group_width : ℕ
  pub cells : List Cell

abbrev pub width : Grid → ℕ
width g = g.group_width * cell_group_size

abbrev pub height : Grid → ℕ
height g = g.group_height * cell_group_size

-- Cell::Cell. It leaves `fire` as the memory was.
abbrev fresh_cell : Bool → Cell
fresh_cell garbage = record {
  mixture = record {
    gases = each (λ _. pos 0);
    energy = pos 0;
    pressure = pos 0;
    volume = pos 1;
    temperature = pos 0;
    fire = garbage;
  };
  flows = record { left = pos 0; up = pos 0; down = pos 0; right = pos 0 };
  flags = clear;
}

-- AtmosGrid::AtmosGrid with its four tests.
pub new_grid : ℕ → ℕ → Bool → Option Grid
new_grid w h garbage =
    if ltb w 2 || ltb h 2 || not (w % cell_group_size == 0) || not (h % cell_group_size == 0)
    then none
    else some (record {
      group_height = h / cell_group_size;
      group_width = w / cell_group_size;
      cells = replicate (w * h) (fresh_cell garbage);
    })

-- AtmosGrid::At: where in the array the cell of (x, y) stands.
unfoldable pub cell_index : ℕ → ℕ → ℕ → ℕ
cell_index group_height x y =
    (y / cell_group_size + (x / cell_group_size) * group_height) * amount_cells_in_group
    + (y % cell_group_size + (x % cell_group_size) * cell_group_size)

-- The place n cells below a place, which can be below the array.
unfoldable pub places_before : ℕ → ℕ → Option ℕ
places_before i n = if ltb i n then none else some (i - n)

-- AtmosGrid::Get, for the directions of INDEXES_TO_DIRS. The division of C++ takes a coordinate of -1
-- for group 0 and place -1 in it.
unfoldable pub near_by_coordinates : ℕ → ℕ → ℕ → Side → Option ℕ
near_by_coordinates gh x y Side.left =
    if x == 0
    then places_before (cell_index gh 0 y) cell_group_size
    else some (cell_index gh (x - 1) y)
near_by_coordinates gh x y Side.up =
    if y == 0 then places_before (cell_index gh x 0) 1 else some (cell_index gh x (y - 1))
near_by_coordinates gh x y Side.down = some (cell_index gh x (y + 1))
near_by_coordinates gh x y Side.right = some (cell_index gh (x + 1) y)

-- GetNearInGroup: by pointer arithmetic.
unfoldable pub near_in_group : ℕ → Side → Option ℕ
near_in_group i Side.left = places_before i cell_group_size
near_in_group i Side.up = places_before i 1
near_in_group i Side.down = some (i + 1)
near_in_group i Side.right = some (i + cell_group_size)

infixl 5 ◌>>=◌
abbrev pub ◌>>=◌ {ℓ κ} : {A : Type ℓ} {B : Type κ} → Option A → (A → Option B) → Option B
none >>= f = none
some a >>= f = f a

-- One round of the loop that fills `near_cells`.
unfoldable pub near_cell : List Cell → Cell → Side → Option ℕ → Option (Option Cell)
near_cell cells current d place =
    if is_passable current (block d)
    then (place >>= get_elem? cells >>= λ nearby. some (
        if is_passable nearby (block (revert d)) && is_passable nearby center_block
        then some nearby
        else none))
    else some none

-- What is written through a pointer of `near_cells`, which is null where there is no cell.
abbrev pub put_near : List Cell → Option ℕ → Option Cell → List Cell
put_near cells place none = cells
put_near cells none (some c) = cells
put_near cells (some j) (some c) = set cells j c

unfoldable pub write_five : List Cell → (Side → Option ℕ) → ℕ → Five → List Cell
write_five cells near i f =
    let with_left = put_near cells (near Side.left) f.near.left in
    let with_up = put_near with_left (near Side.up) f.near.up in
    let with_down = put_near with_up (near Side.down) f.near.down in
    let with_right = put_near with_down (near Side.right) f.near.right in set with_right i f.center

-- ProcessInnerGroupCell and ProcessBorderGroupCell: they differ in how a neighbour is found.
unfoldable pub process_cell : (Side → Option ℕ) → ℕ → List Cell → Option (List Cell)
process_cell near i cells = do
  current ← get_elem? cells i
  if is_passable current center_block
      then (do
        left ← near_cell cells current Side.left (near Side.left)
        up ← near_cell cells current Side.up (near Side.up)
        down ← near_cell cells current Side.down (near Side.down)
        right ← near_cell cells current Side.right (near Side.right)
        some (
            write_five cells near i (
              process_five_cells (record {
                near = record { left = left; up = up; down = down; right = right };
                center = current;
              }))))
      else some cells

-- BelongsToStage
unfoldable pub belongs_to_stage : ℕ → ℕ → ℕ → ℕ → Bool
belongs_to_stage x y stage game_tick =
    (x + y * 2) % stages_amount == (game_tick + stage) % stages_amount

-- for (k = i; k < i + n; ++k) s = body k s, where a round may go out of bounds.
pub for_range {ℓ} : {S : Type ℓ} → ℕ → ℕ → (ℕ → S → Option S) → S → Option S
for_range zero i body s = some s
for_range (suc n) i body s = body i s >>= for_range n (i + 1) body

-- ProcessGroups: every group but its rim, in five stages.
unfoldable pub process_groups : ℕ → Grid → Option (List Cell)
unfolding for_range belongs_to_stage
process_groups game_tick g =
    for_range (g.group_height * g.group_width) 0
      (λ index. for_range stages_amount 0 (λ stage. for_range 30 1 (λ x. for_range 30 1 (λ y cells.
        let i = index * amount_cells_in_group + (y + x * cell_group_size) in
        if belongs_to_stage x y stage game_tick
        then process_cell (near_in_group i) i cells
        else some cells))))
      g.cells

abbrev border_cell : ℕ → ℕ → ℕ → ℕ → ℕ → List Cell → Option (List Cell)
border_cell game_tick gh stage x y cells =
    if belongs_to_stage x y stage game_tick
    then process_cell (near_by_coordinates gh x y) (cell_index gh x y) cells
    else some cells

-- ProcessGroupsBorders: the two columns at each border between groups, and then the two rows; the
-- cells at the edge of the map stay out.
unfoldable pub process_groups_borders : ℕ → Grid → Option (List Cell)
unfolding for_range belongs_to_stage
process_groups_borders game_tick g = do
  columns ←
      for_range (g.group_width - 1) 1
        (λ group_x. for_range stages_amount 0 (λ stage.
          for_range 2 (group_x * cell_group_size - 1) (λ x.
            for_range (height g - 2) 1 (λ y. border_cell game_tick g.group_height stage x y))))
        g.cells
  for_range (g.group_height - 1) 1
      (λ group_y. for_range stages_amount 0 (λ stage.
        for_range 2 (group_y * cell_group_size - 1)
          (λ y. for_range (width g - 2) 1 (λ x. border_cell game_tick g.group_height stage x y))))
      columns

-- ProcessGroups and then ProcessGroupsBorders.
unfoldable pub spread : ℕ → Grid → Option (List Cell)
spread tick g =
    process_groups tick g >>= λ inner. process_groups_borders tick (record g { cells = inner })

-- Finalize
pub finalize : Grid → Grid
finalize g = record g { cells = map finalize_cell g.cells }

-- AtmosGrid::Process
pub process : ℕ → Grid → Option Grid
unfolding finalize
process game_tick g = do whole ← spread game_tick g; some (finalize (record g { cells = whole }))
