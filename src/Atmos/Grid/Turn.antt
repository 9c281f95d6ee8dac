-- ===== src/Atmos/Grid/Turn.antt =====
-- ProcessInnerGroupCell and ProcessBorderGroupCell: a turn of a cell whose neighbours are in the
-- array returns, and keeps what the grid holds.
use griefly.Prelude.{ℕ, zero, suc, ◌<◌, ◌≡◌, refl, ◌∙◌, ◌≢◌, inl, inr, arith}
use griefly.Prelude.{
  Option, some, none, List, [], ◌∷◌, get_elem?, length, Bool-cases, ◌&&◌, length-set,
}
use griefly.Prelude.Int.{ℤ, ◌+ℤ◌, int_laws, parts_of}
use griefly.Atmos.Gas.{Quantity}
use griefly.Atmos.Cell.{
  Shares, sums, shares, level_left, level_up, level_down, level_right, Side, Cell, Five, block,
  revert, center_block, is_passable, process_five_cells,
}
use griefly.Atmos.Cell.Balance.{process_five_cells_conserves}
use griefly.Atmos.Cell.Settling.{process_five_cells-AllPhysical}
use griefly.Atmos.Grid.{near_cell, put_near, write_five, process_cell}
use griefly.Atmos.Grid.Step.{
  Keeps, Keeps-refl, Was, Was-put, Was-Holds, length-put, grid_total, grid_total-put,
  grid_total-set, GridPhysical, GridPhysical-put, GridPhysical-set, GridPhysical-get,
}

-- The five places of a turn are five.
pub record Apart (near : Side → ℕ) (i : ℕ) : Type 0 where
  pub off_center : (d : Side) → near d ≢ i
  pub left_up : near Side.left ≢ near Side.up
  pub left_down : near Side.left ≢ near Side.down
  pub left_right : near Side.left ≢ near Side.right
  pub up_down : near Side.up ≢ near Side.down
  pub up_right : near Side.up ≢ near Side.right
  pub down_right : near Side.down ≢ near Side.right

-- Pointers to places that are in the array.
abbrev pub found : (Side → ℕ) → Side → Option ℕ
found near d = some (near d)

-- Five replacements that balance leave the sum as it was.
balance :
    (t0 t1 t2 t3 t4 t5 l u d r c l' u' d' r' c' : ℤ)
    → t1 +ℤ l ≡ t0 +ℤ l'
    → t2 +ℤ u ≡ t1 +ℤ u'
    → t3 +ℤ d ≡ t2 +ℤ d'
    → t4 +ℤ r ≡ t3 +ℤ r'
    → t5 +ℤ c ≡ t4 +ℤ c'
    → l' +ℤ u' +ℤ d' +ℤ r' +ℤ c' ≡ l +ℤ u +ℤ d +ℤ r +ℤ c
    → t5 ≡ t0
balance t0 t1 t2 t3 t4 t5 l u d r c l' u' d' r' c' e1 e2 e3 e4 e5 e =
    omega (int_laws, parts_of e1, parts_of e2, parts_of e3, parts_of e4, parts_of e5, parts_of e)

module _ (near : Side → ℕ) (i : ℕ) (apart : Apart near i) (f : Five) (cells : List Cell)
    (left : Was cells (near Side.left) f.near.left) (up : Was cells (near Side.up) f.near.up)
    (down : Was cells (near Side.down) f.near.down)
    (right : Was cells (near Side.right) f.near.right) (center : Was cells i (some f.center)) where
  open apart use {off_center, left_up, left_down, left_right, up_down, up_right, down_right}

  abbrev after : Five
  after = process_five_cells f

  abbrev after_left : List Cell
  after_left = put_near cells (some (near Side.left)) after.near.left

  abbrev after_up : List Cell
  after_up = put_near after_left (some (near Side.up)) after.near.up

  abbrev after_down : List Cell
  after_down = put_near after_up (some (near Side.down)) after.near.down

  abbrev after_right : List Cell
  after_right = put_near after_down (some (near Side.right)) after.near.right

  Was-up : Was after_left (near Side.up) f.near.up
  Was-up = Was-put cells _ _ after.near.left f.near.up left_up up

  Was-down : Was after_up (near Side.down) f.near.down
  Was-down =
      Was-put after_left _ _ after.near.up f.near.down up_down
        (Was-put cells _ _ after.near.left f.near.down left_down down)

  Was-right : Was after_down (near Side.right) f.near.right
  Was-right = Was-put after_up _ _ after.near.down f.near.right down_right (
      Was-put after_left _ _ after.near.up f.near.right up_right
        (Was-put cells _ _ after.near.left f.near.right left_right right))

  Was-center : Was after_right i (some f.center)
  Was-center = Was-put after_down _ _ after.near.right (some f.center) (off_center Side.right) (
      Was-put after_up _ _ after.near.down (some f.center) (off_center Side.down) (
        Was-put after_left _ _ after.near.up (some f.center) (off_center Side.up)
          (Was-put cells _ _ after.near.left (some f.center) (off_center Side.left) center)))

  write_five-total :
      (q : Quantity) → grid_total q (write_five cells (found near) i after) ≡ grid_total q cells
  unfolding write_five process_five_cells
  write_five-total q =
      balance _ _ _ _ _ _ _ _ _ _ _ _ _ _ _ _
        (grid_total-put q cells (near Side.left) f.near.left (level_left s) left)
        (grid_total-put q after_left (near Side.up) f.near.up (level_up s) Was-up)
        (grid_total-put q after_up (near Side.down) f.near.down (level_down s) Was-down)
        (grid_total-put q after_down (near Side.right) f.near.right (level_right s) Was-right)
        (grid_total-set q after_right i f.center after.center Was-center)
        (process_five_cells_conserves f q)
    where
      s : Shares
      s = shares (sums f.near f.center)

  write_five-physical : GridPhysical cells → GridPhysical (write_five cells (found near) i after)
  unfolding write_five
  write_five-physical v =
      let s = process_five_cells-AllPhysical f (record {
        near_left = Was-Holds cells _ f.near.left v left;
        near_up = Was-Holds cells _ f.near.up v up;
        near_down = Was-Holds cells _ f.near.down v down;
        near_right = Was-Holds cells _ f.near.right v right;
        center = GridPhysical-get cells i f.center v center;
      }) in
      let v1 = GridPhysical-put cells (near Side.left) after.near.left v s.near_left in
      let v2 = GridPhysical-put after_left (near Side.up) after.near.up v1 s.near_up in
      let v3 = GridPhysical-put after_up (near Side.down) after.near.down v2 s.near_down in
      let v4 = GridPhysical-put after_down (near Side.right) after.near.right v3 s.near_right in
      GridPhysical-set after_right i after.center v4 s.center

  write_five-length : length (write_five cells (found near) i after) ≡ length cells
  unfolding write_five
  write_five-length =
      length-set after_right i after.center
      ∙ length-put after_down (near Side.right) after.near.right
      ∙ length-put after_up (near Side.down) after.near.down
      ∙ length-put after_left (near Side.up) after.near.up
      ∙ length-put cells (near Side.left) after.near.left

  pub write_five-Keeps : Keeps cells (write_five cells (found near) i after)
  write_five-Keeps = record {
    same_length = write_five-length;
    same_total = write_five-total;
    still_physical = write_five-physical;
  }

get_elem?-lt :
    (cells : List Cell) (j : ℕ) → j < length cells → (c : Cell) × (get_elem? cells j ≡ some c)
get_elem?-lt [] j h = elim h [ ]
get_elem?-lt (c ∷ cells) zero h = (c, refl)
get_elem?-lt (c ∷ cells) (suc j) h = get_elem?-lt cells j (omega arith)

near_cell_lem :
    (cells : List Cell) (current : Cell) (d : Side) (j : ℕ)
    → j < length cells
    → (o : Option Cell) × (near_cell cells current d (some j) ≡ some o) × Was cells j o
unfolding near_cell
near_cell_lem cells current d j h = elim (Bool-cases (is_passable current (block d))) [
  | inr off ↦ (none, rw off, tt)
  | inl on ↦
      let (n, e) = get_elem?-lt cells j h in
      elim (Bool-cases (is_passable n (block (revert d)) && is_passable n center_block)) [
        | inl open_ ↦ (some n, rw (on, e, open_), e)
        | inr shut ↦ (none, rw (on, e, shut), tt)
      ]
]

-- The turn of a cell whose place and whose neighbours' places are five different ones in the array
-- stays in the array, and keeps its length, the amount of each gas and of energy in the grid, and
-- that nothing is below zero.
pub process_cell-Keeps :
    (near : Side → ℕ) (i : ℕ) (cells : List Cell)
    → Apart near i
    → ((d : Side) → near d < length cells)
    → i < length cells
    → (after : List Cell) × (process_cell (found near) i cells ≡ some after) × Keeps cells after
unfolding process_cell
process_cell-Keeps near i cells a hn hi =
    let (c, ec) = get_elem?-lt cells i hi in
    let (l, el, wl) = near_cell_lem cells c Side.left (near Side.left) (hn Side.left) in
    let (u, eu, wu) = near_cell_lem cells c Side.up (near Side.up) (hn Side.up) in
    let (d, ed, wd) = near_cell_lem cells c Side.down (near Side.down) (hn Side.down) in
    let (r, er, wr) = near_cell_lem cells c Side.right (near Side.right) (hn Side.right) in
    let f : Five = record { near = record { left = l; up = u; down = d; right = r }; center = c } in
    elim (Bool-cases (is_passable c center_block)) [
      | inl on ↦ (
        write_five cells (found near) i (process_five_cells f),
        rw (ec, on, el, eu, ed, er),
        write_five-Keeps near i a f cells wl wu wd wr ec,
      )
      | inr off ↦ (cells, rw (ec, off), Keeps-refl cells)
    ]
