-- ===== src/Atmos/Grid/Tick.antt =====
-- AtmosGrid::Process: a tick on a grid of the right size.
use griefly.Prelude.{ℕ, suc, ◌+◌, ◌-◌, ◌*◌, ◌≡◌, refl, ap, ◌∙◌, arith}
use griefly.Prelude.{some, List, [], ◌∷◌, map, length}
use griefly.Atmos.Cell.{Cell, finalize_cell}
use griefly.Atmos.Cell.Settling.{finalize_cell-IsPhysical}
use griefly.Atmos.Grid.{
  Grid, width, height, cell_index, border_cell, process_groups, process_groups_borders, spread,
  process,
}
use griefly.Atmos.Grid.Addressing.{cell_index-lt}
use griefly.Atmos.Grid.Step.{Keeps, Keeps-trans, GridPhysical}
use griefly.Atmos.Grid.Passes.{
  Inner, Runs, for_range-Runs, turn-Runs, around, around_pair, near_in_group-found,
  near_by_coordinates-found, near_in_group-Apart, near_in_group-lt, near_by_coordinates-Apart,
  near_by_coordinates-lt,
}

-- The array has a cell for each pair of coordinates.
abbrev pub IsSized : Grid → Type 0
IsSized g = length g.cells ≡ width g * height g

process_groups-Runs :
    (tick : ℕ) (g : Grid)
    → IsSized g
    → (after : List Cell) × (process_groups tick g ≡ some after) × Keeps g.cells after
unfolding process_groups
process_groups-Runs tick g sized =
    for_range-Runs (width g * height g) _ 0 _
      (λ index lo hi. for_range-Runs _ 5 0 _ (λ stage slo shi. for_range-Runs _ 30 1 _ (λ x xlo xhi.
        for_range-Runs _ 30 1 _ (λ y ylo yhi.
          turn-Runs _ _ (around (index * 1024 + (y + x * 32))) (index * 1024 + (y + x * 32)) x y
            stage tick (near_in_group-found _ (omega arith)) (near_in_group-Apart _ (omega arith))
            (λ d. omega (
              arith,
              near_in_group-lt index (g.group_height * g.group_width) x y d (omega arith)
                  (omega arith) (omega arith),
            ))
            (omega arith)))))
      g.cells sized

border-Runs :
    (tick stage : ℕ) (g : Grid) (x y : ℕ)
    → Inner g.group_width g.group_height x y
    → Runs (width g * height g) (border_cell tick g.group_height stage x y)
border-Runs tick stage g x y inner =
    let i = cell_index-lt g.group_width g.group_height x y in
    turn-Runs _ _ (around_pair g.group_width g.group_height x y inner)
      (cell_index g.group_height x y) x y stage tick
      (near_by_coordinates-found g.group_width g.group_height x y inner)
      (near_by_coordinates-Apart g.group_width g.group_height x y inner)
      (near_by_coordinates-lt g.group_width g.group_height x y inner)
      (i (omega (arith, inner.x_high)) (omega (arith, inner.y_high)))

process_groups_borders-Runs :
    (tick : ℕ) (g : Grid)
    → IsSized g
    → (after : List Cell) × (process_groups_borders tick g ≡ some after) × Keeps g.cells after
unfolding process_groups_borders
process_groups_borders-Runs tick g sized =
    let (columns, e1, k1) =
      for_range-Runs (width g * height g) (g.group_width - 1) 1 _
        (λ group_x glo ghi. for_range-Runs _ 5 0 _ (λ stage slo shi.
          for_range-Runs _ 2 (group_x * 32 - 1) _ (λ x xlo xhi.
            for_range-Runs _ (height g - 2) 1 _
              (λ y ylo yhi. border-Runs tick stage g x y (omega arith)))))
        g.cells sized in
    let (rows, e2, k2) =
      for_range-Runs (width g * height g) (g.group_height - 1) 1 _
        (λ group_y glo ghi. for_range-Runs _ 5 0 _ (λ stage slo shi.
          for_range-Runs _ 2 (group_y * 32 - 1) _ (λ y ylo yhi.
            for_range-Runs _ (width g - 2) 1 _
              (λ x xlo xhi. border-Runs tick stage g x y (omega arith)))))
        columns (k1.same_length ∙ sized) in
    (rows, rw e1 e2, Keeps-trans g.cells columns rows k1 k2)

-- On a grid with a cell for each pair of coordinates the two passes of a tick stay in the array.
-- They keep its length, the amount of each gas and of energy on the map, and that no cell holds
-- less than nothing.
pub spread-Keeps :
    (tick : ℕ) (g : Grid)
    → IsSized g
    → (after : List Cell) × (spread tick g ≡ some after) × Keeps g.cells after
unfolding spread
spread-Keeps tick g sized =
    let (inner, e1, k1) = process_groups-Runs tick g sized in
    let (whole, e2, k2) =
      process_groups_borders-Runs tick (record g { cells = inner }) (k1.same_length ∙ sized) in
    (whole, rw e1 e2, Keeps-trans g.cells inner whole k1 k2)

GridPhysical-finalize :
    (cells : List Cell) → GridPhysical cells → GridPhysical (map finalize_cell cells)
GridPhysical-finalize [] v = tt
GridPhysical-finalize (c ∷ cells) v =
    (finalize_cell-IsPhysical c v.0, GridPhysical-finalize cells v.1)

length-finalize : (cells : List Cell) → length (map finalize_cell cells) ≡ length cells
length-finalize [] = refl
length-finalize (c ∷ cells) = ap suc (length-finalize cells)

-- A whole tick of a grid with a cell for each pair of coordinates, none of which holds less than
-- nothing, stays in the array: it returns a grid of the same width and height, with as many cells,
-- and with nothing below zero.
pub process-IsSized :
    (tick : ℕ) (g : Grid)
    → IsSized g
    → GridPhysical g.cells
    → (h : Grid) × (process tick g ≡ some h)
      × IsSized h
      × (width h ≡ width g)
      × (height h ≡ height g)
      × GridPhysical h.cells
unfolding process
process-IsSized tick g sized v =
    let (whole, e, k) = spread-Keeps tick g sized in
    (
      record g { cells = map finalize_cell whole },
      rw e,
      length-finalize whole ∙ k.same_length ∙ sized,
      refl,
      refl,
      GridPhysical-finalize whole (k.still_physical v),
    )
