-- ===== src/Atmos/Grid/Passes.antt =====
-- The loops over the grid, and the places that the cells of a turn have in the array.
use griefly.Prelude.{
  ℕ, zero, suc, ◌+◌, ◌-◌, ◌*◌, ◌/◌, ◌%◌, ◌≤◌, ◌<◌, ◌≡◌, refl, sym, subst, ◌∙◌, ◌≢◌, inl, inr, arith,
  ap, fun_ext, ◌==◌, false,
}
use griefly.Prelude.{Option, some, List, length, Bool-cases, if◌then◌else◌}
use griefly.Atmos.Cell.{Side, Cell}
use griefly.Atmos.Grid.{
  cell_index, places_before, near_by_coordinates, near_in_group, process_cell, for_range,
  belongs_to_stage,
}
use griefly.Atmos.Grid.Addressing.{cell_index-lt, cell_index-injective}
use griefly.Atmos.Grid.Step.{Keeps, Keeps-refl, Keeps-trans}
use griefly.Atmos.Grid.Turn.{Apart, found, process_cell-Keeps}

-- On an array of n cells the pass returns, and keeps what the grid holds.
abbrev pub Runs : ℕ → (List Cell → Option (List Cell)) → Type 0
Runs n step =
    (cells : List Cell)
    → length cells ≡ n
    → (after : List Cell) × (step cells ≡ some after) × Keeps cells after

pub for_range-Runs :
    (size n i : ℕ) (body : ℕ → List Cell → Option (List Cell))
    → ((k : ℕ) → i ≤ k → k < i + n → Runs size (body k))
    → Runs size (for_range n i body)
unfolding for_range
for_range-Runs size zero i body run cells e = (cells, refl, Keeps-refl cells)
for_range-Runs size (suc n) i body run cells e =
    let (mid, e1, k1) = run i (omega arith) (omega arith) cells e in
    let (out, e2, k2) =
      for_range-Runs size n (i + 1) body (λ k lo hi. run k (omega arith) (omega arith)) mid
        (k1.same_length ∙ e) in
    (out, rw e1 e2, Keeps-trans cells mid out k1 k2)

pub turn-Runs :
    (size : ℕ) (places : Side → Option ℕ) (near : Side → ℕ) (i x y stage tick : ℕ)
    → places ≡ found near
    → Apart near i
    → ((d : Side) → near d < size)
    → i < size
    → Runs size (λ cells.
      if belongs_to_stage x y stage tick then process_cell places i cells else some cells)
turn-Runs size places near i x y stage tick ready apart hn hi cells e =
    elim (Bool-cases (belongs_to_stage x y stage tick)) [
      | inl due ↦ rw due (
          rw ready (
            process_cell-Keeps near i cells apart (λ d. subst (λ n. near d < n) (sym e) (hn d))
              (omega arith)))
      | inr not_due ↦ rw not_due (cells, refl, Keeps-refl cells)
    ]

-- The places around a place that is not in the first column of the first group.
abbrev pub around : ℕ → Side → ℕ
around i Side.left = i - 32
around i Side.up = i - 1
around i Side.down = i + 1
around i Side.right = i + 32

places_before-found : (i n : ℕ) → n ≤ i → places_before i n ≡ some (i - n)
unfolding places_before
places_before-found i n h = ground arith

pub near_in_group-found : (i : ℕ) → 33 ≤ i → near_in_group i ≡ found (around i)
unfolding near_in_group
near_in_group-found i h = fun_ext each_side
  where
    each_side : (d : Side) → near_in_group i d ≡ found (around i) d
    each_side Side.left = places_before-found i 32 (omega arith)
    each_side Side.up = places_before-found i 1 (omega arith)
    each_side Side.down = refl
    each_side Side.right = refl

pub near_in_group-Apart : (i : ℕ) → 33 ≤ i → Apart (around i) i
near_in_group-Apart i h = record {
  off_center = ne;
  left_up = omega arith;
  left_down = omega arith;
  left_right = omega arith;
  up_down = omega arith;
  up_right = omega arith;
  down_right = omega arith;
}
  where
    ne : (d : Side) → around i d ≢ i
    ne Side.left = omega arith
    ne d = omega arith

pub near_in_group-lt :
    (index groups x y : ℕ) (d : Side)
    → index < groups
    → x ≤ 30
    → y ≤ 30
    → around (index * 1024 + (y + x * 32)) d < groups * 1024
near_in_group-lt index groups x y Side.left h hx hy = omega arith
near_in_group-lt index groups x y d h hx hy = omega arith

-- A coordinate pair off the edge of the map.
pub record Inner (gw gh x y : ℕ) : Type 0 where
  pub x_low : 1 ≤ x
  pub x_high : x + 1 < gw * 32
  pub y_low : 1 ≤ y
  pub y_high : y + 1 < gh * 32

module _ (gw gh x y : ℕ) (inner : Inner gw gh x y) where
  open inner use {x_low, x_high, y_low, y_high}

  differ :
      (a b a' b' : ℕ)
      → b < gh * 32
      → b' < gh * 32
      → (a ≡ a' → b ≡ b' → ⊥)
      → cell_index gh a b ≢ cell_index gh a' b'
  differ a b a' b' h h' ne e = let (ex, ey) = cell_index-injective gh a b a' b' h h' e in ne ex ey

  abbrev pub around_pair : Side → ℕ
  around_pair Side.left = cell_index gh (x - 1) y
  around_pair Side.up = cell_index gh x (y - 1)
  around_pair Side.down = cell_index gh x (y + 1)
  around_pair Side.right = cell_index gh (x + 1) y

  not_first : (n : ℕ) → 1 ≤ n → (n == 0) ≡ false
  not_first n h = ground arith

  pub near_by_coordinates-found : near_by_coordinates gh x y ≡ found around_pair
  unfolding near_by_coordinates
  near_by_coordinates-found = fun_ext each_side
    where
      each_side : (d : Side) → near_by_coordinates gh x y d ≡ found around_pair d
      each_side Side.left = rw (not_first x x_low) refl
      each_side Side.up = rw (not_first y y_low) refl
      each_side Side.down = refl
      each_side Side.right = refl

  pub near_by_coordinates-Apart : Apart around_pair (cell_index gh x y)
  near_by_coordinates-Apart = record {
    off_center = ne;
    left_up = differ _ _ _ _ (omega arith) (omega arith) (omega arith);
    left_down = differ _ _ _ _ (omega arith) (omega arith) (omega arith);
    left_right = differ _ _ _ _ (omega arith) (omega arith) (omega arith);
    up_down = differ _ _ _ _ (omega arith) (omega arith) (omega arith);
    up_right = differ _ _ _ _ (omega arith) (omega arith) (omega arith);
    down_right = differ _ _ _ _ (omega arith) (omega arith) (omega arith);
  }
    where
      ne : (d : Side) → around_pair d ≢ cell_index gh x y
      ne Side.left = differ _ _ _ _ (omega arith) (omega arith) (omega arith)
      ne Side.up = differ _ _ _ _ (omega arith) (omega arith) (omega arith)
      ne Side.down = differ _ _ _ _ (omega arith) (omega arith) (omega arith)
      ne Side.right = differ _ _ _ _ (omega arith) (omega arith) (omega arith)

  pub near_by_coordinates-lt : (d : Side) → around_pair d < gw * 32 * (gh * 32)
  near_by_coordinates-lt Side.left = cell_index-lt gw gh (x - 1) y (omega arith) (omega arith)
  near_by_coordinates-lt Side.up = cell_index-lt gw gh x (y - 1) (omega arith) (omega arith)
  near_by_coordinates-lt Side.down = cell_index-lt gw gh x (y + 1) (omega arith) (omega arith)
  near_by_coordinates-lt Side.right = cell_index-lt gw gh (x + 1) y (omega arith) (omega arith)

-- Of a cell inside a group, off its rim, GetNearInGroup finds each neighbour where `Get` finds it.
near_in_group-near_by_coordinates :
    (gw gh x y : ℕ)
    → Inner gw gh x y
    → 1 ≤ x % 32
    → x % 32 ≤ 30
    → 1 ≤ y % 32
    → y % 32 ≤ 30
    → near_in_group (cell_index gh x y) ≡ near_by_coordinates gh x y
unfolding cell_index
near_in_group-near_by_coordinates gw gh x y inner x0 x1 y0 y1 =
    near_in_group-found (cell_index gh x y) (not_first_column x0 y0)
    ∙ ap found (fun_ext same)
    ∙ sym (near_by_coordinates-found gw gh x y inner)
  where
    not_first_column : 1 ≤ x % 32 → 1 ≤ y % 32 → 33 ≤ cell_index gh x y
    not_first_column h k = omega arith

    same : (d : Side) → around (cell_index gh x y) d ≡ around_pair gw gh x y inner d
    same Side.left =
        let group : (x - 1) / 32 ≡ x / 32 = omega arith in omega (arith, ap (λ t. t * gh) group)
    same Side.up = omega arith
    same Side.down = omega arith
    same Side.right =
        let group : (x + 1) / 32 ≡ x / 32 = omega arith in omega (arith, ap (λ t. t * gh) group)
