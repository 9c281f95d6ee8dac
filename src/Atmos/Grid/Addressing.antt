-- ===== src/Atmos/Grid/Addressing.antt =====
-- The layout of the grid in memory: At finds the cells it means.
use griefly.Prelude.{ℕ, ◌+◌, ◌*◌, ◌/◌, ◌<◌, ◌≡◌, arith}
use griefly.Atmos.Grid.{cell_index}

group-lt : (gw gh a b : ℕ) → a < gw → b < gh → b + a * gh < gw * gh
group-lt gw gh a b ha hb = grind arith

group-injective :
    (gh a b a' b' : ℕ) → b < gh → b' < gh → b + a * gh ≡ b' + a' * gh → (a ≡ a') × (b ≡ b')
group-injective gh a b a' b' hb hb' e = grind (arith, group-lt a' gh a b, group-lt a gh a' b')

-- On a map of whole groups `At` finds a place in the array for each pair of coordinates on it.
pub cell_index-lt :
    (gw gh x y : ℕ) → x < gw * 32 → y < gh * 32 → cell_index gh x y < (gw * 32) * (gh * 32)
unfolding cell_index
cell_index-lt gw gh x y hx hy =
    omega (arith, group-lt gw gh (x / 32) (y / 32) (omega arith) (omega arith))

-- `At` gives no two pairs of coordinates the same place, when their y are within the height.
pub cell_index-injective :
    (gh x y x' y' : ℕ)
    → y < gh * 32
    → y' < gh * 32
    → cell_index gh x y ≡ cell_index gh x' y'
    → (x ≡ x') × (y ≡ y')
unfolding cell_index
cell_index-injective gh x y x' y' hy hy' e = omega (
  arith,
  group-injective gh (x / 32) (y / 32) (x' / 32) (y' / 32) (omega arith) (omega arith)
      (omega arith),
)
