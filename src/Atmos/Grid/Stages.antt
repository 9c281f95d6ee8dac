-- ===== src/Atmos/Grid/Stages.antt =====
-- BelongsToStage: the five stages of a pass.
use griefly.Prelude.{ℕ, ◌+◌, ◌*◌, ◌%◌, ◌≤◌, ◌<◌, ◌≡◌, ◌⊎◌, ◌↔◌, true, arith, ==→≡}
use griefly.Atmos.Grid.{belongs_to_stage}

abbrev pub turn_stage : ℕ → ℕ → ℕ → ℕ
turn_stage x y tick = (x + y * 2 + 4 * tick) % 5

-- In every tick each cell has its turn in exactly one of the five stages.
stage_unique :
    (x y tick stage : ℕ)
    → stage < 5
    → (turn_stage x y tick < 5)
      × ((belongs_to_stage x y stage tick ≡ true) ↔ (stage ≡ turn_stage x y tick))
unfolding belongs_to_stage
stage_unique x y tick stage h = (omega arith, (λ e. ground arith, λ e. ground arith))

-- Two coordinates at most `n` apart.
abbrev pub Within : ℕ → ℕ → ℕ → Type 0
Within n a b = (a ≤ b + n) × (b ≤ a + n)

-- A cell takes part in the turn of another when it is that cell or next to it.
abbrev pub Touches : ℕ → ℕ → ℕ → ℕ → Type 0
Touches x y a b = ((x ≡ a) × Within 1 y b) ⊎ (Within 1 x a × (y ≡ b))

-- In one stage of a tick no cell takes part in two turns: where the turns of two cells of the stage
-- touch the same cell, they are the turn of one cell.
pub stage_independent :
    (s tick x y x' y' a b : ℕ)
    → belongs_to_stage x y s tick ≡ true
    → belongs_to_stage x' y' s tick ≡ true
    → Touches x y a b
    → Touches x' y' a b
    → (x ≡ x') × (y ≡ y')
unfolding belongs_to_stage
stage_independent s tick x y x' y' a b h h' t t' = grind (arith, ==→≡)
