-- ===== src/Tile/Flags.antt =====
-- The flags that a tile writes into its cell of the atmosphere.
use griefly.Prelude.{ℕ, ◌+◌, ◌≡◌, refl, ap, sym, ◌∙◌, Bool, true, false, not, Option, List, arith}
use griefly.Geometry.{Dir}
use griefly.Atmos.Cell.{
  has_flag, center_block, up_block, down_block, left_block, right_block, space_tile, no_objects,
}
use griefly.Tile.{
  can_pass, air, Turf, CubeTile, get_passable, new_tile, update_atmos_passable, set_turf, is_space,
  is_empty, block_unless,
}
use griefly.Tile.History.{
  Event, run, Cached, Current, run-Cached, run-Current, update_passable-Cached,
  update_passable-Current,
}
use griefly.Tile.Passing.{everything_lets, Cached-lets}

-- What the flags of a tile's cell say.
pub record FlagsRight (t : CubeTile) : Type 0 where
  pub center : has_flag t.flags center_block ≡ not (everything_lets Dir.all air t)
  pub up : has_flag t.flags up_block ≡ not (everything_lets Dir.north air t)
  pub down : has_flag t.flags down_block ≡ not (everything_lets Dir.south air t)
  pub left : has_flag t.flags left_block ≡ not (everything_lets Dir.west air t)
  pub right : has_flag t.flags right_block ≡ not (everything_lets Dir.east air t)
  pub space : has_flag t.flags space_tile ≡ is_space t.turf
  pub objects : has_flag t.flags no_objects ≡ is_empty t.content

not-not : (b : Bool) → not (not b) ≡ b
not-not true = refl
not-not false = refl

bits_right :
    (c u d l r s o : Bool)
    → let flags =
        block_unless c center_block
        + block_unless u up_block
        + block_unless d down_block
        + block_unless l left_block
        + block_unless r right_block
        + block_unless s space_tile
        + block_unless o no_objects in
      (has_flag flags center_block ≡ not c)
      × (has_flag flags up_block ≡ not u)
      × (has_flag flags down_block ≡ not d)
      × (has_flag flags left_block ≡ not l)
      × (has_flag flags right_block ≡ not r)
      × (has_flag flags space_tile ≡ not s)
      × (has_flag flags no_objects ≡ not o)
bits_right c u d l r s o = (
  ground arith,
  ground arith,
  ground arith,
  ground arith,
  ground arith,
  ground arith,
  ground arith,
)

flags_right : (t : CubeTile) → Cached t → Current t → FlagsRight t
unfolding update_atmos_passable
flags_right t c h =
    let lets = λ (d : Dir). Cached-lets d air t c (omega arith) in
    let bits =
      bits_right (can_pass (get_passable Dir.all t.sums) air)
        (can_pass (get_passable Dir.north t.sums) air)
        (can_pass (get_passable Dir.south t.sums) air) (can_pass (get_passable Dir.west t.sums) air)
        (can_pass (get_passable Dir.east t.sums) air) (not (is_space t.turf))
        (not (is_empty t.content)) in
    let flags = ap (λ (u : CubeTile). u.flags) h in
    record {
      center = ap (λ f. has_flag f center_block) (sym flags) ∙ bits.0 ∙ ap not (lets Dir.all);
      up = ap (λ f. has_flag f up_block) (sym flags) ∙ bits.1 ∙ ap not (lets Dir.north);
      down = ap (λ f. has_flag f down_block) (sym flags) ∙ bits.2 ∙ ap not (lets Dir.south);
      left = ap (λ f. has_flag f left_block) (sym flags) ∙ bits.3 ∙ ap not (lets Dir.west);
      right = ap (λ f. has_flag f right_block) (sym flags) ∙ bits.4 ∙ ap not (lets Dir.east);
      space = ap (λ f. has_flag f space_tile) (sym flags) ∙ bits.5 ∙ not-not (is_space t.turf);
      objects = ap (λ f. has_flag f no_objects) (sym flags) ∙ bits.6 ∙ not-not (is_empty t.content);
    }

-- After any history of a new tile that starts with its turf, the flags in its cell of the
-- atmosphere are right: the middle and each side are blocked exactly when something on the tile does
-- not let air pass there, and the flags for space and for no objects are set exactly when
-- the turf is space and when the tile is empty.
pub run-FlagsRight :
    (flags : ℕ) (turf : Option Turf) (es : List Event)
    → FlagsRight (run es (set_turf turf (new_tile flags)))
unfolding set_turf
run-FlagsRight flags turf es =
    flags_right _ (run-Cached es _ (update_passable-Cached _))
      (run-Current es _ (update_passable-Current _))
