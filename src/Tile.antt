-- ===== src/Tile.antt =====
-- CubeTile of sources/core/objects/Tile.h and Tile.cpp, with the passability of MaterialObject.h. A tile
-- keeps the least passability of what stands on it, in its middle and on its four sides, and writes
-- flags from it into its cell of the atmosphere (`flags`). The objects of `content` and the turf are valid
-- pointers: `MapObject::Delete` takes an object out of its owner first. An argument that is not a
-- valid pointer is `none`. Passability is not negative.
pub mod History
pub mod Passing
pub mod Flags
pub mod Moving
use griefly.Prelude.{
  ℕ, ◌+◌, min, Bool, true, false, not, leb, ◌==◌, if◌then◌else◌, Option, none, some, List, [], ◌∷◌,
  ◌++◌, map,
}
use griefly.Prelude.Int.{ℤ, pos, ◌+ℤ◌, ◌-ℤ◌, ◌==ℤ◌, leb_ℤ, negsuc}
use griefly.Geometry.{Dir, Vector}
use griefly.Atmos.Cell.{
  clear, center_block, up_block, down_block, left_block, right_block, space_tile, no_objects,
}

abbrev pub air : ℕ
air = 10

abbrev pub big_item : ℕ
big_item = 30

abbrev pub full : ℕ
full = 100

abbrev pub can_pass : ℕ → ℕ → Bool
can_pass block object = leb object block

-- passable_all_, passable_up_, ... of an object, and sum_passable_all_, ... of a tile.
pub record Levels : Type 0 where
  pub whole : ℕ
  pub up : ℕ
  pub down : ℕ
  pub left : ℕ
  pub right : ℕ

-- GetPassable, of an object and of a tile
unfoldable pub get_passable : Dir → Levels → ℕ
get_passable Dir.north l = l.up
get_passable Dir.south l = l.down
get_passable Dir.west l = l.left
get_passable Dir.east l = l.right
get_passable Dir.all l = l.whole
get_passable Dir.up l = full
get_passable Dir.down l = full
get_passable Dir.southeast l = full
get_passable Dir.southwest l = full
get_passable Dir.northeast l = full
get_passable Dir.northwest l = full

-- The switch of MaterialObject::SetPassable
unfoldable pub put_passable : Dir → ℕ → Levels → Levels
put_passable Dir.north p l = record l { up = p }
put_passable Dir.south p l = record l { down = p }
put_passable Dir.west p l = record l { left = p }
put_passable Dir.east p l = record l { right = p }
put_passable Dir.all p l = record l { whole = p }
put_passable Dir.up p l = l
put_passable Dir.down p l = l
put_passable Dir.southeast p l = l
put_passable Dir.southwest p l = l
put_passable Dir.northeast p l = l
put_passable Dir.northwest p l = l

pub record Object : Type 0 where
  pub id : ℕ
  pub levels : Levels
  pub transparent : Bool

pub record Turf : Type 0 where
  pub object : Object
  pub atmos_state : ℤ

-- atmos::SPACE
abbrev pub space : ℤ
space = pos 0

pub record CubeTile : Type 0 where
  pub turf : Option Turf
  pub content : List Object
  pub sums : Levels
  pub flags : ℕ

abbrev pub full_levels : Levels
full_levels = record { whole = full; up = full; down = full; left = full; right = full }

-- CubeTile::CubeTile; the flags are what the cell had.
unfoldable pub new_tile : ℕ → CubeTile
new_tile flags = record { turf = none; content = []; sums = full_levels; flags = flags }

-- The five assignments `sum = std::min(sum, item->GetPassable(dir))`.
unfoldable pub lower : Levels → Levels → Levels
lower sums item = record {
  whole = min sums.whole item.whole;
  up = min sums.up item.up;
  down = min sums.down item.down;
  left = min sums.left item.left;
  right = min sums.right item.right;
}

-- `flags |= bit`, for a bit not yet set.
abbrev pub block_unless : Bool → ℕ → ℕ
block_unless passable bit = if passable then 0 else bit

abbrev pub is_space : Option Turf → Bool
is_space none = false
is_space (some t) = t.atmos_state ==ℤ space

abbrev pub is_empty : List Object → Bool
is_empty [] = true
is_empty (o ∷ os) = false

-- UpdateAtmosPassable: each bit is set once, so the bits are added.
unfoldable pub update_atmos_passable : CubeTile → CubeTile
unfolding get_passable
update_atmos_passable t = record t {
  flags =
      block_unless (can_pass (get_passable Dir.all t.sums) air) center_block
      + block_unless (can_pass (get_passable Dir.north t.sums) air) up_block
      + block_unless (can_pass (get_passable Dir.south t.sums) air) down_block
      + block_unless (can_pass (get_passable Dir.west t.sums) air) left_block
      + block_unless (can_pass (get_passable Dir.east t.sums) air) right_block
      + block_unless (not (is_space t.turf)) space_tile
      + block_unless (not (is_empty t.content)) no_objects;
}

-- The loop of UpdatePassable.
unfoldable pub lower_all : Levels → List Object → Levels
lower_all sums [] = sums
lower_all sums (o ∷ os) = lower_all (lower sums o.levels) os

abbrev pub lower_by_turf : Levels → Option Turf → Levels
lower_by_turf sums none = sums
lower_by_turf sums (some t) = lower sums t.object.levels

unfoldable pub update_passable : CubeTile → CubeTile
update_passable t =
    update_atmos_passable
      (record t { sums = lower_all (lower_by_turf full_levels t.turf) t.content })

unfoldable pub set_turf : Option Turf → CubeTile → CubeTile
set_turf turf t = update_passable (record t { turf = turf })

unfoldable pub add_object : Option Object → CubeTile → CubeTile × Bool
add_object none t = (t, false)
add_object (some item) t = (
  update_atmos_passable
      (record t { content = t.content ++ (item ∷ []); sums = lower t.sums item.levels }),
  true,
)

-- Contains
unfoldable pub contains : ℕ → List Object → Bool
contains id [] = false
contains id (o ∷ os) = if o.id == id then true else contains id os

-- Erasing the first entry with the id.
unfoldable pub erase : ℕ → List Object → List Object
erase id [] = []
erase id (o ∷ os) = if o.id == id then os else o ∷ erase id os

abbrev pub is_turf : ℕ → Option Turf → Bool
is_turf id none = false
is_turf id (some t) = t.object.id == id

-- RemoveObject, of the object with an id.
unfoldable pub remove_object : Option ℕ → CubeTile → CubeTile × Bool
remove_object none t = (t, false)
remove_object (some id) t =
    if is_turf id t.turf
    then (set_turf none t, true)
    else if contains id t.content
    then (update_passable (record t { content = erase id t.content }), true)
    else (t, false)

abbrev pub change : ℕ → Dir → ℕ → Object → Object
change id d p o = if o.id == id then record o { levels = put_passable d p o.levels } else o

abbrev pub change_turf : ℕ → Dir → ℕ → Option Turf → Option Turf
change_turf id d p none = none
change_turf id d p (some t) = some (record t { object = change id d p t.object })

-- MaterialObject::SetPassable of an object that stands on the tile, which is its owner.
unfoldable pub set_passable : ℕ → Dir → ℕ → CubeTile → CubeTile
set_passable id d p t =
    update_passable
      (record t { turf = change_turf id d p t.turf; content = map (change id d p) t.content })

-- Istransparent, its loop and the whole.
unfoldable pub all_transparent : List Object → Bool
all_transparent [] = true
all_transparent (o ∷ os) = if o.transparent then all_transparent os else false

unfoldable pub is_transparent : CubeTile → Bool
unfolding all_transparent
is_transparent t = elim t.turf [
  | none ↦ all_transparent t.content
  | some turf ↦ if turf.object.transparent then all_transparent t.content else false
]
