-- ===== src/Pipes.antt =====
-- Pipes: sources/core/objects/movable/Pipes.h and Pipes.cpp. All mixtures that pipes reach stand in one
-- list of holders, and a pointer to an AtmosHolder is an index of it, so that two pointers may lead to one
-- mixture; an index out of it is `none`. A pipe is found by its id. ConnectHelper, which looks for
-- a neighbour's objects, is left out.
pub mod Balance
pub mod Flow
use griefly.Prelude.{
  ℕ, ◌==◌, Bool, true, false, not, ◌&&◌, if◌then◌else◌, Option, none, some, List, get_elem?, set,
}
use griefly.Prelude.Int.{ℤ, pos, ◌+ℤ◌, ◌-ℤ◌, leb_ℤ}
use griefly.Geometry.{Dir, Dir-discrete, revert_dir}
use griefly.Atmos.Gas.{Gas, AtmosData, amount, each, max_gas_level, update_macro_params}
use griefly.Atmos.Holder.{Pair, share, clamp_level, connect}
use griefly.Objects.{◌>>=◌}

pub data Kind : Type 0 where
  base pipe manifold valve vent connector pump : Kind

-- A pipe of any kind, with the ids of its connections. `cube` is the holder of its owner
-- when that is a CubeTile, `owner` when the owner has one at all, `tank` that of a valid tank.
pub record PipeBase : Type 0 where
  pub kind : Kind
  pub dir : Dir
  pub closed : Bool
  pub pump_pressure : ℤ
  pub atmos_holder : ℕ
  pub head : ℕ
  pub tail : ℕ
  pub left : ℕ
  pub right : ℕ
  pub cube : Option ℕ
  pub owner : Option ℕ
  pub tank : Option ℕ

abbrev pub same_dir : Dir → Dir → Bool
same_dir a b = elim (Dir-discrete a b) [ yes _ ↦ true | no _ ↦ false ]

-- GetTailAndHead: the head and the tail
unfoldable pub get_tail_and_head : Dir → Option (Dir × Dir)
get_tail_and_head Dir.all = none
get_tail_and_head Dir.west = some (Dir.west, Dir.east)
get_tail_and_head Dir.east = some (Dir.east, Dir.west)
get_tail_and_head Dir.north = some (Dir.north, Dir.south)
get_tail_and_head Dir.south = some (Dir.south, Dir.north)
get_tail_and_head Dir.up = some (Dir.up, Dir.down)
get_tail_and_head Dir.down = some (Dir.down, Dir.up)
get_tail_and_head Dir.southeast = some (Dir.east, Dir.south)
get_tail_and_head Dir.southwest = some (Dir.south, Dir.west)
get_tail_and_head Dir.northeast = some (Dir.north, Dir.east)
get_tail_and_head Dir.northwest = some (Dir.west, Dir.north)

-- GetConnectionsDirs, the left and the right; the tail is the reverted direction.
unfoldable pub get_left_and_right : Dir → Dir × Dir
get_left_and_right Dir.south = (Dir.east, Dir.west)
get_left_and_right Dir.north = (Dir.west, Dir.east)
get_left_and_right Dir.east = (Dir.north, Dir.south)
get_left_and_right _ = (Dir.south, Dir.north)

-- CanTransferGas
unfoldable pub can_transfer_gas : PipeBase → Dir → Bool
can_transfer_gas p dir = elim p.kind [
  | base ↦ false
  | pipe ↦ true
  | manifold ↦ true
  | valve ↦ not p.closed
  | vent ↦ true
  | connector ↦ true
  | pump ↦ same_dir (revert_dir dir) p.dir
]

-- Valve::AttackBy
unfoldable pub attack_by : PipeBase → PipeBase
attack_by p = record p { closed = not p.closed }

-- AtmosHolder::Connect of a mixture with itself, for one gas or the energy: the owner's share is
-- taken before the guest's.
unfoldable pub exchange_self : ℤ → ℤ → ℤ → ℤ → ℤ
exchange_self level_owner level_guest div n =
    let from_owner = share n level_owner in
    let left = n -ℤ from_owner in
    let from_guest = share left level_guest in
    let loc = from_owner +ℤ from_guest in
    left -ℤ from_guest +ℤ share loc div +ℤ (loc -ℤ share loc div)

unfoldable pub connect_self : ℤ → ℤ → ℤ → AtmosData → AtmosData
connect_self level_owner level_guest div d =
    let swap =
      exchange_self (clamp_level level_owner) (clamp_level level_guest) (clamp_level div) in
    update_macro_params (
      update_macro_params
        (record d { gases = each (λ i. swap (amount i d.gases)); energy = swap d.energy }))

abbrev set_both : ℕ → ℕ → Pair → List AtmosData → List AtmosData
set_both i j q holders = set (set holders i q.owner) j q.guest

-- AtmosHolder::Connect of two pointers.
unfoldable pub connect_at : ℤ → ℤ → ℤ → ℕ → ℕ → List AtmosData → Option (List AtmosData)
connect_at level_owner level_guest div i j holders = do
  owner ← get_elem? holders i
  guest ← get_elem? holders j
  some (
      if i == j
      then set holders i (connect_self level_owner level_guest div owner)
      else set_both i j
          (connect level_owner level_guest div (record { owner = owner; guest = guest })) holders)

-- Connect with its default arguments, with a holder that there may not be.
unfoldable pub connect_with : Option ℕ → ℕ → List AtmosData → Option (List AtmosData)
connect_with none j holders = some holders
connect_with (some i) j holders = connect_at max_gas_level max_gas_level (pos 500) i j holders

module _ (pipes : ℕ → Option PipeBase) where
  -- ProcessHelper
  unfoldable pub process_helper : PipeBase → ℕ → Dir → List AtmosData → Option (List AtmosData)
  process_helper p connection dir holders = elim (pipes connection) [
    | none ↦ connect_with p.cube p.atmos_holder holders
    | some other ↦
        if can_transfer_gas other (revert_dir dir)
        then connect_with (some other.atmos_holder) p.atmos_holder holders
        else some holders
  ]

  -- Pipe::Process
  unfoldable pub process_pipe : PipeBase → List AtmosData → Option (List AtmosData)
  process_pipe p holders = do
    (head, tail) ← get_tail_and_head p.dir
    after_head ← process_helper p p.head head holders
    process_helper p p.tail tail after_head

  -- Manifold::Process
  unfoldable pub process_manifold : PipeBase → List AtmosData → Option (List AtmosData)
  process_manifold p holders = do
    after_tail ← process_helper p p.tail (revert_dir p.dir) holders
    after_left ← process_helper p p.left (get_left_and_right p.dir).0 after_tail
    process_helper p p.right (get_left_and_right p.dir).1 after_left

  -- PipePump::Process, the holder at the head
  unfoldable pub head_connection : PipeBase → Option ℕ
  head_connection p = elim (pipes p.head) [ none ↦ p.cube | some other ↦ some other.atmos_holder ]

  unfoldable pub pump_into : PipeBase → ℕ → List AtmosData → Option (List AtmosData)
  pump_into p i holders = do
    d ← get_elem? holders i
    if leb_ℤ p.pump_pressure d.pressure
        then some holders
        else connect_at max_gas_level (pos 250) max_gas_level i p.atmos_holder holders

  -- PipePump::Process
  unfoldable pub process_pump : PipeBase → List AtmosData → Option (List AtmosData)
  process_pump p holders = do
    (head, tail) ← get_tail_and_head p.dir
    after_tail ← process_helper p p.tail tail holders
    elim (head_connection p) [ none ↦ some after_tail | some i ↦ pump_into p i after_tail ]

  -- Valve::Process
  unfoldable pub process_valve : PipeBase → List AtmosData → Option (List AtmosData)
  process_valve p holders = if p.closed then some holders else process_pipe p holders

  -- Vent::Process
  unfoldable pub process_vent : PipeBase → List AtmosData → Option (List AtmosData)
  process_vent p holders = do
    after_tail ← process_helper p p.tail p.dir holders
    connect_with p.owner p.atmos_holder after_tail

  -- Connector::Process
  unfoldable pub process_connector : PipeBase → List AtmosData → Option (List AtmosData)
  process_connector p holders = do
    after_tail ← process_helper p p.tail p.dir holders
    connect_with p.tank p.atmos_holder after_tail

  -- Process, by the class
  unfoldable pub process_as : Kind → PipeBase → List AtmosData → Option (List AtmosData)
  process_as base p holders = some holders
  process_as pipe p holders = process_pipe p holders
  process_as manifold p holders = process_manifold p holders
  process_as valve p holders = process_valve p holders
  process_as vent p holders = process_vent p holders
  process_as connector p holders = process_connector p holders
  process_as pump p holders = process_pump p holders

  unfoldable pub process : PipeBase → List AtmosData → Option (List AtmosData)
  process p = process_as p.kind p
