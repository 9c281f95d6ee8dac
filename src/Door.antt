-- ===== src/Door.antt =====
-- sources/core/objects/Door.h and Door.cpp: Door and NontransparentDoor (SecurityDoor, ExternalDoor
-- and MaintenanceDoor differ from these in their sprite alone). `Open` and `Close` are virtual: the
-- field `kind` says which class the object is of. Sounds are left out. Game ticks do not wrap.
pub mod Invariant
pub mod Cycle
use griefly.Prelude.{ℕ, ◌-◌, Bool, true, false, ◌||◌, ◌&&◌, ltb, if◌then◌else◌}

pub data State : Type 0 where
  opened closed opening closing welded : State

pub data Kind : Type 0 where
  plain nontransparent : Kind

-- The sprite's states.
pub data Look : Type 0 where
  door_closed door_opening door_open door_closing : Look

pub record Door : Type 0 where
  pub kind : Kind
  pub state : State
  pub last_tick : ℕ
  pub freq : ℕ
  pub passable_all : ℕ
  pub transparent : Bool
  pub visible_level : ℕ
  pub look : Look
  pub welded_overlay : Bool

-- passable::EMPTY and passable::FULL
abbrev pub empty : ℕ
empty = 0

abbrev pub full : ℕ
full = 100

-- visible_level::STANDING_MOB + 1 and visible_level::ITEM - 1
abbrev closed_door : ℕ
closed_door = 10

abbrev open_door : ℕ
open_door = 4

abbrev pub is_state : State → State → Bool
is_state opened opened = true
is_state closed closed = true
is_state opening opening = true
is_state closing closing = true
is_state welded welded = true
is_state _ _ = false

abbrev is_see_through : Kind → Bool
is_see_through plain = true
is_see_through nontransparent = false

-- The constructors. `last_tick_` is not set there: it is whatever the memory held.
unfoldable pub new : Kind → ℕ → Door
new k garbage = record {
  kind = k;
  state = closed;
  last_tick = garbage;
  freq = 0;
  passable_all = empty;
  transparent = is_see_through k;
  visible_level = open_door;
  look = door_closed;
  welded_overlay = false;
}

-- Door::Open and Door::Close
base_open : ℕ → Door → Door
base_open now d =
    if is_state closed d.state
    then record d {
      look = door_opening;
      state = opening;
      last_tick = now;
      freq = 1;
      visible_level = closed_door;
    }
    else d

base_close : ℕ → Door → Door
base_close now d =
    if is_state opened d.state
    then record d {
      look = door_closing;
      passable_all = empty;
      state = closing;
      last_tick = now;
      visible_level = closed_door;
    }
    else d

-- NontransparentDoor::Open and NontransparentDoor::Close
nontransparent_open : ℕ → Door → Door
unfolding base_open
nontransparent_open now d =
    if is_state closed d.state then base_open now (record d { transparent = true }) else d

nontransparent_close : ℕ → Door → Door
unfolding base_close
nontransparent_close now d =
    if is_state opened d.state then base_close now (record d { transparent = false }) else d

-- The virtual calls.
open_for : Kind → ℕ → Door → Door
open_for plain = base_open
open_for nontransparent = nontransparent_open

close_for : Kind → ℕ → Door → Door
close_for plain = base_close
close_for nontransparent = nontransparent_close

unfoldable pub open_it : ℕ → Door → Door
unfolding open_for nontransparent_open base_open
open_it now d = open_for d.kind now d

unfoldable pub close_it : ℕ → Door → Door
unfolding close_for nontransparent_close base_close
close_it now d = close_for d.kind now d

finish_opening : ℕ → Door → Door
finish_opening now d =
    if ltb 11 (now - d.last_tick)
    then record d {
      state = opened;
      passable_all = full;
      last_tick = now;
      look = door_open;
      visible_level = open_door;
    }
    else d

finish_closing : ℕ → Door → Door
finish_closing now d =
    if ltb 11 (now - d.last_tick)
    then record d { state = closed; last_tick = now; look = door_closed; freq = 0 }
    else d

-- Door::Process
unfoldable pub process : ℕ → Door → Door
unfolding finish_opening finish_closing close_it
process now d =
    if is_state opening d.state
    then finish_opening now d
    else if is_state closing d.state
    then finish_closing now d
    else if is_state opened d.state
    then (if ltb 50 (now - d.last_tick) then close_it now d else d)
    else d

-- Door::Bump; a bump by anything but a mob does nothing.
unfoldable pub bump : ℕ → Bool → Door → Door
unfolding open_it
bump now is_mob d = if is_mob && is_state closed d.state then open_it now d else d

-- Door::Weld
unfoldable pub weld : Door → Door
weld d =
    if is_state closed d.state || is_state welded d.state
    then (if is_state welded d.state
        then record d { look = door_closed; state = closed; welded_overlay = false }
        else record d { welded_overlay = true; state = welded })
    else d

-- What the door is hit with. A remote opener takes the door's id, and the door stays as it is.
pub data Tool : Type 0 where
  welding_tool : Bool → Tool
  remote_opener other : Tool

-- Door::AttackBy
unfoldable pub attack_by : ℕ → Tool → Door → Door
unfolding weld open_it close_it
attack_by now (welding_tool working) d =
    if (is_state closed d.state || is_state welded d.state) && working then weld d else d
attack_by now remote_opener d = d
attack_by now other d =
    if is_state opened d.state
    then close_it now d
    else if is_state closed d.state
    then open_it now d
    else d

-- What can happen to a door. `Process` is called for an object whose `freq` is not 0.
pub data Event : Type 0 where
  ticks opens closes : Event
  bumped : Bool → Event
  attacked : Tool → Event

unfoldable pub step : ℕ → Event → Door → Door
unfolding process open_it close_it bump attack_by
step now ticks d = if ltb 0 d.freq then process now d else d
step now opens d = open_it now d
step now closes d = close_it now d
step now (bumped is_mob) d = bump now is_mob d
step now (attacked t) d = attack_by now t d
