-- ===== src/GlassDoor.antt =====
-- GlassDoor of sources/core/objects/Door.h and Door.cpp: a windoor, which lets things through in its
-- own direction alone. The field `passable_dir` is what SetPassable(GetDir(), ...) sets. Sounds and
-- the prefix of the sprite's states are left out. Game ticks do not wrap.
pub mod Timing
use griefly.Prelude.{ℕ, ◌-◌, Bool, true, false, ◌&&◌, ltb, if◌then◌else◌}

pub data State : Type 0 where
  opened closed opening closing : State

-- door_prefix_ and what is put behind it.
pub data Look : Type 0 where
  plain_look look_opening look_open look_closing : Look

pub record GlassDoor : Type 0 where
  pub state : State
  pub last_tick : ℕ
  pub freq : ℕ
  pub passable_dir : ℕ
  pub look : Look

abbrev pub empty : ℕ
empty = 0

abbrev pub full : ℕ
full = 100

abbrev pub is_state : State → State → Bool
is_state opened opened = true
is_state closed closed = true
is_state opening opening = true
is_state closing closing = true
is_state _ _ = false

-- The constructor. It does not set `last_tick_`, and leaves the passability as the base class had it.
unfoldable pub new : ℕ → ℕ → GlassDoor
new garbage passable = record {
  state = closed;
  last_tick = garbage;
  freq = 0;
  passable_dir = passable;
  look = plain_look;
}

unfoldable pub after_world_creation : GlassDoor → GlassDoor
after_world_creation d = record d { passable_dir = empty; look = plain_look }

unfoldable pub open_it : ℕ → GlassDoor → GlassDoor
open_it now d =
    if is_state closed d.state
    then record d { look = look_opening; state = opening; last_tick = now; freq = 1 }
    else d

unfoldable pub close_it : ℕ → GlassDoor → GlassDoor
close_it now d =
    if is_state opened d.state
    then record d { look = look_closing; passable_dir = empty; state = closing; last_tick = now }
    else d

finish_opening : ℕ → GlassDoor → GlassDoor
finish_opening now d =
    if ltb 9 (now - d.last_tick)
    then record d { state = opened; passable_dir = full; last_tick = now; look = look_open }
    else d

finish_closing : ℕ → GlassDoor → GlassDoor
finish_closing now d =
    if ltb 9 (now - d.last_tick)
    then record d { state = closed; last_tick = now; look = plain_look; freq = 0 }
    else d

unfoldable pub process : ℕ → GlassDoor → GlassDoor
unfolding finish_opening finish_closing close_it
process now d =
    if is_state opening d.state
    then finish_opening now d
    else if is_state closing d.state
    then finish_closing now d
    else if is_state opened d.state
    then (if ltb 50 (now - d.last_tick) then close_it now d else d)
    else d

-- A bump by anything but a mob does nothing.
unfoldable pub bump : ℕ → Bool → GlassDoor → GlassDoor
unfolding open_it
bump now is_mob d = if is_mob && is_state closed d.state then open_it now d else d

-- AttackBy, whatever the door is hit with.
unfoldable pub attack_by : ℕ → GlassDoor → GlassDoor
unfolding open_it close_it
attack_by now d = if is_state opened d.state then close_it now d else open_it now d

-- What can happen to a door in the world.
pub data Event : Type 0 where
  ticks opens closes attacked : Event
  bumped : Bool → Event

unfoldable pub step : ℕ → Event → GlassDoor → GlassDoor
unfolding process open_it close_it bump attack_by
step now ticks d = if ltb 0 d.freq then process now d else d
step now opens d = open_it now d
step now closes d = close_it now d
step now attacked d = attack_by now d
step now (bumped is_mob) d = bump now is_mob d
