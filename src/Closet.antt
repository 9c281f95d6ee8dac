-- ===== src/Closet.antt =====
-- Closet and SecurityLocker of sources/core/objects/movable/Closet.h and Closet.cpp, on a tile. What lies
-- on the tile and in the closet are lists of ids; which of them are living items or humans is an
-- argument. What is in a closet is alive. Sounds are left out.
pub mod Gathering
pub mod Histories
use griefly.Prelude.{
  ℕ, Bool, true, false, not, ◌&&◌, ◌||◌, ◌==◌, if◌then◌else◌, List, [], ◌∷◌, ◌++◌,
}
use griefly.Geometry.{Dir}
use griefly.Tile.{Levels, put_passable, air, full}

pub data Look : Type 0 where
  closed_look open_look secure_locked secure secure_open : Look

-- A closet, or a security locker.
pub data Kind : Type 0 where
  plain security_locker : Kind

pub record Closet : Type 0 where
  pub kind : Kind
  pub is_open : Bool
  pub locked : Bool
  pub content : List ℕ
  pub passable : Levels
  pub look : Look

-- The closet and the tile that owns it.
pub record Site : Type 0 where
  pub closet : Closet
  pub tile : List ℕ

abbrev walls : Levels → Levels
walls l = put_passable Dir.east full (
    put_passable Dir.west full
      (put_passable Dir.south full (put_passable Dir.north full (put_passable Dir.all air l))))

-- Closet::Closet
unfoldable pub new_closet : Levels → Closet
new_closet levels = record {
  kind = plain;
  is_open = false;
  locked = false;
  content = [];
  passable = walls levels;
  look = closed_look;
}

-- SecurityLocker::SecurityLocker
unfoldable pub new_locker : Levels → Closet
unfolding new_closet
new_locker levels = record (new_closet levels) {
  kind = security_locker;
  locked = true;
  look = secure_locked;
}

-- Contains
unfoldable pub contains : ℕ → List ℕ → Bool
contains id [] = false
contains id (x ∷ xs) = (x == id) || contains id xs

-- RemoveObject of a closet or of a tile: the first of its kind, if there is one.
unfoldable pub remove_first : ℕ → List ℕ → List ℕ
remove_first id [] = []
remove_first id (x ∷ xs) = let rest = remove_first id xs in if x == id then xs else x ∷ rest

abbrev pub with_content : List ℕ → Site → Site
with_content content s = record s { closet = record s.closet { content = content } }

abbrev pub is_locker : Kind → Bool
is_locker plain = false
is_locker security_locker = true

-- Lock
unfoldable pub lock : Closet → Closet
lock c = if c.is_open then c else record c { locked = true; look = secure_locked }

-- Unlock
unfoldable pub unlock : Closet → Closet
unlock c = if c.is_open then c else record c { locked = false; look = secure }

abbrev pub on_closet : (Closet → Closet) → Site → Site
on_closet f s = record s { closet = f s.closet }

unfoldable pub base_open : Site → Site
base_open s = record {
  tile = s.tile ++ s.closet.content;
  closet = record s.closet {
    content = [];
    is_open = true;
    passable = put_passable Dir.all full s.closet.passable;
    look = open_look;
  };
}

-- Open, of either kind
unfoldable pub open_it : Site → Site
open_it s =
    let t = base_open s in
    if is_locker s.closet.kind
    then (if s.closet.locked
        then s
        else record t { closet = record t.closet { look = secure_open } })
    else t

-- Bump of what may be inside
unfoldable pub bump : ℕ → Site → Site
bump id s = if contains id s.closet.content && not s.closet.is_open then open_it s else s

pub data Event : Type 0 where
  -- AttackBy, with a hand or with another item
  is_attacked : Bool → Event
  -- Bump of an object
  is_bumped : ℕ → Event

module _ (fits : ℕ → Bool) where
  -- AddObject, with what it answers
  unfoldable pub add_object : ℕ → Closet → Closet × Bool
  add_object id c =
      if fits id then (record c { content = c.content ++ (id ∷ []) }, true) else (c, false)

  -- The callback of Close for one object of the tile.
  unfoldable pub take_in : ℕ → Site → Site
  take_in id s =
      let added = add_object id s.closet in
      if added.1 then record { closet = added.0; tile = remove_first id s.tile } else s

  -- ForEach over a copy of the tile's content.
  unfoldable pub take_all : List ℕ → Site → Site
  take_all [] s = s
  take_all (id ∷ ids) s = take_all ids (take_in id s)

  -- AfterWorldCreation
  unfoldable pub after_world_creation : Site → Site
  after_world_creation s = take_all s.tile s

  unfoldable pub base_close : Site → Site
  base_close s =
      let full_site = take_all s.tile s in
      record full_site {
        closet = record full_site.closet {
          is_open = false;
          passable = put_passable Dir.all air full_site.closet.passable;
          look = closed_look;
        };
      }

  -- Close, of either kind
  unfoldable pub close_it : Site → Site
  close_it s =
      let t = base_close s in
      if is_locker s.closet.kind then record t { closet = record t.closet { look = secure } } else t

  -- Closet::AttackBy, for a hand or another item
  unfoldable pub base_attack_by : Bool → Site → Site
  base_attack_by hand s = if s.closet.is_open then (if hand then close_it s else s) else open_it s

  -- AttackBy, of either kind
  unfoldable pub attack_by : Bool → Site → Site
  attack_by hand s =
      if is_locker s.closet.kind && not s.closet.is_open
      then on_closet (if s.closet.locked then unlock else if hand then (λ c. c) else lock) s
      else base_attack_by hand s

  unfoldable pub step : Event → Site → Site
  step (is_attacked hand) s = attack_by hand s
  step (is_bumped id) s = bump id s

  unfoldable pub run : List Event → Site → Site
  run [] s = s
  run (e ∷ es) s = run es (step e s)
