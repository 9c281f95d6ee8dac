-- ===== src/Examples/Furniture.antt =====
-- Tables and closets: sources/core/objects/movable/Tables.cpp and Closet.cpp.
use griefly.Prelude.{ℕ, ◌≡◌, ◌↔◌, refl, Bool, true, false, ltb, List, [], ◌∷◌, map}
use griefly.Geometry.{Dir}
use griefly.Tables.{Around, Picture, d0, update_sprite}
use griefly.Tables.Joints.{told, same_picture}
use griefly.Tile.{full_levels}
use griefly.Closet
use griefly.Closet.{Site, Event, is_attacked, is_bumped, new_closet, new_locker}
use griefly.Closet.Histories.{IsOrderly, run-new-IsOrderly, attacked_locker_stays_shut}

abbrev corner : Around
corner = record {
  up = true;
  down = true;
  left = true;
  right = false;
  upright = true;
  downright = false;
  upleft = false;
  downleft = true;
}

abbrev plain_table : Picture
plain_table = record { state = d0; dir = Dir.south }

-- The same sides, with a table more at a corner that is not between two of them.
abbrev more : Around
more = record corner { downright = true }

same_picture_example :
    (update_sprite corner plain_table ≡ update_sprite more plain_table) ↔ (told corner ≡ told more)
same_picture_example = same_picture corner more plain_table

-- What has an id below 5 goes into a closet.
abbrev small : ℕ → Bool
small id = ltb id 5

abbrev locker : Site
locker = record { closet = new_locker full_levels; tile = 3 ∷ 8 ∷ 3 ∷ [] }

abbrev closet : Site
closet = record { closet = new_closet full_levels; tile = 3 ∷ 8 ∷ 3 ∷ [] }

abbrev history : List Event
history = is_attacked false ∷ is_attacked true ∷ is_bumped 3 ∷ []

run-new-IsOrderly_example :
    IsOrderly small closet (Closet.run small history closet)
    × IsOrderly small locker (Closet.run small history locker)
run-new-IsOrderly_example = run-new-IsOrderly small history full_levels (3 ∷ 8 ∷ 3 ∷ [])

attacked_locker_stays_shut_example :
    let t = Closet.run small (map is_attacked (false ∷ true ∷ true ∷ [])) locker in
    (t.closet.is_open ≡ false) × (t.closet.content ≡ locker.closet.content) × (t.tile ≡ locker.tile)
unfolding new_locker new_closet
attacked_locker_stays_shut_example =
    attacked_locker_stays_shut small (false ∷ true ∷ true ∷ []) locker refl refl
