-- ===== src/Tables/Joints.antt =====
-- What a table's picture tells of the tables around it.
use griefly.Prelude.{◌≡◌, ◌↔◌, sym, ap, ◌∙◌, Bool, true, false, not, ◌&&◌, arith}
use griefly.Geometry.{Dir}
use griefly.Tables.{
  TableState, d1, d2, d2_c_r, d2_c_f, d3, d3_c_m_l, d3_c_m_r, d3_f, d4, Picture, Around,
  without_right, without_left, without_down, without_up, three_sides, two_sides, one_side,
  update_sprite,
}

abbrev alone : Around
alone = record {
  up = false;
  down = false;
  left = false;
  right = false;
  upright = false;
  downright = false;
  upleft = false;
  downleft = false;
}

abbrev no_right : Around
no_right = record alone { up = true; down = true; left = true }

abbrev no_left : Around
no_left = record alone { up = true; down = true; right = true }

abbrev no_down : Around
no_down = record alone { up = true; right = true; left = true }

abbrev no_up : Around
no_up = record alone { right = true; down = true; left = true }

-- The sides, and the corners between them, that a state and a direction are for.
abbrev around_of : TableState → Dir → Around
around_of d1 Dir.north = record alone { up = true }
around_of d1 Dir.south = record alone { down = true }
around_of d1 Dir.west = record alone { left = true }
around_of d1 Dir.east = record alone { right = true }
around_of d2 Dir.north = record alone { up = true; down = true }
around_of d2 Dir.west = record alone { left = true; right = true }
around_of d2_c_f Dir.west = record alone { up = true; left = true }
around_of d2_c_f Dir.east = record alone { up = true; right = true }
around_of d2_c_f Dir.north = record alone { down = true; left = true }
around_of d2_c_f Dir.south = record alone { down = true; right = true }
around_of d2_c_r Dir.west = record alone { up = true; left = true; upleft = true }
around_of d2_c_r Dir.east = record alone { up = true; right = true; upright = true }
around_of d2_c_r Dir.north = record alone { down = true; left = true; downleft = true }
around_of d2_c_r Dir.south = record alone { down = true; right = true; downright = true }
around_of d3 Dir.west = record no_right { upleft = true; downleft = true }
around_of d3 Dir.east = record no_left { upright = true; downright = true }
around_of d3 Dir.north = record no_down { upleft = true; upright = true }
around_of d3 Dir.south = record no_up { downleft = true; downright = true }
around_of d3_f Dir.west = no_right
around_of d3_f Dir.east = no_left
around_of d3_f Dir.north = no_down
around_of d3_f Dir.south = no_up
around_of d3_c_m_l Dir.east = record no_right { downleft = true }
around_of d3_c_m_l Dir.west = record no_right { upleft = true }
around_of d3_c_m_l Dir.north = record no_down { upright = true }
around_of d3_c_m_l Dir.south = record no_down { upleft = true }
around_of d3_c_m_r Dir.east = record no_left { downright = true }
around_of d3_c_m_r Dir.west = record no_left { upright = true }
around_of d3_c_m_r Dir.north = record no_up { downright = true }
around_of d3_c_m_r Dir.south = record no_up { downleft = true }
around_of d4 _ = record alone { up = true; down = true; left = true; right = true }
around_of _ _ = alone

abbrev read_back : Picture → Around
read_back p = around_of p.state p.dir

abbrev is_full : Around → Bool
is_full a = a.up && a.down && a.left && a.right

-- A table at the lower left alone, below a table that is joined at the left, below and at the right.
abbrev pub is_missed : Around → Bool
is_missed a = not a.up && a.down && a.left && a.right && not a.downright

-- What the picture depends on: all the sides, and of the corners those between two of them, but no
-- corner where all four sides are joined, and one that UpdateSprite misses.
abbrev pub told : Around → Around
told a = record a {
  upright = a.upright && a.up && a.right && not (is_full a);
  downright = a.downright && a.down && a.right && not (is_full a);
  upleft = a.upleft && a.up && a.left && not (is_full a);
  downleft = a.downleft && a.down && a.left && not (is_full a) && not (is_missed a);
}

read_back-update_sprite : (a : Around) (p : Picture) → read_back (update_sprite a p) ≡ told a
unfolding update_sprite three_sides two_sides one_side without_right without_left without_down
    without_up
read_back-update_sprite a p = ground arith

update_sprite-told : (a : Around) (p : Picture) → update_sprite (told a) p ≡ update_sprite a p
unfolding update_sprite three_sides two_sides one_side without_right without_left without_down
    without_up
update_sprite-told a p = ground arith

-- Of two surroundings UpdateSprite makes the same picture, from the same picture before, exactly when
-- they have tables at the same sides and, of the corners between two such sides, at the same ones: but where
-- all four sides have tables the corners make no difference, and neither does the one at the lower left
-- where tables stand at the left, below and at the right alone and none at the lower right.
pub same_picture :
    (a b : Around) (p : Picture) → (update_sprite a p ≡ update_sprite b p) ↔ (told a ≡ told b)
same_picture a b p = (
  λ same. sym (read_back-update_sprite a p) ∙ ap read_back same ∙ read_back-update_sprite b p,
  λ same. sym (update_sprite-told a p) ∙ ap (λ t. update_sprite t p) same ∙ update_sprite-told b p,
)
