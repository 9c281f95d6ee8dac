-- ===== src/Tables.antt =====
-- The joints of tables: Table::UpdateSprite and CheckTable of sources/core/objects/movable/Tables.cpp. A
-- table's picture is the state of its sprite, without the material's name, and its direction.
pub mod Joints
use griefly.Prelude.{ℕ, ◌+◌, Bool, true, false, not, ◌&&◌, ◌==◌, if◌then◌else◌, Option, none, some}
use griefly.Geometry.{Dir}

pub data TableState : Type 0 where
  d0 d1 d2 d2_c_r d2_c_f d3 d3_c_m_l d3_c_m_r d3_f d4 : TableState

pub record Picture : Type 0 where
  pub state : TableState
  pub dir : Dir

-- The eight results of CheckTable.
pub record Around : Type 0 where
  pub up : Bool
  pub down : Bool
  pub left : Bool
  pub right : Bool
  pub upright : Bool
  pub downright : Bool
  pub upleft : Bool
  pub downleft : Bool

-- CheckTable, for the table of a tile, if there is one, by its id
unfoldable pub check_table : Option ℕ → ℕ → Bool
check_table none ignored_table = false
check_table (some id) ignored_table = if id == ignored_table then false else true

abbrev pub int_of : Bool → ℕ
int_of true = 1
int_of false = 0

abbrev picture : TableState → Dir → Picture
picture state dir = record { state = state; dir = dir }

-- up + down + left == 3
unfoldable pub without_right : Around → Picture
without_right a =
    if a.upleft && a.downleft
    then picture d3 Dir.west
    else if not a.upleft && a.downleft
    then picture d3_c_m_l Dir.east
    else if a.upleft && not a.downleft
    then picture d3_c_m_l Dir.west
    else picture d3_f Dir.west

-- up + down + right == 3
unfoldable pub without_left : Around → Picture
without_left a =
    if a.upright && a.downright
    then picture d3 Dir.east
    else if not a.upright && a.downright
    then picture d3_c_m_r Dir.east
    else if a.upright && not a.downright
    then picture d3_c_m_r Dir.west
    else picture d3_f Dir.east

-- up + right + left == 3
unfoldable pub without_down : Around → Picture
without_down a =
    if a.upleft && a.upright
    then picture d3 Dir.north
    else if not a.upleft && a.upright
    then picture d3_c_m_l Dir.north
    else if a.upleft && not a.upright
    then picture d3_c_m_l Dir.south
    else picture d3_f Dir.north

-- right + down + left == 3. The third test is of the same table twice.
unfoldable pub without_up : Around → Picture
without_up a =
    if a.downleft && a.downright
    then picture d3 Dir.south
    else if not a.downleft && a.downright
    then picture d3_c_m_r Dir.north
    else if a.downleft && not a.downleft
    then picture d3_c_m_r Dir.south
    else picture d3_f Dir.south

-- A corner of two sides, with the table between them or not.
abbrev corner : Bool → Dir → Picture
corner between dir = if between then picture d2_c_r dir else picture d2_c_f dir

abbrev sum_is : ℕ → ℕ → Bool
sum_is n k = n == k

-- The branch for three sides. Where no test holds the picture stays.
unfoldable pub three_sides : Around → Picture → Picture
unfolding without_right without_left without_down without_up
three_sides a p =
    let up = int_of a.up in
    let down = int_of a.down in
    let left = int_of a.left in
    let right = int_of a.right in
    if sum_is (up + down + left) 3
    then without_right a
    else if sum_is (up + down + right) 3
    then without_left a
    else if sum_is (up + right + left) 3
    then without_down a
    else if sum_is (right + down + left) 3
    then without_up a
    else p

unfoldable pub two_sides : Around → Picture → Picture
two_sides a p =
    let up = int_of a.up in
    let down = int_of a.down in
    let left = int_of a.left in
    let right = int_of a.right in
    if sum_is (up + down) 2
    then picture d2 Dir.north
    else if sum_is (up + left) 2
    then corner a.upleft Dir.west
    else if sum_is (up + right) 2
    then corner a.upright Dir.east
    else if sum_is (down + left) 2
    then corner a.downleft Dir.north
    else if sum_is (down + right) 2
    then corner a.downright Dir.south
    else if sum_is (right + left) 2
    then picture d2 Dir.west
    else p

-- Of several sides the last would count.
unfoldable pub one_side : Around → Picture → Picture
one_side a p =
    let north = if a.up then Dir.north else p.dir in
    let south = if a.down then Dir.south else north in
    let west = if a.left then Dir.west else south in picture d1 (if a.right then Dir.east else west)

-- UpdateSprite
unfoldable pub update_sprite : Around → Picture → Picture
update_sprite a p =
    let sum = int_of a.up + int_of a.down + int_of a.left + int_of a.right in
    if sum_is sum 4
    then record p { state = d4 }
    else if sum_is sum 3
    then three_sides a p
    else if sum_is sum 2
    then two_sides a p
    else if sum_is sum 1
    then one_side a p
    else if sum_is sum 0
    then record p { state = d0 }
    else p
