-- ===== src/Examples/Crowd.antt =====
-- Players and hearers: sources/core/CoreImplementation.cpp.
use griefly.Prelude.{ℕ, ◌≡◌, refl, Bool, ltb, [], ◌∷◌, map, arith}
use griefly.Prelude.Int.{pos}
use griefly.Geometry.{Vector}
use griefly.Chat.{ChatFrameInfo, apply_hear}
use griefly.World.{Players, get_player_id, move_mind_to, process_hearers}
use griefly.World.Hearers.{filter, process_hearers-filter}
use griefly.World.Players.{IsTable, Moved, move_mind_to_moves}

abbrev place : Vector
place = record { x = pos 2; y = pos 3; z = pos 0 }

abbrev alive : ℕ → Bool
alive id = ltb id 10

abbrev frame : ChatFrameInfo ℕ ℕ
frame = record { personal = λ id. []; visible = λ p. []; hear = λ p. 44 ∷ [] }

process_hearers-filter_example :
    process_hearers alive (λ id. place ∷ []) (4 ∷ 12 ∷ 5 ∷ 12 ∷ []) frame ≡ (
      filter alive (4 ∷ 12 ∷ 5 ∷ 12 ∷ []),
      map (λ id. (id, apply_hear (place ∷ []) frame)) (filter alive (4 ∷ 12 ∷ 5 ∷ 12 ∷ [])),
    )
process_hearers-filter_example =
    process_hearers-filter alive (λ id. place ∷ []) (4 ∷ 12 ∷ 5 ∷ 12 ∷ []) frame

abbrev table : Players
table = (3, 70) ∷ (5, 90) ∷ []

table-IsTable : IsTable table
unfolding get_player_id
table-IsTable = record {
  sorted = ((omega arith, _), (_, _));
  own_mob = λ a b nz e. grind arith;
  no_player_zero = refl;
}

fresh_ghost : (a : ℕ) → get_player_id a table ≡ 91 → ⊥
unfolding get_player_id
fresh_ghost a e = grind arith

move_mind_to_moves_example : Moved 5 90 91 table (move_mind_to 90 91 table)
unfolding get_player_id
move_mind_to_moves_example =
    move_mind_to_moves 5 90 91 table table-IsTable refl (omega arith) (omega arith) fresh_ghost
