-- ===== src/Examples/Talk.antt =====
-- The chat of a frame: sources/core/ChatFrameInfo.cpp.
use griefly.Prelude.{ℕ, ◌≡◌, ◌++◌, arith, List, [], ◌∷◌}
use griefly.Geometry.{zero_vector, vd_right}
use griefly.Chat.{
  ChatFrameInfo, add_from_visible_to_personal, get_personal_texts, apply_hear, reset,
}
use griefly.Chat.Frames.{
  Post, whispered, shown, spoken, post_all, whispered_to, shown_at, spoken_at, for_points,
  frame_delivers,
}

abbrev old_frame : ChatFrameInfo ℕ ℕ
old_frame = record { personal = λ id. 9 ∷ []; visible = λ p. []; hear = λ p. 8 ∷ [] }

abbrev posts : List (Post ℕ ℕ)
posts =
    shown 10 zero_vector
    ∷ whispered 20 2
    ∷ spoken 30 vd_right
    ∷ shown 11 vd_right
    ∷ whispered 21 1
    ∷ []

frame_delivers_example :
    let g =
      add_from_visible_to_personal
        (vd_right ∷ zero_vector ∷ [])
        1
        (post_all posts (reset old_frame)) in
    (get_personal_texts 1 g
      ≡ whispered_to 1 posts ++ for_points (λ p. shown_at p posts) (vd_right ∷ zero_vector ∷ []))
    × (get_personal_texts 2 g ≡ whispered_to 2 posts)
    × (apply_hear (vd_right ∷ zero_vector ∷ []) g
        ≡ for_points (λ p. spoken_at p posts) (vd_right ∷ zero_vector ∷ []))
frame_delivers_example =
    frame_delivers old_frame posts (vd_right ∷ zero_vector ∷ []) 1 2 (λ e. grind (arith, e))
