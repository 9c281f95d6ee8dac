-- ===== src/Chat/Frames.antt =====
-- A frame of the chat: who gets which of the texts that were posted.
use griefly.Prelude.{
  ℕ, ◌==◌, ◌≡◌, ◌≢◌, refl, sym, ap, ◌∙◌, inl, inr, arith, Bool, Bool-cases, true, false,
  if◌then◌else◌, List, [], ◌∷◌, ◌++◌, append_empty,
}
use mathlib.Core.List.{append_assoc}
use griefly.Geometry.{Vector}
use griefly.Chat.{
  same_position, ChatFrameInfo, append_at, reset, post_personal, post_visible, post_hear,
  get_personal_texts, texts_at, add_from_visible_to_personal, apply_hear,
}

pub data Post (Text Phrase : Type 0) : Type 0 where
  whispered : Text → ℕ → Post Text Phrase
  shown : Text → Vector → Post Text Phrase
  spoken : Phrase → Vector → Post Text Phrase

-- What a test keeps in front of a list.
abbrev pub keep_if {ℓ} : {A : Type ℓ} → Bool → A → List A → List A
keep_if kept a rest = if kept then a ∷ rest else rest

-- What there is at each point, one after the other.
abbrev pub for_points : {A : Type 0} → (Vector → List A) → List Vector → List A
for_points at [] = []
for_points at (point ∷ points) = at point ++ for_points at points

append_at_keeps :
    {K V : Type 0} (same : K → K → Bool) (key other : K) (value : V) (hash : K → List V)
    (rest : List V)
    → append_at same key value hash other ++ rest
      ≡ hash other ++ keep_if (same other key) value rest
append_at_keeps same key other value hash rest = elim (Bool-cases (same other key)) [
  | inl t ↦ rw t (append_assoc (hash other) (value ∷ []) rest)
  | inr t ↦ rw t refl
]

module _ {Text Phrase : Type 0} where
  unfoldable pub post : Post Text Phrase → ChatFrameInfo Text Phrase → ChatFrameInfo Text Phrase
  post (whispered text net_id) f = post_personal text net_id f
  post (shown text place) f = post_visible text place f
  post (spoken phrase place) f = post_hear phrase place f

  unfoldable pub post_all :
      List (Post Text Phrase) → ChatFrameInfo Text Phrase → ChatFrameInfo Text Phrase
  post_all [] f = f
  post_all (p ∷ posts) f = post_all posts (post p f)

  -- The texts for one player, those at one place, and the phrases at one place, in the order of posting.
  unfoldable pub whispered_to : ℕ → List (Post Text Phrase) → List Text
  whispered_to id [] = []
  whispered_to id (whispered text net_id ∷ posts) =
      keep_if (id == net_id) text (whispered_to id posts)
  whispered_to id (shown text place ∷ posts) = whispered_to id posts
  whispered_to id (spoken phrase place ∷ posts) = whispered_to id posts

  unfoldable pub shown_at : Vector → List (Post Text Phrase) → List Text
  shown_at p [] = []
  shown_at p (whispered text net_id ∷ posts) = shown_at p posts
  shown_at p (shown text place ∷ posts) = keep_if (same_position p place) text (shown_at p posts)
  shown_at p (spoken phrase place ∷ posts) = shown_at p posts

  unfoldable pub spoken_at : Vector → List (Post Text Phrase) → List Phrase
  spoken_at p [] = []
  spoken_at p (whispered text net_id ∷ posts) = spoken_at p posts
  spoken_at p (shown text place ∷ posts) = spoken_at p posts
  spoken_at p (spoken phrase place ∷ posts) =
      keep_if (same_position p place) phrase (spoken_at p posts)

  post_all_personal :
      (posts : List (Post Text Phrase)) (f : ChatFrameInfo Text Phrase) (id : ℕ)
      → (post_all posts f).personal id ≡ f.personal id ++ whispered_to id posts
  unfolding post_all post whispered_to post_personal post_visible post_hear
  post_all_personal [] f id = sym (append_empty (f.personal id))
  post_all_personal (whispered text net_id ∷ posts) f id =
      post_all_personal posts (post_personal text net_id f) id
      ∙ append_at_keeps ◌==◌ net_id id text f.personal (whispered_to id posts)
  post_all_personal (shown text place ∷ posts) f id =
      post_all_personal posts (post_visible text place f) id
  post_all_personal (spoken phrase place ∷ posts) f id =
      post_all_personal posts (post_hear phrase place f) id

  post_all_visible :
      (posts : List (Post Text Phrase)) (f : ChatFrameInfo Text Phrase) (p : Vector)
      → (post_all posts f).visible p ≡ f.visible p ++ shown_at p posts
  unfolding post_all post shown_at post_personal post_visible post_hear
  post_all_visible [] f p = sym (append_empty (f.visible p))
  post_all_visible (whispered text net_id ∷ posts) f p =
      post_all_visible posts (post_personal text net_id f) p
  post_all_visible (shown text place ∷ posts) f p =
      post_all_visible posts (post_visible text place f) p
      ∙ append_at_keeps same_position place p text f.visible (shown_at p posts)
  post_all_visible (spoken phrase place ∷ posts) f p =
      post_all_visible posts (post_hear phrase place f) p

  post_all_hear :
      (posts : List (Post Text Phrase)) (f : ChatFrameInfo Text Phrase) (p : Vector)
      → (post_all posts f).hear p ≡ f.hear p ++ spoken_at p posts
  unfolding post_all post spoken_at post_personal post_visible post_hear
  post_all_hear [] f p = sym (append_empty (f.hear p))
  post_all_hear (whispered text net_id ∷ posts) f p =
      post_all_hear posts (post_personal text net_id f) p
  post_all_hear (shown text place ∷ posts) f p = post_all_hear posts (post_visible text place f) p
  post_all_hear (spoken phrase place ∷ posts) f p =
      post_all_hear posts (post_hear phrase place f) p
      ∙ append_at_keeps same_position place p phrase f.hear (spoken_at p posts)

  -- The texts and phrases of a frame at some points.
  texts_at_points :
      (points : List Vector) (f : ChatFrameInfo Text Phrase) (at : Vector → List Text)
      → ((p : Vector) → f.visible p ≡ at p)
      → texts_at points f ≡ for_points at points
  unfolding texts_at
  texts_at_points [] f at h = refl
  texts_at_points (point ∷ points) f at h =
      ap (λ xs. xs ++ texts_at points f) (h point)
      ∙ ap (λ xs. at point ++ xs) (texts_at_points points f at h)

  heard_at_points :
      (points : List Vector) (f : ChatFrameInfo Text Phrase) (at : Vector → List Phrase)
      → ((p : Vector) → f.hear p ≡ at p)
      → apply_hear points f ≡ for_points at points
  unfolding apply_hear
  heard_at_points [] f at h = refl
  heard_at_points (point ∷ points) f at h =
      ap (λ xs. xs ++ apply_hear points f) (h point)
      ∙ ap (λ xs. at point ++ xs) (heard_at_points points f at h)

  -- A frame that is reset and then gets posts gives, when the visible texts of some points are added for a player, that
  -- player what was posted to him and then what was shown at each of the points, every other player what was posted to
  -- him and nothing else, and a hearer at the points what was spoken there, all in the order of posting.
  pub frame_delivers :
      (f : ChatFrameInfo Text Phrase) (posts : List (Post Text Phrase)) (points : List Vector)
      (net_id other : ℕ)
      → other ≢ net_id
      → let g = add_from_visible_to_personal points net_id (post_all posts (reset f)) in
        (get_personal_texts net_id g
          ≡ whispered_to net_id posts ++ for_points (λ p. shown_at p posts) points)
        × (get_personal_texts other g ≡ whispered_to other posts)
        × (apply_hear points g ≡ for_points (λ p. spoken_at p posts) points)
  unfolding add_from_visible_to_personal reset
  frame_delivers f posts points net_id other ne =
      let h = post_all posts (reset f) in
      (
        rw (self net_id) (
            ap (λ xs. xs ++ texts_at points h) (post_all_personal posts (reset f) net_id)
            ∙ ap (λ xs. whispered_to net_id posts ++ xs)
                (texts_at_points points h (λ p. shown_at p posts)
                  (λ p. post_all_visible posts (reset f) p))),
        rw (differs other net_id ne) (post_all_personal posts (reset f) other),
        heard_at_points points _ (λ p. spoken_at p posts) (λ p. post_all_hear posts (reset f) p),
      )
    where
      self : (n : ℕ) → (n == n) ≡ true
      self n = grind arith

      differs : (a b : ℕ) → a ≢ b → (a == b) ≡ false
      differs a b h = grind arith
