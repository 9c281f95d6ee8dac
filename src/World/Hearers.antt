-- ===== src/World/Hearers.antt =====
-- Which hearers ProcessHearers leaves, and what they hear.
use griefly.Prelude.{
  ℕ, ◌≡◌, refl, ap, ◌∙◌, ◌⊎◌, inl, inr, Bool, true, false, ◌==◌, if◌then◌else◌, List, [], ◌∷◌, map,
  arith, Bool-cases, ==→≡, All,
}
use griefly.Geometry.{Vector}
use griefly.Chat.{ChatFrameInfo, apply_hear}
use griefly.World.{erase_first, erase_all, hear_all, process_hearers}

-- std::copy_if
abbrev pub filter : (ℕ → Bool) → List ℕ → List ℕ
filter keep [] = []
filter keep (x ∷ xs) = let rest = filter keep xs in if keep x then x ∷ rest else rest

erase_first_skips :
    (x : ℕ) (id : ℕ) (xs : List ℕ)
    → (x == id) ≡ false
    → erase_first id (x ∷ xs) ≡ x ∷ erase_first id xs
unfolding erase_first
erase_first_skips x id xs e = rw e refl

erase_all_skips :
    (valid : ℕ → Bool) (x : ℕ) (ids xs : List ℕ)
    → valid x ≡ true
    → All (λ id. valid id ≡ false) ids
    → erase_all ids (x ∷ xs) ≡ x ∷ erase_all ids xs
unfolding erase_all
erase_all_skips valid x [] xs v all = refl
erase_all_skips valid x (id ∷ ids) xs v all =
    ap (erase_all ids) (erase_first_skips x id xs (apart (Bool-cases (x == id))))
    ∙ erase_all_skips valid x ids (erase_first id xs) v all.1
  where
    apart : ((x == id) ≡ true) ⊎ ((x == id) ≡ false) → (x == id) ≡ false
    apart (inl same) = absurd (grind (arith, ap valid (==→≡ x id same), v, all.0))
    apart (inr other) = other

erase_first_head : (x : ℕ) (xs : List ℕ) → erase_first x (x ∷ xs) ≡ xs
unfolding erase_first
erase_first_head x xs = ground arith

module _ {Text Phrase : Type 0} (is_valid : ℕ → Bool) (points_of : ℕ → List Vector) where
  hear_all_invalid :
      (hearers : List ℕ) (frame : ChatFrameInfo Text Phrase)
      → All (λ id. is_valid id ≡ false) (hear_all is_valid points_of hearers frame).0
  unfolding hear_all
  hear_all_invalid [] frame = _
  hear_all_invalid (id ∷ ids) frame = elim (Bool-cases (is_valid id)) [
    | inl valid ↦ rw valid (hear_all_invalid ids frame)
    | inr gone ↦ rw gone (gone, hear_all_invalid ids frame)
  ]

  erase_all-filter :
      (hearers : List ℕ) (frame : ChatFrameInfo Text Phrase)
      → erase_all (hear_all is_valid points_of hearers frame).0 hearers ≡ filter is_valid hearers
  unfolding hear_all erase_all
  erase_all-filter [] frame = refl
  erase_all-filter (id ∷ ids) frame = elim (Bool-cases (is_valid id)) [
    | inl valid ↦ rw valid (
        erase_all_skips is_valid id _ ids valid (hear_all_invalid ids frame)
        ∙ ap (λ (xs : List ℕ). id ∷ xs) (erase_all-filter ids frame))
    | inr gone ↦ rw gone (
        ap (erase_all (hear_all is_valid points_of ids frame).0) (erase_first_head id ids)
        ∙ erase_all-filter ids frame)
  ]

  hear_all-map :
      (hearers : List ℕ) (frame : ChatFrameInfo Text Phrase)
      → (hear_all is_valid points_of hearers frame).1
        ≡ map (λ id. (id, apply_hear (points_of id) frame)) (filter is_valid hearers)
  unfolding hear_all
  hear_all-map [] frame = refl
  hear_all-map (id ∷ ids) frame = elim (Bool-cases (is_valid id)) [
    | inl valid ↦ rw valid (
        ap (λ (xs : List (ℕ × List Phrase)). (id, apply_hear (points_of id) frame) ∷ xs)
          (hear_all-map ids frame))
    | inr gone ↦ rw gone (hear_all-map ids frame)
  ]

  -- ProcessHearers leaves exactly the hearers that are valid, in their order, however often one is in
  -- the list; and these, in the same order, hear what is said at their points.
  pub process_hearers-filter :
      (hearers : List ℕ) (frame : ChatFrameInfo Text Phrase)
      → let left = filter is_valid hearers in
        process_hearers is_valid points_of hearers frame
        ≡ (left, map (λ id. (id, apply_hear (points_of id) frame)) left)
  unfolding process_hearers
  process_hearers-filter hearers frame =
      rw (erase_all-filter hearers frame) (rw (hear_all-map hearers frame) refl)
