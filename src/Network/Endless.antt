-- ===== src/Network/Endless.antt =====
-- A header with a size of -8.
use griefly.Prelude.{
  ℕ, zero, suc, ◌+◌, ◌-◌, ◌≡◌, refl, ltb, false, ap, ap₂, ◌∙◌, arith, some, List, ◌∷◌, ◌++◌, length,
  drop-length, length-append,
}
use griefly.Serializer.{to_int32}
use griefly.Network.{
  Parser, header, goes_on, goes_back, out_of_fuel, from_big_endian, to_big_endian, read_header,
  take_negative, handle, handle_body, back, drain,
}
use griefly.Network.Rounds.{handle-header, handle_header-enough}
use griefly.Network.Feeding.{drain-goes_on}

-- The header, with four bytes for the type of the message.
abbrev pub minus_eight : ℕ → List ℕ
minus_eight type = 255 ∷ 255 ∷ 255 ∷ 248 ∷ to_big_endian type

far_enough : (n : ℕ) → ltb (n + 8) 8 ≡ false
far_enough n = ground arith

module _ {D : Type 0} (from_json : List ℕ → D) where
  -- The round of the body leads back in front of the header.
  drain-goes_back :
      (whole : List ℕ) (n k : ℕ) (p q r : Parser D)
      → handle from_json p ≡ goes_back k q
      → back whole k q ≡ some r
      → drain from_json whole (suc n) p ≡ drain from_json whole n r
  unfolding drain
  drain-goes_back whole n k p q r e b = grind (arith, e, b)

  abbrev with_header : ℕ → List ℕ → Parser D → Parser D
  with_header type rest p = record p { reading_state = header; unread = minus_eight type ++ rest }

  -- After the header.
  abbrev at_body : ℕ → List ℕ → Parser D → Parser D
  at_body type rest p = read_header (with_header type rest p)

  header_round :
      (type : ℕ) (rest : List ℕ) (p : Parser D)
      → handle from_json (with_header type rest p) ≡ goes_on (at_body type rest p)
  unfolding to_big_endian
  header_round type rest p =
      handle-header from_json (with_header type rest p) refl
      ∙ handle_header-enough (with_header type rest p) (omega arith)

  body_round :
      (type : ℕ) (rest : List ℕ) (p : Parser D)
      → handle from_json (at_body type rest p)
        ≡ goes_back 8 (take_negative from_json (at_body type rest p))
  unfolding read_header handle handle_body to_big_endian from_big_endian to_int32
  body_round type rest p = refl

  -- The body is emitted, and the position stands in front of the header again.
  abbrev again : ℕ → List ℕ → Parser D → Parser D
  again type rest p = with_header type rest (take_negative from_json (at_body type rest p))

  back-again :
      (before : List ℕ) (type : ℕ) (rest : List ℕ) (p : Parser D)
      → back
          (before ++ (minus_eight type ++ rest))
          8
          (take_negative from_json (at_body type rest p))
        ≡ some (again type rest p)
  unfolding back read_header take_negative to_big_endian
  back-again before type rest p =
      let size = length-append before (minus_eight type ++ rest) in
      let position : length (before ++ (minus_eight type ++ rest)) - length rest
          ≡ length before + 8 =
        omega (arith, size) in
      let start : length before + 8 - 8 ≡ length before = omega arith in
      rw
        (position, far_enough (length before), start, drop-length before (minus_eight type ++ rest))
        refl

  loops :
      (fuel : ℕ) (before : List ℕ) (type : ℕ) (rest : List ℕ) (p : Parser D)
      → drain from_json (before ++ (minus_eight type ++ rest)) fuel (with_header type rest p)
        ≡ out_of_fuel
  unfolding drain
  loops zero before type rest p = refl
  loops (suc zero) before type rest p =
      drain-goes_on from_json (before ++ (minus_eight type ++ rest)) zero (with_header type rest p)
        (at_body type rest p) (header_round type rest p)
  loops (suc (suc n)) before type rest p =
      let whole = before ++ (minus_eight type ++ rest) in
      drain-goes_on from_json whole (suc n) (with_header type rest p) (at_body type rest p)
        (header_round type rest p)
      ∙ drain-goes_back whole n 8 (at_body type rest p)
          (take_negative from_json (at_body type rest p)) (again type rest p)
          (body_round type rest p) (back-again before type rest p)
      ∙ loops n before type rest (take_negative from_json (at_body type rest p))

  -- Where a header with a size of -8 is next to be read, with any type and anything in front of it and
  -- behind it in the buffer, the loop of handleNewData never ends: no number of rounds is enough.
  pub negative_size_loops :
      (fuel : ℕ) (before : List ℕ) (type : ℕ) (rest : List ℕ) (p : Parser D)
      → p.reading_state ≡ header
      → p.unread ≡ minus_eight type ++ rest
      → drain from_json (before ++ (minus_eight type ++ rest)) fuel p ≡ out_of_fuel
  negative_size_loops fuel before type rest p s u =
      let same : p ≡ with_header type rest p =
        ap₂ (λ state bytes. record p { reading_state = state; unread = bytes }) s u in
      ap (drain from_json (before ++ (minus_eight type ++ rest)) fuel) same
      ∙ loops fuel before type rest p
