-- ===== src/Serializer/Stream.antt =====
-- Whole streams: FastDeserializer::Humanize and the sizes that FastDeserializer accepts.
use griefly.Prelude.{ℕ, zero, suc, ◌+◌, ◌^◌, ◌≤◌, ◌<◌, ◌↔◌, ◌≡◌, refl, ap, arith, true, false}
use griefly.Prelude.{
  List, [], ◌∷◌, ◌++◌, length, length-append, append_empty, All, Bool-cases, inl, inr, ◌==◌,
  if◌then◌else◌,
}
use griefly.Prelude.Int.{ℤ, pos, negsuc}
use griefly.Serializer.{
  Reader, done, aborted, unknown_type, ◌>>=◌, is_end, get_next_type, ensure_size, size_of,
  write_bool, write_int32, write_uint32, write_string, write_bytearray, write_int64, to_uint32,
  int64_type,
}
use griefly.Serializer.Values.{
  Value, bool, int32, uint32, string, bytearray, type_name, int64, write, write_all, read_next,
  is_end_type, replace, escape, printed, humanize,
}
use griefly.Serializer.RoundTrip.{at, Fits, IsShown, tag, read_next-Reads}
use mathlib.Core.List.{append_assoc}

-- A value's bytes start with its tag.
write-head : (v : Value) → (bytes : List ℕ) × (write v ≡ tag v ∷ bytes)
unfolding write write_bool write_int32 write_uint32 write_string write_bytearray write_int64
write-head (bool b) = (_, refl)
write-head (int32 n) = (_, refl)
write-head (uint32 n) = (_, refl)
write-head (string s) = (_, refl)
write-head (bytearray b) = (_, refl)
write-head (type_name s) = (_, refl)
write-head (int64 n) = (_, refl)

is_end-cons : (b i : ℕ) (bytes : List ℕ) → is_end (at (b ∷ bytes) i) ≡ false
is_end-cons b i bytes = ground arith

is_end-empty : (i : ℕ) → is_end (at [] i) ≡ true
is_end-empty i = ground arith

get_next_type-write :
    (v : Value) (rest : List ℕ) (i : ℕ) → get_next_type (at (write v ++ rest) i) ≡ done (tag v)
unfolding get_next_type
get_next_type-write v rest i = rw (write-head v).1 refl

is_end-write : (v : Value) (rest : List ℕ) (i : ℕ) → is_end (at (write v ++ rest) i) ≡ false
is_end-write v rest i = rw (write-head v).1 (is_end-cons (tag v) i _)

abbrev GoesOn : Value → Type 0
GoesOn v = is_end_type v ≡ false

abbrev end_value : Value
end_value = type_name (b'0' ∷ b'~' ∷ b'$' ∷ [])

-- A character of a string in the text of Humanize.
abbrev shown_unit : ℕ → List ℕ
shown_unit u = if u == b'$' then 0x5c ∷ b'$' ∷ [] else if u == b' ' then b'$' ∷ [] else u ∷ []

abbrev shown : List ℕ → List ℕ
shown [] = []
shown (u ∷ text) = shown_unit u ++ shown text

-- The two replacements come to one for each character: the '$' that the second makes and those that the
-- first escapes do not meet.
escape-shown : (text : List ℕ) → escape text ≡ shown text
unfolding escape replace
escape-shown [] = refl
escape-shown (u ∷ text) = elim (Bool-cases (u == b'$')) [
  | inl dollar ↦ rw dollar (ap (λ t. 0x5c ∷ b'$' ∷ t) (escape-shown text))
  | inr other ↦
      rw other (ap (λ t. (if u == b' ' then b'$' ∷ [] else u ∷ []) ++ t) (escape-shown text))
]

module _ (number : ℤ → List ℕ) (to_hex : List ℕ → List ℕ) where
  -- The text of some values: each with a space behind it.
  abbrev text_of : List Value → List ℕ
  text_of [] = []
  text_of (v ∷ vs) = printed number to_hex v ++ b' ' ∷ text_of vs

  -- One round of the loop.
  humanize_next :
      (fuel i : ℕ) (v : Value) (rest : List ℕ)
      → IsShown v
      → Fits i (write v ++ rest)
      → humanize number to_hex (suc fuel) (at (write v ++ rest) i) ≡ (
          if is_end_type v
          then done []
          else (humanize number to_hex fuel (at rest (i + length (write v))) >>= λ text.
              done (printed number to_hex v ++ b' ' ∷ text)))
  unfolding humanize
  humanize_next fuel i v rest h f =
      rw (is_end-write v rest i)
        (rw (get_next_type-write v rest i) (rw (read_next-Reads v h rest i _ f refl) refl))

  -- Whatever follows an END entry is not looked at.
  humanize_through :
      (fuel i : ℕ) (vs : List Value) (stop : List ℕ)
      → ((k j : ℕ) → Fits j stop → humanize number to_hex (suc k) (at stop j) ≡ done [])
      → All IsShown vs
      → All GoesOn vs
      → Fits i (write_all vs ++ stop)
      → length vs < fuel
      → humanize number to_hex fuel (at (write_all vs ++ stop) i) ≡ done (text_of vs)
  unfolding write_all
  humanize_through zero i vs stop last hs gs f enough = absurd (omega arith)
  humanize_through (suc fuel) i [] stop last hs gs f enough = last fuel i f
  humanize_through (suc fuel) i (v ∷ vs) stop last hs gs f enough =
      let whole = append_assoc (write v) (write_all vs) stop in
      let l1 = length-append (write v) (write_all vs ++ stop) in
      let l0 = ap length whole in
      rw whole (
        rw (humanize_next fuel i v (write_all vs ++ stop) hs.0 (omega arith)) (
          rw gs.0 (
            rw (
              humanize_through fuel (i + length (write v)) vs stop last hs.1 gs.1 (omega arith)
                (omega arith)))))

  at_end : (k j : ℕ) → Fits j [] → humanize number to_hex (suc k) (at [] j) ≡ done []
  unfolding humanize
  at_end k j f = rw (is_end-empty j) refl

  stops :
      (rest : List ℕ) (k j : ℕ)
      → Fits j (write end_value ++ rest)
      → humanize number to_hex (suc k) (at (write end_value ++ rest) j) ≡ done []
  unfolding is_end_type
  stops rest k j f =
      humanize_next k j end_value rest (omega arith, (omega arith, (omega arith, tt))) f

  -- Humanize prints all the values of a written stream in their order, each with a space behind it, when it has a
  -- round for each of them and one more, they are in the range of their types, no value is an int64
  -- or an END entry, and the stream ends before 2 GB.
  humanize-write_all :
      (fuel i : ℕ) (vs : List Value)
      → All IsShown vs
      → All GoesOn vs
      → Fits i (write_all vs)
      → length vs < fuel
      → humanize number to_hex fuel (at (write_all vs) i) ≡ done (text_of vs)
  humanize-write_all fuel i vs hs gs f enough =
      let whole = append_empty (write_all vs) in
      rw (← whole) (humanize_through fuel i vs [] at_end hs gs (rw whole f) enough)

  -- Humanize stops at the END entry, under the same conditions on the values before
  -- it: it prints them, and looks at nothing that follows the entry.
  humanize_ends :
      (fuel i : ℕ) (vs : List Value) (rest : List ℕ)
      → All IsShown vs
      → All GoesOn vs
      → Fits i (write_all vs ++ (write end_value ++ rest))
      → length vs < fuel
      → humanize number to_hex fuel (at (write_all vs ++ (write end_value ++ rest)) i)
        ≡ done (text_of vs)
  humanize_ends fuel i vs rest hs gs f enough =
      humanize_through fuel i vs (write end_value ++ rest) (stops rest) hs gs f enough

  -- Humanize refuses every stream that starts with an int64, which FastSerializer
  -- writes and FastDeserializer::Read reads.
  humanize-int64 :
      (fuel i : ℕ) (n : ℤ) (rest : List ℕ)
      → humanize number to_hex (suc fuel) (at (write (int64 n) ++ rest) i)
        ≡ aborted (unknown_type int64_type)
  unfolding humanize read_next
  humanize-int64 fuel i n rest =
      rw (is_end-write (int64 n) rest i) (rw (get_next_type-write (int64 n) rest i) refl)

-- EnsureSize accepts exactly the sizes that leave the reader within the buffer, when the buffer has
-- less than 2 GB and the size is one of an `int`: a size of 0 or more that the bytes not yet read have,
-- and, the sum being taken in 32 unsigned bits, a negative size no larger than the index.
pub ensure_size_exact :
    (n : ℕ) (r : Reader)
    → size_of r < 2 ^ 31
    → n < 2 ^ 31
    → ((ensure_size (pos n) r ≡ done tt) ↔ (n ≤ length r.rest))
      × ((ensure_size (negsuc n) r ≡ done tt) ↔ (suc n ≤ r.index))
unfolding ensure_size to_uint32
ensure_size_exact n r h k =
    ((λ e. grind arith, λ e. grind arith), (λ e. grind arith, λ e. grind arith))
