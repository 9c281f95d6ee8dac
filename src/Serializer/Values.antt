-- ===== src/Serializer/Values.antt =====
-- Streams of values, and Humanize of sources/core/FastSerializer.h, which reads such a stream.
use griefly.Prelude.{ℕ, zero, suc, Bool, false, ◌==◌, ◌&&◌, if◌then◌else◌, List, [], ◌∷◌, ◌++◌}
use griefly.Prelude.Int.{ℤ, pos}
use griefly.Serializer.{
  Reader, Outcome, done, aborted, ◌>>=◌, out_of_fuel, unknown_type, is_end, get_next_type,
  write_bool, write_int32, write_uint32, write_string, write_bytearray, write_int64, read_bool,
  read_int32, read_uint32, read_string, read_bytearray, bool_type, int32_type, uint32_type,
  string_type, bytearray_type, type_type,
}

-- What a stream is made of.
pub data Value : Type 0 where
  bool : Bool → Value
  int32 : ℤ → Value
  uint32 : ℕ → Value
  string : List ℕ → Value
  bytearray : List ℕ → Value
  type_name : List ℕ → Value
  int64 : ℤ → Value

unfoldable pub write : Value → List ℕ
write (bool b) = write_bool b
write (int32 n) = write_int32 n
write (uint32 n) = write_uint32 n
write (string s) = write_string string_type s
write (bytearray b) = write_bytearray b
write (type_name s) = write_string type_type s
write (int64 n) = write_int64 n

unfoldable pub write_all : List Value → List ℕ
write_all [] = []
write_all (v ∷ vs) = write v ++ write_all vs

abbrev with_reader {ℓ} :
    {A : Type ℓ} → (A → Value) → Outcome (A × Reader) → Outcome (Value × Reader)
with_reader f m = m >>= λ (a, r). done (f a, r)

-- Humanize picks what to read by the next type; it knows all types but INT64_TYPE.
unfoldable pub read_next : ℕ → Reader → Outcome (Value × Reader)
read_next type r =
    if type == bool_type
    then with_reader bool (read_bool r)
    else if type == int32_type
    then with_reader int32 (read_int32 r)
    else if type == uint32_type
    then with_reader uint32 (read_uint32 r)
    else if type == string_type
    then with_reader string (read_string string_type r)
    else if type == bytearray_type
    then with_reader bytearray (read_bytearray r)
    else if type == type_type
    then with_reader type_name (read_string type_type r)
    else aborted (unknown_type type)

-- The test for END_TYPE, the text "0~$".
unfoldable pub is_end_type : Value → Bool
is_end_type (type_name (a ∷ b ∷ c ∷ [])) = (a == b'0') && (b == b'~') && (c == b'$')
is_end_type v = false

-- QString::replace of a character by a text.
unfoldable pub replace : ℕ → List ℕ → List ℕ → List ℕ
replace before after [] = []
replace before after (u ∷ text) =
    (if u == before then after else u ∷ []) ++ replace before after text

-- The escapes of a string: '$' with a backslash, and then ' ' as '$'.
unfoldable pub escape : List ℕ → List ℕ
unfolding replace
escape text = replace b' ' (b'$' ∷ []) (replace b'$' (0x5c ∷ b'$' ∷ []) text)

-- How QTextStream prints a number, and QByteArray::toHex, are Qt's.
module _ (number : ℤ → List ℕ) (to_hex : List ℕ → List ℕ) where
  -- What Humanize puts into its text for a value; a Boolean is printed as a number.
  unfoldable pub printed : Value → List ℕ
  unfolding escape
  printed (bool b) = number (if b then pos 1 else pos 0)
  printed (int32 n) = number n
  printed (uint32 n) = number (pos n)
  printed (string s) = escape s
  printed (bytearray b) = to_hex b
  printed (type_name s) = 0x0d ∷ 0x0a ∷ s
  printed (int64 n) = []

  -- Humanize
  unfoldable pub humanize : ℕ → Reader → Outcome (List ℕ)
  unfolding printed
  humanize zero r = aborted out_of_fuel
  humanize (suc fuel) r = if is_end r then done [] else (do
    type ← get_next_type r
    (v, r') ← read_next type r
    let more = humanize fuel r'
    if is_end_type v then done [] else (more >>= λ text. done (printed v ++ b' ' ∷ text)))
