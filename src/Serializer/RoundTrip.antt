-- ===== src/Serializer/RoundTrip.antt =====
-- What FastSerializer writes FastDeserializer reads back.
use griefly.Prelude.{ℕ, suc, ◌+◌, ◌*◌, ◌^◌, ◌≤◌, ◌<◌, ◌≡◌, refl, ap, ◌∙◌, arith, Bool, true, false}
use griefly.Prelude.{List, [], ◌∷◌, ◌++◌, length, length-append, All}
use griefly.Prelude.Int.{ℤ, pos, ◌*ℤ◌, int_laws}
use griefly.Serializer.{
  Reader, Outcome, done, ◌>>=◌, ◌>>◌, bool_type, int32_type, uint32_type, string_type,
  bytearray_type, type_type, int64_type, low_bytes, from_bytes, to_uint32, to_uint64, u32_mod,
  ensure_size, ensure_type, take_bytes, write_bool, write_int32, write_uint32, write_units,
  write_string, write_bytearray, write_int64, read_bool, read_int32, read_uint32, read_units,
  read_string, read_bytearray, read_int64,
}
use griefly.Serializer.Values.{
  Value, bool, int32, uint32, string, bytearray, type_name, int64, write, read_next,
}
use griefly.Serializer.Numbers.{
  length-low_bytes, from_bytes-low_bytes_2, from_bytes-low_bytes_4, from_bytes-low_bytes_8,
  to_uint32-lt, to_uint64-lt, IsInt32, IsInt64, to_int32-to_uint32, to_int64-to_uint64,
}
use mathlib.Core.List.{append_assoc}

abbrev pub at : List ℕ → ℕ → Reader
at rest i = record { rest = rest; index = i }

-- A stream of 2 GB or more would overflow the `int` sizes.
abbrev pub Fits : ℕ → List ℕ → Type 0
Fits i rest = i + length rest < 2 ^ 31

ensure_size_lem :
    (n i : ℕ) (rest : List ℕ)
    → Fits i rest
    → n ≤ length rest
    → ensure_size (pos n) (at rest i) ≡ done tt
unfolding ensure_size
ensure_size_lem n i rest f h = ground arith

take_bytes-append :
    (xs ys : List ℕ) (i j : ℕ)
    → j ≡ i + length xs
    → take_bytes (length xs) (at (xs ++ ys) i) ≡ done (xs, at ys j)
unfolding take_bytes
take_bytes-append [] ys i j e = ap (λ k. done ([], at ys k)) (omega arith)
take_bytes-append (x ∷ xs) ys i j e = rw (take_bytes-append xs ys (i + 1) j (omega arith))

-- As many bytes as a number says.
take_bytes-of :
    (n : ℕ) (xs ys : List ℕ) (i j : ℕ)
    → length xs ≡ n
    → j ≡ i + n
    → take_bytes n (at (xs ++ ys) i) ≡ done (xs, at ys j)
take_bytes-of n xs ys i j h e = rw (← h) (take_bytes-append xs ys i j (omega arith))

ensure_type_lem :
    (type i : ℕ) (rest : List ℕ)
    → Fits i (type ∷ rest)
    → ensure_type type (at (type ∷ rest) i) ≡ done (at rest (i + 1))
unfolding ensure_type take_bytes from_bytes
ensure_type_lem type i rest f =
    rw (ensure_size_lem 1 i (type ∷ rest) f (omega arith)) (ground arith)

-- `read` reads the value off the bytes, whatever follows them.
abbrev Reads {ℓ} : {A : Type ℓ} → (Reader → Outcome (A × Reader)) → List ℕ → A → Type ℓ
Reads read bytes a =
    (rest : List ℕ) (i j : ℕ)
    → Fits i (bytes ++ rest)
    → j ≡ i + length bytes
    → read (at (bytes ++ rest) i) ≡ done (a, at rest j)

-- A tag and n bytes.
tagged {ℓ} :
    {B : Type ℓ} (type n : ℕ) (xs rest : List ℕ) (i j : ℕ) (k : List ℕ × Reader → Outcome B)
    → length xs ≡ n
    → Fits i (type ∷ (xs ++ rest))
    → j ≡ i + suc n
    → (ensure_type type (at (type ∷ (xs ++ rest)) i) >>= λ r.
        ensure_size (pos n) r >> (take_bytes n r >>= k))
      ≡ k (xs, at rest j)
tagged type n xs rest i j k h f e =
    let size = length-append xs rest in
    rw (ensure_type_lem type i (xs ++ rest) f) (
      rw (ensure_size_lem n (i + 1) (xs ++ rest) (omega arith) (omega arith))
        (rw (take_bytes-of n xs rest (i + 1) j h (omega arith)) refl))

read_bool-Reads : (b : Bool) → Reads read_bool (write_bool b) b
unfolding read_bool write_bool from_bytes
read_bool-Reads true rest i j f e = tagged bool_type 1 (1 ∷ []) rest i j _ refl f e
read_bool-Reads false rest i j f e = tagged bool_type 1 (0 ∷ []) rest i j _ refl f e

read_int32-Reads : (n : ℤ) → IsInt32 n → Reads read_int32 (write_int32 n) n
unfolding read_int32 write_int32
read_int32-Reads n h rest i j f e =
    let width = length-low_bytes 4 (to_uint32 n) in
    tagged int32_type 4 (low_bytes 4 (to_uint32 n)) rest i j _ width f (omega arith)
    ∙ rw (from_bytes-low_bytes_4 (to_uint32 n) (to_uint32-lt n), to_int32-to_uint32 n h)

read_uint32-Reads : (n : ℕ) → n < u32_mod → Reads read_uint32 (write_uint32 n) n
unfolding read_uint32 write_uint32
read_uint32-Reads n h rest i j f e =
    let width = length-low_bytes 4 n in
    tagged uint32_type 4 (low_bytes 4 n) rest i j _ width f (omega arith)
    ∙ rw (from_bytes-low_bytes_4 n h)

-- On a machine with 64-bit pointers.
read_int64-Reads : (n : ℤ) → IsInt64 n → Reads (read_int64 8) (write_int64 n) n
unfolding read_int64 write_int64
read_int64-Reads n h rest i j f e =
    let width = length-low_bytes 8 (to_uint64 n) in
    tagged int64_type 8 (low_bytes 8 (to_uint64 n)) rest i j _ width f (omega arith)
    ∙ rw (from_bytes-low_bytes_8 (to_uint64 n) (to_uint64-lt n), to_int64-to_uint64 n h)

-- On a machine with 64-bit pointers FastDeserializer reads an int64 of the range of
-- its type back as it was written, at any index and whatever follows it, in a stream of less than 2 GB.
read_int64-write_int64 :
    (n : ℤ) (rest : List ℕ) (i : ℕ)
    → IsInt64 n
    → Fits i (write_int64 n ++ rest)
    → read_int64 8 (at (write_int64 n ++ rest) i) ≡ done (n, at rest (i + length (write_int64 n)))
read_int64-write_int64 n rest i h f = read_int64-Reads n h rest i _ f refl

abbrev pub IsUnit16 : ℕ → Type 0
IsUnit16 u = u < 2 ^ 16

length-write_units : (us : List ℕ) → length (write_units us) ≡ 2 * length us
unfolding write_units
length-write_units [] = refl
length-write_units (u ∷ us) = omega (
  arith,
  length-append (low_bytes 2 u) (write_units us),
  length-low_bytes 2 u,
  length-write_units us,
)

read_units-Reads :
    (us rest : List ℕ) (i j : ℕ)
    → All IsUnit16 us
    → j ≡ i + 2 * length us
    → read_units (length us) (at (write_units us ++ rest) i) ≡ done (us, at rest j)
unfolding read_units write_units
read_units-Reads [] rest i j h e = ap (λ k. done ([], at rest k)) (omega arith)
read_units-Reads (u ∷ us) rest i j h e = rw (append_assoc (low_bytes 2 u) (write_units us) rest) (
    rw
      (take_bytes-of 2 (low_bytes 2 u) (write_units us ++ rest) i (i + 2) (length-low_bytes 2 u)
        refl)
      (rw (read_units-Reads us rest (i + 2) j h.1 (omega arith))
        (rw (from_bytes-low_bytes_2 u h.0))))

length-write_int32 : (n : ℤ) → length (write_int32 n) ≡ 5
unfolding write_int32
length-write_int32 n = ap suc (length-low_bytes 4 (to_uint32 n))

-- A tag and a size.
sized {ℓ} :
    {B : Type ℓ} (type n : ℕ) (body rest : List ℕ) (i : ℕ) (k : ℤ × Reader → Outcome B)
    → n < 2 ^ 31
    → Fits i (type ∷ ((write_int32 (pos n) ++ body) ++ rest))
    → (ensure_type type (at (type ∷ ((write_int32 (pos n) ++ body) ++ rest)) i) >>= λ r.
        read_int32 r >>= k)
      ≡ k (pos n, at (body ++ rest) (i + 6))
sized type n body rest i k h f =
    let five = length-write_int32 (pos n) in
    let whole = append_assoc (write_int32 (pos n)) body rest in
    let whole_length = ap length whole in
    rw (ensure_type_lem type i _ f) (
      rw whole (
        rw (
          read_int32-Reads (pos n) (omega arith) (body ++ rest) (i + 1) (i + 6) (omega arith)
            (omega arith))))

double : (n : ℕ) → pos n *ℤ pos 2 ≡ pos (2 * n)
double n = omega int_laws

read_string-Reads :
    (type : ℕ) (us : List ℕ) → All IsUnit16 us → Reads (read_string type) (write_string type us) us
unfolding read_string write_string
read_string-Reads type us h rest i j f e =
    let n = length us in
    let five = length-write_int32 (pos n) in
    let units = length-write_units us in
    let l1 = length-append (write_int32 (pos n) ++ write_units us) rest in
    let l2 = length-append (write_int32 (pos n)) (write_units us) in
    let l3 = length-append (write_units us) rest in
    sized type n (write_units us) rest i _ (omega arith) f
    ∙ rw (double n) (
        rw (ensure_size_lem (2 * n) (i + 6) (write_units us ++ rest) (omega arith) (omega arith))
          (read_units-Reads us rest (i + 6) j h (omega arith)))

read_bytearray-Reads : (bs : List ℕ) → Reads read_bytearray (write_bytearray bs) bs
unfolding read_bytearray write_bytearray
read_bytearray-Reads bs rest i j f e =
    let n = length bs in
    let five = length-write_int32 (pos n) in
    let l1 = length-append (write_int32 (pos n) ++ bs) rest in
    let l2 = length-append (write_int32 (pos n)) bs in
    let l3 = length-append bs rest in
    sized bytearray_type n bs rest i _ (omega arith) f
    ∙ rw (ensure_size_lem n (i + 6) (bs ++ rest) (omega arith) (omega arith))
        (take_bytes-append bs rest (i + 6) j (omega arith))

-- The values that the format can hold and that Humanize knows: every type but INT64_TYPE.
abbrev pub IsShown : Value → Type 0
IsShown (bool b) = Unit
IsShown (int32 n) = IsInt32 n
IsShown (uint32 n) = n < u32_mod
IsShown (string s) = All IsUnit16 s
IsShown (bytearray b) = Unit
IsShown (type_name s) = All IsUnit16 s
IsShown (int64 n) = ⊥

-- The tag that a value is written under.
abbrev pub tag : Value → ℕ
tag (bool b) = bool_type
tag (int32 n) = int32_type
tag (uint32 n) = uint32_type
tag (string s) = string_type
tag (bytearray b) = bytearray_type
tag (type_name s) = type_type
tag (int64 n) = int64_type

-- Each type of value is read back as it was written, whatever follows it in the stream.
pub read_next-Reads : (v : Value) → IsShown v → Reads (read_next (tag v)) (write v) v
unfolding read_next write
read_next-Reads (bool b) h rest i j f e = rw (read_bool-Reads b rest i j f e)
read_next-Reads (int32 n) h rest i j f e = rw (read_int32-Reads n h rest i j f e)
read_next-Reads (uint32 n) h rest i j f e = rw (read_uint32-Reads n h rest i j f e)
read_next-Reads (string s) h rest i j f e = rw (read_string-Reads string_type s h rest i j f e)
read_next-Reads (bytearray b) h rest i j f e = rw (read_bytearray-Reads b rest i j f e)
read_next-Reads (type_name s) h rest i j f e = rw (read_string-Reads type_type s h rest i j f e)
read_next-Reads (int64 n) h rest i j f e = absurd h
