-- ===== src/Serializer.antt =====
-- sources/core/FastSerializer.h. What is written is a list of bytes; the reader keeps the bytes not
-- yet read and its index, so that `size_` is the index and the number of those bytes. kv::Abort is
-- an error. A text is the list of its 16-bit code units.
pub mod Values
pub mod Numbers
pub mod RoundTrip
pub mod Stream
use griefly.Prelude.{
  ℕ, zero, suc, ◌+◌, ◌-◌, ◌*◌, ◌/◌, ◌%◌, ◌^◌, Bool, true, false, not, ltb, leb, ◌==◌, ◌&&◌,
}
use griefly.Prelude.{if◌then◌else◌, Option, some, none, List, [], ◌∷◌, ◌++◌, length}
use griefly.Prelude.Int.{ℤ, pos, negsuc, ◌*ℤ◌}

abbrev pub u32_mod : ℕ
u32_mod = 0x1_0000_0000

-- static_cast<quint32>(value), and the bit pattern of a qint32
unfoldable pub to_uint32 : ℤ → ℕ
to_uint32 (pos n) = n % u32_mod
to_uint32 (negsuc n) = 0xffff_ffff - n % u32_mod

unfoldable pub to_int32 : ℕ → ℤ
to_int32 w = if ltb w 0x8000_0000 then pos w else negsuc (0xffff_ffff - w)

abbrev pub u64_mod : ℕ
u64_mod = 0x1_0000_0000_0000_0000

unfoldable pub to_uint64 : ℤ → ℕ
to_uint64 (pos n) = n % u64_mod
to_uint64 (negsuc n) = 0xffff_ffff_ffff_ffff - n % u64_mod

unfoldable pub to_int64 : ℕ → ℤ
to_int64 w = if ltb w 0x8000_0000_0000_0000 then pos w else negsuc (0xffff_ffff_ffff_ffff - w)

abbrev pub bool_type : ℕ
bool_type = 1

abbrev pub int32_type : ℕ
int32_type = 2

abbrev pub uint32_type : ℕ
uint32_type = 3

abbrev pub string_type : ℕ
string_type = 4

abbrev pub bytearray_type : ℕ
bytearray_type = 5

abbrev pub type_type : ℕ
type_type = 6

abbrev pub int64_type : ℕ
int64_type = 7

-- The bytes (value >> 0) & 0xFF, (value >> 8) & 0xFF, ... of a value, as many as asked for.
unfoldable pub low_bytes : ℕ → ℕ → List ℕ
low_bytes zero value = []
low_bytes (suc n) value = (value % 256) ∷ low_bytes n (value / 256)

-- The bytes put together again, each shifted to its place.
unfoldable pub from_bytes : List ℕ → ℕ
from_bytes [] = 0
from_bytes (b ∷ bytes) = b + 256 * from_bytes bytes

-- FastSerializer::Write, by the type of the value.
unfoldable pub write_bool : Bool → List ℕ
write_bool value = bool_type ∷ (if value then 1 else 0) ∷ []

unfoldable pub write_int32 : ℤ → List ℕ
write_int32 value = int32_type ∷ low_bytes 4 (to_uint32 value)

unfoldable pub write_uint32 : ℕ → List ℕ
write_uint32 value = uint32_type ∷ low_bytes 4 value

unfoldable pub write_units : List ℕ → List ℕ
write_units [] = []
write_units (u ∷ units) = low_bytes 2 u ++ write_units units

-- Of a QString, under STRING_TYPE or TYPE_TYPE.
unfoldable pub write_string : ℕ → List ℕ → List ℕ
write_string type value = type ∷ write_int32 (pos (length value)) ++ write_units value

unfoldable pub write_bytearray : List ℕ → List ℕ
write_bytearray value = bytearray_type ∷ write_int32 (pos (length value)) ++ value

unfoldable pub write_int64 : ℤ → List ℕ
write_int64 value = int64_type ∷ low_bytes 8 (to_uint64 value)

pub data Error : Type 0 where
  ensure_size_fail : Error
  types_mismatch : ℕ → ℕ → Error
  unknown_type : ℕ → Error
  -- A negative size goes to QByteArray::resize or QString::resize, and `index_` moves back.
  negative_size : Error
  -- The end of the bytes, where the code has already ensured that there are more.
  overrun : Error
  -- The reading loop has used up its rounds.
  out_of_fuel : Error

-- A call comes back with a value, or kv::Abort is reached in it.
pub data Outcome {ℓ} (X : Type ℓ) : Type ℓ where
  aborted : Error → Outcome X
  done : X → Outcome X

infixl 5 ◌>>=◌ ◌>>◌
abbrev pub ◌>>=◌ {ℓ κ} : {X : Type ℓ} {Y : Type κ} → Outcome X → (X → Outcome Y) → Outcome Y
call >>= next = elim call [ aborted why ↦ aborted why | done x ↦ next x ]

-- A test that aborts, before what follows it.
abbrev pub ◌>>◌ {κ} : {Y : Type κ} → Outcome (Unit {0}) → Outcome Y → Outcome Y
test >> following = test >>= λ passed. following

pub record Reader : Type 0 where
  pub rest : List ℕ
  pub index : ℕ

abbrev pub size_of : Reader → ℕ
size_of r = r.index + length r.rest

abbrev pub is_end : Reader → Bool
is_end r = leb (size_of r) r.index

-- EnsureSize: `size + index_` is computed in 32 unsigned bits.
unfoldable pub ensure_size : ℤ → Reader → Outcome (Unit {0})
unfolding to_uint32
ensure_size size r =
    if ltb (size_of r) ((to_uint32 size + r.index) % u32_mod)
    then aborted ensure_size_fail
    else done tt

-- Reading n bytes from `data_ + index_` on.
unfoldable pub take_bytes : ℕ → Reader → Outcome (List ℕ × Reader)
take_bytes zero r = done ([], r)
take_bytes (suc n) r = elim r.rest [
  | [] ↦ aborted overrun
  | b ∷ rest ↦ do
    (bytes, r') ← take_bytes n (record { rest = rest; index = r.index + 1 })
    done (b ∷ bytes, r')
]

-- EnsureType
unfoldable pub ensure_type : ℕ → Reader → Outcome Reader
ensure_type type r = do
  ensure_size (pos 1) r
  (bytes, r') ← take_bytes 1 r
  if from_bytes bytes == type then done r' else aborted (types_mismatch type (from_bytes bytes))

-- FastDeserializer::Read, by the type of the value. A bool is any byte but 0.
unfoldable pub read_bool : Reader → Outcome (Bool × Reader)
read_bool r = do
  r1 ← ensure_type bool_type r
  ensure_size (pos 1) r1
  (bytes, r2) ← take_bytes 1 r1
  done (not (from_bytes bytes == 0), r2)

unfoldable pub read_int32 : Reader → Outcome (ℤ × Reader)
read_int32 r = do
  r1 ← ensure_type int32_type r
  ensure_size (pos 4) r1
  (bytes, r2) ← take_bytes 4 r1
  done (to_int32 (from_bytes bytes), r2)

unfoldable pub read_uint32 : Reader → Outcome (ℕ × Reader)
read_uint32 r = do
  r1 ← ensure_type uint32_type r
  ensure_size (pos 4) r1
  (bytes, r2) ← take_bytes 4 r1
  done (from_bytes bytes, r2)

unfoldable pub read_units : ℕ → Reader → Outcome (List ℕ × Reader)
read_units zero r = done ([], r)
read_units (suc n) r = do
  (bytes, r1) ← take_bytes 2 r
  (units, r2) ← read_units n r1
  done (from_bytes bytes ∷ units, r2)

-- The loops of `Read` over `size` entries.
abbrev read_times {ℓ} : {A : Type ℓ} → ℤ → (ℕ → Reader → Outcome A) → Reader → Outcome A
read_times (pos n) loop r = loop n r
read_times (negsuc n) loop r = aborted negative_size

unfoldable pub read_string : ℕ → Reader → Outcome (List ℕ × Reader)
read_string type r = do
  r1 ← ensure_type type r
  (size, r2) ← read_int32 r1
  ensure_size (size *ℤ pos 2) r2
  read_times size read_units r2

unfoldable pub read_bytearray : Reader → Outcome (List ℕ × Reader)
read_bytearray r = do
  r1 ← ensure_type bytearray_type r
  (size, r2) ← read_int32 r1
  ensure_size size r2
  read_times size take_bytes r2

-- `TYPE_SIZE` is the size of the pointer `value`, not of what it points to: 8 on a 64-bit machine.
unfoldable pub read_int64 : ℕ → Reader → Outcome (ℤ × Reader)
read_int64 pointer_size r = do
  r1 ← ensure_type int64_type r
  ensure_size (pos pointer_size) r1
  (bytes, r2) ← take_bytes pointer_size r1
  done (to_int64 (from_bytes bytes), r2)

-- GetNextType, which aborts at the end
unfoldable pub get_next_type : Reader → Outcome ℕ
get_next_type r = elim r.rest [ [] ↦ aborted ensure_size_fail | b ∷ rest ↦ done b ]
