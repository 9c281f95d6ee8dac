-- ===== src/Serializer/Numbers.antt =====
-- The bytes of a number are the number.
use griefly.Prelude.{ℕ, zero, suc, ◌/◌, ◌^◌, ◌<◌, ◌≡◌, refl, length, ap, arith}
use griefly.Prelude.Int.{ℤ, pos, negsuc, ◌≤ℤ◌}
use griefly.Serializer.{
  low_bytes, from_bytes, to_uint32, to_int32, to_uint64, to_int64, u32_mod, u64_mod,
}

pub length-low_bytes : (n value : ℕ) → length (low_bytes n value) ≡ n
unfolding low_bytes
length-low_bytes zero value = refl
length-low_bytes (suc n) value = ap suc (length-low_bytes n (value / 256))

pub from_bytes-low_bytes_2 : (value : ℕ) → value < 2 ^ 16 → from_bytes (low_bytes 2 value) ≡ value
unfolding from_bytes low_bytes
from_bytes-low_bytes_2 value h = omega arith

pub from_bytes-low_bytes_4 : (value : ℕ) → value < u32_mod → from_bytes (low_bytes 4 value) ≡ value
unfolding from_bytes low_bytes
from_bytes-low_bytes_4 value h = omega arith

pub from_bytes-low_bytes_8 : (value : ℕ) → value < u64_mod → from_bytes (low_bytes 8 value) ≡ value
unfolding from_bytes low_bytes
from_bytes-low_bytes_8 value h = omega arith

pub to_uint32-lt : (n : ℤ) → to_uint32 n < u32_mod
unfolding to_uint32
to_uint32-lt (pos n) = omega arith
to_uint32-lt (negsuc n) = omega arith

pub to_uint64-lt : (n : ℤ) → to_uint64 n < u64_mod
unfolding to_uint64
to_uint64-lt (pos n) = omega arith
to_uint64-lt (negsuc n) = omega arith

-- The range of a qint32, and of a qint64.
abbrev pub IsInt32 : ℤ → Type 0
IsInt32 n = (negsuc 0x7fff_ffff ≤ℤ n) × (n ≤ℤ pos 0x7fff_ffff)

abbrev pub IsInt64 : ℤ → Type 0
IsInt64 n = (negsuc 0x7fff_ffff_ffff_ffff ≤ℤ n) × (n ≤ℤ pos 0x7fff_ffff_ffff_ffff)

pub to_int32-to_uint32 : (n : ℤ) → IsInt32 n → to_int32 (to_uint32 n) ≡ n
unfolding to_int32 to_uint32
to_int32-to_uint32 (pos n) h = ground arith
to_int32-to_uint32 (negsuc n) h = ground arith

pub to_int64-to_uint64 : (n : ℤ) → IsInt64 n → to_int64 (to_uint64 n) ≡ n
unfolding to_int64 to_uint64
to_int64-to_uint64 (pos n) h = ground arith
to_int64-to_uint64 (negsuc n) h = ground arith
