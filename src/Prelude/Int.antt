-- ===== src/Prelude/Int.antt =====
-- Signed integers over the native numbers, under the library's names. A C++ `int` whose arithmetic
-- does not overflow is one of these. Proofs go through the two parts of an integer.
use Prim.Native.Nat.{ℕ, suc, ◌+◌, ◌-◌, ◌*◌, ◌/◌, ◌%◌, ◌≤◌, ◌<◌}
use mathlib.Core.Path.{◌≡◌, refl, ap}
use mathlib.Core.Logic.{◌⊎◌, inl, inr}
use mathlib.Core.Bool.{Bool, ◌&&◌}
use native.Mathlib.Omega.{arith}
use griefly.Prelude.Tests.{ltb, leb, ◌==◌, if◌then◌else◌}

-- `negsuc n` is -(n + 1).
pub data ℤ : Type 0 where
  pos : ℕ → ℤ
  negsuc : ℕ → ℤ

abbrev pub pos_part : ℤ → ℕ
pos_part (pos n) = n
pos_part (negsuc n) = 0

abbrev pub neg_part : ℤ → ℕ
neg_part (pos n) = 0
neg_part (negsuc n) = suc n

-- a - b, as an integer.
abbrev pub sub_ℕ : ℕ → ℕ → ℤ
sub_ℕ a b = if leb b a then pos (a - b) else negsuc (b - a - 1)

infixl 65 ◌+ℤ◌ ◌-ℤ◌
infixl 70 ◌*ℤ◌ ◌/ℤ◌ ◌%ℤ◌
infix 50 ◌≤ℤ◌ ◌<ℤ◌ ◌==ℤ◌
unfoldable pub ◌+ℤ◌ : ℤ → ℤ → ℤ
a +ℤ b = sub_ℕ (pos_part a + pos_part b) (neg_part a + neg_part b)

unfoldable pub ◌-ℤ◌ : ℤ → ℤ → ℤ
a -ℤ b = sub_ℕ (pos_part a + neg_part b) (neg_part a + pos_part b)

unfoldable pub ◌*ℤ◌ : ℤ → ℤ → ℤ
a *ℤ b =
    sub_ℕ (pos_part a * pos_part b + neg_part a * neg_part b)
      (pos_part a * neg_part b + neg_part a * pos_part b)

-- std::abs
abbrev pub abs : ℤ → ℕ
abs a = pos_part a + neg_part a

-- The quotient and the remainder of C++ are rounded towards zero. (A division by 0 is undefined
-- there, and the program tests for it.)
unfoldable pub ◌/ℤ◌ : ℤ → ℤ → ℤ
pos n /ℤ pos d = pos (n / d)
pos n /ℤ negsuc d = sub_ℕ 0 (n / suc d)
negsuc n /ℤ pos d = sub_ℕ 0 (suc n / d)
negsuc n /ℤ negsuc d = pos (suc n / suc d)

unfoldable pub ◌%ℤ◌ : ℤ → ℤ → ℤ
pos n %ℤ d = pos (n % abs d)
negsuc n %ℤ d = sub_ℕ 0 (suc n % abs d)

-- static_cast<qint16>: the low 16 bits, read in two's complement.
abbrev signed16 : ℕ → ℤ
signed16 w = if ltb w 0x8000 then pos w else negsuc (0xffff - w)

unfoldable pub to_int16 : ℤ → ℤ
to_int16 (pos n) = signed16 (n % 0x10000)
to_int16 (negsuc n) = signed16 (0xffff - n % 0x10000)

abbrev pub ◌≤ℤ◌ : ℤ → ℤ → Type 0
a ≤ℤ b = pos_part a + neg_part b ≤ pos_part b + neg_part a

abbrev pub ◌<ℤ◌ : ℤ → ℤ → Type 0
a <ℤ b = pos_part a + neg_part b < pos_part b + neg_part a

abbrev pub ltb_ℤ : ℤ → ℤ → Bool
ltb_ℤ a b = ltb (pos_part a + neg_part b) (pos_part b + neg_part a)

abbrev pub leb_ℤ : ℤ → ℤ → Bool
leb_ℤ a b = leb (pos_part a + neg_part b) (pos_part b + neg_part a)

abbrev pub ◌==ℤ◌ : ℤ → ℤ → Bool
a ==ℤ b = (pos_part a == pos_part b) && (neg_part a == neg_part b)

abbrev pub min_ℤ : ℤ → ℤ → ℤ
min_ℤ a b = if ltb_ℤ b a then b else a

abbrev pub max_ℤ : ℤ → ℤ → ℤ
max_ℤ a b = if ltb_ℤ a b then b else a

-- One lemma for each operation lets `omega` work with the operations shut, at any depth.
pub +ℤ_parts :
    (a b : ℤ)
    → pos_part (a +ℤ b) + neg_part a + neg_part b ≡ neg_part (a +ℤ b) + pos_part a + pos_part b
unfolding ◌+ℤ◌
+ℤ_parts a b = ground arith

pub -ℤ_parts :
    (a b : ℤ)
    → pos_part (a -ℤ b) + neg_part a + pos_part b ≡ neg_part (a -ℤ b) + pos_part a + neg_part b
unfolding ◌-ℤ◌
-ℤ_parts a b = ground arith

sub_ℕ_parts : (a b : ℕ) → pos_part (sub_ℕ a b) + b ≡ neg_part (sub_ℕ a b) + a
sub_ℕ_parts a b = ground arith

pub *ℤ_parts :
    (a b : ℤ)
    → pos_part (a *ℤ b) + (pos_part a * neg_part b + neg_part a * pos_part b)
      ≡ neg_part (a *ℤ b) + (pos_part a * pos_part b + neg_part a * neg_part b)
unfolding ◌*ℤ◌
*ℤ_parts a b = sub_ℕ_parts _ _

pub eq_of_parts : (a b : ℤ) → pos_part a + neg_part b ≡ pos_part b + neg_part a → a ≡ b
eq_of_parts a b h = ground arith

-- An equation of integers, as `omega` reads it.
pub parts_of : {a b : ℤ} → a ≡ b → (pos_part a ≡ pos_part b) × (neg_part a ≡ neg_part b)
parts_of e = (ap pos_part e, ap neg_part e)

-- Of the two parts one is 0.
pub parts_apart : (a : ℤ) → (pos_part a ≡ 0) ⊎ (neg_part a ≡ 0)
parts_apart (pos n) = inr refl
parts_apart (negsuc n) = inl refl

pub pos_part-*ℤ_pos : (a : ℤ) (n : ℕ) → pos_part (a *ℤ pos n) ≡ pos_part a * n
unfolding ◌*ℤ◌
pos_part-*ℤ_pos (pos k) n = ground arith
pos_part-*ℤ_pos (negsuc k) n = ground arith

pub neg_part-*ℤ_pos : (a : ℤ) (n : ℕ) → neg_part (a *ℤ pos n) ≡ neg_part a * n
unfolding ◌*ℤ◌
neg_part-*ℤ_pos (pos k) n = ground arith
neg_part-*ℤ_pos (negsuc k) n = ground arith

pub pos_part-/ℤ : (a : ℤ) (d : ℕ) → pos_part (a /ℤ pos d) ≡ pos_part a / d
unfolding ◌/ℤ◌
pos_part-/ℤ (pos n) d = refl
pos_part-/ℤ (negsuc n) d = ground arith

pub neg_part-/ℤ : (a : ℤ) (d : ℕ) → neg_part (a /ℤ pos d) ≡ neg_part a / d
unfolding ◌/ℤ◌
neg_part-/ℤ (pos n) d = ground arith
neg_part-/ℤ (negsuc n) d = ground arith

pub pos_part-%ℤ : (a : ℤ) (d : ℕ) → pos_part (a %ℤ pos d) ≡ pos_part a % d
unfolding ◌%ℤ◌
pos_part-%ℤ (pos n) d = ground arith
pos_part-%ℤ (negsuc n) d = ground arith

pub neg_part-%ℤ : (a : ℤ) (d : ℕ) → neg_part (a %ℤ pos d) ≡ neg_part a % d
unfolding ◌%ℤ◌
neg_part-%ℤ (pos n) d = ground arith
neg_part-%ℤ (negsuc n) d = ground arith

-- The low bits of a number in the range of the type are the number.
pub to_int16_lem : (a : ℤ) → negsuc 0x7fff ≤ℤ a → a ≤ℤ pos 0x7fff → to_int16 a ≡ a
unfolding to_int16
to_int16_lem (pos n) lo hi = ground arith
to_int16_lem (negsuc n) lo hi = ground arith

pub ruleset int_laws = (
  arith, +ℤ_parts, -ℤ_parts, *ℤ_parts, pos_part-*ℤ_pos, neg_part-*ℤ_pos, pos_part-/ℤ, neg_part-/ℤ,
  pos_part-%ℤ, neg_part-%ℤ, eq_of_parts,
)

pub +ℤ_comm : (a b : ℤ) → a +ℤ b ≡ b +ℤ a
+ℤ_comm a b = omega int_laws

pub +ℤ_assoc : (a b c : ℤ) → a +ℤ b +ℤ c ≡ a +ℤ (b +ℤ c)
+ℤ_assoc a b c = omega int_laws
