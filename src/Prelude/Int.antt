-- ===== src/Prelude/Int.antt =====
-- Signed integers over the native numbers, and Go's `int` and `int64`: the integers of 64 bits, whose
-- sum wraps.
use Prim.Native.Nat.{ℕ, suc, ◌+◌, ◌-◌, ◌%◌, ◌^◌, ◌≤◌, ◌<◌}
use mathlib.Core.Path.{◌≡◌}
use mathlib.Core.Logic.{◌↔◌}
use mathlib.Core.Bool.{Bool, true}
use native.Mathlib.Omega.{arith}
use k8s.Prelude.Tests.{ltb, leb, ◌==◌, if◌then◌else◌}

-- `negsuc n` is -(n + 1).
pub data ℤ : Type 0 where
  pos : ℕ → ℤ
  negsuc : ℕ → ℤ

abbrev pub pos_part : ℤ → ℕ
pos_part (pos n) = n
pos_part (negsuc n) = 0

abbrev pub neg_part : ℤ → ℕ
neg_part (pos n) = 0
neg_part (negsuc n) = suc n

-- a - b, as an integer.
abbrev pub sub_ℕ : ℕ → ℕ → ℤ
sub_ℕ a b = if leb b a then pos (a - b) else negsuc (b - a - 1)

infixl 65 ◌+ℤ◌
infix 50 ◌≤ℤ◌ ◌<ℤ◌
unfoldable pub ◌+ℤ◌ : ℤ → ℤ → ℤ
a +ℤ b = sub_ℕ (pos_part a + pos_part b) (neg_part a + neg_part b)

-- The exact difference.
unfoldable pub sub_ℤ : ℤ → ℤ → ℤ
sub_ℤ a b = sub_ℕ (pos_part a + neg_part b) (neg_part a + pos_part b)

abbrev pub ◌≤ℤ◌ : ℤ → ℤ → Type 0
a ≤ℤ b = pos_part a + neg_part b ≤ pos_part b + neg_part a

abbrev pub ◌<ℤ◌ : ℤ → ℤ → Type 0
a <ℤ b = pos_part a + neg_part b < pos_part b + neg_part a

abbrev pub ltb_ℤ : ℤ → ℤ → Bool
ltb_ℤ a b = ltb (pos_part a + neg_part b) (pos_part b + neg_part a)

abbrev pub leb_ℤ : ℤ → ℤ → Bool
leb_ℤ a b = leb (pos_part a + neg_part b) (pos_part b + neg_part a)

abbrev pub eq_ℤ : ℤ → ℤ → Bool
eq_ℤ a b = (pos_part a + neg_part b) == (pos_part b + neg_part a)

abbrev pub min_ℤ : ℤ → ℤ → ℤ
min_ℤ a b = if leb_ℤ a b then a else b

pub eq_ℤ_iff : (a b : ℤ) → (eq_ℤ a b ≡ true) ↔ (a ≡ b)
eq_ℤ_iff a b = ground arith

pub eq_of_parts : (a b : ℤ) → pos_part a + neg_part b ≡ pos_part b + neg_part a → a ≡ b
eq_of_parts a b h = ground arith

-- The 64-bit two's complement integer that an exact result wraps to.
abbrev wrap_pos : ℕ → ℤ
wrap_pos m = if ltb m (2 ^ 63) then pos m else negsuc (2 ^ 64 - m - 1)

abbrev wrap_neg : ℕ → ℤ
wrap_neg m = if ltb m (2 ^ 63) then negsuc m else pos (2 ^ 64 - m - 1)

unfoldable pub wrap_int : ℤ → ℤ
wrap_int (pos n) = wrap_pos (n % 2 ^ 64)
wrap_int (negsuc n) = wrap_neg (n % 2 ^ 64)

-- `a + b` on Go's `int`.
unfoldable pub add_int : ℤ → ℤ → ℤ
add_int a b = wrap_int (a +ℤ b)

-- The values of Go's `int` and `int64` on a 64-bit machine.
abbrev pub IsInt : ℤ → Type 0
IsInt a = (negsuc (2 ^ 63 - 1) ≤ℤ a) × (a ≤ℤ pos (2 ^ 63 - 1))

pub wrap_int-IsInt : (a : ℤ) → IsInt (wrap_int a)
unfolding wrap_int
wrap_int-IsInt a = ground arith

pub wrap_int_self : (a : ℤ) → IsInt a → wrap_int a ≡ a
unfolding wrap_int
wrap_int_self (pos n) h = ground arith
wrap_int_self (negsuc n) h = ground arith

pub add_int_exact : (m n : ℕ) → m + n < 2 ^ 63 → add_int (pos m) (pos n) ≡ pos (m + n)
unfolding add_int ◌+ℤ◌ wrap_int
add_int_exact m n h = ground arith

-- Two numbers that are not negative overflow to a negative number.
pub add_int_overflow :
    (m n : ℕ) → m < 2 ^ 63 → n < 2 ^ 63 → 2 ^ 63 ≤ m + n → add_int (pos m) (pos n) <ℤ pos 0
unfolding add_int ◌+ℤ◌ wrap_int
add_int_overflow m n hm hn h = ground arith

abbrev pub is_neg : ℤ → Bool
is_neg a = ltb_ℤ a (pos 0)
