-- ===== src/Base/Int.antt =====
-- Signed integers over the native numbers, as `int` and `std::chrono::milliseconds` hold them.
use Prim.Native.Nat.{ℕ, suc, ◌+◌, ◌-◌, ◌*◌, ◌%◌, ◌≤◌}
use mathlib.Core.Bool.{Bool}
use artest_cli.Base.Tests.{ltb, leb, if◌then◌else◌}

-- `negsuc n` is -(n + 1).
pub data ℤ : Type 0 where
  pos : ℕ → ℤ
  negsuc : ℕ → ℤ

abbrev pub pos_part : ℤ → ℕ
pos_part (pos n) = n
pos_part (negsuc n) = 0

abbrev pub neg_part : ℤ → ℕ
neg_part (pos n) = 0
neg_part (negsuc n) = suc n

abbrev pub sub_ℕ : ℕ → ℕ → ℤ
sub_ℕ a b = if leb b a then pos (a - b) else negsuc (b - a - 1)

abbrev pub ltb_ℤ : ℤ → ℤ → Bool
ltb_ℤ a b = ltb (pos_part a + neg_part b) (pos_part b + neg_part a)

abbrev pub leb_ℤ : ℤ → ℤ → Bool
leb_ℤ a b = leb (pos_part a + neg_part b) (pos_part b + neg_part a)

infix 50 ◌≤ℤ◌
abbrev pub ◌≤ℤ◌ : ℤ → ℤ → Type 0
a ≤ℤ b = pos_part a + neg_part b ≤ pos_part b + neg_part a

-- A conversion to a signed integer of `2 * half` values keeps the value modulo `2 * half`.
abbrev pub wrap : ℕ → ℤ → ℤ
wrap half (pos n) =
    let r = n % (2 * half) in if ltb r half then pos r else negsuc (2 * half - r - 1)
wrap half (negsuc n) =
    let r = n % (2 * half) in if ltb r half then negsuc r else pos (2 * half - r - 1)

-- Half of the values of `int` and of `std::int64_t`.
abbrev pub half_int : ℕ
half_int = 2147483648

abbrev pub half_int64 : ℕ
half_int64 = 9223372036854775808
