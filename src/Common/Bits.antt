-- ===== src/Common/Bits.antt =====
-- Laws of the bit operations on bytes and words.
use Prim.Native.Nat.{
  ℕ, zero, suc, ◌+◌, ◌*◌, ◌/◌, ◌%◌, ◌≤◌, ◌<◌, max, bit_and, bit_or, bit_xor, digits, bit_or-bitwise,
}
use mathlib.Core.Path.{◌≡◌, refl}
use mathlib.Core.Bool.{Bool, true, ◌&&◌}
use native.Mathlib.Omega.{arith}
use package.crimson_desert_online_mo.Common.Tests.{◌==◌, ltb, ==_iff}

-- A test that passes at each of the first numbers, by evaluation.
passes : (ℕ → Bool) → ℕ → Bool
passes test zero = true
passes test (suc k) = passes test k && test k

passes_at :
    (test : ℕ → Bool) (bound : ℕ) {i : ℕ} → i < bound → passes test bound ≡ true → test i ≡ true
unfolding passes
passes_at test zero low run = absurd (omega arith)
passes_at test (suc k) {i} low run =
    ground (arith, λ (l : i < k) (r : passes test k ≡ true). passes_at test k l r)

xor_table : passes (λ m. passes (λ c. bit_xor (bit_xor c m) m == c) 256) 256 ≡ true
unfolding passes
xor_table = refl

-- Masking a byte twice gives it back.
pub bit_xor_twice : (c m : ℕ) → c < 256 → m < 256 → bit_xor (bit_xor c m) m ≡ c
bit_xor_twice c m hc hm = (==_iff _ c).0 (passes_at _ 256 hc (passes_at _ 256 hm xor_table))

xor_byte_table : passes (λ m. passes (λ c. ltb (bit_xor c m) 256) 256) 256 ≡ true
unfolding passes
xor_byte_table = refl

pub bit_xor-lt : (c m : ℕ) → c < 256 → m < 256 → bit_xor c m < 256
bit_xor-lt c m hc hm = ground (
  arith,
  passes_at (λ c. ltb (bit_xor c m) 256) 256 hc
      (passes_at (λ m. passes (λ c. ltb (bit_xor c m) 256) 256) 256 hm xor_byte_table),
)

low_bits_table : passes (λ b. bit_and b 0x7f == b % 128) 256 ≡ true
unfolding passes
low_bits_table = refl

pub low_bits : (b : ℕ) → b < 256 → bit_and b 0x7f ≡ b % 128
low_bits b h = (==_iff _ _).0 (passes_at _ 256 h low_bits_table)

top_bit_table : passes (λ b. bit_and b 0x80 == b / 128 * 128) 256 ≡ true
unfolding passes
top_bit_table = refl

pub top_bit : (b : ℕ) → b < 256 → bit_and b 0x80 ≡ b / 128 * 128
top_bit b h = (==_iff _ _).0 (passes_at _ 256 h top_bit_table)

nibble_table : passes (λ b. bit_and b 0x0f == b % 16) 256 ≡ true
unfolding passes
nibble_table = refl

pub low_nibble : (b : ℕ) → b < 256 → bit_and b 0x0f ≡ b % 16
low_nibble b h = (==_iff _ _).0 (passes_at _ 256 h nibble_table)

set_top_bit_table : passes (λ b. bit_or 0x80 b == 128 + b) 128 ≡ true
unfolding passes
set_top_bit_table = refl

pub set_top_bit : (b : ℕ) → b < 128 → bit_or 0x80 b ≡ 128 + b
set_top_bit b h = (==_iff _ _).0 (passes_at _ 128 h set_top_bit_table)

-- `bit_or` one digit at a time, from the definition that the native operation stands for. The fuel
-- of that definition is irrelevant once it covers the first argument.
or_fuel : (i j a b : ℕ) → a ≤ i → a ≤ j → digits (λ c. c) max i a b ≡ digits (λ c. c) max j a b
or_fuel zero zero a b p q = refl
or_fuel zero (suc j) zero b p q = refl
or_fuel zero (suc j) (suc a) b p q = absurd (omega arith)
or_fuel (suc i) zero zero b p q = refl
or_fuel (suc i) zero (suc a) b p q = absurd (omega arith)
or_fuel (suc i) (suc j) zero b p q = refl
or_fuel (suc i) (suc j) (suc a) b p q =
    omega (arith, or_fuel i j (suc a / 2) (b / 2) (omega arith) (omega arith))

or_step : (a b : ℕ) → bit_or a b ≡ bit_or (a / 2) (b / 2) * 2 + max (a % 2) (b % 2)
or_step zero b = omega (arith, bit_or-bitwise 0 b, bit_or-bitwise 0 (b / 2))
or_step (suc a) b = omega (
  arith,
  bit_or-bitwise (suc a) b,
  bit_or-bitwise (suc a / 2) (b / 2),
  or_fuel a (suc a / 2) (suc a / 2) (b / 2) (omega arith) (omega arith),
)

or_zero_below : (n a : ℕ) → a ≤ n → bit_or a 0 ≡ a
or_zero_below n zero h = refl
or_zero_below zero (suc a) h = absurd (omega arith)
or_zero_below (suc n) (suc a) h =
    omega (arith, or_step (suc a) 0, or_zero_below n (suc a / 2) (omega arith))

pub bit_or-zero : (a : ℕ) → bit_or a 0 ≡ a
bit_or-zero a = or_zero_below a a (omega arith)

or_nibble : (x b : ℕ) → b < 16 → bit_or (x * 16) b ≡ x * 16 + b
or_nibble x b h = omega (
  arith,
  or_step (x * 16) b,
  or_step (x * 16 / 2) (b / 2),
  or_step (x * 16 / 2 / 2) (b / 2 / 2),
  or_step (x * 16 / 2 / 2 / 2) (b / 2 / 2 / 2),
  or_at_zero x b h,
)
  where
    or_at_zero : (x b : ℕ) → b < 16 → bit_or (x * 16 / 2 / 2 / 2 / 2) (b / 2 / 2 / 2 / 2) ≡ x
    or_at_zero x b h =
        let ex : x * 16 / 2 / 2 / 2 / 2 ≡ x = omega arith in
        let eb : b / 2 / 2 / 2 / 2 ≡ 0 = omega arith in rw (ex, eb) (bit_or-zero x)

-- `(x << 8) | b` is a sum when `b` is a byte.
pub bit_or_byte : (x b : ℕ) → b < 256 → bit_or (x * 256) b ≡ x * 256 + b
bit_or_byte x b h = omega (
  arith,
  or_step (x * 256) b,
  or_step (x * 256 / 2) (b / 2),
  or_step (x * 256 / 2 / 2) (b / 2 / 2),
  or_step (x * 256 / 2 / 2 / 2) (b / 2 / 2 / 2),
  or_high,
)
  where
    or_high : bit_or (x * 256 / 2 / 2 / 2 / 2) (b / 2 / 2 / 2 / 2) ≡ x * 16 + b / 2 / 2 / 2 / 2
    or_high =
        let ex : x * 256 / 2 / 2 / 2 / 2 ≡ x * 16 = omega arith in
        rw ex (or_nibble x (b / 2 / 2 / 2 / 2) (omega arith))
