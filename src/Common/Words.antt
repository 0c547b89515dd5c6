-- ===== src/Common/Words.antt =====
-- Two bytes as a 16-bit word, high byte first: `x >> 8`, `byte(x)` and `h << 8 | l`.
use Prim.Native.Nat.{
  ℕ, zero, suc, ◌+◌, ◌*◌, ◌/◌, ◌%◌, ◌≤◌, ◌<◌, max, digits, bit_or, bit_or-bitwise,
}
use mathlib.Core.Path.{◌≡◌, refl}
use native.Mathlib.Omega.{arith}

abbrev or_digits : ℕ → ℕ → ℕ → ℕ
or_digits = digits (λ b. b) max

-- More fuel than digits changes nothing.
or_digits_fuel : (n m a b : ℕ) → a ≤ n → a ≤ m → or_digits n a b ≡ or_digits m a b
or_digits_fuel zero zero a b p q = refl
or_digits_fuel zero (suc m) zero b p q = refl
or_digits_fuel zero (suc m) (suc a) b p q = absurd (omega arith)
or_digits_fuel (suc n) zero zero b p q = refl
or_digits_fuel (suc n) zero (suc a) b p q = absurd (omega arith)
or_digits_fuel (suc n) (suc m) zero b p q = refl
or_digits_fuel (suc n) (suc m) (suc a) b p q =
    omega (arith, or_digits_fuel n m (suc a / 2) (b / 2) (omega arith) (omega arith))

bit_or_step : (a b : ℕ) → bit_or a b ≡ bit_or (a / 2) (b / 2) * 2 + max (a % 2) (b % 2)
bit_or_step zero b = omega (arith, bit_or-bitwise 0 b, bit_or-bitwise 0 (b / 2))
bit_or_step (suc a) b = omega (
  arith,
  bit_or-bitwise (suc a) b,
  bit_or-bitwise (suc a / 2) (b / 2),
  or_digits_fuel a (suc a / 2) (suc a / 2) (b / 2) (omega arith) (omega arith),
)

bit_or-zero_below : (n a : ℕ) → a ≤ n → bit_or a 0 ≡ a
bit_or-zero_below n zero h = refl
bit_or-zero_below zero (suc a) h = absurd (omega arith)
bit_or-zero_below (suc n) (suc a) h =
    omega (arith, bit_or_step (suc a) 0, bit_or-zero_below n (suc a / 2) (omega arith))

-- Shifting the left operand by one bit leaves a place for the lowest bit of the right one.
double : (q r x : ℕ) → bit_or q (r / 2) ≡ x → bit_or (q * 2) r ≡ x * 2 + r % 2
double q r x h = ground (arith, bit_or_step (q * 2) r)

-- `q << k`, one bit at a time.
abbrev shift : ℕ → ℕ → ℕ
shift zero q = q
shift (suc k) q = shift k q * 2

bit_or-shift : (k q r : ℕ) → r < shift k 1 → bit_or (shift k q) r ≡ shift k q + r
bit_or-shift zero q r fits = ground (arith, bit_or-zero_below q q)
bit_or-shift (suc k) q r fits =
    omega (arith, double (shift k q) r _ (bit_or-shift k q (r / 2) (omega arith)))

-- `q << 8 | r` is a sum when `r` is a byte.
bit_or_byte : (q r : ℕ) → r < 256 → bit_or (q * 256) r ≡ q * 256 + r
bit_or_byte q r fits =
    let e : q * 256 ≡ shift 8 q = omega arith in rw e (bit_or-shift 8 q r (omega arith))

-- `uint16(h)<<8 | uint16(l)`
pub be16 : ℕ → ℕ → ℕ
be16 h l = bit_or (h * 256 % 65536) l

pub be16_lem : (h l : ℕ) → h < 256 → l < 256 → be16 h l ≡ h * 256 + l
unfolding be16
be16_lem h l hh hl = ground (arith, bit_or_byte h l)

-- The two bytes `byte(x>>8), byte(x)` give the word back.
pub be16-bytes : (x : ℕ) → x < 65536 → be16 (x / 256 % 256) (x % 256) ≡ x
be16-bytes x h = omega (arith, be16_lem (x / 256 % 256) (x % 256))
