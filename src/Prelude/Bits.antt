-- ===== src/Prelude/Bits.antt =====
-- The bits of numbers under `&`, `|` and the complement of a byte.
use Prim.Native.Nat.{
  ℕ, zero, suc, ◌+◌, ◌-◌, ◌*◌, ◌/◌, ◌%◌, ◌^◌, ◌≤◌, ◌<◌, min, max, bit_and, bit_or, digits,
  bit_and-bitwise, bit_or-bitwise,
}
use mathlib.Core.Path.{◌≡◌, refl, ◌∙◌, ap}
use native.Mathlib.Omega.{arith}
use native.Mathlib.Nat.{pow-suc}

-- Bit `k`, counted from the lowest.
abbrev pub bit : ℕ → ℕ → ℕ
bit zero x = x % 2
bit (suc k) x = bit k (x / 2)

-- The recursion that the native operations stand for does not depend on its fuel.
and_fuel :
    (n m a b : ℕ) → a ≤ n → a ≤ m → digits (λ x. zero) min n a b ≡ digits (λ x. zero) min m a b
and_fuel zero zero a b p q = refl
and_fuel zero (suc m) zero b p q = refl
and_fuel zero (suc m) (suc a) b p q = absurd (omega arith)
and_fuel (suc n) zero zero b p q = refl
and_fuel (suc n) zero (suc a) b p q = absurd (omega arith)
and_fuel (suc n) (suc m) zero b p q = refl
and_fuel (suc n) (suc m) (suc a) b p q =
    omega (arith, and_fuel n m (suc a / 2) (b / 2) (omega arith) (omega arith))

or_fuel : (n m a b : ℕ) → a ≤ n → a ≤ m → digits (λ x. x) max n a b ≡ digits (λ x. x) max m a b
or_fuel zero zero a b p q = refl
or_fuel zero (suc m) zero b p q = refl
or_fuel zero (suc m) (suc a) b p q = absurd (omega arith)
or_fuel (suc n) zero zero b p q = refl
or_fuel (suc n) zero (suc a) b p q = absurd (omega arith)
or_fuel (suc n) (suc m) zero b p q = refl
or_fuel (suc n) (suc m) (suc a) b p q =
    omega (arith, or_fuel n m (suc a / 2) (b / 2) (omega arith) (omega arith))

and_step : (a b : ℕ) → bit_and a b ≡ bit_and (a / 2) (b / 2) * 2 + min (a % 2) (b % 2)
and_step zero b = omega (arith, bit_and-bitwise 0 b, bit_and-bitwise 0 (b / 2))
and_step (suc a) b = omega (
  arith,
  bit_and-bitwise (suc a) b,
  bit_and-bitwise (suc a / 2) (b / 2),
  and_fuel a (suc a / 2) (suc a / 2) (b / 2) (omega arith) (omega arith),
)

or_step : (a b : ℕ) → bit_or a b ≡ bit_or (a / 2) (b / 2) * 2 + max (a % 2) (b % 2)
or_step zero b = omega (arith, bit_or-bitwise 0 b, bit_or-bitwise 0 (b / 2))
or_step (suc a) b = omega (
  arith,
  bit_or-bitwise (suc a) b,
  bit_or-bitwise (suc a / 2) (b / 2),
  or_fuel a (suc a / 2) (suc a / 2) (b / 2) (omega arith) (omega arith),
)

pub bit-and : (k a b : ℕ) → bit k (bit_and a b) ≡ min (bit k a) (bit k b)
bit-and zero a b = omega (arith, and_step a b)
bit-and (suc k) a b =
    let half : bit_and a b / 2 ≡ bit_and (a / 2) (b / 2) = omega (arith, and_step a b) in
    ap (bit k) half ∙ bit-and k (a / 2) (b / 2)

pub bit-or : (k a b : ℕ) → bit k (bit_or a b) ≡ max (bit k a) (bit k b)
bit-or zero a b = omega (arith, or_step a b)
bit-or (suc k) a b =
    let half : bit_or a b / 2 ≡ bit_or (a / 2) (b / 2) = omega (arith, or_step a b) in
    ap (bit k) half ∙ bit-or k (a / 2) (b / 2)

pub bit_bound : (k a : ℕ) → bit k a < 2
bit_bound zero a = omega arith
bit_bound (suc k) a = bit_bound k (a / 2)

-- The complement in a word of `n` bits flips each of its bits.
pub bit_complement : (n k s : ℕ) → k < n → s < 2 ^ n → bit k (2 ^ n - 1 - s) ≡ 1 - bit k s
bit_complement zero k s h b = elim h [ ]
bit_complement (suc n) zero s h b = omega (arith, pow-suc 2 n)
bit_complement (suc n) (suc k) s h b =
    let half : (2 ^ suc n - 1 - s) / 2 ≡ 2 ^ n - 1 - s / 2 = omega (arith, pow-suc 2 n) in
    ap (bit k) half ∙ bit_complement n k (s / 2) (omega arith) (omega (arith, pow-suc 2 n))

-- Numbers of `n` bits stay below `2 ^ n`.
pub and-lt : (n a b : ℕ) → a < 2 ^ n → bit_and a b < 2 ^ n
and-lt zero zero b h = omega (arith, bit_and-bitwise 0 b)
and-lt zero (suc a) b h = absurd (omega arith)
and-lt (suc n) a b h =
    omega (arith, and_step a b, and-lt n (a / 2) (b / 2) (omega (arith, pow-suc 2 n)), pow-suc 2 n)

pub or-lt : (n a b : ℕ) → a < 2 ^ n → b < 2 ^ n → bit_or a b < 2 ^ n
or-lt zero zero zero h k = omega arith
or-lt zero zero (suc b) h k = absurd (omega arith)
or-lt zero (suc a) b h k = absurd (omega arith)
or-lt (suc n) a b h k = omega (
  arith,
  or_step a b,
  or-lt n (a / 2) (b / 2) (omega (arith, pow-suc 2 n)) (omega (arith, pow-suc 2 n)),
  pow-suc 2 n,
)
