-- ===== src/Prelude/Bits.antt =====
-- A mask of low bits, as arithmetic.
use Prim.Native.Nat.{
  ℕ, zero, suc, ◌+◌, ◌-◌, ◌*◌, ◌/◌, ◌%◌, ◌^◌, ◌≤◌, ◌<◌, min, bit_and, digits, bit_and-bitwise,
}
use mathlib.Core.Path.{◌≡◌, refl}
use native.Mathlib.Nat.{pow-suc, one-le-pow}
use native.Mathlib.Omega.{arith}

-- The digit recursion that `bit_and` stands for, with the same fuel on both sides.
abbrev both : ℕ → ℕ → ℕ → ℕ
both fuel a b = digits (λ _. zero) min fuel a b

both_fuel : (m n a b : ℕ) → a ≤ m → a ≤ n → both m a b ≡ both n a b
both_fuel zero zero a b p q = refl
both_fuel zero (suc n) zero b p q = refl
both_fuel zero (suc n) (suc a) b p q = absurd (omega arith)
both_fuel (suc m) zero zero b p q = refl
both_fuel (suc m) zero (suc a) b p q = absurd (omega arith)
both_fuel (suc m) (suc n) zero b p q = refl
both_fuel (suc m) (suc n) (suc a) b p q =
    omega (arith, both_fuel m n (suc a / 2) (b / 2) (omega arith) (omega arith))

zero-and : (b : ℕ) → bit_and 0 b ≡ 0
zero-and b = bit_and-bitwise 0 b

and_halves : (a b : ℕ) → bit_and a b ≡ bit_and (a / 2) (b / 2) * 2 + min (a % 2) (b % 2)
and_halves zero b = omega (arith, zero-and b, zero-and (b / 2))
and_halves (suc a) b = omega (
  arith,
  bit_and-bitwise (suc a) b,
  bit_and-bitwise (suc a / 2) (b / 2),
  both_fuel a (suc a / 2) (suc a / 2) (b / 2) (omega arith) (omega arith),
)

and_none : (fuel a : ℕ) → a ≤ fuel → bit_and a 0 ≡ 0
and_none fuel zero h = refl
and_none zero (suc a) h = absurd (omega arith)
and_none (suc fuel) (suc a) h =
    omega (arith, and_halves (suc a) 0, and_none fuel (suc a / 2) (omega arith))

-- One digit of a mask: with `p` for 2 ^ k, where `q * p` is a number of its own.
and_step :
    (p qp r m : ℕ)
    → 0 < p
    → r < 2 * p
    → m ≡ 2 * p - 1
    → bit_and (qp + r / 2) (p - 1) ≡ r / 2
    → bit_and (2 * qp + r) m ≡ r
and_step p qp r m pos h e ih =
    let low : (2 * qp + r) / 2 ≡ qp + r / 2 = omega arith in
    let rest : m / 2 ≡ p - 1 = omega arith in
    let halves = rw (low, rest) at (and_halves (2 * qp + r) m) in omega arith

and_fields : (k q r : ℕ) → r < 2 ^ k → bit_and (q * 2 ^ k + r) (2 ^ k - 1) ≡ r
and_fields zero q r h = omega (arith, and_none (q * 2 ^ 0 + r) (q * 2 ^ 0 + r) (omega arith))
and_fields (suc k) q r h =
    let double : 2 ^ suc k ≡ 2 * 2 ^ k = omega (arith, pow-suc 2 k) in
    let product : q * 2 ^ suc k ≡ 2 * (q * 2 ^ k) = rw double (omega arith) in
    rw product (
      and_step (2 ^ k) (q * 2 ^ k) r (2 ^ suc k - 1) (one-le-pow k 2 (omega arith)) (omega arith)
        (omega arith) (and_fields k q (r / 2) (omega arith)))

-- `a & (2 ^ k - 1)` is the remainder.
pub bit_and-mask : (k a : ℕ) → bit_and a (2 ^ k - 1) ≡ a % 2 ^ k
bit_and-mask k a =
    let parts : a / 2 ^ k * 2 ^ k + a % 2 ^ k ≡ a = grind arith in
    let fields = and_fields k (a / 2 ^ k) (a % 2 ^ k) (ground (arith, one-le-pow k 2)) in
    rw parts at fields
