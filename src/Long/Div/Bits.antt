-- ===== src/Long/Div/Bits.antt =====
-- src/obj_long.c: the bits of a long, one at a time.
use kuroko.Prelude.{
  dec_lt, ℕ, zero, suc, ◌+◌, ◌-◌, ◌*◌, ◌/◌, ◌%◌, ◌^◌, ◌≤◌, ◌<◌, ◌≡◌, refl, sym, List, [], ◌∷◌,
  arith, length, get_or, set,
}
use kuroko.Long.{digit_base}
use kuroko.Long.Digits.{number, AreDigits}
use native.Mathlib.Nat.{pow-suc, div-div-eq-div-mul, zero-div, div-one}

pub double_pow : (k : ℕ) → 2 ^ suc k ≡ 2 * 2 ^ k
double_pow k = omega (arith, pow-suc 2 k)

pub pow_sum : (m n : ℕ) → 2 ^ (m + n) ≡ 2 ^ m * 2 ^ n
pow_sum zero n = rw (zero_add) (omega arith)
  where
    zero_add : zero + n ≡ n
    zero_add = omega arith
pow_sum (suc m) n =
    let e : suc m + n ≡ suc (m + n) = omega arith in
    rw (e, double_pow, double_pow, pow_sum m n) (omega arith)

pub half_pow : (d k : ℕ) → d / 2 ^ suc k ≡ d / 2 / 2 ^ k
half_pow d k = rw double_pow (sym (div-div-eq-div-mul d 2 (2 ^ k)))

-- A bit of the number above `2 ^ k`, and the rest.
pub next_bit : (a k : ℕ) → a / 2 ^ k ≡ 2 * (a / 2 ^ suc k) + a / 2 ^ k % 2
next_bit a k =
    let e : a / 2 ^ suc k ≡ a / 2 ^ k / 2 =
      rw (pow-suc 2 k) (sym (div-div-eq-div-mul a (2 ^ k) 2)) in
    rw e (omega arith)

-- What stands above does not count.
low_bit : (k n d m : ℕ) → k < n → (d + 2 ^ n * m) / 2 ^ k % 2 ≡ d / 2 ^ k % 2
low_bit k zero d m h = absurd (omega arith)
low_bit zero (suc n) d m h =
    let e : 2 ^ suc n * m ≡ 2 * (2 ^ n * m) = rw double_pow (omega arith) in
    rw (e, div-one) (omega arith)
low_bit (suc k) (suc n) d m h =
    let e : 2 ^ suc n * m ≡ 2 * (2 ^ n * m) = rw double_pow (omega arith) in
    let half : (d + 2 * (2 ^ n * m)) / 2 ≡ d / 2 + 2 ^ n * m = omega arith in
    rw (e, half_pow, half_pow, half) (low_bit k n (d / 2) m (omega arith))

high_bits : (d m i : ℕ) → d < digit_base → 31 ≤ i → (d + digit_base * m) / 2 ^ i ≡ m / 2 ^ (i - 31)
high_bits d m i h le =
    let e : 31 + (i - 31) ≡ i = omega arith in
    let low : (d + digit_base * m) / digit_base ≡ m = omega arith in
    let split : 2 ^ i ≡ digit_base * 2 ^ (i - 31) = rw e at (pow_sum 31 (i - 31)) in
    rw (split, ← div-div-eq-div-mul (d + digit_base * m) digit_base (2 ^ (i - 31)), low) refl

-- A bit of the number is a bit of one of its digits.
pub number_bit :
    (ds : List ℕ) (i : ℕ)
    → AreDigits ds
    → number ds / 2 ^ i % 2 ≡ get_or ds (i / 31) 0 / 2 ^ (i % 31) % 2
number_bit [] i h = rw (zero-div, zero-div) refl
number_bit (d ∷ ds) i h = elim (dec_lt i 31) [
  | yes small ↦
      let e : i / 31 ≡ 0 = omega arith in
      let f : i % 31 ≡ i = omega arith in rw (e, f) (low_bit i 31 d (number ds) small)
  | no large ↦
      let e : i / 31 ≡ suc ((i - 31) / 31) = omega arith in
      let f : i % 31 ≡ (i - 31) % 31 = omega arith in
      rw (high_bits d (number ds) i h.0 (omega arith), e, f) (number_bit ds (i - 31) h.1)
]

pub or_bit-bound : (k n d : ℕ) → d < 2 ^ n → k < n → d / 2 ^ k % 2 ≡ 0 → d + 2 ^ k < 2 ^ n
or_bit-bound k zero d h l e = absurd (omega arith)
or_bit-bound zero (suc n) d h l e =
    let e' : d % 2 ≡ 0 = rw div-one at e in let p = double_pow n in omega arith
or_bit-bound (suc k) (suc n) d h l e =
    let ih =
      or_bit-bound k n (d / 2) (omega (arith, double_pow n)) (omega arith) (rw half_pow at e) in
    omega (arith, double_pow n, double_pow k)

-- A digit that grows adds as much at its place.
pub number-set :
    (ds : List ℕ) (i p : ℕ)
    → i < length ds
    → number (set ds i (get_or ds i 0 + p)) ≡ number ds + p * 2 ^ (31 * i)
number-set [] i p h = absurd (omega arith)
number-set (d ∷ ds) zero p h = omega arith
number-set (d ∷ ds) (suc i) p h =
    let e : 31 * suc i ≡ 31 + 31 * i = omega arith in
    let split : p * 2 ^ (31 * suc i) ≡ digit_base * (p * 2 ^ (31 * i)) =
      rw (e, pow_sum) (omega arith) in
    rw split (omega (arith, number-set ds i p (omega arith)))

pub set-AreDigits : (ds : List ℕ) (i v : ℕ) → AreDigits ds → v < digit_base → AreDigits (set ds i v)
set-AreDigits [] i v h l = tt
set-AreDigits (d ∷ ds) zero v h l = (l, h.1)
set-AreDigits (d ∷ ds) (suc i) v h l = (h.0, set-AreDigits ds i v h.1 l)
