-- ===== src/Long/Init.antt =====
-- src/obj_long.c: `krk_long_init_ui` and `krk_long_init_si`.
use kuroko.Long.{digit_base, extract_digits, count_digits, init_ui, init_si, set_sign}
use kuroko.Long.Digits.{number, AreDigits, IsTrimmed}
use kuroko.Long.Sum.Signs.{
  Represents, zero-Represents, represents, set_sign-neg_lem, number_of_value,
}
use kuroko.Prelude.{
  ℕ, zero, suc, ◌+◌, ◌/◌, ◌%◌, ◌^◌, ◌<◌, ◌≤◌, ◌≡◌, refl, ap, ◌∙◌, inl, inr, true, false, Bool-cases,
  arith, length, ltb, ◌==◌,
}
use kuroko.Prelude.Int.{ℤ, pos, negsuc, ◌*ℤ◌}

-- int64_t
abbrev pub IsInt64 : ℤ → Type 0
IsInt64 (pos n) = n < 2 ^ 63
IsInt64 (negsuc n) = n < 2 ^ 63

-- The number has at most one digit more than there are rounds.
abbrev Fits : ℕ → ℕ → Type 0
Fits zero n = n < digit_base
Fits (suc fuel) n = Fits fuel (n / digit_base)

-- So many digits are exactly those of the number.
record Exact (count n : ℕ) : Type 0 where
  sized : length (extract_digits count n) ≡ count
  bounded : AreDigits (extract_digits count n)
  trimmed : IsTrimmed (extract_digits count n)
  whole : number (extract_digits count n) ≡ n

one-Exact : (n : ℕ) → 0 < n → n < digit_base → Exact 1 n
unfolding extract_digits
one-Exact n p h = record {
  sized = refl;
  bounded = (omega arith, tt);
  trimmed = (omega arith, tt);
  whole = omega arith;
}

more-Exact : (count n : ℕ) → 0 < n → Exact count (n / digit_base) → Exact (suc count) n
unfolding extract_digits
more-Exact count n p e = record {
  sized = ap suc (e.sized);
  bounded = (omega arith, e.bounded);
  trimmed = (omega (arith, e.whole), e.trimmed);
  whole = omega (arith, e.whole);
}

count_digits-Exact :
    (fuel n : ℕ)
    → 0 < n
    → Fits fuel n
    → (k : ℕ) × ((cnt : ℕ) → count_digits fuel n cnt ≡ cnt + k) × Exact (suc k) n
unfolding count_digits
count_digits-Exact zero n p fits = (0, λ cnt. omega arith, one-Exact n p fits)
count_digits-Exact (suc fuel) n p fits = elim (Bool-cases (ltb n digit_base)) [
  | inl e ↦ (0, λ cnt. rw (e, count_digits) (omega arith), one-Exact n p (ground arith))
  | inr e ↦
      let large : digit_base ≤ n = ground arith in
      let (k, counts, exact) = count_digits-Exact fuel (n / digit_base) (omega arith) fits in
      (
        suc k,
        λ cnt. rw (e, count_digits) (counts (cnt + 1) ∙ omega arith),
        more-Exact (suc k) n p exact,
      )
]

zero_number : (n : ℕ) → (n == 0) ≡ true → n ≡ 0
zero_number n e = ground arith

init_ui-small :
    (n : ℕ)
    → (n == 0) ≡ false
    → ltb n digit_base ≡ true
    → init_ui n ≡ record { width = pos 1; digits = extract_digits 1 n }
unfolding init_ui extract_digits
init_ui-small n e f = let is : n % digit_base ≡ n = ground arith in rw (e, f, is)

init_ui-large :
    (n : ℕ)
    → (n == 0) ≡ false
    → ltb n digit_base ≡ false
    → init_ui n
      ≡ record { width = pos (count_digits 3 n 1); digits = extract_digits (count_digits 3 n 1) n }
unfolding init_ui
init_ui-large n e f = rw (e, f)

-- The digits in a long that is not negative.
Exact-Represents :
    (count n : ℕ)
    → Exact count n
    → Represents (pos n) (record { width = pos count; digits = extract_digits count n })
Exact-Represents count n e = record {
  long = record { sized = e.sized; bounded = e.bounded; trimmed = e.trimmed };
  means = ap pos (e.whole);
}

init_ui-zero : Represents (pos 0) (init_ui 0)
unfolding init_ui
init_ui-zero = zero-Represents

-- `krk_long_init_ui` of a number below 2 ^ 64 is a well-formed long for it.
pub init_ui_lem : (n : ℕ) → n < 2 ^ 64 → Represents (pos n) (init_ui n)
init_ui_lem n h = elim (Bool-cases (n == 0)) [
  | inl e ↦ rw (zero_number n e) init_ui-zero
  | inr e ↦
      let p : 0 < n = ground arith in
      elim (Bool-cases (ltb n digit_base)) [
        | inl f ↦ rw (init_ui-small n e f) (Exact-Represents 1 n (one-Exact n p (ground arith)))
        | inr f ↦
            let (k, counts, exact) = count_digits-Exact 3 n p (omega arith) in
            let count : count_digits 3 n 1 ≡ suc k = counts 1 ∙ omega arith in
            rw (init_ui-large n e f, count) (Exact-Represents (suc k) n exact)
      ]
]

-- The other sign, for a number that is not zero.
init_si-negative : (m : ℕ) → init_si (negsuc m) ≡ set_sign (init_ui (suc m)) (negsuc 0)
unfolding init_si init_ui set_sign ◌*ℤ◌
init_si-negative m = ground arith

init_si-positive : (n : ℕ) → init_si (pos n) ≡ init_ui n
unfolding init_si init_ui ◌*ℤ◌
init_si-positive n = ground arith

-- `krk_long_init_si` of an integer from -2 ^ 63 on and below 2 ^ 63 is a well-formed long for it.
pub init_si_lem : (z : ℤ) → IsInt64 z → Represents z (init_si z)
init_si_lem (pos n) h = rw (init_si-positive n) (init_ui_lem n (omega arith))
init_si_lem (negsuc m) h =
    let u = init_ui_lem (suc m) (omega arith) in
    let same = number_of_value (init_ui (suc m)) (suc m) u.means in
    rw (init_si-negative m) (represents (set_sign-neg_lem _ u.long) (rw same (ground arith)))
