-- ===== src/Long/Compare.antt =====
-- src/obj_long.c: `krk_long_compare`, `krk_long_compare_abs`.
use kuroko.Prelude.{
  ℕ, zero, suc, ◌≡◌, ◌≢◌, refl, List, [], ◌∷◌, arith, length, get_or, ltb, if◌then◌else◌,
}
use kuroko.Prelude.Int.{ℤ, pos, negsuc, sub_ℕ, ltb_ℤ}
use kuroko.Long.{Long, abs_width, is_negative}
use kuroko.Long.Digits.{number, AreDigits, signed, value, IsLong, longer_is_larger, suffix_pos}

abbrev pub negate : ℤ → ℤ
negate (pos n) = sub_ℕ 0 n
negate (negsuc n) = pos (suc n)

-- The loop over the digits from the top, with the rounds that are left.
compare_digits : ℤ → ℕ → List ℕ → List ℕ → ℤ
compare_digits sign zero a b = pos 0
compare_digits sign (suc n) a b =
    if ltb (get_or b n 0) (get_or a n 0)
    then sign
    else if ltb (get_or a n 0) (get_or b n 0)
    then negate sign
    else compare_digits sign n a b

unfoldable pub compare_abs : Long → Long → ℤ
unfolding compare_digits
compare_abs a b =
    let a_width = abs_width a.width in
    let b_width = abs_width b.width in
    if ltb b_width a_width
    then pos 1
    else if ltb a_width b_width
    then negsuc 0
    else compare_digits (pos 1) a_width a.digits b.digits

unfoldable pub compare : Long → Long → ℤ
unfolding compare_digits
compare a b =
    if ltb_ℤ b.width a.width
    then pos 1
    else if ltb_ℤ a.width b.width
    then negsuc 0
    else compare_digits (if is_negative a.width then negsuc 0 else pos 1) (abs_width a.width)
        a.digits b.digits

-- The sign `s` if `m` is greater than `n`, its opposite if it is less, and 0 if they are equal.
abbrev pub ordered : ℤ → ℕ → ℕ → ℤ
ordered s m n = if ltb n m then s else if ltb m n then negate s else pos 0

abbrev pub ordered_ℤ : ℤ → ℤ → ℤ
ordered_ℤ m n = if ltb_ℤ n m then pos 1 else if ltb_ℤ m n then negsuc 0 else pos 0

compare_step :
    (s : ℤ) (n x y : ℕ) (xs ys : List ℕ)
    → s ≢ pos 0
    → compare_digits s (suc n) (x ∷ xs) (y ∷ ys)
      ≡ elim (compare_digits s n xs ys) [ pos zero ↦ ordered s x y | other ↦ other ]
unfolding compare_digits
compare_step s zero x y xs ys h = ground arith
compare_step s (suc n) x y xs ys h = ground (arith, compare_step s n x y xs ys h)

compare_digits-ordered :
    (s : ℤ) (xs ys : List ℕ)
    → s ≢ pos 0
    → length xs ≡ length ys
    → AreDigits xs
    → AreDigits ys
    → compare_digits s (length xs) xs ys ≡ ordered s (number xs) (number ys)
unfolding compare_digits
compare_digits-ordered s [] [] ne e hx hy = refl
compare_digits-ordered s [] (y ∷ ys) ne e hx hy = absurd (omega arith)
compare_digits-ordered s (x ∷ xs) [] ne e hx hy = absurd (omega arith)
compare_digits-ordered s (x ∷ xs) (y ∷ ys) ne e hx hy = ground (
  arith,
  compare_step s (length xs) x y xs ys ne,
  compare_digits-ordered s xs ys ne (omega arith) hx.1 hy.1,
)

-- `krk_long_compare_abs` orders two well-formed longs as the absolute values that they stand for.
pub compare_abs_lem :
    {a b : Long}
    → IsLong a
    → IsLong b
    → compare_abs a b ≡ ordered (pos 1) (number a.digits) (number b.digits)
unfolding compare_abs
compare_abs_lem {a} {b} va vb = ground (
  arith,
  longer_is_larger a.digits b.digits,
  longer_is_larger b.digits a.digits,
  compare_digits-ordered (pos 1) a.digits b.digits,
)

compare_signs :
    (v w : ℤ) (xs ys : List ℕ)
    → IsLong (record { width = v; digits = xs })
    → IsLong (record { width = w; digits = ys })
    → compare (record { width = v; digits = xs }) (record { width = w; digits = ys })
      ≡ ordered_ℤ (signed v (number xs)) (signed w (number ys))
unfolding compare
compare_signs (pos m) (pos n) xs ys a b =
    ground
      (arith, longer_is_larger xs ys, longer_is_larger ys xs, compare_digits-ordered (pos 1) xs ys)
compare_signs (pos m) (negsuc n) xs ys a b = ground (arith, suffix_pos ys 0 b.trimmed)
compare_signs (negsuc m) (pos n) xs ys a b = ground (arith, suffix_pos xs 0 a.trimmed)
compare_signs (negsuc m) (negsuc n) xs ys a b = ground (
  arith,
  suffix_pos xs 0 a.trimmed,
  suffix_pos ys 0 b.trimmed,
  longer_is_larger xs ys,
  longer_is_larger ys xs,
  compare_digits-ordered (negsuc 0) xs ys,
)

-- `krk_long_compare` orders two well-formed longs as the integers that they stand for.
pub compare_lem : {a b : Long} → IsLong a → IsLong b → compare a b ≡ ordered_ℤ (value a) (value b)
compare_lem {a} {b} va vb = compare_signs a.width b.width a.digits b.digits va vb
