-- ===== src/Long/Abs.antt =====
-- src/obj_long.c: `krk_long_abs` and `krk_long_sign`.
use kuroko.Long.{Long, abs, sign, magnitude}
use kuroko.Long.Digits.{number, value, IsLong}
use kuroko.Long.Sum.Signs.{
  Represents, represents, set_sign-pos_lem, number_pos, number_of_width_zero,
}
use kuroko.Prelude.{ℕ, zero, suc, ◌≡◌, refl, List, arith}
use kuroko.Prelude.Int.{ℤ, pos, negsuc}

-- -1, 0 or 1.
abbrev pub sign_ℤ : ℤ → ℤ
sign_ℤ (pos zero) = pos 0
sign_ℤ (pos (suc n)) = pos 1
sign_ℤ (negsuc n) = negsuc 0

number-magnitude : (l : Long) → number l.digits ≡ magnitude (value l)
number-magnitude l = ground arith

-- `krk_long_abs` of a well-formed long is a well-formed long for the absolute value of its integer.
pub abs_lem : {l : Long} → IsLong l → Represents (pos (magnitude (value l))) (abs l)
unfolding abs
abs_lem {l} v = represents (set_sign-pos_lem l v) (ground (arith, number-magnitude l))

sign-cases :
    (w : ℤ) (digits : List ℕ)
    → IsLong (record { width = w; digits = digits })
    → sign (record { width = w; digits = digits })
      ≡ sign_ℤ (value (record { width = w; digits = digits }))
unfolding sign
sign-cases (pos zero) ds v = ground (arith, number_of_width_zero _ v refl)
sign-cases (pos (suc n)) ds v = ground (arith, number_pos _ v (omega arith))
sign-cases (negsuc n) ds v = ground (arith, number_pos _ v (omega arith))

-- `krk_long_sign` of a well-formed long is the sign of its integer.
pub sign_lem : {l : Long} → IsLong l → sign l ≡ sign_ℤ (value l)
sign_lem {l} v = sign-cases l.width l.digits v
