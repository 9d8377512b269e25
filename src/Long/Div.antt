-- ===== src/Long/Div.antt =====
-- src/obj_long.c: division with remainder, `krk_long_div_rem`.
pub mod Shift
pub mod Bits
pub mod Change
pub mod Small
pub mod Binary
pub mod Abs
pub mod Floor
pub mod Laws
use kuroko.Prelude.{
  ℕ, zero, suc, ◌+◌, ◌-◌, ◌*◌, ◌/◌, ◌%◌, ◌^◌, Bool, true, false, ◌&&◌, Option, none, some, List, [],
  ◌∷◌, ltb, leb, ◌==◌, if◌then◌else◌, get_or, set,
}
use kuroko.Prelude.Int.{ℤ, pos, negsuc}
use kuroko.Long.{
  Long, digit_base, abs_width, is_negative, long_zero, resize, set_sign, trim, init_si,
}
use kuroko.Long.Compare.{compare}
use kuroko.Long.Sub.{sub_big_small}
use kuroko.Long.Sum.Defs.{add, differ}

-- The digits behind the loop of `_lshift_one`, and the carry.
unfoldable pub shift_loop : ℕ → ℕ → List ℕ → List ℕ × ℕ
shift_loop zero carry ds = (ds, carry)
shift_loop (suc n) carry [] = ([], carry)
shift_loop (suc n) carry (d ∷ ds) =
    let (out, last) = shift_loop n (d / 2 ^ 30) ds in
    ((d * 2 + carry) % 2 ^ 32 % digit_base ∷ out, last)

-- From the resized long, of which the first digits are the number's.
unfoldable pub shift_into : ℕ → Long → Long
unfolding shift_loop
shift_into width wide =
    let (out, carry) = shift_loop width 0 wide.digits in
    record wide { digits = if carry == 0 then out else set out (abs_width wide.width - 1) 1 }

unfoldable pub lshift_one : Long → Long
unfolding shift_into resize
lshift_one num =
    let width = abs_width num.width in
    let out_width = if get_or num.digits (width - 1) 0 / 2 ^ 30 == 0 then width else width + 1 in
    if width == 0 then num else shift_into width (resize num out_width)

-- `while (digit) { c++; digit >>= 1; }`, with fuel.
unfoldable pub bit_length : ℕ → ℕ → ℕ
bit_length zero d = 0
bit_length (suc fuel) d = let rest = bit_length fuel (d / 2) in if d == 0 then 0 else rest + 1

unfoldable pub bits_in : Long → ℕ
unfolding bit_length
bits_in num =
    let width = abs_width num.width in
    if width == 0 then 0 else bit_length 32 (get_or num.digits (width - 1) 0) + (width - 1) * 31

unfoldable pub bit_is_set : Long → ℕ → Bool
bit_is_set num bit = get_or num.digits (bit / 31) 0 / 2 ^ (bit % 31) % 2 == 1

unfoldable pub bit_set_zero : Long → Bool → Long
unfolding init_si
bit_set_zero num val =
    let bit : ℕ = if val then 1 else 0 in
    let low = get_or num.digits 0 0 in
    if abs_width num.width == 0
    then init_si (pos bit)
    else record num { digits = set num.digits 0 (low - low % 2 + bit) }

-- `digit | (1 << bit)`
abbrev pub or_bit : ℕ → ℕ → ℕ
or_bit digit bit = if digit / 2 ^ bit % 2 == 1 then digit else digit + 2 ^ bit

-- The resize clears the new digits, so the loop that clears them again is left out.
unfoldable pub bit_set : Long → ℕ → Long
unfolding resize
bit_set num bit =
    let offset = bit / 31 in
    let wide = if leb (abs_width num.width) offset then resize num (offset + 1) else num in
    record wide {
      digits = set wide.digits offset (or_bit (get_or wide.digits offset 0) (bit % 31));
    }

-- The loop for a divisor of one digit, from the top: the quotients, and the remainder.
unfoldable pub div_digits : ℕ → List ℕ → List ℕ × ℕ
div_digits b [] = ([], 0)
div_digits b (d ∷ ds) =
    let (out, high) = div_digits b ds in
    let remainder = high * 2 ^ 31 % 2 ^ 64 + d in
    let q = remainder / b % 2 ^ 32 % digit_base in (q ∷ out, remainder - q * b)

-- The loop over the bits from the top: the quotient and the remainder.
unfoldable pub div_bits : ℕ → Long → Long → Long → Long → Long × Long
unfolding lshift_one bit_set_zero bit_is_set bit_set compare sub_big_small
div_bits zero a b quot rem = (quot, rem)
div_bits (suc i) a b quot rem =
    let next = bit_set_zero (lshift_one rem) (bit_is_set a i) in
    let small = is_negative (compare next b) in
    div_bits i a b (if small then quot else bit_set quot i)
      (if small then next else sub_big_small next b)

-- The quotient and the remainder of the absolute values; `none` where it returns 1.
unfoldable pub div_abs : Long → Long → Option (Long × Long)
unfolding set_sign trim init_si div_digits div_bits bits_in
div_abs a b =
    let a_width = abs_width a.width in
    let b_width = abs_width b.width in
    let small = div_digits (get_or b.digits 0 0) a.digits in
    let large =
      div_bits (bits_in a) (set_sign a (pos 1)) (set_sign b (pos 1)) long_zero long_zero in
    if b_width == 0
    then none
    else if a_width == 0
    then some (long_zero, long_zero)
    else if (b_width == 1) && (get_or b.digits 0 0 == 1)
    then some (set_sign a (pos 1), long_zero)
    else if ltb a_width b_width
    then some (long_zero, set_sign a (pos 1))
    else if b_width == 1
    then some (trim (record { width = pos a_width; digits = small.0 }), init_si (pos small.1))
    else some (trim large.0, large.1)

-- What `krk_long_div_rem` makes of the results for the absolute values.
unfoldable pub floored : Long → Long → Long → Long → Long × Long
unfolding set_sign add sub_big_small init_si
floored a b quot rem =
    let apart = differ (is_negative a.width) (is_negative b.width) in
    let inexact = if abs_width rem.width == 0 then false else true in
    let up = if inexact then add quot (init_si (pos 1)) else quot in
    let over = if inexact then sub_big_small b rem else rem in
    (
      if apart then set_sign up (negsuc 0) else quot,
      if is_negative b.width
          then set_sign (if apart then over else rem) (negsuc 0)
          else if apart
          then over
          else rem,
    )

-- `none` where it returns 1.
unfoldable pub div_rem : Long → Long → Option (Long × Long)
unfolding div_abs floored
div_rem a b = elim (div_abs a b) [ none ↦ none | some (quot, rem) ↦ some (floored a b quot rem) ]
