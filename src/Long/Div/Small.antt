-- ===== src/Long/Div/Small.antt =====
-- src/obj_long.c: the loop of `_div_abs` for a divisor of one digit.
use kuroko.Prelude.{
  ℕ, suc, ◌+◌, ◌-◌, ◌*◌, ◌/◌, ◌%◌, ◌^◌, ◌<◌, ◌≡◌, refl, ap, List, [], ◌∷◌, arith, length,
}
use kuroko.Long.{digit_base}
use kuroko.Long.Digits.{number, AreDigits}
use kuroko.Long.Div.{div_digits}
use native.Mathlib.Nat.{div-lt_iff_lt-mul, div-add-mod', mod-lt}

-- The quotient and the remainder of a number by `b`.
pub record Divides (b n : ℕ) (out : List ℕ) (rem : ℕ) : Type 0 where
  pub bounded : AreDigits out
  pub whole : number out * b + rem ≡ n
  pub less : rem < b

module _ (b : ℕ) (some_b : 0 < b) (small_b : b < digit_base) where
  -- One digit more, below the others.
  step-Divides :
      (d high n : ℕ) (out : List ℕ)
      → d < digit_base
      → Divides b n out high
      → Divides b
          (d + digit_base * n)
          ((high * 2 ^ 31 + d) / b ∷ out)
          (high * 2 ^ 31 + d - (high * 2 ^ 31 + d) / b * b)
  step-Divides d high n out h v =
      let x = high * 2 ^ 31 + d in
      let q = x / b in
      let parts = div-add-mod' x b in
      let below = mod-lt x some_b in
      let fits : x < digit_base * b = omega (arith, v.less) in
      let small : q < digit_base = (div-lt_iff_lt-mul some_b).1 fits in
      let product : (q + digit_base * number out) * b ≡ q * b + digit_base * (number out * b) =
        omega arith in
      record {
        bounded = (small, v.bounded);
        whole = rw product (omega (arith, v.whole));
        less = omega arith;
      }

  -- No step of the loop wraps around.
  pub div_digits-Divides :
      (ds : List ℕ)
      → AreDigits ds
      → (length (div_digits b ds).0 ≡ length ds)
        × Divides b (number ds) (div_digits b ds).0 (div_digits b ds).1
  unfolding div_digits
  div_digits-Divides [] h = (refl, record { bounded = tt; whole = omega arith; less = some_b })
  div_digits-Divides (d ∷ ds) h =
      let (sized, ih) = div_digits-Divides ds h.1 in
      let high = (div_digits b ds).1 in
      let next = step-Divides d high (number ds) (div_digits b ds).0 h.0 ih in
      let plain : high * 2 ^ 31 % 2 ^ 64 ≡ high * 2 ^ 31 = omega (arith, ih.less) in
      let small : (high * 2 ^ 31 + d) / b % 2 ^ 32 % digit_base ≡ (high * 2 ^ 31 + d) / b =
        omega (arith, next.bounded.0) in
      rw (plain, small) (ap suc sized, next)
