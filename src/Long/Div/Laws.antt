-- ===== src/Long/Div/Laws.antt =====
-- src/obj_long.c: `krk_long_div_rem` rounds the quotient down.
use kuroko.Prelude.{
  ℕ, zero, suc, ◌+◌, ◌-◌, ◌≡◌, ◌≢◌, refl, ap, sym, ◌∙◌, Bool, true, false, Option, none, some,
  arith, ◌==◌, if◌then◌else◌, if-both,
}
use kuroko.Prelude.Int.{ℤ, pos, negsuc, sub_ℕ}
use kuroko.Long.{Long, abs_width, is_negative, init_si, set_sign}
use kuroko.Long.Digits.{number, IsLong, value}
use kuroko.Long.Init.{init_si_lem}
use kuroko.Long.Sub.{sub_big_small, sub_big_small_lem}
use kuroko.Long.Sum.Defs.{add, differ}
use kuroko.Long.Sum.Laws.{add_lem}
use kuroko.Long.Sum.Signs.{
  Represents, represents, set_sign-neg_lem, number_of_width_zero, number_pos,
}
use kuroko.Long.Div.{div_abs, floored, div_rem}
use kuroko.Long.Div.Shift.{IsNatural}
use kuroko.Long.Div.Binary.{natural_long, natural_value, long_natural}
use kuroko.Long.Div.Abs.{AreQuotients, Divided, represented, div_abs_lem}
use kuroko.Long.Div.Floor.{FloorDivides, floor_quotient, floor_remainder, floor_lem, sum-pos}

-- Without a result the divisor is zero; with one it is not.
abbrev pub Floored : ℤ → ℤ → Option (Long × Long) → Type 0
Floored a b none = b ≡ pos 0
Floored a b (some (quot, rem)) =
    (b ≢ pos 0) × IsLong quot × IsLong rem × FloorDivides a b (value quot) (value rem)

choice :
    {y z : ℤ} {k l : Long} (c : Bool)
    → Represents y k
    → Represents z l
    → Represents (if c then y else z) (if c then k else l)
choice true v w = v
choice false v w = w

natural_choice :
    {m n : ℕ} {k l : Long} (c : Bool)
    → IsNatural m k
    → IsNatural n l
    → IsNatural (if c then m else n) (if c then k else l)
natural_choice true v w = v
natural_choice false v w = w

no_digits : (l : Long) → number l.digits ≡ 0 → IsLong l → abs_width l.width ≡ 0
no_digits l e v = ground (arith, number_pos l v)

div_rem-none : (a b : Long) → div_abs a b ≡ none → div_rem a b ≡ none
unfolding div_rem
div_rem-none a b e = rw (e, div_rem) refl

div_rem-some :
    (a b quot rem : Long)
    → div_abs a b ≡ some (quot, rem)
    → div_rem a b ≡ some (floored a b quot rem)
unfolding div_rem
div_rem-some a b quot rem e = rw (e, div_rem) refl

module _ {a b quot rem : Long} (va : IsLong a) (vb : IsLong b)
    (d : AreQuotients (number a.digits) (number b.digits) quot rem) where
  abbrev n : ℕ
  n = number b.digits

  abbrev apart : Bool
  apart = differ (is_negative a.width) (is_negative b.width)

  up-IsNatural : IsNatural (d.q + 1) (add quot (init_si (pos 1)))
  up-IsNatural =
      let one = init_si_lem (pos 1) (omega arith) in
      let sum = add_lem (natural_long d.quotient) one.long in
      represented (
        represents sum
          (rw (natural_value d.quotient, one.means) (sym (sum-pos (d.q + 1) d.q 1 refl))))

  over-IsNatural : IsNatural (n - d.r) (sub_big_small b rem)
  over-IsNatural =
      let (long, same) =
        sub_big_small_lem vb (natural_long d.remainder)
          (omega (arith, d.remainder.whole, d.less)) in
      long_natural long (same ∙ ap pos (omega (arith, d.remainder.whole)))

  negative : {k : ℕ} {l : Long} → IsNatural k l → Represents (sub_ℕ 0 k) (set_sign l (negsuc 0))
  negative {k} {l} v = represents (set_sign-neg_lem l (natural_long v)) (rw (v.whole) refl)

  plain : {k : ℕ} {l : Long} → IsNatural k l → Represents (pos k) l
  plain v = record { long = natural_long v; means = natural_value v }

  -- The rounding is left out where the remainder is zero.
  exact-width : d.r ≡ 0 → (if abs_width rem.width == 0 then false else true) ≡ false
  exact-width e =
      let zero_width : abs_width rem.width ≡ 0 =
        no_digits rem (d.remainder.whole ∙ e) (natural_long d.remainder) in
      rw zero_width refl

  inexact-width : d.r ≢ 0 → (if abs_width rem.width == 0 then false else true) ≡ true
  inexact-width ne =
      let wide : (abs_width rem.width == 0) ≡ false =
        ground (arith, number_of_width_zero rem (natural_long d.remainder), d.remainder.whole) in
      rw wide refl

  floored-exact :
      d.r ≡ 0
      → floored a b quot rem ≡ (
        if apart then set_sign quot (negsuc 0) else quot,
        if is_negative b.width
            then set_sign (if apart then rem else rem) (negsuc 0)
            else if apart
            then rem
            else rem,
      )
  unfolding floored
  floored-exact e = rw (exact-width e) refl

  floored-inexact :
      d.r ≢ 0
      → floored a b quot rem ≡ (
        if apart then set_sign (add quot (init_si (pos 1))) (negsuc 0) else quot,
        if is_negative b.width
            then set_sign (if apart then sub_big_small b rem else rem) (negsuc 0)
            else if apart
            then sub_big_small b rem
            else rem,
      )
  unfolding floored
  floored-inexact ne = rw (inexact-width ne) refl

  remainder-choice :
      (k : ℕ) (l : Long) (negative_b : Bool)
      → IsNatural k l
      → Represents
          (if negative_b then sub_ℕ 0 k else pos k)
          (if negative_b then set_sign l (negsuc 0) else l)
  remainder-choice k l negative_b v = choice negative_b (negative v) (plain v)

  floored_lem :
      Represents (floor_quotient apart d.q d.r) (floored a b quot rem).0
      × Represents (floor_remainder apart (is_negative b.width) n d.r) (floored a b quot rem).1
  floored_lem = by_remainder d.r refl
    where
      zero_remainder : d.r ≡ 0 → IsNatural 0 (if apart then rem else rem)
      zero_remainder e =
          if-both (IsNatural 0) apart (λ _. rw (← e) (d.remainder)) (λ _. rw (← e) (d.remainder))

      no_sign : (c : Bool) → (if c then sub_ℕ 0 0 else pos 0) ≡ pos 0
      no_sign true = refl
      no_sign false = refl

      by_remainder :
          (r : ℕ)
          → d.r ≡ r
          → Represents (floor_quotient apart d.q r) (floored a b quot rem).0
            × Represents (floor_remainder apart (is_negative b.width) n r) (floored a b quot rem).1
      by_remainder zero e = rw (floored-exact e) (
        choice apart (negative d.quotient) (plain d.quotient),
        represents
            (remainder-choice 0 (if apart then rem else rem) (is_negative b.width)
              (zero_remainder e))
            (no_sign (is_negative b.width)),
      )
      by_remainder (suc r) e = rw (floored-inexact (λ z. ground arith)) (
        choice apart (negative up-IsNatural) (plain d.quotient),
        remainder-choice (if apart then n - suc r else suc r)
            (if apart then sub_big_small b rem else rem) (is_negative b.width)
            (natural_choice apart (rw (← e) over-IsNatural) (rw (← e) (d.remainder))),
      )

-- `krk_long_div_rem` of two well-formed longs gives no result exactly where the second is zero. Else it
-- gives two well-formed longs: the quotient rounded down, and the remainder, which is smaller than
-- the divisor in magnitude and is zero or has its sign.
pub div_rem_lem : {a b : Long} → IsLong a → IsLong b → Floored (value a) (value b) (div_rem a b)
div_rem_lem {a} {b} va vb = by_result (div_abs a b) (div_abs_lem a b va vb) refl
  where
    by_result :
        (result : Option (Long × Long))
        → Divided (number a.digits) (number b.digits) result
        → div_abs a b ≡ result
        → Floored (value a) (value b) (div_rem a b)
    by_result none divided e = rw (div_rem-none a b e) (ground arith)
    by_result (some (quot, rem)) divided e =
        let d = divided.1 in
        let (quotient, remainder) = floored_lem va vb d in
        rw (div_rem-some a b quot rem e) (
          λ z. ground (arith, divided.0),
          quotient.long,
          remainder.long,
          rw (quotient.means, remainder.means)
              (floor_lem a.width b.width _ _ d.q d.r (d.whole) (d.less)),
        )
