-- ===== src/Long/Div/Abs.antt =====
-- src/obj_long.c: `_div_abs` divides absolute values.
use kuroko.Prelude.{
  ℕ, ◌+◌, ◌*◌, ◌<◌, ◌≡◌, refl, ap, sym, ◌∙◌, ◌&&◌, Option, none, some, List, [], ◌∷◌, arith, length,
  ltb, ◌==◌, if-both, get_or,
}
use kuroko.Prelude.Int.{pos}
use kuroko.Long.{Long, digit_base, abs_width, long_zero, trim, init_si, set_sign}
use kuroko.Long.Digits.{number, IsLong, IsRaw, value, longer_is_larger, digit_bound}
use kuroko.Long.Init.{init_si_lem}
use kuroko.Long.Trim.{trim_lem}
use kuroko.Long.Sum.Signs.{
  Represents, zero-Represents, set_sign-pos_lem, number_of_width_zero, number_pos,
}
use kuroko.Long.Div.{bits_in, div_digits, div_bits, div_abs}
use kuroko.Long.Div.Shift.{IsNatural, natural}
use kuroko.Long.Div.Small.{div_digits-Divides}
use kuroko.Long.Div.Change.{IsRawNatural, bits_in-bound}
use kuroko.Long.Div.Binary.{long_natural, Invariant, div_bits_lem}
use native.Mathlib.Nat.{div-eq_of_lt}

-- The quotient and the remainder of `n` by `m`.
pub record AreQuotients (n m : ℕ) (quot rem : Long) : Type 0 where
  pub q : ℕ
  pub r : ℕ
  pub quotient : IsNatural q quot
  pub remainder : IsNatural r rem
  pub whole : n ≡ q * m + r
  pub less : r < m

-- Without a result the divisor is zero.
abbrev pub Divided : ℕ → ℕ → Option (Long × Long) → Type 0
Divided n m none = m ≡ 0
Divided n m (some (quot, rem)) = (0 < m) × AreQuotients n m quot rem

pub represented : {n : ℕ} {l : Long} → Represents (pos n) l → IsNatural n l
represented v = long_natural v.long v.means

pub absolute : (l : Long) → IsLong l → IsNatural (number l.digits) (set_sign l (pos 1))
absolute l v = represented (set_sign-pos_lem l v)

trim-natural : {n : ℕ} {l : Long} → IsRawNatural n l → IsNatural n (trim l)
trim-natural {n} {l} v =
    let raw : IsRaw l = record { sized = rw (v.plain) refl; bounded = v.bounded } in
    let (long, same) = trim_lem raw in
    let means : value l ≡ pos n = rw (v.plain, v.whole) refl in long_natural long (same ∙ means)

single-digit : (ds : List ℕ) → length ds ≡ 1 → number ds ≡ get_or ds 0 0
single-digit [] e = refl
single-digit (d ∷ []) e = omega arith
single-digit (d ∷ x ∷ ds) e = absurd (omega arith)

bits_in-natural :
    (l : Long) → length l.digits ≡ abs_width l.width → bits_in l ≡ bits_in (natural l.digits)
unfolding bits_in
bits_in-natural l e = rw (← e) refl

module _ (a b : Long) (va : IsLong a) (vb : IsLong b) where
  abbrev m : ℕ
  m = number a.digits

  abbrev n : ℕ
  n = number b.digits

  abbrev zeros : IsNatural 0 long_zero
  zeros = represented zero-Represents

  small-Quotients :
      abs_width b.width ≡ 1
      → 0 < n
      → AreQuotients m n
          (trim (record {
            width = pos (abs_width a.width);
            digits = (div_digits (get_or b.digits 0 0) a.digits).0;
          }))
          (init_si (pos (div_digits (get_or b.digits 0 0) a.digits).1))
  small-Quotients one p =
      let single = single-digit b.digits (vb.sized ∙ one) in
      let bound : get_or b.digits 0 0 < digit_base = digit_bound b.digits 0 vb.bounded in
      let (sized, divides) =
        div_digits-Divides (get_or b.digits 0 0) (omega arith) bound a.digits va.bounded in
      record {
        q = number (div_digits (get_or b.digits 0 0) a.digits).0;
        r = (div_digits (get_or b.digits 0 0) a.digits).1;
        quotient = trim-natural (record {
          plain = ap pos (sym (sized ∙ va.sized));
          bounded = divides.bounded;
          whole = refl;
        });
        remainder = represented (init_si_lem _ (omega (arith, divides.less)));
        whole = rw single (sym (divides.whole));
        less = rw single (divides.less);
      }

  large-Quotients :
      0 < n
      → AreQuotients m n
          (trim
            (div_bits (bits_in a) (set_sign a (pos 1)) (set_sign b (pos 1)) long_zero long_zero).0)
          (div_bits (bits_in a) (set_sign a (pos 1)) (set_sign b (pos 1)) long_zero long_zero).1
  large-Quotients p =
      let abs_a = absolute a va in
      let start : Invariant (number (set_sign a (pos 1)).digits) n (bits_in a) 0 0 long_zero
          long_zero =
        record {
          quotient = record { plain = refl; bounded = tt; whole = omega arith };
          remainder = zeros;
          whole =
              rw (abs_a.whole, bits_in-natural a va.sized)
                (div-eq_of_lt (bits_in-bound a.digits va.bounded) ∙ omega arith);
          less = p;
        } in
      let divided =
        div_bits_lem (set_sign a (pos 1)) (set_sign b (pos 1)) n abs_a.bounded (absolute b vb)
          (bits_in a) 0 0 long_zero long_zero start in
      record {
        q = divided.q;
        r = divided.r;
        quotient = trim-natural divided.quotient;
        remainder = divided.remainder;
        whole = sym (abs_a.whole) ∙ divided.whole;
        less = divided.less;
      }

  -- `_div_abs` of well-formed longs: no result for the divisor zero, else the quotient and the
  -- remainder of the absolute values.
  pub div_abs_lem : Divided m n (div_abs a b)
  unfolding div_abs
  div_abs_lem =
      if-both (Divided m n) (abs_width b.width == 0) (λ e. number_of_width_zero b vb (ground arith))
        (λ e.
          let p : 0 < n = number_pos b vb (λ z. ground arith) in
          if-both (Divided m n) (abs_width a.width == 0)
            (λ f. (p, exact (number_of_width_zero a va (ground arith)) p))
            (λ _.
              if-both (Divided m n) ((abs_width b.width == 1) && (get_or b.digits 0 0 == 1))
                (λ f. (p, by_one (ground arith) (ground arith)))
                (λ _.
                  if-both (Divided m n) (ltb (abs_width a.width) (abs_width b.width))
                    (λ f. (p, by_longer (ground arith)))
                    (λ _.
                      if-both (Divided m n) (abs_width b.width == 1)
                        (λ f. (p, small-Quotients (ground arith) p))
                        (λ _. (p, large-Quotients p))))))
    where
      exact : m ≡ 0 → 0 < n → AreQuotients m n long_zero long_zero
      exact e p = record {
        q = 0;
        r = 0;
        quotient = zeros;
        remainder = zeros;
        whole = omega arith;
        less = p;
      }

      by_one :
          abs_width b.width ≡ 1
          → get_or b.digits 0 0 ≡ 1
          → AreQuotients m n (set_sign a (pos 1)) long_zero
      by_one one digit =
          let e : n ≡ 1 = single-digit b.digits (vb.sized ∙ one) ∙ digit in
          record {
            q = m;
            r = 0;
            quotient = absolute a va;
            remainder = zeros;
            whole = rw e (omega arith);
            less = omega arith;
          }

      by_longer :
          abs_width a.width < abs_width b.width → AreQuotients m n long_zero (set_sign a (pos 1))
      by_longer h = record {
        q = 0;
        r = m;
        quotient = zeros;
        remainder = absolute a va;
        whole = omega arith;
        less =
            longer_is_larger a.digits b.digits va.bounded vb.trimmed
              (omega (arith, va.sized, vb.sized));
      }
