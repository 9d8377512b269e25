-- ===== src/Long/Div/Binary.antt =====
-- src/obj_long.c: the loop of `_div_abs` over the bits of the dividend.
use kuroko.Prelude.{
  ℕ, zero, suc, ◌+◌, ◌-◌, ◌*◌, ◌/◌, ◌%◌, ◌^◌, ◌≤◌, ◌<◌, ◌≡◌, refl, ap, sym, ◌∙◌, Bool-cases, inl,
  inr, List, [], ◌∷◌, arith, length, ltb, ◌==◌, if◌then◌else◌,
}
use kuroko.Prelude.Int.{ℤ, pos, negsuc}
use kuroko.Long.{Long, abs_width, is_negative}
use kuroko.Long.Compare.{compare, compare_lem}
use kuroko.Long.Digits.{number, AreDigits, IsTrimmed, IsLong, value, signed}
use kuroko.Long.Sub.{sub_big_small, sub_big_small_lem}
use kuroko.Long.Div.{lshift_one, bit_is_set, bit_set_zero, bit_set, div_bits}
use kuroko.Long.Div.Shift.{IsNatural, lshift_one_lem}
use kuroko.Long.Div.Bits.{next_bit, double_pow}
use kuroko.Long.Div.Change.{IsRawNatural, bit_is_set_lem, bit_set_zero_lem, bit_set_lem}
use native.Mathlib.Nat.{one-le-pow, mul-div_cancel, div-one}

pub natural_long : {n : ℕ} {l : Long} → IsNatural n l → IsLong l
natural_long v = record { sized = rw (v.plain) refl; bounded = v.bounded; trimmed = v.trimmed }

pub natural_value : {n : ℕ} {l : Long} → IsNatural n l → value l ≡ pos n
natural_value v = rw (v.plain, v.whole) refl

-- A well-formed long for a natural number has no sign.
pub long_natural : {n : ℕ} {l : Long} → IsLong l → value l ≡ pos n → IsNatural n l
long_natural {n} {l} v e = by_parts l.width l.digits v.sized v.bounded v.trimmed e
  where
    by_parts :
        (w : ℤ) (ds : List ℕ)
        → length ds ≡ abs_width w
        → AreDigits ds
        → IsTrimmed ds
        → signed w (number ds) ≡ pos n
        → IsNatural n (record { width = w; digits = ds })
    by_parts (pos m) ds sized h t e = record {
      plain = ap pos (sym sized);
      bounded = h;
      trimmed = t;
      whole = ground arith;
    }
    by_parts (negsuc m) [] sized h t e = absurd (omega arith)
    by_parts (negsuc m) (d ∷ ds) sized h t e = let p = t.0 in absurd (ground arith)

compare-natural :
    {m n : ℕ} {a b : Long} → IsNatural m a → IsNatural n b → is_negative (compare a b) ≡ ltb m n
compare-natural va vb =
    rw (compare_lem (natural_long va) (natural_long vb), natural_value va, natural_value vb)
      (ground arith)

sub-natural :
    {m n : ℕ} {a b : Long}
    → IsNatural m a
    → IsNatural n b
    → n ≤ m
    → IsNatural (m - n) (sub_big_small a b)
sub-natural va vb le =
    let (long, same) =
      sub_big_small_lem (natural_long va) (natural_long vb) (omega (arith, va.whole, vb.whole)) in
    long_natural long (same ∙ ap pos (omega (arith, va.whole, vb.whole)))

-- The quotient and the remainder of `n` by `m`, the quotient yet to be trimmed.
pub record IsDivided (n m : ℕ) (quot rem : Long) : Type 0 where
  pub q : ℕ
  pub r : ℕ
  pub quotient : IsRawNatural q quot
  pub remainder : IsNatural r rem
  pub whole : n ≡ q * m + r
  pub less : r < m

-- Before the bits below `i`: of the bits from there on there are the quotient `q`, at its place, and
-- the remainder.
pub record Invariant (n m i q r : ℕ) (quot rem : Long) : Type 0 where
  pub quotient : IsRawNatural (q * 2 ^ i) quot
  pub remainder : IsNatural r rem
  pub whole : n / 2 ^ i ≡ q * m + r
  pub less : r < m

module _ (a b : Long) (m : ℕ) (digits : AreDigits a.digits) (vb : IsNatural m b) where
  abbrev n : ℕ
  n = number a.digits

  abbrev bit : ℕ → ℕ
  bit i = n / 2 ^ i % 2

  next-natural :
      (i r : ℕ) (rem : Long)
      → IsNatural r rem
      → IsNatural (2 * r + bit i) (bit_set_zero (lshift_one rem) (bit_is_set a i))
  next-natural i r rem v =
      let e : (if n / 2 ^ i % 2 == 1 then 1 else 0) ≡ bit i = ground arith in
      let set = bit_set_zero_lem r (n / 2 ^ i % 2 == 1) (lshift_one_lem v) in
      rw (bit_is_set_lem a i digits) (rw e at set)

  double_place : (q i : ℕ) → q * 2 ^ suc i ≡ 2 * q * 2 ^ i
  double_place q i = rw double_pow (omega arith)

  -- The bit of the quotient is 0 where the next remainder is less than the divisor, and else 1.
  zero-Invariant :
      (i q r : ℕ) (quot rem next : Long)
      → Invariant n m (suc i) q r quot rem
      → IsNatural (2 * r + bit i) next
      → 2 * r + bit i < m
      → Invariant n m i (2 * q) (2 * r + bit i) quot next
  zero-Invariant i q r quot rem next v nat small = record {
    quotient = rw (← double_place q i) v.quotient;
    remainder = nat;
    whole = omega (arith, next_bit n i, v.whole);
    less = small;
  }

  one-Invariant :
      (i q r : ℕ) (quot rem next : Long)
      → Invariant n m (suc i) q r quot rem
      → IsNatural (2 * r + bit i) next
      → m ≤ 2 * r + bit i
      → Invariant n m i (2 * q + 1) (2 * r + bit i - m) (bit_set quot i) (sub_big_small next b)
  one-Invariant i q r quot rem next v nat large =
      let free : 2 * q * 2 ^ i / 2 ^ i % 2 ≡ 0 =
        rw (mul-div_cancel (2 * q) (one-le-pow i 2 (omega arith))) (omega arith) in
      let place : (2 * q + 1) * 2 ^ i ≡ 2 * q * 2 ^ i + 2 ^ i = omega arith in
      record {
        quotient = rw place (bit_set_lem i (rw (← double_place q i) v.quotient) free);
        remainder = sub-natural nat vb large;
        whole = omega (arith, next_bit n i, v.whole);
        less = omega (arith, v.less);
      }

  -- The loop divides.
  pub div_bits_lem :
      (i q r : ℕ) (quot rem : Long)
      → Invariant n m i q r quot rem
      → IsDivided n m (div_bits i a b quot rem).0 (div_bits i a b quot rem).1
  unfolding div_bits
  div_bits_lem zero q r quot rem v = record {
    q = q;
    r = r;
    quotient = rw (one_place q) at v.quotient;
    remainder = v.remainder;
    whole = rw div-one at v.whole;
    less = v.less;
  }
    where
      one_place : (q : ℕ) → q * 2 ^ zero ≡ q
      one_place q = omega arith
  div_bits_lem (suc i) q r quot rem v =
      let nat = next-natural i r rem v.remainder in
      elim (Bool-cases (ltb (2 * r + bit i) m)) [
        | inl e ↦
            rw (compare-natural nat vb, e, div_bits)
              (div_bits_lem i (2 * q) (2 * r + bit i) quot _
                (zero-Invariant i q r quot rem _ v nat (ground arith)))
        | inr e ↦
            rw (compare-natural nat vb, e, div_bits)
              (div_bits_lem i (2 * q + 1) (2 * r + bit i - m) _ _
                (one-Invariant i q r quot rem _ v nat (ground arith)))
      ]
