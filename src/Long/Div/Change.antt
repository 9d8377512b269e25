-- ===== src/Long/Div/Change.antt =====
-- src/obj_long.c: `_bits_in`, `_bit_is_set`, `_bit_set_zero` and `krk_long_bit_set` on numbers.
use kuroko.Prelude.{
  dec_lt, ℕ, zero, suc, ◌+◌, ◌-◌, ◌*◌, ◌/◌, ◌%◌, ◌^◌, ◌≤◌, ◌<◌, ◌≡◌, refl, ap, sym, ◌∙◌, Bool-cases,
  inl, inr, Bool, true, false, List, [], ◌∷◌, ◌++◌, arith, leb, ◌==◌, if◌then◌else◌, length, get_or,
  set, replicate, length-append, length-replicate, length-set, All-append, suc-eq_zero,
}
use kuroko.Prelude.Int.{pos}
use kuroko.Long.{Long, abs_width, resize, init_si}
use kuroko.Long.Digits.{
  number, AreDigits, IsTrimmed, number-replicate, replicate-AreDigits, digit_bound,
}
use kuroko.Long.Div.{bit_length, bits_in, bit_is_set, bit_set_zero, or_bit, bit_set}
use kuroko.Long.Div.Shift.{IsNatural, natural, natural_width}
use kuroko.Long.Div.Bits.{double_pow, pow_sum, number_bit, or_bit-bound, number-set, set-AreDigits}

-- The long is not negative and stands for the number; its top digits may be zero.
pub record IsRawNatural (n : ℕ) (l : Long) : Type 0 where
  pub plain : l.width ≡ pos (length l.digits)
  pub bounded : AreDigits l.digits
  pub whole : number l.digits ≡ n

bit_length-bound : (fuel d : ℕ) → d < 2 ^ fuel → d < 2 ^ bit_length fuel d
unfolding bit_length
bit_length-bound zero d h = h
bit_length-bound (suc fuel) d h = elim (Bool-cases (d == 0)) [
  | inl e ↦ rw (e, bit_length) (ground arith)
  | inr e ↦
      let ih = bit_length-bound fuel (d / 2) (omega (arith, double_pow fuel)) in
      let more : bit_length fuel (d / 2) + 1 ≡ suc (bit_length fuel (d / 2)) = omega arith in
      rw (e, bit_length, more) (omega (arith, double_pow (bit_length fuel (d / 2))))
]

number-top :
    (k d : ℕ) (ds : List ℕ)
    → AreDigits (d ∷ ds)
    → get_or (d ∷ ds) (length ds) 0 < 2 ^ k
    → number (d ∷ ds) < 2 ^ (k + length ds * 31)
number-top k d [] h l = let e : k + 0 * 31 ≡ k = omega arith in rw e (omega arith)
number-top k d (x ∷ xs) h l =
    let ih = number-top k x xs h.1 l in
    let e : k + suc (length xs) * 31 ≡ 31 + (k + length xs * 31) = omega arith in
    let split = pow_sum 31 (k + length xs * 31) in rw (e, split) (omega (arith, h.0))

-- The number fits into the bits that `_bits_in` counts.
pub bits_in-bound : (ds : List ℕ) → AreDigits ds → number ds < 2 ^ bits_in (natural ds)
unfolding bits_in
bits_in-bound [] h = omega arith
bits_in-bound (d ∷ ds) h =
    let top = get_or (d ∷ ds) (length ds) 0 in
    let pred : suc (length ds) - 1 ≡ length ds = omega arith in
    let small : top < 2 ^ 32 = omega (arith, digit_bound (d ∷ ds) (length ds) h) in
    rw (suc-eq_zero, pred) (number-top (bit_length 32 top) d ds h (bit_length-bound 32 top small))

-- `_bit_is_set` tests a bit of the number.
pub bit_is_set_lem :
    (l : Long) (i : ℕ) → AreDigits l.digits → bit_is_set l i ≡ (number l.digits / 2 ^ i % 2 == 1)
unfolding bit_is_set
bit_is_set_lem l i h = rw (number_bit l.digits i h) refl

even_zero : (d n : ℕ) → d ≡ 2 * n → d - d % 2 ≡ d
even_zero d n e = omega arith

zero_of_digits :
    (ds : List ℕ) (val : Bool)
    → IsTrimmed ds
    → AreDigits ds
    → (n : ℕ) → number ds ≡ 2 * n
    → IsNatural (2 * n + (if val then 1 else 0)) (bit_set_zero (natural ds) val)
unfolding bit_set_zero init_si
zero_of_digits [] true t h n e = record {
  plain = refl;
  bounded = (omega arith, tt);
  trimmed = (omega arith, tt);
  whole = omega arith;
}
zero_of_digits [] false t h n e = record {
  plain = refl;
  bounded = tt;
  trimmed = tt;
  whole = omega arith;
}
zero_of_digits (d ∷ ds) true t h n e = rw suc-eq_zero (record {
  plain = refl;
  bounded = (omega (arith, h.0), h.1);
  trimmed = (omega (arith, t.0), t.1);
  whole = omega arith;
})
zero_of_digits (d ∷ ds) false t h n e = rw suc-eq_zero (record {
  plain = refl;
  bounded = (omega (arith, h.0), h.1);
  trimmed = (omega (arith, t.0), t.1);
  whole = omega arith;
})

-- `_bit_set_zero` of an even number.
pub bit_set_zero_lem :
    (n : ℕ) {l : Long} (val : Bool)
    → IsNatural (2 * n) l
    → IsNatural (2 * n + (if val then 1 else 0)) (bit_set_zero l val)
bit_set_zero_lem n {l} val v =
    rw (natural_width l v.plain) (zero_of_digits l.digits val v.trimmed v.bounded n v.whole)

number-append_zeros : (ds : List ℕ) (n : ℕ) → number (ds ++ replicate n 0) ≡ number ds
number-append_zeros [] n = number-replicate n
number-append_zeros (d ∷ ds) n = omega (arith, number-append_zeros ds n)

resize_wider :
    (ds : List ℕ) (n : ℕ)
    → length ds ≤ n
    → resize (natural ds) (n + 1) ≡ natural (ds ++ replicate (n + 1 - length ds) 0)
unfolding resize
resize_wider ds n h =
    let e : length (ds ++ replicate (n + 1 - length ds) 0) ≡ n + 1 = omega (
      arith,
      length-append ds (replicate (n + 1 - length ds) 0),
      length-replicate {A = ℕ} (n + 1 - length ds) 0,
    ) in
    rw e (by_digits ds h)
  where
    by_digits :
        (ds : List ℕ)
        → length ds ≤ n
        → resize (natural ds) (n + 1)
          ≡ record { width = pos (n + 1); digits = ds ++ replicate (n + 1 - length ds) 0 }
    by_digits [] h = let e : n + 1 - 0 ≡ n + 1 = omega arith in rw e (ground arith)
    by_digits (d ∷ ds) h = ground (arith, suc-eq_zero (length ds))

-- A digit takes the bit where the number has none there.
or_digit :
    (ds : List ℕ) (i n : ℕ)
    → AreDigits ds
    → number ds ≡ n
    → i / 31 < length ds
    → n / 2 ^ i % 2 ≡ 0
    → IsRawNatural (n + 2 ^ i) (record {
      width = pos (length ds);
      digits = set ds (i / 31) (or_bit (get_or ds (i / 31) 0) (i % 31));
    })
or_digit ds i n h whole inside free =
    let digit = get_or ds (i / 31) 0 in
    let clear : digit / 2 ^ (i % 31) % 2 ≡ 0 = sym (number_bit ds i h) ∙ rw (whole) free in
    let p : 2 ^ (i % 31) * 2 ^ (31 * (i / 31)) ≡ 2 ^ i =
      let e : i % 31 + 31 * (i / 31) ≡ i = omega arith in
      sym (pow_sum (i % 31) (31 * (i / 31))) ∙ ap (λ k. 2 ^ k) e in
    let bound = or_bit-bound (i % 31) 31 digit (digit_bound ds (i / 31) h) (omega arith) clear in
    rw clear (record {
      plain = ap pos (sym (length-set ds (i / 31) _));
      bounded = set-AreDigits ds (i / 31) _ h bound;
      whole = number-set ds (i / 31) (2 ^ (i % 31)) inside ∙ omega arith;
    })

bit_set_wide :
    (num wide : Long) (bit : ℕ)
    → (if leb (abs_width num.width) (bit / 31) then resize num (bit / 31 + 1) else num) ≡ wide
    → bit_set num bit ≡ record wide {
      digits = set wide.digits (bit / 31) (or_bit (get_or wide.digits (bit / 31) 0) (bit % 31));
    }
unfolding bit_set
bit_set_wide num wide bit e = rw (← e) refl

-- `krk_long_bit_set` of a bit that the number has not.
pub bit_set_lem :
    {n : ℕ} {l : Long} (i : ℕ)
    → IsRawNatural n l
    → n / 2 ^ i % 2 ≡ 0
    → IsRawNatural (n + 2 ^ i) (bit_set l i)
bit_set_lem {n} {l} i v free = rw (natural_width l v.plain) (by_digits l.digits v.bounded v.whole)
  where
    by_digits :
        (ds : List ℕ)
        → AreDigits ds
        → number ds ≡ n
        → IsRawNatural (n + 2 ^ i) (bit_set (natural ds) i)
    by_digits ds h whole = elim (dec_lt (i / 31) (length ds)) [
      | yes inside ↦
          let stay : leb (length ds) (i / 31) ≡ false = ground arith in
          rw (bit_set_wide (natural ds) (natural ds) i (rw stay refl))
            (or_digit ds i n h whole inside free)
      | no outside ↦
          let grow : leb (length ds) (i / 31) ≡ true = ground arith in
          let more = i / 31 + 1 - length ds in
          let wide = ds ++ replicate more 0 in
          rw
            (bit_set_wide (natural ds) (natural wide) i
              (rw (grow, resize_wider ds (i / 31) (omega arith)) refl))
            (or_digit wide i n (All-append _ ds (replicate more 0) h (replicate-AreDigits more))
              (number-append_zeros ds more ∙ whole)
              (omega (arith, length-append ds (replicate more 0), length-replicate {A = ℕ} more 0))
              free)
    ]
