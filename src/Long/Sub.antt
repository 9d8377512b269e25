-- ===== src/Long/Sub.antt =====
-- src/obj_long.c: `_sub_big_small`, which subtracts absolute values.
use kuroko.Prelude.{
  ℕ, zero, suc, ◌+◌, ◌-◌, ◌*◌, ◌%◌, ◌≤◌, ◌≡◌, refl, ap, ◌∙◌, List, [], ◌∷◌, arith, length, get_or,
  drop, ltb, if◌then◌else◌,
}
use kuroko.Prelude.Int.{pos}
use kuroko.Long.{Long, digit_base, abs_width, digit, trim}
use kuroko.Long.Digits.{number, AreDigits, IsLong, IsRaw, value, number-drop, drop_all, digit_bound}
use kuroko.Long.Add.{digit-get_or}
use kuroko.Long.Trim.{trim_lem}

-- The loop from index `i` on. The C code computes `a_digit = a->digits[i] - carry` with a sign;
-- here the carry is moved to the other side of the test, and the base is added first.
sub_loop : ℕ → ℕ → ℕ → Long → Long → List ℕ
sub_loop zero i carry a b = []
sub_loop (suc n) i carry a b =
    let borrow = ltb (digit a i) (digit b i + carry) in
    let a_digit = if borrow then digit a i + digit_base else digit a i in
    (a_digit - carry - digit b i) % digit_base ∷ sub_loop n (i + 1) (if borrow then 1 else 0) a b

unfoldable pub sub_big_small : Long → Long → Long
unfolding sub_loop
sub_big_small a b =
    let owidth = abs_width a.width in
    trim (record { width = pos owidth; digits = sub_loop owidth 0 0 a b })

-- What the loop writes from index `i` on.
record Subtracts (n i carry : ℕ) (a b : Long) (out : List ℕ) : Type 0 where
  sized : length out ≡ n
  difference : number out + (number (drop i b.digits) + carry) ≡ number (drop i a.digits)
  bounded : AreDigits out

sub_loop-Subtracts :
    (n i carry : ℕ) (a b : Long)
    → IsLong a
    → IsLong b
    → carry ≤ 1
    → i + n ≡ length a.digits
    → number (drop i b.digits) + carry ≤ number (drop i a.digits)
    → Subtracts n i carry a b (sub_loop n i carry a b)
unfolding sub_loop
sub_loop-Subtracts zero i carry a b va vb c la le = record {
  sized = refl;
  difference = omega (arith, drop_all a.digits i);
  bounded = tt;
}
sub_loop-Subtracts (suc n) i carry a b va vb c la le =
    let da = digit-get_or a i va.sized in
    let db = digit-get_or b i vb.sized in
    let na = number-drop a.digits i in
    let nb = number-drop b.digits i in
    let ba = digit_bound a.digits i va.bounded in
    let bb = digit_bound b.digits i vb.bounded in
    let borrow = ltb (digit a i) (digit b i + carry) in
    let carry' : ℕ = if borrow then 1 else 0 in
    let out : ℕ =
      ((if borrow then digit a i + digit_base else digit a i) - carry - digit b i) % digit_base in
    let small : carry' ≤ 1 = ground arith in
    let borrowed : out + get_or b.digits i 0 + carry ≡ get_or a.digits i 0 + digit_base * carry' =
      ground arith in
    let left : number (drop (i + 1) b.digits) + carry' ≤ number (drop (i + 1) a.digits) =
      omega arith in
    let ih = sub_loop-Subtracts n (i + 1) carry' a b va vb small (omega arith) left in
    record {
      sized = omega (arith, ih.sized);
      difference = omega (arith, ih.difference);
      bounded = (omega arith, ih.bounded);
    }

-- `_sub_big_small` of two well-formed longs, the second not larger in absolute value, is a
-- well-formed long for the difference of the absolute values.
pub sub_big_small_lem :
    {a b : Long}
    → IsLong a
    → IsLong b
    → number b.digits ≤ number a.digits
    → IsLong (sub_big_small a b)
      × (value (sub_big_small a b) ≡ pos (number a.digits - number b.digits))
unfolding sub_big_small
sub_big_small_lem {a} {b} va vb le =
    let subs =
      sub_loop-Subtracts (abs_width a.width) 0 0 a b va vb (omega arith) (omega (arith, va.sized))
        (omega arith) in
    let raw : IsRaw (record {
      width = pos (abs_width a.width);
      digits = sub_loop (abs_width a.width) 0 0 a b;
    }) =
      record { sized = subs.sized; bounded = subs.bounded } in
    let (long, same) = trim_lem raw in (long, same ∙ ap pos (omega (arith, subs.difference)))
