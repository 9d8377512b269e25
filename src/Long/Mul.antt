-- ===== src/Long/Mul.antt =====
-- src/obj_long.c: `_mul_abs` and `krk_long_mul`.
use kuroko.Prelude.{
  append-nil, suc-eq_zero, ℕ, zero, suc, ◌+◌, ◌*◌, ◌-◌, ◌/◌, ◌%◌, ◌^◌, ◌≤◌, ◌<◌, ◌≡◌, refl, ap, ◌∙◌,
  List, [], ◌∷◌, ◌++◌, arith, length, replicate, length-replicate, ◌==◌, if◌then◌else◌,
}
use Prim.Native.Nat.add
use kuroko.Prelude.Int.{ℤ, pos, negsuc, sub_ℕ, ◌*ℤ◌}
use kuroko.Long.{Long, digit_base, abs_width, is_negative, trim, set_sign}
use kuroko.Long.Digits.{
  signed, number, AreDigits, IsLong, IsRaw, value, replicate-AreDigits, number-replicate,
}
use kuroko.Long.Sum.Defs.{differ}
use kuroko.Long.Sum.Signs.{
  Represents, represents, set_sign-pos_lem, set_sign-neg_lem, number_of_value, number_of_width_zero,
}
use kuroko.Long.Trim.{trim_lem}

-- The loop over `j`: the digits of `a` from `j` on, and those of `res` from `i + j` on. Behind the
-- last digit of `a` the carry is stored. A write past the end of `res` does nothing.
mul_row : List ℕ → ℕ → ℕ → List ℕ → List ℕ
mul_row [] b_digit carry [] = []
mul_row [] b_digit carry (r ∷ res) = carry % 2 ^ 32 ∷ res
mul_row (a_digit ∷ a) b_digit carry [] = []
mul_row (a_digit ∷ a) b_digit carry (r ∷ res) =
    let tmp = (carry + a_digit * b_digit + r) % 2 ^ 64 in
    tmp % digit_base ∷ mul_row a b_digit (tmp / digit_base) res

-- The loop over `i`: the digits of `b` and of `res` from `i` on.
mul_rows : List ℕ → List ℕ → List ℕ → List ℕ
mul_rows a [] res = res
mul_rows a (b_digit ∷ b) res = elim (mul_row a b_digit 0 res) [
  | [] ↦ []
  | r ∷ rest ↦ r ∷ mul_rows a b rest
]

unfoldable pub mul_abs : Long → Long → Long
unfolding mul_rows mul_row
mul_abs a b =
    let width = abs_width a.width + abs_width b.width in
    trim (record { width = pos width; digits = mul_rows a.digits b.digits (replicate width 0) })

unfoldable pub mul : Long → Long → Long
unfolding mul_abs
mul a b =
    if abs_width a.width == 0
    then a
    else if abs_width b.width == 0
    then b
    else if differ (is_negative a.width) (is_negative b.width)
    then set_sign (mul_abs a b) (negsuc 0)
    else set_sign (mul_abs a b) (pos 1)

-- The accumulator of a row fits 62 bits, so nothing wraps.
product_bound :
    (x y : ℕ) → x < digit_base → y < digit_base → x * y ≤ (digit_base - 1) * (digit_base - 1)
product_bound x y hx hy = grind arith

-- A row adds a multiple of `a` to the low digits, in as many digits and one more.
record Row (xs : List ℕ) (y c : ℕ) (lo zs out : List ℕ) : Type 0 where
  row : List ℕ
  shape : out ≡ row ++ zs
  sized : length row ≡ suc (length xs)
  bounded : AreDigits row
  adds : number row ≡ number lo + y * number xs + c

mul_row-Row :
    (xs : List ℕ) (y c : ℕ) (lo zs : List ℕ)
    → length lo ≡ length xs
    → AreDigits xs
    → AreDigits lo
    → y < digit_base
    → c < digit_base
    → Row xs y c lo zs (mul_row xs y c (lo ++ 0 ∷ zs))
unfolding mul_row
mul_row-Row [] y c [] zs e hx hl hy hc = record {
  row = c ∷ [];
  shape = ap (λ t. t ∷ zs) (omega arith);
  sized = refl;
  bounded = (hc, tt);
  adds = omega arith;
}
mul_row-Row [] y c (l ∷ lo) zs e hx hl hy hc = absurd (omega arith)
mul_row-Row (x ∷ xs) y c [] zs e hx hl hy hc = absurd (omega arith)
mul_row-Row (x ∷ xs) y c (l ∷ lo) zs e hx hl hy hc =
    let b = product_bound x y hx.0 hy in
    let tmp : ℕ = (c + x * y + l) % 2 ^ 64 in
    let ih = mul_row-Row xs y (tmp / digit_base) lo zs (omega arith) hx.1 hl.1 hy (omega arith) in
    record {
      row = tmp % digit_base ∷ ih.row;
      shape = ap (λ t. tmp % digit_base ∷ t) ih.shape;
      sized = ap suc ih.sized;
      bounded = (omega arith, ih.bounded);
      adds = omega (arith, ih.adds);
    }

-- What the rows make of the digits from `i` on: `lo`, and a zero for each round.
record Rows (xs ys lo out : List ℕ) : Type 0 where
  sized : length out ≡ length xs + length ys
  bounded : AreDigits out
  adds : number out ≡ number lo + number ys * number xs

mul_rows-Rows :
    (xs ys lo : List ℕ)
    → length lo ≡ length xs
    → AreDigits xs
    → AreDigits ys
    → AreDigits lo
    → Rows xs ys lo (mul_rows xs ys (lo ++ replicate (length ys) 0))
unfolding mul_rows
mul_rows-Rows xs [] lo e hx hy hl =
    rw append-nil (record { sized = omega arith; bounded = hl; adds = omega arith })
mul_rows-Rows xs (y ∷ ys) lo e hx hy hl =
    rw (row.shape, mul_rows)
      (step (λ r. mul_rows-Rows xs ys r) row.row row.sized row.bounded row.adds)
  where
    zs : List ℕ
    zs = replicate (length ys) 0

    row : Row xs y 0 lo zs (mul_row xs y 0 (lo ++ 0 ∷ zs))
    row = mul_row-Row xs y 0 lo zs e hx hl hy.0 (omega arith)

    step :
        ((r : List ℕ)
          → length r ≡ length xs
          → AreDigits xs
          → AreDigits ys
          → AreDigits r
          → Rows xs ys r (mul_rows xs ys (r ++ zs)))
        → (r : List ℕ) → length r ≡ suc (length xs)
        → AreDigits r
        → number r ≡ number lo + y * number xs + 0
        → Rows xs (y ∷ ys) lo (elim (r ++ zs) [ [] ↦ [] | d ∷ rest ↦ d ∷ mul_rows xs ys rest ])
    step rec [] s b n = absurd (omega arith)
    step rec (d ∷ r) s b n =
        let ih = rec r (omega arith) hx hy.1 b.1 in
        record {
          sized = omega (arith, ih.sized);
          bounded = (b.0, ih.bounded);
          adds = omega (arith, ih.adds);
        }

replicate-add : (m n : ℕ) → replicate {A = ℕ} (m + n) 0 ≡ replicate m 0 ++ replicate n 0
replicate-add zero n = rw add.zero
replicate-add (suc m) n = rw add.suc (ap (λ t. 0 ∷ t) (replicate-add m n))

-- The product of the absolute values, as a well-formed long that is not negative.
pub mul_abs_lem :
    {a b : Long}
    → IsLong a
    → IsLong b
    → Represents (pos (number a.digits * number b.digits)) (mul_abs a b)
unfolding mul_abs
mul_abs_lem {a} {b} va vb =
    let m = abs_width a.width in
    let n = abs_width b.width in
    let rows : Rows a.digits b.digits (replicate m 0)
        (mul_rows a.digits b.digits (replicate m 0 ++ replicate n 0)) =
      rw (← vb.sized) (
        mul_rows-Rows a.digits b.digits (replicate m 0)
          (omega (arith, length-replicate {A = ℕ} m 0, va.sized)) va.bounded vb.bounded
          (replicate-AreDigits m)) in
    let raw : IsRaw (record {
      width = pos (m + n);
      digits = mul_rows a.digits b.digits (replicate (m + n) 0);
    }) =
      rw (replicate-add) (record {
        sized = omega (arith, rows.sized, va.sized, vb.sized);
        bounded = rows.bounded;
      }) in
    let (long, same) = trim_lem raw in
    record {
      long = long;
      means = same ∙ ap pos (rw replicate-add (omega (arith, rows.adds, number-replicate m)));
    }

module _ {a b : Long} (va : IsLong a) (vb : IsLong b) where
  product-number : number (mul_abs a b).digits ≡ number a.digits * number b.digits
  product-number = number_of_value _ _ (mul_abs_lem va vb).means

  product-pos :
      Represents (pos (number a.digits * number b.digits)) (set_sign (mul_abs a b) (pos 1))
  product-pos = rw (← product-number) (set_sign-pos_lem _ (mul_abs_lem va vb).long)

  product-neg :
      Represents (sub_ℕ 0 (number a.digits * number b.digits)) (set_sign (mul_abs a b) (negsuc 0))
  product-neg = rw (← product-number) (set_sign-neg_lem _ (mul_abs_lem va vb).long)

-- Signs and magnitudes multiply apart.
pub product-signs :
    (v w : ℤ) (m n : ℕ)
    → (if differ (is_negative v) (is_negative w) then sub_ℕ 0 (m * n) else pos (m * n))
      ≡ signed v m *ℤ signed w n
unfolding ◌*ℤ◌
product-signs (pos _) (pos _) m n = ground arith
product-signs (pos _) (negsuc _) m zero = ground arith
product-signs (pos _) (negsuc _) m (suc n) = ground arith
product-signs (negsuc _) (pos _) zero n = ground arith
product-signs (negsuc _) (pos _) (suc m) n = ground arith
product-signs (negsuc _) (negsuc _) zero zero = ground arith
product-signs (negsuc _) (negsuc _) zero (suc n) = ground arith
product-signs (negsuc _) (negsuc _) (suc m) zero = ground arith
product-signs (negsuc _) (negsuc _) (suc m) (suc n) = ground arith

zero-product : (z : ℤ) → pos 0 ≡ pos 0 *ℤ z
unfolding ◌*ℤ◌
zero-product z = ground arith

product-zero : (z : ℤ) → pos 0 ≡ z *ℤ pos 0
unfolding ◌*ℤ◌
product-zero z = ground arith

mul_signs :
    (v w : ℤ) (xs ys : List ℕ)
    → let a : Long = record { width = v; digits = xs } in
      let b : Long = record { width = w; digits = ys } in
      IsLong a → IsLong b → Represents (value a *ℤ value b) (mul a b)
unfolding mul
mul_signs (pos zero) w xs ys va vb =
    represents (record { long = va; means = refl })
      (rw (number_of_width_zero _ va refl) (zero-product _))
mul_signs (pos (suc m)) (pos zero) xs ys va vb = simp suc-eq_zero (
    represents (record { long = vb; means = refl })
      (rw (number_of_width_zero _ vb refl) (product-zero _)))
mul_signs (negsuc m) (pos zero) xs ys va vb = simp suc-eq_zero (
    represents (record { long = vb; means = refl })
      (rw (number_of_width_zero _ vb refl) (product-zero _)))
mul_signs (pos (suc m)) (pos (suc n)) xs ys va vb =
    simp suc-eq_zero (represents (product-pos va vb) (product-signs (pos 1) (pos 1) _ _))
mul_signs (pos (suc m)) (negsuc n) xs ys va vb =
    simp suc-eq_zero (represents (product-neg va vb) (product-signs (pos 1) (negsuc 0) _ _))
mul_signs (negsuc m) (pos (suc n)) xs ys va vb =
    simp suc-eq_zero (represents (product-neg va vb) (product-signs (negsuc 0) (pos 1) _ _))
mul_signs (negsuc m) (negsuc n) xs ys va vb =
    simp suc-eq_zero (represents (product-pos va vb) (product-signs (negsuc 0) (negsuc 0) _ _))

-- `krk_long_mul` of two well-formed longs is a well-formed long for the product of their integers.
pub mul_lem : {a b : Long} → IsLong a → IsLong b → Represents (value a *ℤ value b) (mul a b)
mul_lem {a} {b} va vb = mul_signs a.width b.width a.digits b.digits va vb
