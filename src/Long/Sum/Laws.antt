-- ===== src/Long/Sum/Laws.antt =====
-- src/obj_long.c: `krk_long_add` and `krk_long_sub` are the sum and the difference.
use kuroko.Prelude.{
  suc-eq_zero, ℕ, zero, suc, Bool-cases, inl, inr, ◌≡◌, ◌≤◌, ◌-◌, ◌<◌, ◌+◌, refl, List, arith, ltb,
}
use kuroko.Prelude.Int.{ℤ, pos, negsuc, sub_ℕ, ◌+ℤ◌, ◌-ℤ◌}
use kuroko.Long.{Long, long_zero, set_sign}
use kuroko.Long.Add.{add_ignore_sign, add_ignore_sign_lem}
use kuroko.Long.Compare.{compare_abs, compare_abs_lem}
use kuroko.Long.Digits.{number, value, IsLong}
use kuroko.Long.Sub.{sub_big_small, sub_big_small_lem}
use kuroko.Long.Sum.Defs.{add, sub}
use kuroko.Long.Sum.Signs.{
  Represents, zero-Represents, represents, set_sign-pos_lem, set_sign-neg_lem, minus-Represents,
  minus-Represents_neg, number_of_width_zero,
}

module _ {a b : Long} (va : IsLong a) (vb : IsLong b) where
  -- `switch (krk_long_compare_abs(a,b))` takes the branch of the order of the numbers.
  by_order :
      (z : ℤ) (less same more : Long)
      → (number a.digits < number b.digits → Represents z less)
      → (number a.digits ≡ number b.digits → Represents z same)
      → (number b.digits < number a.digits → Represents z more)
      → Represents z
          (elim (compare_abs a b) [ negsuc _ ↦ less | pos zero ↦ same | pos (suc _) ↦ more ])
  by_order z less same more l e g = elim (Bool-cases (ltb (number b.digits) (number a.digits))) [
    | inl gt ↦ rw (compare_abs_lem va vb, gt) (g (ground arith))
    | inr not_gt ↦ elim (Bool-cases (ltb (number a.digits) (number b.digits))) [
      | inl lt ↦ rw (compare_abs_lem va vb, not_gt, lt) (l (ground arith))
      | inr not_lt ↦ rw (compare_abs_lem va vb, not_gt, not_lt) (e (ground arith))
    ]
  ]

  sum-pos :
      Represents (pos (number a.digits + number b.digits)) (set_sign (add_ignore_sign a b) (pos 1))
  sum-pos = let (v, e) = add_ignore_sign_lem va vb in rw (← e) (set_sign-pos_lem _ v)

  sum-neg :
      Represents
        (sub_ℕ 0 (number a.digits + number b.digits))
        (set_sign (add_ignore_sign a b) (negsuc 0))
  sum-neg = let (v, e) = add_ignore_sign_lem va vb in rw (← e) (set_sign-neg_lem _ v)

  less_zero :
      number a.digits ≡ number b.digits
      → Represents (sub_ℕ (number a.digits) (number b.digits)) long_zero
  less_zero e = represents zero-Represents (ground arith)

add_signs :
    (v w : ℤ) (xs ys : List ℕ)
    → let a : Long = record { width = v; digits = xs } in
      let b : Long = record { width = w; digits = ys } in
      IsLong a → IsLong b → Represents (value a +ℤ value b) (add a b)
unfolding add ◌+ℤ◌
add_signs (pos zero) w xs ys va vb =
    represents (record { long = vb; means = refl }) (ground (arith, number_of_width_zero _ va))
add_signs (pos (suc m)) (pos zero) xs ys va vb =
    simp suc-eq_zero
      (represents (record { long = va; means = refl }) (ground (arith, number_of_width_zero _ vb)))
add_signs (negsuc m) (pos zero) xs ys va vb =
    simp suc-eq_zero
      (represents (record { long = va; means = refl }) (ground (arith, number_of_width_zero _ vb)))
add_signs (pos (suc m)) (pos (suc n)) xs ys va vb =
    simp suc-eq_zero (represents (sum-pos va vb) (ground arith))
add_signs (negsuc m) (negsuc n) xs ys va vb =
    simp suc-eq_zero (represents (sum-neg va vb) (ground arith))
add_signs (pos (suc m)) (negsuc n) xs ys va vb = simp suc-eq_zero (
    by_order va vb _ _ _ _
      (λ h. represents (minus-Represents_neg vb va (omega arith)) (ground arith))
      (λ h. represents zero-Represents (ground arith))
      (λ h. represents (minus-Represents va vb (omega arith)) (ground arith)))
add_signs (negsuc m) (pos (suc n)) xs ys va vb = simp suc-eq_zero (
    by_order va vb _ _ _ _ (λ h. represents (minus-Represents vb va (omega arith)) (ground arith))
      (λ h. represents zero-Represents (ground arith))
      (λ h. represents (minus-Represents_neg va vb (omega arith)) (ground arith)))

-- `krk_long_add` of two well-formed longs is a well-formed long for the sum of their integers.
pub add_lem : {a b : Long} → IsLong a → IsLong b → Represents (value a +ℤ value b) (add a b)
add_lem {a} {b} va vb = add_signs a.width b.width a.digits b.digits va vb

plain-Represents :
    {a b : Long}
    → IsLong a
    → IsLong b
    → number b.digits ≤ number a.digits
    → Represents (pos (number a.digits - number b.digits)) (sub_big_small a b)
plain-Represents va vb le =
    let (v, e) = sub_big_small_lem va vb le in record { long = v; means = e }

sub_signs :
    (v w : ℤ) (xs ys : List ℕ)
    → let a : Long = record { width = v; digits = xs } in
      let b : Long = record { width = w; digits = ys } in
      IsLong a → IsLong b → Represents (value a -ℤ value b) (sub a b)
unfolding sub ◌-ℤ◌
sub_signs (pos zero) (pos n) xs ys va vb =
    represents (set_sign-neg_lem _ vb) (ground (arith, number_of_width_zero _ va))
sub_signs (pos zero) (negsuc n) xs ys va vb =
    represents (set_sign-pos_lem _ vb) (ground (arith, number_of_width_zero _ va))
sub_signs (pos (suc m)) (pos zero) xs ys va vb =
    simp suc-eq_zero
      (represents (record { long = va; means = refl }) (ground (arith, number_of_width_zero _ vb)))
sub_signs (negsuc m) (pos zero) xs ys va vb =
    simp suc-eq_zero
      (represents (record { long = va; means = refl }) (ground (arith, number_of_width_zero _ vb)))
sub_signs (pos (suc m)) (negsuc n) xs ys va vb =
    simp suc-eq_zero (represents (sum-pos va vb) (ground arith))
sub_signs (negsuc m) (pos (suc n)) xs ys va vb =
    simp suc-eq_zero (represents (sum-neg va vb) (ground arith))
sub_signs (pos (suc m)) (pos (suc n)) xs ys va vb = simp suc-eq_zero (
    by_order va vb _ _ _ _
      (λ h. represents (minus-Represents_neg vb va (omega arith)) (ground arith))
      (λ h. represents zero-Represents (ground arith))
      (λ h. represents (plain-Represents va vb (omega arith)) (ground arith)))
sub_signs (negsuc m) (negsuc n) xs ys va vb = simp suc-eq_zero (
    by_order va vb _ _ _ _ (λ h. represents (plain-Represents vb va (omega arith)) (ground arith))
      (λ h. represents zero-Represents (ground arith))
      (λ h. represents (minus-Represents_neg va vb (omega arith)) (ground arith)))

-- `krk_long_sub` of two well-formed longs is a well-formed long for the difference of their integers.
pub sub_lem : {a b : Long} → IsLong a → IsLong b → Represents (value a -ℤ value b) (sub a b)
sub_lem {a} {b} va vb = sub_signs a.width b.width a.digits b.digits va vb
