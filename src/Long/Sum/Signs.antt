-- ===== src/Long/Sum/Signs.antt =====
-- src/obj_long.c: what `krk_long_set_sign` does to the value of a long.
use kuroko.Prelude.{ℕ, ◌≡◌, ◌≢◌, ◌≤◌, ◌-◌, ◌<◌, refl, List, [], ◌∷◌, arith, length}
use kuroko.Prelude.Int.{ℤ, pos, negsuc, sub_ℕ}
use kuroko.Long.{Long, long_zero, abs_width, set_sign}
use kuroko.Long.Digits.{number, value, IsLong, suffix_pos}
use kuroko.Long.Sub.{sub_big_small, sub_big_small_lem}
use kuroko.Long.Trim.{set_sign-pos, set_sign_neg}

-- A well-formed long that stands for `z`.
pub record Represents (z : ℤ) (l : Long) : Type 0 where
  pub long : IsLong l
  pub means : value l ≡ z

pub zero-Represents : Represents (pos 0) long_zero
zero-Represents = record {
  long = record { sized = refl; bounded = tt; trimmed = tt };
  means = refl;
}

pub represents : {y z : ℤ} {l : Long} → Represents y l → y ≡ z → Represents z l
represents r e = record { long = r.long; means = rw (← e) r.means }

number_zero : (ds : List ℕ) → length ds ≡ 0 → number ds ≡ 0
number_zero [] h = refl
number_zero (d ∷ ds) h = absurd (omega arith)

pub set_sign-pos_lem :
    (l : Long) → IsLong l → Represents (pos (number l.digits)) (set_sign l (pos 1))
set_sign-pos_lem l v = rw set_sign-pos (record {
  long = record { sized = v.sized; bounded = v.bounded; trimmed = v.trimmed };
  means = refl;
})

pub set_sign-neg_lem :
    (l : Long) → IsLong l → Represents (sub_ℕ 0 (number l.digits)) (set_sign l (negsuc 0))
set_sign-neg_lem l v = rw set_sign_neg (record {
  long = record { sized = ground (arith, v.sized); bounded = v.bounded; trimmed = v.trimmed };
  means = ground (arith, v.sized, number_zero l.digits);
})

-- The number of a long that stands for `pos n`.
pub number_of_value : (l : Long) (n : ℕ) → value l ≡ pos n → number l.digits ≡ n
number_of_value l n e = ground arith

pub number_pos : (l : Long) → IsLong l → abs_width l.width ≢ 0 → 0 < number l.digits
number_pos l v h = suffix_pos l.digits 0 v.trimmed (omega (arith, v.sized))

pub number_of_width_zero : (l : Long) → IsLong l → abs_width l.width ≡ 0 → number l.digits ≡ 0
number_of_width_zero l v h = number_zero l.digits (omega (arith, v.sized))

module _ {a b : Long} (va : IsLong a) (vb : IsLong b) (le : number b.digits ≤ number a.digits) where
  difference : number (sub_big_small a b).digits ≡ number a.digits - number b.digits
  difference = number_of_value _ _ (sub_big_small_lem va vb le).1

  pub minus-Represents :
      Represents (pos (number a.digits - number b.digits)) (set_sign (sub_big_small a b) (pos 1))
  minus-Represents = rw (← difference) (set_sign-pos_lem _ (sub_big_small_lem va vb le).0)

  pub minus-Represents_neg :
      Represents
        (sub_ℕ 0 (number a.digits - number b.digits))
        (set_sign (sub_big_small a b) (negsuc 0))
  minus-Represents_neg = rw (← difference) (set_sign-neg_lem _ (sub_big_small_lem va vb le).0)
