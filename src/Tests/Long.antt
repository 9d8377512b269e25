-- ===== src/Tests/Long.antt =====
-- src/obj_long.c at concrete values.
use kuroko.Prelude.{◌+◌, ◌-◌, ◌≡◌, refl, [], ◌∷◌, arith}
use kuroko.Prelude.Int.{pos, negsuc, ◌+ℤ◌, ◌-ℤ◌, ◌*ℤ◌}
use kuroko.Long.{Long, init_ui, init_si, abs, magnitude, sign, trim}
use kuroko.Long.Compare.{compare, compare_lem, ordered_ℤ}
use kuroko.Long.Digits.{IsLong, number, value}
use kuroko.Long.Add.{add_ignore_sign, add_ignore_sign_lem}
use kuroko.Long.Sub.{sub_big_small, sub_big_small_lem}
use kuroko.Long.Trim.{trim_lem}
use kuroko.Long.Abs.{sign_ℤ, abs_lem, sign_lem}
use kuroko.Long.Init.{init_ui_lem, init_si_lem}
use kuroko.Long.Mul.{mul, mul_lem}
use kuroko.Long.Sum.Defs.{add, sub}
use kuroko.Long.Sum.Laws.{add_lem, sub_lem}
use kuroko.Long.Sum.Signs.{Represents}

-- -(5 + 7 * 2 ^ 31)
abbrev negative : Long
negative = record { width = negsuc 1; digits = 5 ∷ 7 ∷ [] }

-- 6 + 2147483647 * 2 ^ 31
abbrev positive : Long
positive = record { width = pos 2; digits = 6 ∷ 2147483647 ∷ [] }

negative-IsLong : IsLong negative
negative-IsLong = omega arith

positive-IsLong : IsLong positive
positive-IsLong = omega arith

init_si_runs : init_si (negsuc 15032385540) ≡ negative
unfolding init_si
init_si_runs = refl

add_runs : add positive positive ≡ record { width = pos 3; digits = 12 ∷ 2147483646 ∷ 1 ∷ [] }
unfolding add kuroko.Long.Add.add_ignore_sign kuroko.Long.set_sign
add_runs = refl

add_lem_example : Represents (value negative +ℤ value positive) (add negative positive)
add_lem_example = add_lem negative-IsLong positive-IsLong

sub_lem_example : Represents (value negative -ℤ value positive) (sub negative positive)
sub_lem_example = sub_lem negative-IsLong positive-IsLong

mul_lem_example : Represents (value negative *ℤ value positive) (mul negative positive)
mul_lem_example = mul_lem negative-IsLong positive-IsLong

compare_lem_example : compare negative positive ≡ ordered_ℤ (value negative) (value positive)
compare_lem_example = compare_lem negative-IsLong positive-IsLong

-- -12 with two zero digits in front
abbrev untrimmed : Long
untrimmed = record { width = negsuc 2; digits = 12 ∷ 0 ∷ 0 ∷ [] }

trim_lem_example : IsLong (trim untrimmed) × (value (trim untrimmed) ≡ value untrimmed)
trim_lem_example = trim_lem {l = untrimmed} (omega arith)

add_ignore_sign_lem_example :
    IsLong (add_ignore_sign negative positive)
    × (number (add_ignore_sign negative positive).digits
        ≡ number negative.digits + number positive.digits)
add_ignore_sign_lem_example =
    add_ignore_sign_lem {a = negative} {b = positive} negative-IsLong positive-IsLong

sub_big_small_lem_example :
    IsLong (sub_big_small positive negative)
    × (value (sub_big_small positive negative)
        ≡ pos (number positive.digits - number negative.digits))
sub_big_small_lem_example =
    sub_big_small_lem {a = positive} {b = negative} positive-IsLong negative-IsLong (omega arith)

init_ui_lem_example : Represents (pos 9223372036854775809) (init_ui 9223372036854775809)
init_ui_lem_example = init_ui_lem 9223372036854775809 (omega arith)

init_si_lem_example : Represents (negsuc 15032385540) (init_si (negsuc 15032385540))
init_si_lem_example = init_si_lem (negsuc 15032385540) (omega arith)

abs_lem_example : Represents (pos (magnitude (value negative))) (abs negative)
abs_lem_example = abs_lem negative-IsLong

sign_lem_example : sign negative ≡ sign_ℤ (value negative)
sign_lem_example = sign_lem negative-IsLong
