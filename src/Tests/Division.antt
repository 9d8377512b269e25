-- ===== src/Tests/Division.antt =====
-- src/obj_long.c: division at concrete values.
use kuroko.Prelude.{◌≡◌, refl, [], ◌∷◌, arith, some, none}
use kuroko.Prelude.Int.{pos, negsuc}
use kuroko.Long.{Long, init_si, long_zero}
use kuroko.Long.Digits.{IsLong, value}
use kuroko.Long.Div.{div_rem}
use kuroko.Long.Div.Laws.{Floored, div_rem_lem}

-- -(5 + 7 * 2 ^ 31) and 3 + 2 ^ 31
abbrev dividend : Long
dividend = record { width = negsuc 1; digits = 5 ∷ 7 ∷ [] }

abbrev divisor : Long
divisor = record { width = pos 2; digits = 3 ∷ 1 ∷ [] }

dividend-IsLong : IsLong dividend
dividend-IsLong = omega arith

divisor-IsLong : IsLong divisor
divisor-IsLong = omega arith

-- The magnitudes divide to 6 and 2 ^ 31 - 13.
div_rem_runs :
    div_rem dividend divisor
    ≡ some
        (record { width = negsuc 0; digits = 7 ∷ [] }, record { width = pos 1; digits = 16 ∷ [] })
unfolding div_rem kuroko.Long.Add.add_ignore_sign
div_rem_runs = refl

div_rem_small :
    div_rem (init_si (negsuc 6)) (init_si (pos 2))
    ≡ some (record { width = negsuc 0; digits = 4 ∷ [] }, record { width = pos 1; digits = 1 ∷ [] })
unfolding div_rem init_si kuroko.Long.Add.add_ignore_sign
div_rem_small = refl

div_rem_zero : div_rem dividend long_zero ≡ none
unfolding div_rem kuroko.Long.Add.add_ignore_sign
div_rem_zero = refl

div_rem_lem_example : Floored (value dividend) (value divisor) (div_rem dividend divisor)
div_rem_lem_example = div_rem_lem dividend-IsLong divisor-IsLong
