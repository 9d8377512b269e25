-- ===== src/Long.antt =====
-- src/obj_long.c: the representation of a KrkLong and the operations that move digits about.
--
-- `digits` holds the |width| digits that are in use. The C array may be longer after a resize
-- to fewer digits; a later resize to more digits clears what it brings back, so no operation
-- reads the slack and it is not modelled. Fresh memory is zeroed by calloc, or by the memset of
-- `krk_long_resize`. An operation that returns its result through a pointer returns the new value.
pub mod Digits
pub mod Trim
pub mod Compare
pub mod Add
pub mod Sub
pub mod Sum
pub mod Mul
pub mod Init
pub mod Abs
pub mod Div
use kuroko.Prelude.{
  ℕ, zero, suc, ◌+◌, ◌-◌, ◌*◌, ◌/◌, ◌%◌, ◌^◌, Bool, true, false, List, [], ◌∷◌, ◌++◌, ltb, leb,
  ◌==◌, if◌then◌else◌, length, get_or, take, replicate,
}
use kuroko.Prelude.Int.{ℤ, pos, negsuc, ◌*ℤ◌, sub_ℕ}

-- 1 << DIGIT_SHIFT; DIGIT_MAX is one less, and `& DIGIT_MAX` is the remainder.
abbrev pub digit_base : ℕ
digit_base = 2 ^ 31

pub record Long : Type 0 where
  pub width : ℤ
  pub digits : List ℕ

abbrev pub abs_width : ℤ → ℕ
abs_width (pos n) = n
abs_width (negsuc n) = suc n

abbrev pub is_negative : ℤ → Bool
is_negative (pos n) = false
is_negative (negsuc n) = true

-- `i < width ? digits[i] : 0`
abbrev pub digit : Long → ℕ → ℕ
digit l i = if ltb i (abs_width l.width) then get_or l.digits i 0 else 0

abbrev pub long_zero : Long
long_zero = record { width = pos 0; digits = [] }

-- The digits of a number, for as many rounds as are left.
extract_digits : ℕ → ℕ → List ℕ
extract_digits zero abs = []
extract_digits (suc n) abs = abs % digit_base ∷ extract_digits n (abs / digit_base)

-- `while (tmp > DIGIT_MAX) { cnt++; tmp >>= DIGIT_SHIFT; }` with fuel; `init_ui` starts it with
-- three rounds, enough for 64 bits.
count_digits : ℕ → ℕ → ℕ → ℕ
count_digits zero tmp cnt = cnt
count_digits (suc fuel) tmp cnt =
    let rest = count_digits fuel (tmp / digit_base) (cnt + 1) in
    if ltb tmp digit_base then cnt else rest

unfoldable pub init_ui : ℕ → Long
unfolding count_digits extract_digits
init_ui val =
    if val == 0
    then long_zero
    else if ltb val digit_base
    then record { width = pos 1; digits = val ∷ [] }
    else let cnt = count_digits 3 val 1 in
      record { width = pos cnt; digits = extract_digits cnt val }

-- -val in 64-bit arithmetic, as the uint64_t `abs`
abbrev pub magnitude : ℤ → ℕ
magnitude (pos n) = n
magnitude (negsuc n) = suc n

abbrev pub sign_of : ℤ → ℤ
sign_of (pos n) = pos 1
sign_of (negsuc n) = negsuc 0

unfoldable pub init_si : ℤ → Long
unfolding count_digits extract_digits ◌*ℤ◌
init_si val =
    let abs = magnitude val in
    let sign = sign_of val in
    if abs == 0
    then long_zero
    else if ltb abs digit_base
    then record { width = sign; digits = abs ∷ [] }
    else let cnt = count_digits 3 abs 1 in
      record { width = pos cnt *ℤ sign; digits = extract_digits cnt abs }

-- `newdigits` is never negative at the calls.
unfoldable pub resize : Long → ℕ → Long
resize num newdigits =
    let eabs = abs_width num.width in
    if newdigits == 0
    then long_zero
    else if eabs == 0
    then record { width = pos newdigits; digits = replicate newdigits 0 }
    else if ltb eabs newdigits
    then record { width = pos newdigits; digits = num.digits ++ replicate (newdigits - eabs) 0 }
    else record { width = pos newdigits; digits = take newdigits num.digits }

-- `width < 0 ? -width * sign : width * sign`
unfoldable pub set_sign : Long → ℤ → Long
unfolding ◌*ℤ◌
set_sign num sign = record num { width = pos (abs_width num.width) *ℤ sign }

-- The digits that are left when the loop has counted the redundant ones, from the top.
live : ℕ → List ℕ → ℕ
live zero digits = 0
live (suc n) digits = elim (get_or digits n 0) [ zero ↦ live n digits | suc _ ↦ suc n ]

unfoldable pub trim : Long → Long
unfolding live set_sign resize
trim num =
    let owidth = abs_width num.width in
    let kept = live owidth num.digits in
    if kept == owidth
    then num
    else if is_negative num.width
    then set_sign (resize num kept) (negsuc 0)
    else resize num kept

unfoldable pub abs : Long → Long
unfolding set_sign
abs l = set_sign l (pos 1)

unfoldable pub sign : Long → ℤ
sign num = if abs_width num.width == 0 then pos 0 else sign_of num.width
