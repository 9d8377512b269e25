-- ===== src/Long/Digits.antt =====
-- What a sequence of digits stands for, and when it is a well-formed number.
use kuroko.Prelude.{
  add-one, ℕ, zero, suc, ◌+◌, ◌*◌, ◌≤◌, ◌<◌, ◌≡◌, refl, List, [], ◌∷◌, arith, length, get_or, drop,
  replicate, All,
}
use kuroko.Prelude.Int.{ℤ, pos, negsuc, sub_ℕ}
use kuroko.Long.{Long, digit_base, abs_width}

-- Least significant digit first.
abbrev pub number : List ℕ → ℕ
number [] = 0
number (d ∷ ds) = d + digit_base * number ds

abbrev pub AreDigits : List ℕ → Type 0
AreDigits = All (λ d. d < digit_base)

-- No suffix of the digits is zero, so the top digit is not.
abbrev pub IsTrimmed : List ℕ → Type 0
IsTrimmed [] = Unit
IsTrimmed (d ∷ ds) = (0 < d + digit_base * number ds) × IsTrimmed ds

-- The integer that a long stands for.
abbrev pub signed : ℤ → ℕ → ℤ
signed (pos _) n = pos n
signed (negsuc _) n = sub_ℕ 0 n

abbrev pub value : Long → ℤ
value l = signed l.width (number l.digits)

pub record IsLong (l : Long) : Type 0 where
  pub sized : length l.digits ≡ abs_width l.width
  pub bounded : AreDigits l.digits
  pub trimmed : IsTrimmed l.digits

-- A long whose top digits may be zero.
pub record IsRaw (l : Long) : Type 0 where
  pub sized : length l.digits ≡ abs_width l.width
  pub bounded : AreDigits l.digits

number-drop-suc :
    (ds : List ℕ) (i : ℕ)
    → number (drop i ds) ≡ get_or ds i 0 + digit_base * number (drop (suc i) ds)
number-drop-suc [] zero = omega arith
number-drop-suc [] (suc i) = omega arith
number-drop-suc (d ∷ ds) zero = omega arith
number-drop-suc (d ∷ ds) (suc i) = number-drop-suc ds i

-- The suffix from an index on is the digit there and the suffix behind it.
pub number-drop :
    (ds : List ℕ) (i : ℕ)
    → number (drop i ds) ≡ get_or ds i 0 + digit_base * number (drop (i + 1) ds)
number-drop ds i = rw add-one (number-drop-suc ds i)

pub drop_all : (ds : List ℕ) (i : ℕ) → length ds ≤ i → number (drop i ds) ≡ 0
drop_all [] zero h = refl
drop_all [] (suc i) h = refl
drop_all (d ∷ ds) zero h = absurd (omega arith)
drop_all (d ∷ ds) (suc i) h = drop_all ds i (omega arith)

pub digit_bound : (ds : List ℕ) (i : ℕ) → AreDigits ds → get_or ds i 0 < digit_base
digit_bound [] i h = omega arith
digit_bound (d ∷ ds) zero h = h.0
digit_bound (d ∷ ds) (suc i) h = digit_bound ds i h.1

pub suffix_pos : (ds : List ℕ) (i : ℕ) → IsTrimmed ds → i < length ds → 0 < number (drop i ds)
suffix_pos [] i t h = absurd (omega arith)
suffix_pos (d ∷ ds) zero t h = t.0
suffix_pos (d ∷ ds) (suc i) t h = suffix_pos ds i t.1 (omega arith)

-- A trimmed number with more digits is larger.
pub longer_is_larger :
    (xs ys : List ℕ) → AreDigits xs → IsTrimmed ys → length xs < length ys → number xs < number ys
longer_is_larger [] (y ∷ ys) h t l = t.0
longer_is_larger (x ∷ xs) (y ∷ ys) h t l =
    omega (arith, longer_is_larger xs ys h.1 t.1 (omega arith))
longer_is_larger _ [] h t l = absurd (omega arith)

pub number-replicate : (n : ℕ) → number (replicate n 0) ≡ 0
number-replicate zero = refl
number-replicate (suc n) = omega (arith, number-replicate n)

pub replicate-AreDigits : (n : ℕ) → AreDigits (replicate n 0)
replicate-AreDigits zero = tt
replicate-AreDigits (suc n) = (omega arith, replicate-AreDigits n)
