-- ===== src/Long/Div/Floor.antt =====
-- src/obj_long.c: division of integers that rounds the quotient down.
use kuroko.Prelude.{
  ℕ, zero, suc, ◌+◌, ◌-◌, ◌*◌, ◌<◌, ◌≡◌, refl, ◌⊎◌, inr, Bool, arith, if◌then◌else◌,
}
use kuroko.Prelude.Int.{ℤ, pos, negsuc, ◌+ℤ◌, ◌*ℤ◌, sub_ℕ}
use kuroko.Long.{is_negative, magnitude}
use kuroko.Long.Digits.{signed}
use kuroko.Long.Mul.{product-signs}
use kuroko.Long.Sum.Defs.{differ}

-- The quotient is rounded down: the remainder is smaller than the divisor, and is zero or has its sign.
pub record FloorDivides (a b q r : ℤ) : Type 0 where
  pub whole : a ≡ b *ℤ q +ℤ r
  pub smaller : magnitude r < magnitude b
  pub side : (r ≡ pos 0) ⊎ (is_negative r ≡ is_negative b)

-- The quotient and the remainder of integers with the magnitudes `q * n + r` and `n`.
abbrev pub floor_quotient : Bool → ℕ → ℕ → ℤ
floor_quotient apart q zero = if apart then sub_ℕ 0 q else pos q
floor_quotient apart q (suc r) = if apart then sub_ℕ 0 (q + 1) else pos q

abbrev pub floor_remainder : Bool → Bool → ℕ → ℕ → ℤ
floor_remainder apart negative n zero = pos 0
floor_remainder apart negative n (suc r) =
    let rest = if apart then n - suc r else suc r in if negative then sub_ℕ 0 rest else pos rest

-- Sums of integers given by sign and magnitude.
pub sum-pos : (m p r : ℕ) → m ≡ p + r → pos m ≡ pos p +ℤ pos r
unfolding ◌+ℤ◌
sum-pos m p r e = ground arith

less-pos : (m p r : ℕ) → m + r ≡ p → pos m ≡ pos p +ℤ sub_ℕ 0 r
unfolding ◌+ℤ◌
less-pos m p r e = ground arith

less-neg : (m p r : ℕ) → m + r ≡ p → sub_ℕ 0 m ≡ sub_ℕ 0 p +ℤ pos r
unfolding ◌+ℤ◌
less-neg m p r e = ground arith

sum-neg : (m p r : ℕ) → m ≡ p + r → sub_ℕ 0 m ≡ sub_ℕ 0 p +ℤ sub_ℕ 0 r
unfolding ◌+ℤ◌
sum-neg m p r e = ground arith

module _ (m n q r : ℕ) (e : m ≡ q * n + r) (l : r < n) where
  floor-pos-pos : FloorDivides (pos m) (pos n) (pos q) (pos r)
  floor-pos-pos = record {
    whole = rw (← product-signs (pos 0) (pos 0) n q) (sum-pos m (n * q) r (omega arith));
    smaller = l;
    side = inr refl;
  }

  floor-neg-neg : FloorDivides (sub_ℕ 0 m) (sub_ℕ 0 n) (pos q) (sub_ℕ 0 r)
  floor-neg-neg = record {
    whole = rw (← product-signs (negsuc 0) (pos 0) n q) (sum-neg m (n * q) r (omega arith));
    smaller = ground arith;
    side = ground arith;
  }

  -- Where the signs differ, `r` of `n` is left to the next multiple.
  floor-neg-pos :
      (k : ℕ) (s : ℕ) → m + s ≡ n * k → s < n → FloorDivides (sub_ℕ 0 m) (pos n) (sub_ℕ 0 k) (pos s)
  floor-neg-pos k s e l = record {
    whole = rw (← product-signs (pos 0) (negsuc 0) n k) (less-neg m (n * k) s e);
    smaller = l;
    side = inr refl;
  }

  floor-pos-neg :
      (k : ℕ) (s : ℕ)
      → m + s ≡ n * k
      → s < n
      → FloorDivides (pos m) (sub_ℕ 0 n) (sub_ℕ 0 k) (sub_ℕ 0 s)
  floor-pos-neg k s e l = record {
    whole = rw (← product-signs (negsuc 0) (negsuc 0) n k) (less-pos m (n * k) s e);
    smaller = ground arith;
    side = ground arith;
  }

pub floor_lem :
    (v w : ℤ) (m n q r : ℕ)
    → m ≡ q * n + r
    → r < n
    → FloorDivides
        (signed v m)
        (signed w n)
        (floor_quotient (differ (is_negative v) (is_negative w)) q r)
        (floor_remainder (differ (is_negative v) (is_negative w)) (is_negative w) n r)
floor_lem (pos _) (pos _) m n q zero e l = floor-pos-pos m n q 0 e l
floor_lem (pos _) (pos _) m n q (suc r) e l = floor-pos-pos m n q (suc r) e l
floor_lem (pos _) (negsuc _) m n q zero e l =
    floor-pos-neg m n q 0 e l q 0 (omega arith) (omega arith)
floor_lem (pos _) (negsuc _) m n q (suc r) e l =
    floor-pos-neg m n q (suc r) e l (q + 1) (n - suc r) (omega arith) (omega arith)
floor_lem (negsuc _) (pos _) m n q zero e l =
    floor-neg-pos m n q 0 e l q 0 (omega arith) (omega arith)
floor_lem (negsuc _) (pos _) m n q (suc r) e l =
    floor-neg-pos m n q (suc r) e l (q + 1) (n - suc r) (omega arith) (omega arith)
floor_lem (negsuc _) (negsuc _) m n q zero e l = floor-neg-neg m n q 0 e l
floor_lem (negsuc _) (negsuc _) m n q (suc r) e l = floor-neg-neg m n q (suc r) e l
