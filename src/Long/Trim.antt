-- ===== src/Long/Trim.antt =====
-- src/obj_long.c: `krk_long_trim` and `krk_long_set_sign` on values.
use kuroko.Prelude.{
  ℕ, zero, suc, ◌+◌, ◌*◌, ◌≤◌, ◌≡◌, refl, ap, List, [], ◌∷◌, arith, length, take, length-take,
  ==_iff,
}
use kuroko.Prelude.Int.{ℤ, pos, negsuc, sub_ℕ, ◌*ℤ◌}
use kuroko.Long.{Long, digit_base, abs_width, live, trim, set_sign, resize}
use kuroko.Long.Digits.{number, AreDigits, IsTrimmed, signed, value, IsLong, IsRaw}

live_step :
    (n d : ℕ) (ds : List ℕ)
    → live (suc n) (d ∷ ds)
      ≡ elim (live n ds) [ zero ↦ elim d [ zero ↦ 0 | suc _ ↦ 1 ] | suc k ↦ suc (suc k) ]
unfolding live
live_step zero zero ds = refl
live_step zero (suc d) ds = refl
live_step (suc n) d ds = ground (arith, live_step n d ds)

-- The digits that are kept stand for the same number, and are trimmed.
live_trims :
    (ds : List ℕ)
    → (live (length ds) ds ≤ length ds)
      × (number (take (live (length ds) ds) ds) ≡ number ds)
      × IsTrimmed (take (live (length ds) ds) ds)
unfolding live
live_trims [] = (omega arith, refl, tt)
live_trims (d ∷ ds) = rw (live_step (length ds) d ds) (step (live (length ds) ds) (live_trims ds))
  where
    step :
        (k : ℕ)
        → (k ≤ length ds) × (number (take k ds) ≡ number ds) × IsTrimmed (take k ds)
        → let j : ℕ = elim k [ zero ↦ elim d [ zero ↦ 0 | suc _ ↦ 1 ] | suc k ↦ suc (suc k) ] in
          (j ≤ suc (length ds))
          × (number (take j (d ∷ ds)) ≡ d + digit_base * number ds)
          × IsTrimmed (take j (d ∷ ds))
    step zero ih = ground arith
    step (suc k) ih = ground arith

pub take-AreDigits : (n : ℕ) (ds : List ℕ) → AreDigits ds → AreDigits (take n ds)
take-AreDigits zero ds h = tt
take-AreDigits (suc n) [] h = tt
take-AreDigits (suc n) (d ∷ ds) h = (h.0, take-AreDigits n ds h.1)

pub take_all {ℓ} : {A : Type ℓ} (xs : List A) → take (length xs) xs ≡ xs
take_all [] = refl
take_all (x ∷ xs) = ap (λ t. x ∷ t) (take_all xs)

-- A signed size has the sign of `w` where it is not zero.
pub abs_width-signed : (w : ℤ) (n : ℕ) → abs_width (signed w n) ≡ n
abs_width-signed w n = ground arith

pub signed-signed : (w : ℤ) (k n : ℕ) → (k ≡ 0 → n ≡ 0) → signed (signed w k) n ≡ signed w n
signed-signed w k n h = ground arith

pub set_sign-pos :
    (l : Long) → set_sign l (pos 1) ≡ record { width = pos (abs_width l.width); digits = l.digits }
unfolding set_sign ◌*ℤ◌
set_sign-pos l = ground arith

pub set_sign_neg :
    (l : Long)
    → set_sign l (negsuc 0) ≡ record { width = sub_ℕ 0 (abs_width l.width); digits = l.digits }
unfolding set_sign ◌*ℤ◌
set_sign_neg l = ground arith

pub resize_shrink :
    (l : Long) (k : ℕ)
    → k ≤ abs_width l.width
    → resize l k ≡ record { width = pos k; digits = take k l.digits }
unfolding resize
resize_shrink l zero h = refl
resize_shrink l (suc k) h = ground arith

signed_self : (w : ℤ) → signed w (abs_width w) ≡ w
signed_self w = ground arith

trim_parts :
    (w : ℤ) (ds : List ℕ)
    → length ds ≡ abs_width w
    → trim (record { width = w; digits = ds })
      ≡ record { width = signed w (live (length ds) ds); digits = take (live (length ds) ds) ds }
unfolding trim
trim_parts (pos n) ds e =
    let (le, _, _) = live_trims ds in
    rw (← e) (
      ground (
        arith,
        take_all ds,
        ==_iff (live (length ds) ds) (length ds),
        resize_shrink (record { width = pos n; digits = ds }) (live (length ds) ds),
      ))
trim_parts (negsuc n) ds e =
    let l : Long = record { width = negsuc n; digits = ds } in
    let (le, _, _) = live_trims ds in
    rw (← e) (
      ground (
        arith,
        take_all ds,
        ==_iff (live (length ds) ds) (length ds),
        resize_shrink l (live (length ds) ds),
        set_sign_neg (resize l (live (length ds) ds)),
      ))

-- `krk_long_trim` of a long whose digits are in range, and whose width is their number, keeps the
-- value and yields a well-formed long, with no leading zero digit.
pub trim_lem : {l : Long} → IsRaw l → IsLong (trim l) × (value (trim l) ≡ value l)
trim_lem {l} r =
    let (le, same, trimmed) = live_trims l.digits in
    let sized : length (take (live (length l.digits) l.digits) l.digits)
        ≡ live (length l.digits) l.digits =
      omega (arith, length-take (live (length l.digits) l.digits) l.digits) in
    rw (trim_parts l.width l.digits r.sized) (
      record {
        sized = omega (arith, abs_width-signed l.width (live (length l.digits) l.digits));
        bounded = take-AreDigits _ _ r.bounded;
        trimmed = trimmed;
      },
      rw (← same) (signed-signed l.width _ _ (λ e. rw e)),
    )
