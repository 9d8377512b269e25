-- ===== src/Long/Add.antt =====
-- src/obj_long.c: `krk_long_add_ignore_sign`, which adds absolute values.
use kuroko.Prelude.{
  ◌⊎◌, ℕ, zero, suc, ◌+◌, ◌*◌, ◌%◌, ◌^◌, ◌≤◌, ◌≡◌, refl, List, [], ◌∷◌, arith, length, get_or, drop,
  ltb, ◌==◌, if◌then◌else◌,
}
use kuroko.Prelude.Int.{pos}
use kuroko.Long.{Long, digit_base, abs_width, digit}
use kuroko.Long.Digits.{
  number, AreDigits, IsTrimmed, IsLong, number-drop, drop_all, digit_bound, suffix_pos,
}

-- The digits from index `i` on. After the last round a carry becomes one more digit, and without
-- one the space for it is given up.
add_loop : ℕ → ℕ → ℕ → Long → Long → List ℕ
add_loop zero i carry a b = if carry == 0 then [] else 1 ∷ []
add_loop (suc n) i carry a b =
    let out = (digit a i + digit b i + carry) % 2 ^ 32 in
    out % digit_base ∷ add_loop n (i + 1) (if ltb out digit_base then 0 else 1) a b

unfoldable pub add_ignore_sign : Long → Long → Long
unfolding add_loop
add_ignore_sign a b =
    let awidth = abs_width a.width in
    let bwidth = abs_width b.width in
    let digits = add_loop (if ltb awidth bwidth then bwidth else awidth) 0 0 a b in
    record { width = pos (length digits); digits = digits }

get_or-past : (ds : List ℕ) (i : ℕ) → length ds ≤ i → get_or ds i 0 ≡ 0
get_or-past [] i h = refl
get_or-past (d ∷ ds) zero h = absurd (omega arith)
get_or-past (d ∷ ds) (suc i) h = get_or-past ds i (omega arith)

pub digit-get_or :
    (l : Long) (i : ℕ) → length l.digits ≡ abs_width l.width → digit l i ≡ get_or l.digits i 0
digit-get_or l i h = ground (arith, get_or-past l.digits i)

-- What the loop writes from index `i` on.
record Adds (n i carry : ℕ) (a b : Long) (out : List ℕ) : Type 0 where
  sum : number out ≡ number (drop i a.digits) + number (drop i b.digits) + carry
  bounded : AreDigits out
  trimmed : IsTrimmed out

add_loop-Adds :
    (n i carry : ℕ) (a b : Long)
    → IsLong a
    → IsLong b
    → carry ≤ 1
    → length a.digits ≤ i + n
    → length b.digits ≤ i + n
    → (i + n ≡ length a.digits) ⊎ (i + n ≡ length b.digits)
    → Adds n i carry a b (add_loop n i carry a b)
unfolding add_loop
add_loop-Adds zero i carry a b va vb c la lb e =
    ground (arith, drop_all a.digits i, drop_all b.digits i)
add_loop-Adds (suc n) i carry a b va vb c la lb e =
    let da = digit-get_or a i va.sized in
    let db = digit-get_or b i vb.sized in
    let na = number-drop a.digits i in
    let nb = number-drop b.digits i in
    let ba = digit_bound a.digits i va.bounded in
    let bb = digit_bound b.digits i vb.bounded in
    let out = (digit a i + digit b i + carry) % 2 ^ 32 in
    let carry' : ℕ = if ltb out digit_base then 0 else 1 in
    let small : carry' ≤ 1 = ground arith in
    let ih =
      add_loop-Adds n (i + 1) carry' a b va vb small (omega arith) (omega arith) (omega arith) in
    let carried : out % digit_base + digit_base * carry'
        ≡ get_or a.digits i 0 + get_or b.digits i 0 + carry =
      ground arith in
    let sum : out % digit_base + digit_base * number (add_loop n (i + 1) carry' a b)
        ≡ number (drop i a.digits) + number (drop i b.digits) + carry =
      omega (arith, ih.sum) in
    record {
      sum = sum;
      bounded = (omega arith, ih.bounded);
      trimmed = (
        ground (arith, suffix_pos a.digits i va.trimmed, suffix_pos b.digits i vb.trimmed),
        ih.trimmed,
      );
    }

-- `krk_long_add_ignore_sign` of two well-formed longs is a well-formed long, whose digits stand for
-- the sum of the absolute values.
pub add_ignore_sign_lem :
    {a b : Long}
    → IsLong a
    → IsLong b
    → IsLong (add_ignore_sign a b)
      × (number (add_ignore_sign a b).digits ≡ number a.digits + number b.digits)
unfolding add_ignore_sign
add_ignore_sign_lem {a} {b} va vb =
    let n =
      if ltb (abs_width a.width) (abs_width b.width)
      then abs_width b.width
      else abs_width a.width in
    let adds =
      add_loop-Adds n 0 0 a b va vb (omega arith) (ground arith) (ground arith) (ground arith) in
    (
      record { sized = refl; bounded = adds.bounded; trimmed = adds.trimmed },
      omega (arith, adds.sum),
    )
