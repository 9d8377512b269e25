-- ===== src/Long/Div/Shift.antt =====
-- src/obj_long.c: `_lshift_one` doubles.
use kuroko.Prelude.{
  suc-eq_zero, dec_lt, ℕ, suc, ◌+◌, ◌-◌, ◌*◌, ◌/◌, ◌%◌, ◌^◌, ◌≤◌, ◌<◌, ◌≡◌, refl, ap, sym, ◌∙◌,
  List, [], ◌∷◌, ◌++◌, arith, ◌==◌, if◌then◌else◌, length, get_or, set, length-append, append-nil,
  All-append,
}
use kuroko.Prelude.Int.{ℤ, pos}
use kuroko.Long.{Long, digit_base, abs_width, resize}
use kuroko.Long.Digits.{number, AreDigits, IsTrimmed}
use kuroko.Long.Trim.{take_all}
use kuroko.Long.Div.{shift_loop, shift_into, lshift_one}

-- The long is not negative, well-formed, and stands for the number.
pub record IsNatural (n : ℕ) (l : Long) : Type 0 where
  pub plain : l.width ≡ pos (length l.digits)
  pub bounded : AreDigits l.digits
  pub trimmed : IsTrimmed l.digits
  pub whole : number l.digits ≡ n

-- The bit that leaves at the top.
abbrev top_bit : ℕ → List ℕ → ℕ
top_bit c [] = c
top_bit c (d ∷ ds) = get_or (d ∷ ds) (length ds) 0 / 2 ^ 30

-- What the loop makes of the digits, with the carry in and out.
record Doubled (c : ℕ) (ds out : List ℕ) (last : ℕ) : Type 0 where
  sized : length out ≡ length ds
  bounded : AreDigits out
  carried : last ≤ 1
  top : last ≡ top_bit c ds
  doubles : number (out ++ (last ∷ [])) ≡ c + 2 * number ds
  trims : IsTrimmed ds → last ≡ 0 → IsTrimmed out
  trims_more : IsTrimmed ds → last ≡ 1 → IsTrimmed (out ++ (last ∷ []))

pub number-append_zero : (ds : List ℕ) → number (ds ++ (0 ∷ [])) ≡ number ds
number-append_zero [] = omega arith
number-append_zero (d ∷ ds) = omega (arith, number-append_zero ds)

step-Doubled :
    (c d : ℕ) (ds out : List ℕ) (last : ℕ)
    → c ≤ 1
    → d < digit_base
    → Doubled (d / 2 ^ 30) ds out last
    → Doubled c (d ∷ ds) ((d * 2 + c) % 2 ^ 32 % digit_base ∷ out) last
step-Doubled c d ds out last small h ih = record {
  sized = omega (arith, ih.sized);
  bounded = (omega arith, ih.bounded);
  carried = ih.carried;
  top = top_of ds ih.top;
  doubles = omega (arith, ih.doubles);
  trims = λ t e. (omega (arith, ih.doubles, number-append_zero out, t.0, same e), ih.trims t.1 e);
  trims_more = λ t e. (omega (arith, ih.doubles, t.0), ih.trims_more t.1 e);
}
  where
    same : last ≡ 0 → number (out ++ (last ∷ [])) ≡ number out
    same e = rw e (number-append_zero out)

    top_of : (xs : List ℕ) → last ≡ top_bit (d / 2 ^ 30) xs → last ≡ top_bit c (d ∷ xs)
    top_of [] e = e
    top_of (x ∷ xs) e = e

-- The loop leaves what stands behind its digits.
shift_loop-Doubled :
    (c : ℕ) (ds rest : List ℕ)
    → c ≤ 1
    → AreDigits ds
    → (out : List ℕ) × (last : ℕ) × (shift_loop (length ds) c (ds ++ rest) ≡ (out ++ rest, last))
      × Doubled c ds out last
unfolding shift_loop
shift_loop-Doubled c [] rest small h = (
  [],
  c,
  refl,
  record {
    sized = refl;
    bounded = tt;
    carried = small;
    top = refl;
    doubles = omega arith;
    trims = λ _ _. tt;
    trims_more = λ _ e. (omega arith, tt);
  },
)
shift_loop-Doubled c (d ∷ ds) rest small h =
    let (out, last, e, doubled) =
      shift_loop-Doubled (d / 2 ^ 30) ds rest (omega (arith, h.0)) h.1 in
    (
      (d * 2 + c) % 2 ^ 32 % digit_base ∷ out,
      last,
      rw (e, shift_loop) refl,
      step-Doubled c d ds out last small h.0 doubled,
    )

set_last : (out : List ℕ) (x y : ℕ) → set (out ++ (x ∷ [])) (length out) y ≡ out ++ (y ∷ [])
set_last [] x y = refl
set_last (o ∷ out) x y = ap (λ t. o ∷ t) (set_last out x y)

abbrev pub natural : List ℕ → Long
natural ds = record { width = pos (length ds); digits = ds }

resize_same : (ds : List ℕ) → 0 < length ds → resize (natural ds) (length ds) ≡ natural ds
unfolding resize
resize_same ds h = ground (arith, take_all ds)

resize_one_more :
    (ds : List ℕ)
    → 0 < length ds
    → resize (natural ds) (length ds + 1)
      ≡ record { width = pos (length ds + 1); digits = ds ++ (0 ∷ []) }
unfolding resize
resize_one_more ds h = let p : length ds + 1 - length ds ≡ 1 = omega arith in ground (arith, p)

shift_into_eq :
    (n : ℕ) (wide : Long) (out : List ℕ) (last : ℕ)
    → shift_loop n 0 wide.digits ≡ (out, last)
    → shift_into n wide
      ≡ record wide { digits = if last == 0 then out else set out (abs_width wide.width - 1) 1 }
unfolding shift_into
shift_into_eq n wide out last e = rw (e, shift_into) refl

lshift_one_eq :
    (num : Long)
    → lshift_one num ≡ (
        if abs_width num.width == 0
        then num
        else shift_into (abs_width num.width) (
            resize num (
              if get_or num.digits (abs_width num.width - 1) 0 / 2 ^ 30 == 0
              then abs_width num.width
              else abs_width num.width + 1)))
unfolding lshift_one
lshift_one_eq num = refl

module _ (d : ℕ) (ds out : List ℕ) (last : ℕ) (db : Doubled 0 (d ∷ ds) out last)
    (t : IsTrimmed (d ∷ ds)) where
  shift_same :
      last ≡ 0 → lshift_one (natural (d ∷ ds)) ≡ shift_into (suc (length ds)) (natural (d ∷ ds))
  shift_same none =
      let high : get_or (d ∷ ds) (length ds) 0 / 2 ^ 30 ≡ 0 = sym (db.top) ∙ none in
      let pred : suc (length ds) - 1 ≡ length ds = omega arith in
      rw (lshift_one_eq, suc-eq_zero, pred, high, resize_same (d ∷ ds) (omega arith)) refl

  abbrev wide : Long
  wide = record { width = pos (suc (length ds) + 1); digits = d ∷ ds ++ (0 ∷ []) }

  shift_wider : last ≡ 1 → lshift_one (natural (d ∷ ds)) ≡ shift_into (suc (length ds)) wide
  shift_wider one =
      let high : get_or (d ∷ ds) (length ds) 0 / 2 ^ 30 ≡ 1 = sym (db.top) ∙ one in
      let pred : suc (length ds) - 1 ≡ length ds = omega arith in
      rw (lshift_one_eq, suc-eq_zero, pred, high, resize_one_more (d ∷ ds) (omega arith)) refl

  -- Without a carry, and with one.
  same_width :
      shift_loop (suc (length ds)) 0 (d ∷ ds ++ []) ≡ (out ++ [], last)
      → last ≡ 0
      → IsNatural (2 * number (d ∷ ds)) (lshift_one (natural (d ∷ ds)))
  same_width e none =
      rw
        (shift_same none
          ∙ shift_into_eq (suc (length ds)) (natural (d ∷ ds)) out 0
              (rw (append-nil, append-nil, none) at e))
        (record {
          plain = ap pos (sym (db.sized));
          bounded = db.bounded;
          trimmed = db.trims t none;
          whole = sym (number-append_zero out) ∙ (rw none at db.doubles) ∙ omega arith;
        })

  wider :
      shift_loop (suc (length ds)) 0 (d ∷ ds ++ (0 ∷ [])) ≡ (out ++ (0 ∷ []), last)
      → last ≡ 1
      → IsNatural (2 * number (d ∷ ds)) (lshift_one (natural (d ∷ ds)))
  wider e one =
      let at_end : suc (length ds) + 1 - 1 ≡ length out = omega (arith, db.sized) in
      rw
        (
          shift_wider one ∙ shift_into_eq (suc (length ds)) wide (out ++ (0 ∷ [])) 1 (rw one at e),
          at_end,
          set_last out 0 1,
        )
        (record {
          plain = ap pos (omega (arith, db.sized, length-append out (1 ∷ [])));
          bounded = All-append _ out (1 ∷ []) db.bounded (omega arith, tt);
          trimmed = rw one at (db.trims_more t one);
          whole = (rw one at db.doubles) ∙ omega arith;
        })

lshift_one-natural :
    (ds : List ℕ)
    → AreDigits ds
    → IsTrimmed ds
    → IsNatural (2 * number ds) (lshift_one (natural ds))
unfolding lshift_one
lshift_one-natural [] h t = record { plain = refl; bounded = tt; trimmed = tt; whole = omega arith }
lshift_one-natural (d ∷ ds) h t =
    let (out, last, e, db) = shift_loop-Doubled 0 (d ∷ ds) (0 ∷ []) (omega arith) h in
    let (out', last', e', db') = shift_loop-Doubled 0 (d ∷ ds) [] (omega arith) h in
    elim (dec_lt 0 (get_or (d ∷ ds) (length ds) 0 / 2 ^ 30)) [
      | yes p ↦ wider d ds out last db t e (omega (arith, db.top, db.carried))
      | no p ↦ same_width d ds out' last' db' t e' (omega (arith, db'.top))
    ]

pub natural_width : (l : Long) → l.width ≡ pos (length l.digits) → l ≡ natural l.digits
natural_width l e = by_width l.width e
  where
    by_width :
        (w : ℤ)
        → w ≡ pos (length l.digits)
        → record { width = w; digits = l.digits } ≡ natural l.digits
    by_width w e = rw e refl

-- `_lshift_one` of a long that is not negative is a well-formed long for twice its number.
pub lshift_one_lem : {n : ℕ} {l : Long} → IsNatural n l → IsNatural (2 * n) (lshift_one l)
lshift_one_lem {n} {l} v =
    rw (← v.whole) (rw (natural_width l v.plain) (lshift_one-natural l.digits v.bounded v.trimmed))
