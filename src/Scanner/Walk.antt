-- ===== src/Scanner/Walk.antt =====
-- src/scanner.c: how the scanner moves: a character at a time, counting the lines.
use kuroko.Prelude.{
  ℕ, zero, suc, ◌+◌, ◌-◌, ◌<◌, ◌≤◌, ◌≡◌, ◌≢◌, refl, sym, ap, ◌∙◌, ◌⊎◌, inl, inr, Bool, true, false,
  Bool-cases, List, [], ◌∷◌, arith, ◌==◌, if◌then◌else◌, length, get_or, add-one, dec_lt,
}
use kuroko.Scanner.{Position, newline, next_line, peek, advance, matches, skip_fuel, skip}

module _ (src : List ℕ) where
  -- The moves: over a character that does not end the line, and over a newline.
  pub data Walk (p : Position) : Position → Type 0 where
    stay : Walk p p
    over :
        {q r : Position}
        → Walk p q
        → peek src q ≢ 0
        → peek src q ≢ newline
        → r ≡ record q { cur = q.cur + 1 }
        → Walk p r
    line :
        {q r : Position}
        → Walk p q
        → peek src q ≡ newline
        → r ≡ record { cur = q.cur + 1; line = q.line + 1; line_ptr = q.cur + 1 }
        → Walk p r

  pub join-Walk : {p q r : Position} → Walk p q → Walk q r → Walk p r
  join-Walk w stay = w
  join-Walk w (over v a b e) = over (join-Walk w v) a b e
  join-Walk w (line v a e) = line (join-Walk w v) a e

  pub advance-here : (p : Position) → peek src p ≢ 0 → advance src p ≡ record p { cur = p.cur + 1 }
  unfolding advance
  advance-here p ne =
      let differs : (peek src p == 0) ≡ false = ground arith in rw (differs, advance)

  advance-end : (p : Position) → peek src p ≡ 0 → advance src p ≡ p
  unfolding advance
  advance-end p e = rw (e, advance)

  -- `advance` where no newline stands.
  pub advance-Walk : (p : Position) → peek src p ≢ newline → Walk p (advance src p)
  advance-Walk p ne = elim (Bool-cases (peek src p == 0)) [
    | inl e ↦ rw (advance-end p (ground arith)) stay
    | inr e ↦ over stay (ground arith) ne (advance-here p (ground arith))
  ]

  pub newline-Walk : (p : Position) → peek src p ≡ newline → Walk p (next_line (advance src p))
  unfolding next_line
  newline-Walk p e = line stay e (rw (advance-here p (ground arith)))

  pub matches-eq : (p : Position) (c : ℕ) → matches src p c ≡ true → peek src p ≡ c
  unfolding matches
  matches-eq p c e = ground arith

  -- A match of another character than a newline.
  pub matches-Walk :
      (p : Position) (c : ℕ) → matches src p c ≡ true → c ≢ newline → Walk p (advance src p)
  matches-Walk p c e ne = advance-Walk p (rw (matches-eq p c e) ne)

  skip_fuel-Walk :
      (fuel : ℕ) (test : ℕ → Bool) (p : Position)
      → test newline ≡ false
      → Walk p (skip_fuel src fuel test p)
  unfolding skip_fuel
  skip_fuel-Walk zero test p h = stay
  skip_fuel-Walk (suc fuel) test p h = elim (Bool-cases (test (peek src p))) [
    | inl e ↦
        rw (e, skip_fuel)
          (join-Walk (advance-Walk p (λ q. let f = sym (ap test q) ∙ e in cc))
            (skip_fuel-Walk fuel test (advance src p) h))
    | inr e ↦ rw (e, skip_fuel) stay
  ]

  pub skip-Walk : (test : ℕ → Bool) (p : Position) → test newline ≡ false → Walk p (skip src test p)
  unfolding skip
  skip-Walk test p h = skip_fuel-Walk (length src) test p h

  pub cur-Walk : {p q : Position} → Walk p q → p.cur ≤ q.cur
  cur-Walk stay = omega arith
  cur-Walk (over {q} w a b e) = rw e (omega (arith, cur-Walk w))
  cur-Walk (line {q} w a e) = rw e (omega (arith, cur-Walk w))

  -- The loop moves on where its test holds.
  pub skip-moves :
      (test : ℕ → Bool) (p : Position)
      → test newline ≡ false
      → test (peek src p) ≡ true
      → peek src p ≢ 0
      → 0 < length src
      → p.cur < (skip src test p).cur
  unfolding skip skip_fuel
  skip-moves test p h e ne some_bytes = by_length (length src) some_bytes
    where
      step : (n : ℕ) → p.cur < (skip_fuel src (suc n) test p).cur
      step n =
          rw (e, skip_fuel)
            (omega (
              arith,
              ap (λ (q : Position). q.cur) (advance-here p ne),
              cur-Walk (skip_fuel-Walk n test (advance src p) h),
            ))

      by_length : (n : ℕ) → 0 < n → p.cur < (skip_fuel src n test p).cur
      by_length zero l = absurd (omega arith)
      by_length (suc n) l = step n

  -- The newlines in front of an offset.
  unfoldable pub newlines : ℕ → ℕ
  newlines zero = 0
  newlines (suc n) = newlines n + (if get_or src n 0 == newline then 1 else 0)

  -- The position knows its line: its number, and where it begins.
  pub record IsPlaced (p : Position) : Type 0 where
    pub inside : p.cur ≤ length src
    pub numbered : p.line ≡ newlines p.cur + 1
    pub begun : p.line_ptr ≤ p.cur
    pub first : (p.line_ptr ≡ 0) ⊎ (get_or src (p.line_ptr - 1) 0 ≡ newline)
    pub alone : (i : ℕ) → p.line_ptr ≤ i → i < p.cur → get_or src i 0 ≢ newline

  get_or-beyond : (xs : List ℕ) (i : ℕ) → length xs ≤ i → get_or xs i 0 ≡ 0
  get_or-beyond [] i h = refl
  get_or-beyond (x ∷ xs) zero h = absurd (omega arith)
  get_or-beyond (x ∷ xs) (suc i) h = get_or-beyond xs i (omega arith)

  pub start-IsPlaced : IsPlaced (record { cur = 0; line = 1; line_ptr = 0 })
  unfolding newlines
  start-IsPlaced = record {
    inside = omega arith;
    numbered = omega arith;
    begun = omega arith;
    first = inl refl;
    alone = λ i h l. absurd (omega arith);
  }

  newlines-next :
      (n : ℕ) → newlines (n + 1) ≡ newlines n + (if get_or src n 0 == newline then 1 else 0)
  unfolding newlines
  newlines-next n = rw add-one refl

  pub inside_source : (p : Position) → peek src p ≢ 0 → p.cur < length src
  unfolding peek
  inside_source p ne = elim (dec_lt p.cur (length src)) [
    | yes h ↦ h
    | no h ↦ absurd (ne (get_or-beyond src p.cur (omega arith)))
  ]

  over-IsPlaced :
      (p : Position)
      → IsPlaced p
      → peek src p ≢ 0
      → peek src p ≢ newline
      → IsPlaced (record p { cur = p.cur + 1 })
  unfolding peek
  over-IsPlaced p v ne other =
      let differs : (get_or src p.cur 0 == newline) ≡ false = ground arith in
      let h = inside_source p ne in
      record {
        inside = omega arith;
        numbered = rw (newlines-next, differs) (omega (arith, v.numbered));
        begun = omega (arith, v.begun);
        first = v.first;
        alone = λ i le lt. elim (dec_lt i p.cur) [
          | yes q ↦ v.alone i le q
          | no q ↦ let e : i ≡ p.cur = omega arith in rw e other
        ];
      }

  line-IsPlaced :
      (p : Position)
      → IsPlaced p
      → peek src p ≡ newline
      → IsPlaced (record { cur = p.cur + 1; line = p.line + 1; line_ptr = p.cur + 1 })
  unfolding peek
  line-IsPlaced p v e =
      let same : (get_or src p.cur 0 == newline) ≡ true = ground arith in
      let h = inside_source p (ground arith) in
      record {
        inside = omega arith;
        numbered = rw (newlines-next, same) (omega (arith, v.numbered));
        begun = omega arith;
        first = inr (rw (pred_one p.cur) e);
        alone = λ i le lt. absurd (omega arith);
      }
    where
      pred_one : (n : ℕ) → n + 1 - 1 ≡ n
      pred_one n = omega arith

  pub Walk-IsPlaced : {p q : Position} → Walk p q → IsPlaced p → IsPlaced q
  Walk-IsPlaced stay v = v
  Walk-IsPlaced (over {q} w a b e) v = rw e (over-IsPlaced q (Walk-IsPlaced w v) a b)
  Walk-IsPlaced (line {q} w a e) v = rw e (line-IsPlaced q (Walk-IsPlaced w v) a)

  pub inside-Walk : {p q : Position} → Walk p q → p.cur ≤ length src → q.cur ≤ length src
  inside-Walk stay h = h
  inside-Walk (over {q} w a b e) h = rw e (omega (arith, inside_source q a))
  inside-Walk (line {q} w a e) h = rw e (omega (arith, inside_source q (λ z. ground arith)))
