-- ===== src/Scanner/Literals.antt =====
-- src/scanner.c: string literals and words move by single characters.
use kuroko.Prelude.{
  ℕ, zero, suc, ◌+◌, ◌<◌, ◌≤◌, ◌≡◌, ◌≢◌, refl, inl, inr, Bool, true, false, ◌&&◌, Bool-cases, List,
  arith, ◌==◌, if◌then◌else◌, length, get_or,
}
use kuroko.Scanner.{
  Position, newline, is_digit, is_alpha, next_line, peek, peek_next, is_at_end, advance,
}
use kuroko.Scanner.Walk.{
  Walk, stay, join-Walk, advance-here, advance-Walk, newline-Walk, skip-Walk, cur-Walk,
  inside_source,
}
use kuroko.Scanner.Words.{identifier_end}
use kuroko.Scanner.Strings.{
  string_char, string_loop, closes_big, in_big, in_short, big_string_end, short_string_end,
  string_end,
}
use kuroko.Scanner.Moves.{
  Moves, char-Walk, if-Walk, if-Walk_first, and_first, and_second, peek_next-one,
}

module _ (src : List ℕ) where
  escape : Position → Position
  escape p = if peek src p == b'\\' then advance src p else p

  escape-Walk : (p : Position) → Walk src p (escape p)
  unfolding escape
  escape-Walk p =
      if-Walk src (peek src p == b'\\') (λ e. char-Walk src p b'\\' e (omega arith)) (λ _. stay)

  end_char-Walk :
      (q : Position)
      → Walk src q (if peek src q == newline then next_line (advance src q) else advance src q)
  end_char-Walk q =
      if-Walk src (peek src q == newline) (λ e. newline-Walk src q (ground arith))
        (λ e. advance-Walk src q (ground arith))

  string_char-Walk : (p : Position) → Walk src p (string_char src p)
  unfolding string_char escape
  string_char-Walk p = join-Walk src (escape-Walk p) (end_char-Walk (escape p))

  pub cur-next : (p : Position) → peek src p ≢ 0 → p.cur < (advance src p).cur
  cur-next p ne = rw (advance-here src p ne) (omega arith)

  -- A character of a string moves on.
  string_char-moves : (p : Position) → peek src p ≢ 0 → p.cur < (string_char src p).cur
  unfolding string_char next_line
  string_char-moves p ne = elim (Bool-cases (peek src p == b'\\')) [
    | inl e ↦
        rw (e, string_char)
          (omega (arith, cur-next p ne, cur-Walk src (end_char-Walk (advance src p))))
    | inr e ↦
        rw (e, string_char)
          (elim (Bool-cases (peek src p == newline)) [
            | inl f ↦ rw f (cur-next p ne)
            | inr f ↦ rw f (cur-next p ne)
          ])
  ]

  module _ (test : Position → Bool) where
    string_loop-Walk : (fuel : ℕ) (p : Position) → Walk src p (string_loop src fuel test p)
    unfolding string_loop
    string_loop-Walk zero p = stay
    string_loop-Walk (suc fuel) p = elim (Bool-cases (test p)) [
      | inl e ↦
          rw (e, string_loop)
            (join-Walk src (string_char-Walk p) (string_loop-Walk fuel (string_char src p)))
      | inr e ↦ rw (e, string_loop) stay
    ]

    -- With a round for each byte that is left, the loop ends by its test.
    string_loop-ends :
        ((p : Position) → test p ≡ true → peek src p ≢ 0)
        → (fuel : ℕ) (p : Position) → length src ≤ fuel + p.cur
        → test (string_loop src fuel test p) ≡ false
    unfolding string_loop
    string_loop-ends inner zero p h = elim (Bool-cases (test p)) [
      | inl e ↦ absurd (omega (arith, inside_source src p (inner p e)))
      | inr e ↦ e
    ]
    string_loop-ends inner (suc fuel) p h = elim (Bool-cases (test p)) [
      | inl e ↦
          rw (e, string_loop)
            (string_loop-ends inner fuel (string_char src p)
              (omega (arith, string_char-moves p (inner p e))))
      | inr e ↦ rw (e, string_loop) e
    ]

  inner_big : (quote : ℕ) (p : Position) → in_big src quote p ≡ true → peek src p ≢ 0
  unfolding is_at_end
  inner_big quote p e z = ground arith

  not_in_big :
      (quote : ℕ) (p : Position)
      → in_big src quote p ≡ false
      → is_at_end src p ≡ false
      → closes_big src quote p ≡ true
  not_in_big quote p e f = ground arith

  peek_next-two :
      (p : Position)
      → peek src p ≢ 0
      → peek src (advance src p) ≢ 0
      → peek_next src p 2 ≡ peek src (advance src (advance src p))
  unfolding peek_next peek
  peek_next-two p ne ne' =
      let differs : (get_or src p.cur 0 == 0) ≡ false = ground arith in
      let here = advance-here src p ne in
      let next : get_or src (p.cur + 1) 0 ≢ 0 = rw here at ne' in
      let differs' : (get_or src (p.cur + 1) 0 == 0) ≡ false = ground arith in
      rw (advance-here src (advance src p) ne', here, differs, differs') refl

  -- The three quotes that close a string.
  close-Walk :
      (quote : ℕ) (p : Position)
      → quote ≢ newline
      → quote ≢ 0
      → closes_big src quote p ≡ true
      → Walk src p (advance src (advance src (advance src p)))
  close-Walk quote p ne nz e =
      let rest = and_first src _ _ e in
      let a = and_first src _ _ rest in
      let b : (peek src (advance src p) == quote) ≡ true =
        rw (← peek_next-one src p (ground arith)) (and_second src _ _ rest) in
      let c : (peek src (advance src (advance src p)) == quote) ≡ true =
        rw (← peek_next-two p (ground arith) (ground arith)) (and_second src _ _ e) in
      join-Walk src (char-Walk src p quote a ne)
        (join-Walk src (char-Walk src _ quote b ne) (char-Walk src _ quote c ne))

  big_string_end-Walk :
      (quote : ℕ) (p : Position)
      → quote ≢ newline
      → quote ≢ 0
      → ((peek src p == quote) && (peek_next src p 1 == quote)) ≡ true
      → Walk src p (big_string_end src quote p).0
  unfolding big_string_end
  big_string_end-Walk quote p ne nz e =
      let here = and_first src _ _ e in
      let ahead : (peek src (advance src p) == quote) ≡ true =
        rw (← peek_next-one src p (ground arith)) (and_second src _ _ e) in
      let opened =
        join-Walk src (char-Walk src p quote here ne)
          (char-Walk src (advance src p) quote ahead ne) in
      let inside = advance src (advance src p) in
      let looped = join-Walk src opened (string_loop-Walk (in_big src quote) (length src) inside) in
      let q = string_loop src (length src) (in_big src quote) inside in
      let ends =
        string_loop-ends (in_big src quote) (inner_big quote) (length src) inside (omega arith) in
      if-Walk_first src _ _ (is_at_end src (string_loop src (length src) (in_big src quote) inside))
        (λ _. looped)
        (λ f. join-Walk src looped (close-Walk quote q ne nz (not_in_big quote q ends f)))

  short_string_end-Walk :
      (quote : ℕ) (p : Position) → quote ≢ newline → Walk src p (short_string_end src quote p).0
  unfolding short_string_end
  short_string_end-Walk quote p ne =
      let looped = string_loop-Walk (in_short src quote) (length src) p in
      let q = string_loop src (length src) (in_short src quote) p in
      if-Walk_first src _ _ (peek src q == quote)
        (λ e.
          if-Walk_first src _ _ (is_at_end src q) (λ _. looped)
            (λ _. join-Walk src looped (char-Walk src q quote e ne)))
        (λ _. looped)

  pub string_end-Moves :
      (quote : ℕ) → quote ≢ newline → quote ≢ 0 → Moves src (string_end src quote)
  unfolding string_end
  string_end-Moves quote ne nz p =
      if-Walk_first src _ _ ((peek src p == quote) && (peek_next src p 1 == quote))
        (λ e. big_string_end-Walk quote p ne nz e) (λ _. short_string_end-Walk quote p ne)

  pub identifier_end-Walk : (p : Position) → Walk src p (identifier_end src p)
  unfolding identifier_end is_alpha is_digit
  identifier_end-Walk p = skip-Walk src _ p refl
