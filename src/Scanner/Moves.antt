-- ===== src/Scanner/Moves.antt =====
-- src/scanner.c: every part of the scanner moves by single characters.
use kuroko.Prelude.{
  ℕ, ◌≡◌, ◌≢◌, refl, sym, ◌∙◌, Bool, true, false, ◌&&◌, ◌||◌, List, arith, ◌==◌, if◌then◌else◌,
  get_or,
}
use kuroko.Scanner.{Position, newline, is_digit, peek, peek_next, advance, matches, skip}
use kuroko.Scanner.Token.{TokenType}
use kuroko.Scanner.Walk.{Walk, stay, join-Walk, advance-here, advance-Walk, matches-Walk, skip-Walk}
use kuroko.Scanner.Numbers.{
  is_hex, is_binary, is_octal, is_decimal, fraction, sign, exponent, decimal, number_end,
}
use kuroko.Scanner.Strings.{Scanned}
use kuroko.Scanner.Scan.{Handler, single, with_equal, doubled, dots, minuses, pluses}

digit_newline : is_digit newline ≡ false
unfolding is_digit
digit_newline = refl

hex_newline : is_hex newline ≡ false
unfolding is_hex
hex_newline = refl

binary_newline : is_binary newline ≡ false
unfolding is_binary
binary_newline = refl

octal_newline : is_octal newline ≡ false
unfolding is_octal
octal_newline = refl

decimal_newline : is_decimal newline ≡ false
unfolding is_decimal
decimal_newline = refl

module _ (src : List ℕ) where
  abbrev pub Moves : Handler → Type 0
  Moves f = (p : Position) → Walk src p (f p).0

  -- A character that is another one than a newline.
  pub char-Walk :
      (p : Position) (c : ℕ) → (peek src p == c) ≡ true → c ≢ newline → Walk src p (advance src p)
  char-Walk p c e ne =
      advance-Walk src p (λ q. ne (let same : peek src p ≡ c = ground arith in sym same ∙ q))

  -- Both branches of a test.
  pub if-Walk :
      {p q r : Position} (b : Bool)
      → (b ≡ true → Walk src p q)
      → (b ≡ false → Walk src p r)
      → Walk src p (if b then q else r)
  if-Walk true f g = f refl
  if-Walk false f g = g refl

  pub if-Walk_first :
      {p : Position} (x y : Position × Scanned) (b : Bool)
      → (b ≡ true → Walk src p x.0)
      → (b ≡ false → Walk src p y.0)
      → Walk src p (if b then x else y).0
  if-Walk_first x y true f g = f refl
  if-Walk_first x y false f g = g refl

  pub and_first : (a b : Bool) → (a && b) ≡ true → a ≡ true
  and_first a b h = ground arith

  pub and_second : (a b : Bool) → (a && b) ≡ true → b ≡ true
  and_second a b h = ground arith

  pub either_Walk :
      (p : Position) (a b : ℕ)
      → a ≢ newline
      → b ≢ newline
      → ((peek src p == a) || (peek src p == b)) ≡ true
      → Walk src p (advance src p)
  either_Walk p a b na nb h = advance-Walk src p (λ q. ground arith)

  pub single-Moves : (type : TokenType) → Moves (single src type)
  unfolding single
  single-Moves type p = stay

  pub with_equal-Moves : (a b : TokenType) → Moves (with_equal src a b)
  unfolding with_equal
  with_equal-Moves a b p =
      if-Walk_first _ _ (matches src p b'=') (λ e. matches-Walk src p b'=' e (omega arith))
        (λ e. stay)

  pub doubled-Moves : (c : ℕ) (a b d e : TokenType) → c ≢ newline → Moves (doubled src c a b d e)
  unfolding doubled
  doubled-Moves c a b d e ne p =
      if-Walk_first _ _ (matches src p b'=') (λ f. matches-Walk src p b'=' f (omega arith))
        (λ f.
          if-Walk_first _ _ (matches src p c)
            (λ g. join-Walk src (matches-Walk src p c g ne) (with_equal-Moves b d (advance src p)))
            (λ g. stay))

  -- One character ahead.
  pub peek_next-one : (p : Position) → peek src p ≢ 0 → peek_next src p 1 ≡ peek src (advance src p)
  unfolding peek_next peek
  peek_next-one p ne =
      let differs : (get_or src p.cur 0 == 0) ≡ false = ground arith in
      rw (advance-here src p ne, differs) refl

  pub dots-Moves : Moves (dots src)
  unfolding dots
  dots-Moves p =
      if-Walk_first _ _ ((peek src p == b'.') && (peek_next src p 1 == b'.'))
        (λ e.
          let here = and_first _ _ e in
          let ahead : (peek src (advance src p) == b'.') ≡ true =
            rw (← peek_next-one p (ground arith)) (and_second _ _ e) in
          join-Walk src (char-Walk p b'.' here (omega arith))
            (char-Walk (advance src p) b'.' ahead (omega arith)))
        (λ e. stay)

  pub minuses-Moves : Moves (minuses src)
  unfolding minuses
  minuses-Moves p =
      if-Walk_first _ _ (matches src p b'=') (λ e. matches-Walk src p b'=' e (omega arith))
        (λ _.
          if-Walk_first _ _ (matches src p b'-') (λ e. matches-Walk src p b'-' e (omega arith))
            (λ _.
              if-Walk_first _ _ (matches src p b'>') (λ e. matches-Walk src p b'>' e (omega arith))
                (λ _. stay)))

  pub pluses-Moves : Moves (pluses src)
  unfolding pluses
  pluses-Moves p =
      if-Walk_first _ _ (matches src p b'=') (λ e. matches-Walk src p b'=' e (omega arith))
        (λ _.
          if-Walk_first _ _ (matches src p b'+') (λ e. matches-Walk src p b'+' e (omega arith))
            (λ _. stay))

  fraction-Walk : (p : Position) → Walk src p (fraction src p)
  unfolding fraction
  fraction-Walk p =
      if-Walk ((peek src p == b'.') && is_digit (peek_next src p 1))
        (λ e.
          join-Walk src (char-Walk p b'.' (and_first _ _ e) (omega arith))
            (skip-Walk src is_digit _ digit_newline))
        (λ _. stay)

  sign-Walk : (p : Position) → Walk src p (sign src p)
  unfolding sign
  sign-Walk p =
      if-Walk (peek src p == b'+' || peek src p == b'-')
        (λ e. either_Walk p b'+' b'-' (omega arith) (omega arith) e) (λ _. stay)

  exponent-Walk : (p : Position) → Walk src p (exponent src p)
  unfolding exponent
  exponent-Walk p =
      if-Walk (peek src p == b'e' || peek src p == b'E')
        (λ e.
          join-Walk src (either_Walk p b'e' b'E' (omega arith) (omega arith) e)
            (join-Walk src (sign-Walk _) (skip-Walk src is_digit _ digit_newline)))
        (λ _. stay)

  decimal-Walk : (p : Position) → Walk src p (decimal src p)
  unfolding decimal
  decimal-Walk p =
      join-Walk src (skip-Walk src is_decimal p decimal_newline)
        (join-Walk src (fraction-Walk _) (exponent-Walk _))

  based-Walk :
      (p : Position) (z : Bool) (x y : ℕ) (test : ℕ → Bool)
      → x ≢ newline
      → y ≢ newline
      → test newline ≡ false
      → (z && ((peek src p == x) || (peek src p == y))) ≡ true
      → Walk src p (skip src test (advance src p))
  based-Walk p z x y test nx ny h e =
      join-Walk src (either_Walk p x y nx ny (ground arith)) (skip-Walk src test _ h)

  pub number_end-Walk : (c : ℕ) (p : Position) → Walk src p (number_end src c p)
  unfolding number_end
  number_end-Walk c p =
      if-Walk ((c == b'0') && (peek src p == b'x' || peek src p == b'X'))
        (λ e. based-Walk p (c == b'0') b'x' b'X' is_hex (omega arith) (omega arith) hex_newline e)
        (λ _.
          if-Walk ((c == b'0') && (peek src p == b'b' || peek src p == b'B'))
            (λ e.
              based-Walk p (c == b'0') b'b' b'B' is_binary (omega arith) (omega arith)
                binary_newline e)
            (λ _.
              if-Walk ((c == b'0') && (peek src p == b'o' || peek src p == b'O'))
                (λ e.
                  based-Walk p (c == b'0') b'o' b'O' is_octal (omega arith) (omega arith)
                    octal_newline e)
                (λ _. decimal-Walk p)))
