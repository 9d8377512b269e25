-- ===== src/Scanner/Progress.antt =====
-- src/scanner.c: `krk_scanToken` moves by single characters, and always moves on.
use kuroko.Prelude.{
  ℕ, ◌-◌, ◌≡◌, refl, inl, inr, Bool, true, false, ◌&&◌, ◌||◌, Bool-cases, none, List, [], ◌∷◌,
  arith, ◌==◌, ltb, if◌then◌else◌, All, take, drop,
}
use kuroko.Scanner.{Position, newline, is_blank, is_digit, is_alpha, peek, is_at_end, advance, skip}
use kuroko.Scanner.Token.{
  Token, left_paren, right_paren, left_brace, right_brace, left_square, right_square, comma,
  semicolon, tilde,
}
use kuroko.Scanner.Walk.{Walk, stay, join-Walk, advance-Walk, newline-Walk, skip-Walk}
use kuroko.Scanner.Words.{switch, identifier_token}
use kuroko.Scanner.Strings.{failed}
use kuroko.Scanner.Scan.{
  Scanner, Handler, in_line, contains, operators, scan_char, skip_blanks, make_indentation,
  scan_rest, scan_token,
}
use kuroko.Scanner.Moves.{
  Moves, if-Walk, if-Walk_first, single-Moves, with_equal-Moves, doubled-Moves, dots-Moves,
  minuses-Moves, pluses-Moves, number_end-Walk,
}
use kuroko.Scanner.Literals.{identifier_end-Walk, string_end-Moves}

module _ (src : List ℕ) where
  switch-Moves :
      (c : ℕ) (cases : List (ℕ × Handler)) (default : Handler)
      → All (λ h. Moves src h.1) cases
      → Moves src default
      → Moves src (switch c cases default)
  unfolding switch
  switch-Moves c [] default all d p = d p
  switch-Moves c ((k, f) ∷ cases) default all d p = elim (Bool-cases (c == k)) [
    | inl e ↦ rw e (all.0 p)
    | inr e ↦ rw e (switch-Moves c cases default all.1 d p)
  ]

  operators-Moves : All (λ h. Moves src h.1) (operators src)
  unfolding operators
  operators-Moves = (
    single-Moves src left_paren,
    (
      single-Moves src right_paren,
      (
        single-Moves src left_brace,
        (
          single-Moves src right_brace,
          (
            single-Moves src left_square,
            (
              single-Moves src right_square,
              (
                single-Moves src comma,
                (
                  single-Moves src semicolon,
                  (
                    single-Moves src tilde,
                    (
                      dots-Moves src,
                      (
                        with_equal-Moves src _ _,
                        (
                          with_equal-Moves src _ _,
                          (
                            with_equal-Moves src _ _,
                            (
                              doubled-Moves src _ _ _ _ _ (omega arith),
                              (
                                doubled-Moves src _ _ _ _ _ (omega arith),
                                (
                                  minuses-Moves src,
                                  (
                                    pluses-Moves src,
                                    (
                                      with_equal-Moves src _ _,
                                      (
                                        with_equal-Moves src _ _,
                                        (
                                          with_equal-Moves src _ _,
                                          (
                                            doubled-Moves src _ _ _ _ _ (omega arith),
                                            (
                                              doubled-Moves src _ _ _ _ _ (omega arith),
                                              (
                                                with_equal-Moves src _ _,
                                                (
                                                  with_equal-Moves src _ _,
                                                  (
                                                    string_end-Moves src _ (omega arith)
                                                        (omega arith),
                                                    (
                                                      string_end-Moves src _ (omega arith)
                                                          (omega arith),
                                                      tt,
                                                    ),
                                                  ),
                                                ),
                                              ),
                                            ),
                                          ),
                                        ),
                                      ),
                                    ),
                                  ),
                                ),
                              ),
                            ),
                          ),
                        ),
                      ),
                    ),
                  ),
                ),
              ),
            ),
          ),
        ),
      ),
    ),
  )

  pub scan_char-Moves : (start c : ℕ) → Moves src (scan_char src start c)
  unfolding scan_char identifier_token
  scan_char-Moves start c p =
      if-Walk_first src _ _ (is_alpha c || ltb 0x7F c) (λ _. identifier_end-Walk src p)
        (λ _.
          if-Walk_first src _ _ (is_digit c) (λ _. number_end-Walk src c p)
            (λ _.
              switch-Moves c (operators src) (λ q. (q, failed _)) operators-Moves (λ q. stay) p))

  pub skip_blanks-Walk : (p : Position) → Walk src p (skip_blanks src p)
  unfolding skip_blanks
  skip_blanks-Walk p =
      if-Walk src (peek src (skip src is_blank p) == b'#')
        (λ _. join-Walk src (skip-Walk src is_blank p refl) (skip-Walk src in_line _ refl))
        (λ _. skip-Walk src is_blank p refl)

  -- Both branches of a test, for the position in the middle.
  if-Walk_middle :
      {p : Position} (x y : Token × Position × Bool) (b : Bool)
      → (b ≡ true → Walk src p x.1)
      → (b ≡ false → Walk src p y.1)
      → Walk src p (if b then x else y).1
  if-Walk_middle x y true f g = f refl
  if-Walk_middle x y false f g = g refl

  -- From behind the blanks.
  pub indented-Walk : (p : Position) → Walk src (skip src is_blank p) (make_indentation src p).1
  unfolding make_indentation
  indented-Walk p =
      if-Walk_middle _ _ (is_at_end src (skip src is_blank p)) (λ _. stay)
        (λ _.
          if-Walk_middle _ _
            (contains _ (take ((skip src is_blank p).cur - p.cur) (drop p.cur src))) (λ _. stay)
            (λ _.
              if-Walk_middle _ _
                (peek src (skip src is_blank p) == b'#'
                  || peek src (skip src is_blank p) == newline)
                (λ _. skip-Walk src in_line _ refl) (λ _. stay)))

  make_indentation-Walk : (p : Position) → Walk src p (make_indentation src p).1
  make_indentation-Walk p = join-Walk src (skip-Walk src is_blank p refl) (indented-Walk p)

  pub scan_rest-Walk : (p : Position) (b : Bool) → Walk src p (scan_rest src p b).1
  unfolding scan_rest
  scan_rest-Walk p b =
      if-Walk_middle _ _ (is_at_end src p) (λ _. stay)
        (λ _.
          if-Walk_middle _ _ (peek src p == newline) (λ e. newline-Walk src p (ground arith))
            (λ e.
              let over = advance-Walk src p (ground arith) in
              if-Walk_middle _ _ ((peek src p == b'\\') && (peek src (advance src p) == newline))
                (λ f. join-Walk src over (newline-Walk src (advance src p) (ground arith)))
                (λ _. join-Walk src over (scan_char-Moves p.cur (peek src p) (advance src p)))))

  -- `krk_scanToken` with no token put back moves over whole characters, and counts each newline.
  pub scan_token-Walk :
      (s : Scanner) → s.unget ≡ none → Walk src s.position (scan_token src s).1.position
  unfolding scan_token
  scan_token-Walk s e = elim (Bool-cases (s.start_of_line && is_blank (peek src s.position))) [
    | inl f ↦ rw (e, f, scan_token) (make_indentation-Walk s.position)
    | inr f ↦
        rw (e, f, scan_token)
          (join-Walk src (skip_blanks-Walk s.position)
            (scan_rest-Walk (skip_blanks src s.position) s.start_of_line))
  ]
