-- ===== src/Scanner/Laws.antt =====
-- src/scanner.c: what `krk_scanToken` promises its callers.
use kuroko.Prelude.{
  ℕ, zero, suc, ◌+◌, ◌<◌, ◌≤◌, ◌≡◌, ◌≢◌, refl, ap, ◌⊎◌, inl, inr, Bool, true, false, ◌&&◌,
  Bool-cases, none, List, arith, ◌==◌, if◌then◌else◌, length,
}
use kuroko.Scanner.{Position, newline, is_blank, next_line, peek, is_at_end, advance}
use kuroko.Scanner.Token.{Token, eof, make_token}
use kuroko.Scanner.Walk.{
  Walk, newline-Walk, skip-moves, cur-Walk, IsPlaced, Walk-IsPlaced, inside_source, inside-Walk,
  advance-here,
}
use kuroko.Scanner.Scan.{Scanner, skip_blanks, make_indentation, scan_rest, scan_token}
use kuroko.Scanner.Progress.{indented-Walk, scan_token-Walk, skip_blanks-Walk, scan_char-Moves}

module _ (src : List ℕ) where
  -- The line number of the position is one more than the newlines in front of it, and its line
  -- begins at 0 or behind the last of them: `krk_scanToken` with no token put back keeps this.
  pub scan_token-IsPlaced :
      (s : Scanner)
      → s.unget ≡ none
      → IsPlaced src s.position
      → IsPlaced src (scan_token src s).1.position
  scan_token-IsPlaced s e v = Walk-IsPlaced src (scan_token-Walk src s e) v

  abbrev Ends : Token → Position → Type 0
  Ends token end = (token.type ≡ eof) × (peek src end ≡ 0)

  -- The end of the source, or a move.
  abbrev pub Progresses : Position → Token → Position → Type 0
  Progresses p token end = Ends token end ⊎ (p.cur < end.cur)

  make_indentation-moves :
      (p : Position) → is_blank (peek src p) ≡ true → p.cur < (make_indentation src p).1.cur
  make_indentation-moves p e =
      let ne : peek src p ≢ 0 = λ z. ground arith in
      let h = inside_source src p ne in
      omega (
        arith,
        skip-moves src is_blank p refl e ne (omega arith),
        cur-Walk src (indented-Walk src p),
      )

  over_char :
      (p : Position) (end : Position)
      → peek src p ≢ 0
      → Walk src (advance src p) end
      → p.cur < end.cur
  over_char p end ne w =
      omega (arith, ap (λ (q : Position). q.cur) (advance-here src p ne), cur-Walk src w)

  -- Both branches of a test, for the token and the position in the middle.
  if-Progresses :
      (p : Position) (x y : Token × Position × Bool) (b : Bool)
      → (b ≡ true → Progresses p x.0 x.1)
      → (b ≡ false → Progresses p y.0 y.1)
      → Progresses p (if b then x else y).0 (if b then x else y).1
  if-Progresses p x y true f g = f refl
  if-Progresses p x y false f g = g refl

  here-Ends : (p : Position) → is_at_end src p ≡ true → Ends (make_token p.cur p eof) p
  unfolding is_at_end make_token
  here-Ends p e = (refl, ground arith)

  not_at_end : (p : Position) → is_at_end src p ≡ false → peek src p ≢ 0
  unfolding is_at_end
  not_at_end p e = ground arith

  over_newline : (p : Position) → peek src p ≢ 0 → p.cur < (next_line (advance src p)).cur
  unfolding next_line
  over_newline p ne = omega (arith, ap (λ (q : Position). q.cur) (advance-here src p ne))

  scan_rest-Progresses :
      (p : Position) (b : Bool) → Progresses p (scan_rest src p b).0 (scan_rest src p b).1
  unfolding scan_rest
  scan_rest-Progresses p b =
      if-Progresses p _ _ (is_at_end src p) (λ e. inl (here-Ends p e))
        (λ e.
          let ne = not_at_end p e in
          if-Progresses p _ _ (peek src p == newline) (λ _. inr (over_newline p ne))
            (λ _.
              if-Progresses p _ _ ((peek src p == b'\\') && (peek src (advance src p) == newline))
                (λ f. inr (over_char p _ ne (newline-Walk src (advance src p) (ground arith))))
                (λ _.
                  inr (over_char p _ ne (scan_char-Moves src p.cur (peek src p) (advance src p))))))

  later :
      (p q : Position) (token : Token) (end : Position)
      → p.cur ≤ q.cur
      → Progresses q token end
      → Progresses p token end
  later p q token end le (inl e) = inl e
  later p q token end le (inr h) = inr (omega arith)

  -- With no token put back, `krk_scanToken` moves on, or it stands at the end of the source and gives
  -- the token for that.
  pub scan_token-Progresses :
      (s : Scanner)
      → s.unget ≡ none
      → Progresses s.position (scan_token src s).0 (scan_token src s).1.position
        × ((scan_token src s).1.unget ≡ none)
  unfolding scan_token
  scan_token-Progresses s e =
      elim (Bool-cases (s.start_of_line && is_blank (peek src s.position))) [
        | inl f ↦
            rw (e, f, scan_token) (inr (make_indentation-moves s.position (ground arith)), refl)
        | inr f ↦
            rw (e, f, scan_token)
              (
                later s.position (skip_blanks src s.position)
                    (scan_rest src (skip_blanks src s.position) s.start_of_line).0
                    (scan_rest src (skip_blanks src s.position) s.start_of_line).1
                    (cur-Walk src (skip_blanks-Walk src s.position))
                    (scan_rest-Progresses (skip_blanks src s.position) s.start_of_line),
                refl,
              )
      ]

  -- The scanner after some calls.
  pub scanned_times : ℕ → Scanner → Scanner
  scanned_times zero s = s
  scanned_times (suc n) s = scanned_times n (scan_token src s).1

  ends_by :
      (s : Scanner) (fuel : ℕ)
      → Progresses s.position (scan_token src s).0 (scan_token src s).1.position
      → (s.position.cur < (scan_token src s).1.position.cur
          → (n : ℕ) × (n < fuel)
            × ((scan_token src (scanned_times n (scan_token src s).1)).0.type ≡ eof))
      → (n : ℕ) × (n < suc fuel) × ((scan_token src (scanned_times n s)).0.type ≡ eof)
  unfolding scanned_times
  ends_by s fuel (inl ends) later_ends = (0, omega arith, ends.0)
  ends_by s fuel (inr moved) later_ends =
      let (n, less, is_eof) = later_ends moved in (suc n, omega arith, is_eof)

  -- From a state with no token put back, some call among the next ones, of which there is one more
  -- than bytes are left, gives the token for the end of the source.
  pub scan_token_ends :
      (fuel : ℕ) (s : Scanner)
      → s.unget ≡ none
      → s.position.cur ≤ length src
      → length src < fuel + s.position.cur
      → (n : ℕ) × (n < fuel) × ((scan_token src (scanned_times n s)).0.type ≡ eof)
  unfolding scanned_times
  scan_token_ends zero s e inside h = absurd (omega arith)
  scan_token_ends (suc fuel) s e inside h =
      let next = (scan_token src s).1 in
      let w = inside-Walk src (scan_token-Walk src s e) inside in
      ends_by s fuel (scan_token-Progresses s e).0
        (λ moved. scan_token_ends fuel next (scan_token-Progresses s e).1 w (omega arith))
