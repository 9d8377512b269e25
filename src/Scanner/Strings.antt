-- ===== src/Scanner/Strings.antt =====
-- src/scanner.c: string literals.
use kuroko.Prelude.{ℕ, zero, suc, Bool, true, false, ◌&&◌, List, length, ◌==◌, if◌then◌else◌}
use kuroko.Scanner.{Position, newline, peek, peek_next, is_at_end, advance, next_line}
use kuroko.Scanner.Token.{TokenType, string, big_string, Message, unterminated}

-- A token, or an error with its text.
pub data Scanned : Type 0 where
  scanned : TokenType → Scanned
  failed : Message → Scanned

module _ (src : List ℕ) where
  -- One character of the string, or two behind a backslash.
  unfoldable pub string_char : Position → Position
  unfolding peek advance next_line
  string_char p =
      let q = if peek src p == b'\\' then advance src p else p in
      if peek src q == newline then next_line (advance src q) else advance src q

  -- The loops go on for as long as the test holds, with fuel; each round moves on.
  unfoldable pub string_loop : ℕ → (Position → Bool) → Position → Position
  unfolding string_char
  string_loop zero test p = p
  string_loop (suc fuel) test p = elim (test p) [
    | true ↦ string_loop fuel test (string_char p)
    | false ↦ p
  ]

  abbrev pub closes_big : ℕ → Position → Bool
  closes_big quote p =
      (peek src p == quote) && (peek_next src p 1 == quote) && (peek_next src p 2 == quote)

  abbrev pub in_big : ℕ → Position → Bool
  in_big quote p = if is_at_end src p then false else if closes_big quote p then false else true

  abbrev pub in_short : ℕ → Position → Bool
  in_short quote p =
      if peek src p == quote
      then false
      else if is_at_end src p
      then false
      else if peek src p == newline
      then false
      else true

  unfoldable pub big_string_end : ℕ → Position → Position × Scanned
  unfolding string_loop is_at_end advance peek peek_next
  big_string_end quote p =
      let q = string_loop (length src) (in_big quote) (advance src (advance src p)) in
      if is_at_end src q
      then (q, failed unterminated)
      else (advance src (advance src (advance src q)), scanned big_string)

  unfoldable pub short_string_end : ℕ → Position → Position × Scanned
  unfolding string_loop is_at_end advance peek
  short_string_end quote p =
      let q = string_loop (length src) (in_short quote) p in
      if peek src q == quote
      then if is_at_end src q then (q, failed unterminated) else (advance src q, scanned string)
      else (q, failed unterminated)

  -- `string`, behind the opening quote.
  unfoldable pub string_end : ℕ → Position → Position × Scanned
  unfolding big_string_end short_string_end peek peek_next
  string_end quote p =
      if (peek src p == quote) && (peek_next src p 1 == quote)
      then big_string_end quote p
      else short_string_end quote p
