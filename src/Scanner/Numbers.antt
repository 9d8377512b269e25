-- ===== src/Scanner/Numbers.antt =====
-- src/scanner.c: numbers.
use kuroko.Prelude.{ℕ, Bool, ◌&&◌, ◌||◌, List, leb, ◌==◌, if◌then◌else◌}
use kuroko.Scanner.{Position, peek, peek_next, advance, skip, is_digit}

unfoldable pub is_hex : ℕ → Bool
unfolding is_digit
is_hex c = is_digit c || (leb b'a' c && leb c b'f') || (leb b'A' c && leb c b'F') || c == b'_'

unfoldable pub is_binary : ℕ → Bool
is_binary c = c == b'0' || c == b'1' || c == b'_'

unfoldable pub is_octal : ℕ → Bool
is_octal c = (leb b'0' c && leb c b'7') || c == b'_'

unfoldable pub is_decimal : ℕ → Bool
unfolding is_digit
is_decimal c = is_digit c || c == b'_'

module _ (src : List ℕ) where
  unfoldable pub fraction : Position → Position
  unfolding peek peek_next advance skip is_digit
  fraction p =
      if (peek src p == b'.') && is_digit (peek_next src p 1)
      then skip src is_digit (advance src p)
      else p

  unfoldable pub sign : Position → Position
  unfolding peek advance
  sign p = if peek src p == b'+' || peek src p == b'-' then advance src p else p

  unfoldable pub exponent : Position → Position
  unfolding peek advance skip is_digit sign
  exponent p =
      if peek src p == b'e' || peek src p == b'E'
      then skip src is_digit (sign (advance src p))
      else p

  unfoldable pub decimal : Position → Position
  unfolding skip is_decimal fraction exponent
  decimal p = exponent (fraction (skip src is_decimal p))

  -- `number`, behind the first digit `c`.
  unfoldable pub number_end : ℕ → Position → Position
  unfolding peek advance skip is_hex is_binary is_octal decimal
  number_end c p =
      if c == b'0' && (peek src p == b'x' || peek src p == b'X')
      then skip src is_hex (advance src p)
      else if c == b'0' && (peek src p == b'b' || peek src p == b'B')
      then skip src is_binary (advance src p)
      else if c == b'0' && (peek src p == b'o' || peek src p == b'O')
      then skip src is_octal (advance src p)
      else decimal p
