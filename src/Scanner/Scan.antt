-- ===== src/Scanner/Scan.antt =====
-- src/scanner.c: `krk_scanToken`.
use kuroko.Prelude.{
  ℕ, ◌-◌, ◌*◌, Bool, true, false, ◌&&◌, ◌||◌, Option, none, some, List, [], ◌∷◌, ltb, ◌==◌,
  if◌then◌else◌, take, drop,
}
use kuroko.Scanner.{
  Position, newline, is_blank, is_digit, is_alpha, next_line, peek, peek_next, is_at_end, advance,
  matches, skip,
}
use kuroko.Scanner.Token.{
  Token, TokenType, make_token, error_token, invalid_mix, unexpected, left_paren, right_paren,
  left_brace, right_brace, left_square, right_square, comma, semicolon, tilde, dot, ellipsis, colon,
  walrus, bang, bang_equal, equal, equal_equal, less, less_equal, left_shift, lshift_equal, greater,
  greater_equal, right_shift, rshift_equal, minus, minus_equal, minus_minus, arrow, plus,
  plus_equal, plus_plus, caret, caret_equal, pipe, pipe_equal, ampersand, amp_equal, solidus,
  solidus_equal, double_solidus, dsolidus_equal, asterisk, asterisk_equal, pow, pow_equal, modulo,
  modulo_equal, at, at_equal, number, indentation, eol, retry, eof,
}
use kuroko.Scanner.Words.{switch, identifier_token}
use kuroko.Scanner.Numbers.{number_end}
use kuroko.Scanner.Strings.{Scanned, scanned, failed, string_end}

pub record Scanner : Type 0 where
  pub start : ℕ
  pub position : Position
  pub start_of_line : Bool
  pub unget : Option Token

unfoldable pub init_scanner : Scanner
init_scanner = record {
  start = 0;
  position = record { cur = 0; line = 1; line_ptr = 0 };
  start_of_line = true;
  unget = none;
}

-- `krk_ungetToken`; `none` where it aborts.
unfoldable pub unget_token : Scanner → Token → Option Scanner
unget_token s token = elim (s.unget) [
  | none ↦ some (record s { unget = some token })
  | some _ ↦ none
]

abbrev pub in_line : ℕ → Bool
in_line c = if c == 0 then false else if c == newline then false else true

abbrev pub contains : ℕ → List ℕ → Bool
contains c [] = false
contains c (x ∷ xs) = x == c || contains c xs

-- The handlers of a character give where they end, and a token type or an error.
abbrev pub Handler : Type 0
Handler = Position → Position × Scanned

module _ (src : List ℕ) where
  -- `makeIndentation`: the token, where it ends, and whether a line starts there.
  unfoldable pub make_indentation : Position → Token × Position × Bool
  unfolding peek skip is_at_end make_token error_token
  make_indentation p =
      let start = p.cur in
      let reject : ℕ = if peek src p == b' ' then b'\t' else b' ' in
      let end = skip src is_blank p in
      let out = make_token start end indentation in
      if is_at_end src end
      then (make_token start end eof, end, false)
      else if contains reject (take (end.cur - start) (drop start src))
      then (error_token start end invalid_mix, end, false)
      else if peek src end == b'#' || peek src end == newline
      then (make_token start (skip src in_line end) retry, skip src in_line end, true)
      else (if reject == b' ' then record out { length = out.length * 8 } else out, end, false)

  unfoldable pub single : TokenType → Handler
  single type p = (p, scanned type)

  -- `match(scanner, '=') ? a : b`
  unfoldable pub with_equal : TokenType → TokenType → Handler
  unfolding matches advance
  with_equal a b p = if matches src p b'=' then (advance src p, scanned a) else (p, scanned b)

  -- `match '=' ? one_equal : (match c ? (match '=' ? twice_equal : twice) : once)`
  unfoldable pub doubled : ℕ → TokenType → TokenType → TokenType → TokenType → Handler
  unfolding matches advance with_equal
  doubled c one_equal twice_equal twice once p =
      if matches src p b'='
      then (advance src p, scanned one_equal)
      else if matches src p c
      then with_equal twice_equal twice (advance src p)
      else (p, scanned once)

  unfoldable pub dots : Handler
  unfolding peek peek_next advance
  dots p =
      if (peek src p == b'.') && (peek_next src p 1 == b'.')
      then (advance src (advance src p), scanned ellipsis)
      else (p, scanned dot)

  unfoldable pub minuses : Handler
  unfolding matches advance
  minuses p =
      if matches src p b'='
      then (advance src p, scanned minus_equal)
      else if matches src p b'-'
      then (advance src p, scanned minus_minus)
      else if matches src p b'>'
      then (advance src p, scanned arrow)
      else (p, scanned minus)

  unfoldable pub pluses : Handler
  unfolding matches advance
  pluses p =
      if matches src p b'='
      then (advance src p, scanned plus_equal)
      else if matches src p b'+'
      then (advance src p, scanned plus_plus)
      else (p, scanned plus)

  -- The cases of the `switch`, behind the character.
  unfoldable pub operators : List (ℕ × Handler)
  unfolding single with_equal doubled dots minuses pluses string_end
  operators =
      (b'(', single left_paren)
      ∷ (b')', single right_paren)
      ∷ (b'{', single left_brace)
      ∷ (b'}', single right_brace)
      ∷ (b'[', single left_square)
      ∷ (b']', single right_square)
      ∷ (b',', single comma)
      ∷ (b';', single semicolon)
      ∷ (b'~', single tilde)
      ∷ (b'.', dots)
      ∷ (b':', with_equal walrus colon)
      ∷ (b'!', with_equal bang_equal bang)
      ∷ (b'=', with_equal equal_equal equal)
      ∷ (b'<', doubled b'<' less_equal lshift_equal left_shift less)
      ∷ (b'>', doubled b'>' greater_equal rshift_equal right_shift greater)
      ∷ (b'-', minuses)
      ∷ (b'+', pluses)
      ∷ (b'^', with_equal caret_equal caret)
      ∷ (b'|', with_equal pipe_equal pipe)
      ∷ (b'&', with_equal amp_equal ampersand)
      ∷ (b'/', doubled b'/' solidus_equal dsolidus_equal double_solidus solidus)
      ∷ (b'*', doubled b'*' asterisk_equal pow_equal pow asterisk)
      ∷ (b'%', with_equal modulo_equal modulo)
      ∷ (b'@', with_equal at_equal at)
      ∷ (b'"', string_end src b'"')
      ∷ (b'\'', string_end src b'\'')
      ∷ []

  -- The token that begins with `c`, which stands at `start`; `p` is behind it.
  unfoldable pub scan_char : ℕ → ℕ → Handler
  unfolding identifier_token number_end switch operators is_alpha is_digit
  scan_char start c p =
      if is_alpha c || ltb 0x7F c
      then ((identifier_token src start p).0, scanned (identifier_token src start p).1)
      else if is_digit c
      then (number_end src c p, scanned number)
      else switch c operators (λ q. (q, failed unexpected)) p

  abbrev pub to_token : ℕ → Position × Scanned → Token
  to_token start (end, scanned type) = make_token start end type
  to_token start (end, failed text) = error_token start end text

  -- `skipWhitespace`, and the comment behind it.
  unfoldable pub skip_blanks : Position → Position
  unfolding skip peek
  skip_blanks p =
      let q = skip src is_blank p in if peek src q == b'#' then skip src in_line q else q

  -- What comes behind the blanks: the token, where it ends, and whether a line starts there.
  unfoldable pub scan_rest : Position → Bool → Token × Position × Bool
  unfolding peek is_at_end advance next_line make_token scan_char
  scan_rest p start_of_line =
      let start = p.cur in
      let c = peek src p in
      let q = advance src p in
      let r = scan_char start c q in
      if is_at_end src p
      then (make_token start p eof, p, start_of_line)
      else if c == newline
      then (make_token start q (if start_of_line then retry else eol), next_line q, true)
      else if c == b'\\' && (peek src q == newline)
      then (
        make_token start (next_line (advance src q)) retry,
        next_line (advance src q),
        start_of_line,
      )
      else (to_token start r, r.0, false)

  unfoldable pub scan_token : Scanner → Token × Scanner
  unfolding make_indentation skip_blanks scan_rest peek
  scan_token s = elim (s.unget) [
    | some token ↦ (token, record s { unget = none })
    | none ↦
        let p =
          if s.start_of_line && is_blank (peek src s.position)
          then s.position
          else skip_blanks s.position in
        let (token, end, start_of_line) =
          if s.start_of_line && is_blank (peek src s.position)
          then make_indentation p
          else scan_rest p s.start_of_line in
        (
          token,
          record { start = p.cur; position = end; start_of_line = start_of_line; unget = none },
        )
  ]
