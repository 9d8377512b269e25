-- ===== src/Scanner.antt =====
-- src/scanner.c, src/kuroko/scanner.h: the state of the scanner and how it moves over a source.
pub mod Token
pub mod Words
pub mod Numbers
pub mod Strings
pub mod Scan
pub mod Walk
pub mod Moves
pub mod Literals
pub mod Progress
pub mod Laws
use kuroko.Prelude.{
  ℕ, zero, suc, ◌+◌, ◌-◌, Bool, true, false, not, ◌&&◌, ◌||◌, Option, none, List, leb, ltb, ◌==◌,
  if◌then◌else◌, length, get_or,
}

-- A pointer is an offset from the start of the source. These are the fields that a move changes.
pub record Position : Type 0 where
  pub cur : ℕ
  pub line : ℕ
  pub line_ptr : ℕ

abbrev pub newline : ℕ
newline = 10

abbrev pub is_blank : ℕ → Bool
is_blank c = c == b' ' || c == b'\t'

unfoldable pub is_digit : ℕ → Bool
is_digit c = leb b'0' c && leb c b'9'

unfoldable pub is_alpha : ℕ → Bool
is_alpha c = (leb b'a' c && leb c b'z') || (leb b'A' c && leb c b'Z') || c == b'_'

unfoldable pub next_line : Position → Position
next_line p = record p { line = p.line + 1; line_ptr = p.cur }

-- The source is a string of bytes with a NUL behind it.
module _ (src : List ℕ) where
  unfoldable pub peek : Position → ℕ
  peek p = get_or src p.cur 0

  unfoldable pub is_at_end : Position → Bool
  unfolding peek
  is_at_end p = peek p == 0

  unfoldable pub advance : Position → Position
  unfolding is_at_end
  advance p = if is_at_end p then p else record p { cur = p.cur + 1 }

  -- `match` before it moves on; the callers move on where it is true.
  unfoldable pub matches : Position → ℕ → Bool
  unfolding is_at_end peek
  matches p expected = not (is_at_end p) && (peek p == expected)

  -- `peekNext`: NUL where one of the `n` characters from here on is NUL.
  unfoldable pub peek_from : ℕ → ℕ → ℕ
  peek_from zero i = get_or src i 0
  peek_from (suc n) i = let rest = peek_from n (i + 1) in if get_or src i 0 == 0 then 0 else rest

  unfoldable pub peek_next : Position → ℕ → ℕ
  unfolding peek_from
  peek_next p n = peek_from n p.cur

  -- `while (test(peek(scanner))) advance(scanner);`, for a test that NUL fails, with fuel.
  unfoldable pub skip_fuel : ℕ → (ℕ → Bool) → Position → Position
  unfolding peek advance
  skip_fuel zero test p = p
  skip_fuel (suc fuel) test p = elim (test (peek p)) [
    | true ↦ skip_fuel fuel test (advance p)
    | false ↦ p
  ]

  -- A round for each byte is enough.
  unfoldable pub skip : (ℕ → Bool) → Position → Position
  unfolding skip_fuel
  skip test p = skip_fuel (length src) test p
