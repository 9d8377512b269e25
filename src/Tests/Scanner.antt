-- ===== src/Tests/Scanner.antt =====
-- src/scanner.c on a small source.
use kuroko.Prelude.{ℕ, zero, suc, ◌<◌, ◌≡◌, refl, none, List, [], ◌∷◌, arith}
use kuroko.Scanner.Token.{
  TokenType, eof, eol, if_word, identifier, colon, indentation, number, arrow, dsolidus_equal,
  error,
}
use kuroko.Scanner.Walk.{IsPlaced, start-IsPlaced}
use kuroko.Scanner.Scan.{Scanner, init_scanner, scan_token}
use kuroko.Scanner.Laws.{
  scanned_times, scan_token-IsPlaced, scan_token-Progresses, scan_token_ends, Progresses,
}

-- "if x:\n  y"
abbrev source : List ℕ
source = b'i' ∷ b'f' ∷ b' ' ∷ b'x' ∷ b':' ∷ 10 ∷ b' ' ∷ b' ' ∷ b'y' ∷ []

abbrev types : List ℕ → ℕ → Scanner → List TokenType
types src zero s = []
types src (suc n) s = (scan_token src s).0.type ∷ types src n (scan_token src s).1

runs_source :
    types source 8 init_scanner
    ≡ if_word ∷ identifier ∷ colon ∷ eol ∷ indentation ∷ identifier ∷ eof ∷ eof ∷ []
unfolding scan_token init_scanner
runs_source = refl

-- "0x1f_->//=" and a string in three quotes that does not end
runs_literals :
    types
      (b'0' ∷ b'x' ∷ b'1' ∷ b'f' ∷ b'_' ∷ b'-' ∷ b'>' ∷ b'/' ∷ b'/' ∷ b'=' ∷ b'"' ∷ b'"' ∷ b'"' ∷ 10
        ∷ b'"' ∷ [])
      5
      init_scanner
    ≡ number ∷ arrow ∷ dsolidus_equal ∷ error ∷ eof ∷ []
unfolding scan_token init_scanner
runs_literals = refl

scan_token-IsPlaced_example : IsPlaced source (scan_token source init_scanner).1.position
unfolding init_scanner
scan_token-IsPlaced_example = scan_token-IsPlaced source init_scanner refl (start-IsPlaced source)

scan_token-Progresses_example :
    Progresses source
      (init_scanner.position)
      (scan_token source init_scanner).0
      (scan_token source init_scanner).1.position
    × ((scan_token source init_scanner).1.unget ≡ none)
unfolding init_scanner
scan_token-Progresses_example = scan_token-Progresses source init_scanner refl

scan_token_ends_example :
    (n : ℕ) × (n < 10) × ((scan_token source (scanned_times source n init_scanner)).0.type ≡ eof)
unfolding init_scanner
scan_token_ends_example = scan_token_ends source 10 init_scanner refl (omega arith) (omega arith)
