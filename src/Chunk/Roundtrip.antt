-- ===== src/Chunk/Roundtrip.antt =====
-- src/chunk.c: writing bytes and looking up their lines.
use mathlib.Core.List.{append_assoc}
use kuroko.Chunk.{Chunk, init_chunk, write_chunk, line_number}
use kuroko.Chunk.Written.{
  IsWritten, init_chunk-IsWritten, write_chunk-IsWritten, line_number-IsWritten,
}
use kuroko.Prelude.{
  append-nil, ℕ, suc, ◌+◌, ◌^◌, ◌≤◌, length-append, ◌<◌, ◌≡◌, refl, ap, some, List, [], ◌∷◌, ◌++◌,
  arith, get_or, length,
}

abbrev pub bytes_of : List (ℕ × ℕ) → List ℕ
bytes_of [] = []
bytes_of ((byte, line) ∷ rest) = byte ∷ bytes_of rest

abbrev pub lines_of : List (ℕ × ℕ) → List ℕ
lines_of [] = []
lines_of ((byte, line) ∷ rest) = line ∷ lines_of rest

module _ {ℓ} {V : Type ℓ} where
  -- One call of `krk_writeChunk` after the other, for bytes and their lines.
  unfoldable pub write_all : Chunk V → List (ℕ × ℕ) → Chunk V
  unfolding write_chunk
  write_all chunk [] = chunk
  write_all chunk ((byte, line) ∷ rest) = write_all (write_chunk chunk byte line) rest

  write_all-IsWritten :
      (code : List (ℕ × ℕ)) (c : Chunk V) (bytes lines : List ℕ) (constants : List V)
      → length bytes + length code ≤ 2 ^ 30
      → IsWritten c bytes lines constants
      → IsWritten (write_all c code) (bytes ++ bytes_of code) (lines ++ lines_of code) constants
  unfolding write_all
  write_all-IsWritten [] c bytes lines constants few w = simp append-nil w
  write_all-IsWritten ((byte, line) ∷ rest) c bytes lines constants few w = simp append_assoc at (
      write_all-IsWritten rest (write_chunk c byte line) (bytes ++ (byte ∷ []))
        (lines ++ (line ∷ [])) constants (omega (arith, length-append bytes (byte ∷ [])))
        (write_chunk-IsWritten c bytes lines constants byte line (omega arith) w))

length-bytes_of : (code : List (ℕ × ℕ)) → length (bytes_of code) ≡ length code
length-bytes_of [] = refl
length-bytes_of ((byte, line) ∷ rest) = ap suc (length-bytes_of rest)

-- After at most 2 ^ 30 bytes are written to a new chunk one by one, each with its line,
-- `krk_lineNumber` of the offset of each byte ends and returns the line with which the byte was
-- written.
pub line_number-write_all {ℓ} :
    (V : Type ℓ) (code : List (ℕ × ℕ)) (i : ℕ)
    → length code ≤ 2 ^ 30
    → i < length code
    → line_number (write_all (init_chunk {V = V}) code) i ≡ some (get_or (lines_of code) i 0)
line_number-write_all V code i few h =
    line_number-IsWritten (write_all (init_chunk {V = V}) code) (bytes_of code) (lines_of code) [] i
      (write_all-IsWritten code init_chunk [] [] [] (omega arith) init_chunk-IsWritten)
      (omega (arith, length-bytes_of code))
