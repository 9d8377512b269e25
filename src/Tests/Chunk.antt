-- ===== src/Tests/Chunk.antt =====
-- src/chunk.c at concrete values.
use kuroko.Chunk.{Chunk, init_chunk, write_chunk, line_number, write_constant}
use kuroko.Chunk.Constants.{Emitted, write_constant-IsWritten}
use kuroko.Chunk.Roundtrip.{write_all, line_number-write_all}
use kuroko.Chunk.Written.{IsWritten, init_chunk-IsWritten, write_chunk-IsWritten}
use kuroko.Prelude.{ℕ, ◌≡◌, some, [], ◌∷◌, arith}

-- Bytes 9, 8, 7 on the lines 1, 1, 4.
abbrev written : Chunk ℕ
written = write_chunk (write_chunk (write_chunk init_chunk 9 1) 8 1) 7 4

written-IsWritten : IsWritten written (9 ∷ 8 ∷ 7 ∷ []) (1 ∷ 1 ∷ 4 ∷ []) []
written-IsWritten = write_chunk-IsWritten _ _ _ _ 7 4 (omega arith) (
    write_chunk-IsWritten _ _ _ _ 8 1 (omega arith)
      (write_chunk-IsWritten _ _ _ _ 9 1 (omega arith) init_chunk-IsWritten))

write_chunk-IsWritten_example :
    IsWritten (write_chunk written 6 5) (9 ∷ 8 ∷ 7 ∷ 6 ∷ []) (1 ∷ 1 ∷ 4 ∷ 5 ∷ []) []
write_chunk-IsWritten_example =
    write_chunk-IsWritten written (9 ∷ 8 ∷ 7 ∷ []) (1 ∷ 1 ∷ 4 ∷ []) [] 6 5 (omega arith)
      written-IsWritten

write_constant-IsWritten_example :
    ((write_constant 1 65 0 written 33 5).1 ≡ 0)
    × Emitted 1 65
        (9 ∷ 8 ∷ 7 ∷ [])
        (1 ∷ 1 ∷ 4 ∷ [])
        (33 ∷ [])
        (write_constant 1 65 0 written 33 5).0
        5
        0
write_constant-IsWritten_example =
    write_constant-IsWritten 1 65 (9 ∷ 8 ∷ 7 ∷ []) (1 ∷ 1 ∷ 4 ∷ []) [] 0 written 33 5
      written-IsWritten (omega arith) (omega arith)

line_number-write_all_example :
    line_number (write_all (init_chunk {V = ℕ}) ((9, 1) ∷ (8, 1) ∷ (7, 4) ∷ [])) 2 ≡ some 4
line_number-write_all_example =
    line_number-write_all ℕ ((9, 1) ∷ (8, 1) ∷ (7, 4) ∷ []) 2 (omega arith) (omega arith)
