-- ===== src/Chunk.antt =====
-- src/chunk.c: the bytecode of a function, with its line map and its constants.

pub mod Search
pub mod Lines
pub mod Written
pub mod Constants
pub mod Roundtrip
use kuroko.Buffer.{Buffer, push, empty}
use kuroko.Prelude.{
  ℕ, zero, suc, ◌+◌, ◌-◌, ◌*◌, ◌/◌, ◌%◌, ◌^◌, Bool, true, false, Option, none, some, List, [], ◌∷◌,
  ltb, ◌==◌, ◌&&◌, if◌then◌else◌, get_or,
}

pub record LineMap : Type 0 where
  pub start_offset : ℕ
  pub line : ℕ

-- Memory that is not written yet.
abbrev pub no_line : LineMap
no_line = record { start_offset = 0; line = 0 }

-- Three growing arrays; the name of the file is left out.
pub record Chunk {ℓ} (V : Type ℓ) : Type ℓ where
  pub code : Buffer ℕ
  pub lines : Buffer LineMap
  pub constants : Buffer V

-- `addLine`, with the offset of the byte.
unfoldable pub add_line : Buffer LineMap → ℕ → ℕ → Buffer LineMap
unfolding push
add_line lines offset line =
    if ltb 0 lines.count && ((get_or lines.values (lines.count - 1) no_line).line == line)
    then lines
    else push no_line lines (record { start_offset = offset; line = line })

-- The scan of `krk_lineNumber` over `n` entries from `i`, with the line of the entry before.
unfoldable pub scan : List LineMap → ℕ → ℕ → ℕ → ℕ → ℕ
scan lines offset zero i line = line
scan lines offset (suc n) i line = elim (ltb offset (get_or lines i no_line).start_offset) [
  | true ↦ line
  | false ↦ scan lines offset n (i + 1) (get_or lines i no_line).line
]

-- The loop of `krk_lineNumber` with fuel; `none` where it runs out.
unfoldable pub search : List LineMap → ℕ → ℕ → ℕ → ℕ → Option ℕ
unfolding scan
search lines offset zero lo hi = none
search lines offset (suc fuel) lo hi =
    if lo == hi
    then some 0
    else if ltb (hi - lo) 10
    then some (scan lines offset (hi - lo) lo 0)
    else elim (ltb offset (get_or lines (lo + (hi - lo) / 2) no_line).start_offset) [
      | true ↦ search lines offset fuel lo (lo + (hi - lo) / 2)
      | false ↦ search lines offset fuel (lo + (hi - lo) / 2) hi
    ]

module _ {ℓ} {V : Type ℓ} where
  unfoldable pub init_chunk : Chunk V
  unfolding empty
  init_chunk = record { code = empty; lines = empty; constants = empty }

  unfoldable pub write_chunk : Chunk V → ℕ → ℕ → Chunk V
  unfolding push add_line
  write_chunk chunk byte line = record chunk {
    code = push 0 chunk.code byte;
    lines = add_line chunk.lines chunk.code.count line;
  }

  -- Every round at least halves the range.
  unfoldable pub line_number : Chunk V → ℕ → Option ℕ
  unfolding search
  line_number chunk offset =
      search chunk.lines.values offset (chunk.lines.count + 1) 0 chunk.lines.count

  module _ (fill : V) where
    -- The values that `krk_addConstant` pushes and pops keep the constant alive.
    unfoldable pub add_constant : Chunk V → V → Chunk V × ℕ
    unfolding push
    add_constant chunk value =
        let constants = push fill chunk.constants value in
        (record chunk { constants = constants }, constants.count - 1)

  module _ (op_constant op_constant_long : ℕ) where
    unfoldable pub emit_constant : Chunk V → ℕ → ℕ → Chunk V
    unfolding write_chunk
    emit_constant chunk ind line =
        if ltb ind 256
        then write_chunk (write_chunk chunk op_constant line) (ind % 256) line
        else write_chunk
            (write_chunk
              (write_chunk (write_chunk chunk op_constant_long line) (ind / 2 ^ 16 % 256) line)
              (ind / 2 ^ 8 % 256) line)
            (ind % 256) line

    unfoldable pub write_constant : V → Chunk V → V → ℕ → Chunk V × ℕ
    unfolding add_constant emit_constant
    write_constant fill chunk value line =
        let (added, ind) = add_constant fill chunk value in (emit_constant added ind line, ind)
