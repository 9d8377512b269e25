-- ===== src/Chunk/Constants.antt =====
-- src/chunk.c: the constants of a chunk.
use mathlib.Core.List.{append_assoc}
use kuroko.Buffer.{push, push_lem}
use kuroko.Chunk.{Chunk, add_constant, emit_constant, write_constant}
use kuroko.Chunk.Written.{IsWritten, write_chunk-IsWritten}
use kuroko.Prelude.{
  ℕ, ◌+◌, ◌-◌, ◌*◌, ◌/◌, ◌%◌, ◌^◌, ◌<◌, ◌≡◌, inl, inr, Bool-cases, List, [], ◌∷◌, ◌++◌, arith, ltb,
  length, length-append, replicate,
}

longer : (bytes : List ℕ) (byte : ℕ) → length (bytes ++ (byte ∷ [])) ≡ length bytes + 1
longer bytes byte = length-append bytes (byte ∷ [])

module _ (op_constant op_constant_long : ℕ) where
  -- An instruction that loads the constant of an index: the index in one byte, or in three bytes
  -- with the highest one first.
  pub data IsLoad (ind : ℕ) : List ℕ → Type 0 where
    short : (a : ℕ) → a < 256 → a ≡ ind → IsLoad ind (op_constant ∷ a ∷ [])
    long :
        (a b c : ℕ)
        → a < 256
        → b < 256
        → c < 256
        → a * 65536 + b * 256 + c ≡ ind
        → IsLoad ind (op_constant_long ∷ a ∷ b ∷ c ∷ [])

  module _ {ℓ} {V : Type ℓ} (bytes lines : List ℕ) (constants : List V) where
    -- The chunk after an instruction for the index.
    pub record Emitted (r : Chunk V) (line ind : ℕ) : Type ℓ where
      pub load : List ℕ
      pub is_load : IsLoad ind load
      pub written : IsWritten r (bytes ++ load) (lines ++ replicate (length load) line) constants

    emit-Emitted :
        (c : Chunk V) (ind line : ℕ)
        → ind < 2 ^ 24
        → length bytes + 3 < 2 ^ 30
        → IsWritten c bytes lines constants
        → Emitted (emit_constant op_constant op_constant_long c ind line) line ind
    unfolding emit_constant
    emit-Emitted c ind line h few w = elim (Bool-cases (ltb ind 256)) [
      | inl e ↦
          let one = write_chunk-IsWritten c _ _ _ op_constant line (omega arith) w in
          let two =
            write_chunk-IsWritten _ _ _ _ (ind % 256) line (omega (arith, longer bytes op_constant))
              one in
          rw (e, emit_constant)
            (record {
              load = op_constant ∷ ind % 256 ∷ [];
              is_load = short _ (omega arith) (ground arith);
              written = simp append_assoc at two;
            })
      | inr e ↦
          let one = write_chunk-IsWritten c _ _ _ op_constant_long line (omega arith) w in
          let two =
            write_chunk-IsWritten _ _ _ _ (ind / 2 ^ 16 % 256) line
              (omega (arith, longer bytes op_constant_long)) one in
          let three =
            write_chunk-IsWritten _ _ _ _ (ind / 2 ^ 8 % 256) line
              (omega (
                arith,
                longer bytes op_constant_long,
                longer (bytes ++ (op_constant_long ∷ [])) (ind / 2 ^ 16 % 256),
              ))
              two in
          let four =
            write_chunk-IsWritten _ _ _ _ (ind % 256) line
              (omega (
                arith,
                longer bytes op_constant_long,
                longer (bytes ++ (op_constant_long ∷ [])) (ind / 2 ^ 16 % 256),
                longer ((bytes ++ (op_constant_long ∷ [])) ++ (ind / 2 ^ 16 % 256 ∷ []))
                    (ind / 2 ^ 8 % 256),
              ))
              three in
          rw (e, emit_constant)
            (record {
              load = op_constant_long ∷ ind / 2 ^ 16 % 256 ∷ ind / 2 ^ 8 % 256 ∷ ind % 256 ∷ [];
              is_load = long _ _ _ (omega arith) (omega arith) (omega arith) (omega arith);
              written = simp append_assoc at four;
            })
    ]

  module _ {ℓ} {V : Type ℓ} (bytes lines : List ℕ) (constants : List V) where
    -- `krk_writeConstant` on a written chunk with fewer than 2 ^ 24 constants, and fewer than
    -- 2 ^ 30 - 3 bytes, appends the constant, returns its index, and appends an instruction that loads
    -- that index, on the given line.
    pub write_constant-IsWritten :
        (fill : V) (c : Chunk V) (value : V) (line : ℕ)
        → IsWritten c bytes lines constants
        → length constants < 2 ^ 24
        → length bytes + 3 < 2 ^ 30
        → ((write_constant op_constant op_constant_long fill c value line).1 ≡ length constants)
          × Emitted bytes lines
              (constants ++ (value ∷ []))
              (write_constant op_constant op_constant_long fill c value line).0
              line
              (length constants)
    unfolding write_constant add_constant
    write_constant-IsWritten fill c value line w h few =
        let pool = push_lem fill c.constants constants value (omega arith) w.pool in
        let index : (push fill c.constants value).count - 1 ≡ length constants =
          omega (arith, pool.counted, length-append constants (value ∷ [])) in
        let added : IsWritten (record c { constants = push fill c.constants value }) bytes lines
            (constants ++ (value ∷ [])) =
          record {
            code = w.code;
            map = w.map;
            held = w.held;
            mapped = w.mapped;
            paired = w.paired;
            pool = pool;
          } in
        (
          index,
          rw index (
              emit-Emitted bytes lines (constants ++ (value ∷ [])) _ (length constants) line h few
                added),
        )
