-- ===== src/Chunk/Written.antt =====
-- src/chunk.c: what a chunk holds after its bytes are written, one by one.
use kuroko.Buffer.{Holds, empty-Holds, push_lem, get_or-append}
use kuroko.Chunk.{LineMap, no_line, Chunk, init_chunk, write_chunk, line_number}
use kuroko.Chunk.Lines.{IsMap, nil-IsMap, add_line-IsMap}
use kuroko.Chunk.Search.{start, search-Last}
use kuroko.Prelude.{
  ℕ, ◌^◌, ◌+◌, ◌<◌, ◌≡◌, refl, ap, ◌∙◌, some, List, [], ◌∷◌, ◌++◌, arith, get_or, length,
  length-append,
}

module _ {ℓ} {V : Type ℓ} where
  -- The chunk holds the bytes, the line of each, and the constants.
  pub record IsWritten (c : Chunk V) (bytes lines : List ℕ) (constants : List V) : Type ℓ where
    pub code : Holds c.code bytes
    pub map : List LineMap
    pub held : Holds c.lines map
    pub mapped : IsMap map lines
    pub paired : length bytes ≡ length lines
    pub pool : Holds c.constants constants

  -- A new chunk is empty.
  pub init_chunk-IsWritten : IsWritten init_chunk [] [] []
  unfolding init_chunk
  init_chunk-IsWritten = record {
    code = empty-Holds;
    map = [];
    held = empty-Holds;
    mapped = nil-IsMap;
    paired = refl;
    pool = empty-Holds;
  }

  module _ (c : Chunk V) (bytes lines : List ℕ) (constants : List V) where
    -- `krk_writeChunk` on a chunk that holds fewer than 2 ^ 30 bytes, their lines and constants gives
    -- one that holds the byte behind them, with its line, and the same constants.
    pub write_chunk-IsWritten :
        (byte line : ℕ)
        → length bytes < 2 ^ 30
        → IsWritten c bytes lines constants
        → IsWritten
            (write_chunk c byte line)
            (bytes ++ (byte ∷ []))
            (lines ++ (line ∷ []))
            constants
    unfolding write_chunk
    write_chunk-IsWritten byte line few w =
        let (map, held, mapped) =
          add_line-IsMap c.lines w.map lines line (omega (arith, w.paired)) w.held w.mapped in
        let at_end : c.code.count ≡ length lines = omega (arith, w.code.counted, w.paired) in
        record {
          code = push_lem 0 c.code bytes byte few w.code;
          map = map;
          held = rw at_end held;
          mapped = mapped;
          paired =
              omega
                (arith, w.paired, length-append bytes (byte ∷ []), length-append lines (line ∷ []));
          pool = w.pool;
        }

    -- For the offset of each byte of a written chunk, `krk_lineNumber` ends and returns the line
    -- with which the byte was written.
    pub line_number-IsWritten :
        (i : ℕ)
        → IsWritten c bytes lines constants
        → i < length bytes
        → line_number c i ≡ some (get_or lines i 0)
    unfolding line_number
    line_number-IsWritten i w h =
        let rest = w.held.rest in
        let n = length w.map in
        let inside : (j : ℕ) → j < n → get_or (w.map ++ rest) j no_line ≡ get_or w.map j no_line =
          λ j p. get_or-append w.map rest j no_line p in
        let starts : (j : ℕ) → j < n → start (w.map ++ rest) j ≡ start w.map j =
          λ j p. ap (λ (e : LineMap). e.start_offset) (inside j p) in
        let some_entry = w.mapped.some_entry (omega (arith, w.paired)) in
        let (line, run, last) =
          search-Last (w.map ++ rest) n i
            (λ j k p q. omega (arith, starts j (omega arith), starts k q, w.mapped.sorted j k p q))
            (n + 1) 0 n some_entry (omega arith) (omega arith)
            (omega (arith, starts 0 some_entry, w.mapped.first)) (λ k p q. absurd (omega arith)) in
        let says =
          w.mapped.says i last.index (omega (arith, w.paired)) last.inside
            (omega (arith, starts last.index last.inside, last.begun))
            (λ k p q. omega (arith, starts k q, last.later k p q)) in
        rw (w.held.stored, w.held.counted)
          (run
            ∙ ap some
                (last.same ∙ ap (λ (e : LineMap). e.line) (inside last.index last.inside) ∙ says))
