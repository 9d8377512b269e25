-- ===== src/Chunk/Lines.antt =====
-- src/chunk.c: `addLine` keeps a map of the lines of the bytes.
use kuroko.Buffer.{Buffer, Holds, push_lem, get_or-append, get_or-length}
use kuroko.Chunk.{LineMap, no_line, add_line}
use kuroko.Chunk.Search.{start, line_of}
use kuroko.Prelude.{
  ℕ, zero, suc, ◌^◌, ◌+◌, ◌-◌, ◌<◌, ◌≤◌, ◌≡◌, refl, sym, ap, ◌∙◌, inl, inr, Bool-cases, List, [],
  ◌∷◌, ◌++◌, arith, ltb, ◌==◌, ◌&&◌, get_or, length, length-append, dec_lt,
}

-- The map of the lines of all bytes: its entries begin in order, at a byte that was written, and an
-- entry has the line of each byte from where it begins to where the next one begins.
pub record IsMap (map : List LineMap) (lines : List ℕ) : Type 0 where
  pub some_entry : 0 < length lines → 0 < length map
  pub first : start map 0 ≡ 0
  pub written : (j : ℕ) → j < length map → start map j < length lines
  pub sorted : (j k : ℕ) → j < k → k < length map → start map j < start map k
  pub says :
      (i j : ℕ)
      → i < length lines
      → j < length map
      → start map j ≤ i
      → ((k : ℕ) → j < k → k < length map → i < start map k)
      → line_of map j ≡ get_or lines i 0

pub nil-IsMap : IsMap [] []
nil-IsMap = record {
  some_entry = λ h. h;
  first = refl;
  written = λ j h. absurd (omega arith);
  sorted = λ j k h l. absurd (omega arith);
  says = λ i j h. absurd (omega arith);
}

module _ (map : List LineMap) (lines : List ℕ) (line : ℕ) (v : IsMap map lines) where
  -- An entry does not begin before the byte of its number, so there are no more entries than bytes.
  starts_late : (j : ℕ) → j < length map → j ≤ start map j
  starts_late zero h = omega arith
  starts_late (suc j) h =
      omega (arith, starts_late j (omega arith), v.sorted j (suc j) (omega arith) h)

  pub length-IsMap : length map ≤ length lines
  length-IsMap = elim (dec_lt 0 (length map)) [
    | yes p ↦ omega (
      arith,
      starts_late (length map - 1) (omega arith),
      v.written (length map - 1) (omega arith),
    )
    | no p ↦ omega arith
  ]

  abbrev lines' : List ℕ
  lines' = lines ++ (line ∷ [])

  more_lines : length lines' ≡ length lines + 1
  more_lines = length-append lines (line ∷ [])

  old_line : (i : ℕ) → i < length lines → get_or lines' i 0 ≡ get_or lines i 0
  old_line i h = get_or-append lines (line ∷ []) i 0 h

  new_line : (i : ℕ) → i ≡ length lines → get_or lines' i 0 ≡ line
  new_line i h = rw h (get_or-length lines line [] 0)

  -- The line goes on.
  same_line-IsMap : 0 < length map → line_of map (length map - 1) ≡ line → IsMap map lines'
  same_line-IsMap pos same = record {
    some_entry = λ h. pos;
    first = v.first;
    written = λ j h. omega (arith, v.written j h, more_lines);
    sorted = v.sorted;
    says = λ i j h l s after. elim (dec_lt i (length lines)) [
      | yes p ↦ v.says i j p l s after ∙ sym (old_line i p)
      | no p ↦ elim (dec_lt j (length map - 1)) [
        | yes q ↦ absurd (
            omega (
              arith,
              after (length map - 1) q (omega arith),
              v.written (length map - 1) (omega arith),
            ))
        | no q ↦
            let last : j ≡ length map - 1 = omega arith in
            rw last same ∙ sym (new_line i (omega (arith, more_lines)))
      ]
    ];
  }

  abbrev entry : LineMap
  entry = record { start_offset = length lines; line = line }

  abbrev map' : List LineMap
  map' = map ++ (entry ∷ [])

  more_entries : length map' ≡ length map + 1
  more_entries = length-append map (entry ∷ [])

  old_entry : (j : ℕ) → j < length map → get_or map' j no_line ≡ get_or map j no_line
  old_entry j h = get_or-append map (entry ∷ []) j no_line h

  new_entry : (j : ℕ) → j ≡ length map → get_or map' j no_line ≡ entry
  new_entry j h = rw h (get_or-length map entry [] no_line)

  old_start : (j : ℕ) → j < length map → start map' j ≡ start map j
  old_start j h = ap (λ (e : LineMap). e.start_offset) (old_entry j h)

  new_start : (j : ℕ) → j ≡ length map → start map' j ≡ length lines
  new_start j h = ap (λ (e : LineMap). e.start_offset) (new_entry j h)

  -- A new entry begins.
  entry-IsMap : IsMap map' lines'
  entry-IsMap = record {
    some_entry = λ h. omega (arith, more_entries);
    first = elim (dec_lt 0 (length map)) [
      | yes p ↦ old_start 0 p ∙ v.first
      | no p ↦ elim (dec_lt 0 (length lines)) [
        | yes q ↦ absurd (omega (arith, v.some_entry q))
        | no q ↦ omega (arith, new_start 0 (omega arith))
      ]
    ];
    written = λ j h. elim (dec_lt j (length map)) [
      | yes p ↦ omega (arith, old_start j p, v.written j p, more_lines)
      | no p ↦ omega (arith, new_start j (omega (arith, more_entries)), more_lines)
    ];
    sorted = λ j k h l. elim (dec_lt k (length map)) [
      | yes p ↦ omega (arith, old_start j (omega arith), old_start k p, v.sorted j k h p)
      | no p ↦ omega (
        arith,
        old_start j (omega (arith, more_entries)),
        new_start k (omega (arith, more_entries)),
        v.written j (omega (arith, more_entries)),
      )
    ];
    says = says_after;
  }
    where
      says_after :
          (i j : ℕ)
          → i < length lines'
          → j < length map'
          → start map' j ≤ i
          → ((k : ℕ) → j < k → k < length map' → i < start map' k)
          → line_of map' j ≡ get_or lines' i 0
      says_after i j h l s after = elim (dec_lt j (length map)) [
        | no p ↦
            let new : j ≡ length map = omega (arith, more_entries) in
            ap (λ (e : LineMap). e.line) (new_entry j new)
            ∙ sym (new_line i (omega (arith, more_lines, new_start j new)))
        | yes p ↦
            let early = after (length map) p (omega (arith, more_entries)) in
            let old : i < length lines = omega (arith, early, new_start (length map) refl) in
            ap (λ (e : LineMap). e.line) (old_entry j p)
            ∙ v.says i j old p (omega (arith, old_start j p))
                (λ k a b. omega (arith, after k a (omega (arith, more_entries)), old_start k b))
            ∙ sym (old_line i old)
      ]

-- `addLine` for the next byte.
pub add_line-IsMap :
    (b : Buffer LineMap) (map : List LineMap) (lines : List ℕ) (line : ℕ)
    → length lines < 2 ^ 30
    → Holds b map
    → IsMap map lines
    → (map' : List LineMap) × Holds (add_line b (length lines) line) map'
      × IsMap map' (lines ++ (line ∷ []))
unfolding add_line
add_line-IsMap b map lines line few h v =
    elim (Bool-cases (ltb 0 b.count && ((get_or b.values (b.count - 1) no_line).line == line))) [
      | inl e ↦
          let pos : 0 < b.count = ground arith in
          let stored : get_or b.values (b.count - 1) no_line ≡ get_or map (length map - 1) no_line =
            rw (h.stored, h.counted)
              (get_or-append map h.rest (length map - 1) no_line (omega (arith, h.counted))) in
          let same : (get_or b.values (b.count - 1) no_line).line ≡ line = ground arith in
          (
            map,
            rw (e, add_line) h,
            same_line-IsMap map lines line v (omega (arith, h.counted))
                (ap (λ (e : LineMap). e.line) (sym stored) ∙ same),
          )
      | inr e ↦ (
        _,
        rw (e, add_line)
            (push_lem no_line b map _ (omega (arith, length-IsMap map lines line v)) h),
        entry-IsMap map lines line v,
      )
    ]
