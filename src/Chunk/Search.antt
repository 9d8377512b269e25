-- ===== src/Chunk/Search.antt =====
-- src/chunk.c: what `krk_lineNumber` finds in a line map.
use kuroko.Chunk.{LineMap, no_line, scan, search}
use kuroko.Prelude.{
  ℕ, zero, suc, ◌+◌, ◌-◌, ◌/◌, ◌<◌, ◌≤◌, ◌≡◌, refl, inl, inr, false, Bool-cases, some, List, arith,
  ltb, ◌==◌, get_or, dec_lt,
}

abbrev pub start : List LineMap → ℕ → ℕ
start lines j = (get_or lines j no_line).start_offset

abbrev pub line_of : List LineMap → ℕ → ℕ
line_of lines j = (get_or lines j no_line).line

module _ (lines : List LineMap) (count offset : ℕ) where
  -- The last entry that starts at the offset or before.
  pub record Last (line : ℕ) : Type 0 where
    pub index : ℕ
    pub inside : index < count
    pub begun : start lines index ≤ offset
    pub later : (k : ℕ) → index < k → k < count → offset < start lines k
    pub same : line ≡ line_of lines index

  module _ (sorted : (j k : ℕ) → j < k → k < count → start lines j < start lines k) where
    -- Scanning from behind an entry that starts in time.
    scan-Last :
        (n i : ℕ)
        → i + n < count
        → start lines i ≤ offset
        → ((k : ℕ) → i + n < k → k < count → offset < start lines k)
        → Last (scan lines offset n (i + 1) (line_of lines i))
    unfolding scan
    scan-Last zero i inside begun after = record {
      index = i;
      inside = omega arith;
      begun = begun;
      later = λ k h. after k (omega arith);
      same = refl;
    }
    scan-Last (suc n) i inside begun after = elim (Bool-cases (ltb offset (start lines (i + 1)))) [
      | inl e ↦
          let early : offset < start lines (i + 1) = ground arith in
          rw (e, scan)
            (record {
              index = i;
              inside = omega arith;
              begun = begun;
              later = λ k h l. elim (dec_lt (i + 1) k) [
                | yes p ↦ omega (arith, early, sorted (i + 1) k p l)
                | no p ↦ let same : k ≡ i + 1 = omega arith in rw same early
              ];
              same = refl;
            })
      | inr e ↦
          rw (e, scan)
            (scan-Last n (i + 1) (omega arith) (ground arith) (λ k h. after k (omega arith)))
    ]

    -- The loop ends at that entry within a round for each entry.
    pub search-Last :
        (fuel lo hi : ℕ)
        → lo < hi
        → hi ≤ count
        → hi < lo + fuel
        → start lines lo ≤ offset
        → ((k : ℕ) → hi ≤ k → k < count → offset < start lines k)
        → (line : ℕ) × (search lines offset fuel lo hi ≡ some line) × Last line
    unfolding search scan
    search-Last zero lo hi less inside enough begun after = absurd (omega arith)
    search-Last (suc fuel) lo hi less inside enough begun after =
        let differs : (lo == hi) ≡ false = ground arith in
        elim (Bool-cases (ltb (hi - lo) 10)) [
          | inl e ↦ (_, rw (differs, e, search), scan_range (hi - lo) (omega arith))
          | inr e ↦
              let wide : 10 ≤ hi - lo = ground arith in
              elim (Bool-cases (ltb offset (start lines (lo + (hi - lo) / 2)))) [
                | inl f ↦
                    let (line, run, last) =
                      search-Last fuel lo (lo + (hi - lo) / 2) (omega arith) (omega arith)
                        (omega arith) begun
                        (λ k h l. beyond (lo + (hi - lo) / 2) (ground arith) k h l) in
                    (line, rw (differs, e, f, search) run, last)
                | inr f ↦
                    let (line, run, last) =
                      search-Last fuel (lo + (hi - lo) / 2) hi (omega arith) inside (omega arith)
                        (ground arith) after in
                    (line, rw (differs, e, f, search) run, last)
              ]
        ]
      where
        beyond :
            (m : ℕ) → offset < start lines m → (k : ℕ) → m ≤ k → k < count → offset < start lines k
        beyond m early k h l = elim (dec_lt m k) [
          | yes p ↦ omega (arith, early, sorted m k p l)
          | no p ↦ let same : k ≡ m = omega arith in rw same early
        ]

        scan_range : (n : ℕ) → lo + n ≡ hi → Last (scan lines offset n lo 0)
        scan_range zero e = absurd (omega arith)
        scan_range (suc n) e =
            let f : ltb offset (start lines lo) ≡ false = ground arith in
            rw (f, scan) (scan-Last n lo (omega arith) begun (λ k h. after k (omega arith)))
