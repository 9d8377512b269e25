-- ===== src/Slice/Bounds.antt =====
-- src/obj_slice.c: the bounds of a slice lie in the sequence.
use kuroko.Prelude.{
  ℕ, zero, ◌-◌, false, suc, ◌<◌, ◌≡◌, sym, refl, ◌⊎◌, inl, inr, true, Bool-cases, arith, ◌==◌,
}
use kuroko.Prelude.Int.{ℤ, pos, negsuc, ◌+ℤ◌, ◌≤ℤ◌, +ℤ_parts}
use kuroko.Slice.Nearest.{
  Nearest, part_or, wrap-Nearest, wrapn-Nearest, forward_end-Nearest, below_count-Nearest,
  backward_end-Nearest,
}
use kuroko.Slice.{
  Slicer, slice, no_slice, extract_bounds, Part, nothing, integer, other, Slice, wrap, wrapn,
  or_else, Extraction, refused, extracted, is_other, forward, backward, forward_end, backward_end,
  wrapped_start, wrapped_end, below_count, extract_steps, extract_slicer,
}

wrap_low : (n : ℕ) (z : ℤ) → pos 0 ≤ℤ wrap (pos n) z
unfolding wrap
wrap_low n z = ground (arith, +ℤ_parts z (pos n))

wrap_high : (n : ℕ) (z : ℤ) → wrap (pos n) z ≤ℤ pos n
unfolding wrap
wrap_high n z = ground (arith, +ℤ_parts z (pos n))

wrapn_low : (n : ℕ) (z : ℤ) → negsuc 0 ≤ℤ wrapn (pos n) z
unfolding wrapn
wrapn_low n z = ground (arith, +ℤ_parts z (pos n))

forward_end-between :
    (n : ℕ) (a b : ℤ)
    → a ≤ℤ pos n
    → b ≤ℤ pos n
    → (a ≤ℤ forward_end a b) × (forward_end a b ≤ℤ pos n)
forward_end-between n a b h k = (ground arith, ground arith)

backward_end-between :
    (a b : ℤ)
    → negsuc 0 ≤ℤ a
    → negsuc 0 ≤ℤ b
    → (negsuc 0 ≤ℤ backward_end a b) × (backward_end a b ≤ℤ a)
backward_end-between a b h k = (ground arith, ground arith)

-- A positive step: from the start, at the nearest place in the sequence, up to the end.
pub record IsForward (s : Slice) (n : ℕ) (start end : ℤ) : Type 0 where
  pub low : pos 0 ≤ℤ start
  pub between : start ≤ℤ end
  pub high : end ≤ℤ pos n
  pub starts : Nearest (pos 0) (pos n) (part_or n s.start (pos 0)) start
  pub ends : Nearest start (pos n) (part_or n s.end (pos n)) end

-- A negative step: from the start, at the nearest value in the sequence, down to the end.
pub record IsBackward (s : Slice) (n : ℕ) (start end : ℤ) : Type 0 where
  pub low : negsuc 0 ≤ℤ end
  pub between : end ≤ℤ start
  pub high : start +ℤ pos 1 ≤ℤ pos n
  pub starts : Nearest (pos 0) (pos (n - 1)) (part_or n s.start (pos (n - 1))) start
  pub ends : Nearest (negsuc 0) start (part_or n s.end (negsuc 0)) end

forward_start-Nearest :
    (p : Part) (n d : ℕ)
    → Nearest (pos 0) (pos n) (part_or n p (pos d)) (wrap (pos n) (or_else p (pos d)))
forward_start-Nearest nothing n d = wrap-Nearest n (pos d)
forward_start-Nearest (integer z) n d = wrap-Nearest n z
forward_start-Nearest (other z) n d = wrap-Nearest n z

forward_lem : (s : Slice) (n : ℕ) → IsForward s n (forward s n).0 (forward s n).1
unfolding forward
forward_lem s n =
    let (up, in_count) =
      forward_end-between n _ _ (wrap_high n (or_else s.start (pos 0)))
        (wrap_high n (or_else s.end (pos n))) in
    record {
      low = wrap_low n (or_else s.start (pos 0));
      between = up;
      high = in_count;
      starts = forward_start-Nearest s.start n 0;
      ends =
          forward_end-Nearest n _ _ _ (wrap_low n (or_else s.start (pos 0)))
            (wrap_high n (or_else s.start (pos 0))) (forward_start-Nearest s.end n n);
    }

wrapped_start_low : (p : Part) (n : ℕ) → pos 0 ≤ℤ wrapped_start p n
unfolding wrapped_start
wrapped_start_low nothing n = omega arith
wrapped_start_low (integer z) n = wrap_low n z
wrapped_start_low (other z) n = wrap_low n z

wrapped_end_low : (p : Part) (n : ℕ) → negsuc 0 ≤ℤ wrapped_end p n
unfolding wrapped_end
wrapped_end_low nothing n = omega arith
wrapped_end_low (integer z) n = wrapn_low n z
wrapped_end_low (other z) n = wrapn_low n z

below_count_low : (n : ℕ) (a : ℤ) → pos 0 ≤ℤ a → negsuc 0 ≤ℤ below_count n a
below_count_low n a h = ground arith

below_count_high : (n : ℕ) (a : ℤ) → 0 < n → below_count n a +ℤ pos 1 ≤ℤ pos n
below_count_high n a h = ground (arith, +ℤ_parts (below_count n a) (pos 1))

last-Nearest :
    (n : ℕ) → 0 < n → Nearest (pos 0) (pos (n - 1)) (pos (n - 1)) (below_count n (pos (n - 1)))
last-Nearest n h = ground arith

backward_start-Nearest :
    (p : Part) (n : ℕ)
    → 0 < n
    → Nearest (pos 0) (pos (n - 1)) (part_or n p (pos (n - 1))) (below_count n (wrapped_start p n))
unfolding wrapped_start
backward_start-Nearest nothing n h = last-Nearest n h
backward_start-Nearest (integer z) n h = below_count-Nearest n _ _ h (wrap-Nearest n z)
backward_start-Nearest (other z) n h = below_count-Nearest n _ _ h (wrap-Nearest n z)

before_first-Nearest : (n : ℕ) → Nearest (negsuc 0) (pos n) (negsuc 0) (negsuc 0)
before_first-Nearest n = ground arith

wrapped_end-Nearest :
    (p : Part) (n : ℕ) → Nearest (negsuc 0) (pos n) (part_or n p (negsuc 0)) (wrapped_end p n)
unfolding wrapped_end
wrapped_end-Nearest nothing n = before_first-Nearest n
wrapped_end-Nearest (integer z) n = wrapn-Nearest n z
wrapped_end-Nearest (other z) n = wrapn-Nearest n z

inside : (n : ℕ) (a : ℤ) → a +ℤ pos 1 ≤ℤ pos n → a ≤ℤ pos n
inside n a h = ground (arith, +ℤ_parts a (pos 1))

backward_lem : (s : Slice) (n : ℕ) → 0 < n → IsBackward s n (backward s n).0 (backward s n).1
unfolding backward
backward_lem s n h =
    let low = below_count_low n (wrapped_start s.start n) (wrapped_start_low s.start n) in
    let high = below_count_high n (wrapped_start s.start n) h in
    let (above, down) = backward_end-between _ _ low (wrapped_end_low s.end n) in
    record {
      low = above;
      between = down;
      high = high;
      starts = backward_start-Nearest s.start n h;
      ends = backward_end-Nearest n _ _ _ low (inside n _ high) (wrapped_end-Nearest s.end n);
    }

-- By the step, which is not zero.
abbrev pub InDirection : Slice → ℕ → ℤ → ℤ → ℤ → Type 0
InDirection s n start end (pos zero) = ⊥
InDirection s n start end (pos (suc k)) = IsForward s n start end
InDirection s n start end (negsuc k) = IsBackward s n start end

-- The bounds that are given: none in an empty sequence, whatever the step.
abbrev pub Gives : Slice → ℕ → ℤ → ℤ → ℤ → Type 0
Gives s n start end step =
    ((n ≡ 0) × (start ≡ pos 0) × (end ≡ pos 0) × (step ≡ pos 1))
    ⊎ ((0 < n) × (step ≡ or_else s.step (pos 1)) × InDirection s n start end step)

abbrev pub ExtractResult : Slicer → ℕ → Extraction → Type 0
ExtractResult no_slice n out = out ≡ refused
ExtractResult (slice s) n refused =
    (is_other s.start ≡ true)
    ⊎ (is_other s.end ≡ true)
    ⊎ ((0 < n) × (or_else s.step (pos 1) ≡ pos 0))
ExtractResult (slice s) n (extracted raised start end step) =
    (is_other s.start ≡ false)
    × (is_other s.end ≡ false)
    × (raised ≡ is_other s.step)
    × Gives s n start end step

steps-Gives :
    (s : Slice) (n : ℕ) (step : ℤ)
    → is_other s.start ≡ false
    → is_other s.end ≡ false
    → 0 < n
    → or_else s.step (pos 1) ≡ step
    → ExtractResult (slice s) n (extract_steps s n step)
unfolding extract_steps
steps-Gives s n (pos zero) e f h step = inr (inr (h, step))
steps-Gives s n (pos (suc k)) e f h step = (e, f, refl, inr (h, sym step, forward_lem s n))
steps-Gives s n (negsuc k) e f h step = (e, f, refl, inr (h, sym step, backward_lem s n h))

-- `krk_extractSlicer` refuses a value that is not a slice, a start or an end that is neither an int nor
-- None, and, unless the sequence is empty, a step of zero; it refuses nothing else, and tells whether
-- the step is neither an int nor None (it raises, but goes on). In an empty sequence it gives the
-- bounds 0 and 0 and the step 1. Else it gives the step asked for, or 1. With a positive step the
-- start is the index nearest to the one asked for, which counts from the end where it is negative,
-- between 0 and the count, and the end likewise between the start and the count; with a negative step
-- the start lies between 0 and the last index, and the end between -1 and the start.
pub extract_slicer_lem : (s : Slicer) (n : ℕ) → ExtractResult s n (extract_slicer s n)
unfolding extract_slicer extract_bounds
extract_slicer_lem no_slice n = refl
extract_slicer_lem (slice s) n = elim (Bool-cases (is_other s.start)) [
  | inl e ↦ rw e (inl e)
  | inr e ↦ elim (Bool-cases (is_other s.end)) [
    | inl f ↦ rw (e, f) (inr (inl f))
    | inr f ↦ elim (Bool-cases (n == 0)) [
      | inl g ↦ rw (e, f, g) (e, f, refl, inl (ground arith, refl, refl, refl))
      | inr g ↦ rw (e, f, g) (steps-Gives s n (or_else s.step (pos 1)) e f (ground arith) refl)
    ]
  ]
]
