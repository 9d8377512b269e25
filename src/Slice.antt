-- ===== src/Slice.antt =====
-- src/obj_slice.c: the bounds of a slice of a sequence.
pub mod Nearest
pub mod Bounds
use kuroko.Prelude.{
  ℕ, zero, suc, ◌+◌, ◌-◌, ◌*◌, ◌<◌, ◌≤◌, ◌≡◌, ◌≢◌, refl, Bool, true, false, arith, ltb, ◌==◌,
  if◌then◌else◌,
}
use kuroko.Prelude.Int.{ℤ, pos, negsuc, pos_part, neg_part, ◌+ℤ◌, ◌-ℤ◌, ◌≤ℤ◌, ltb_ℤ, +ℤ_parts}

abbrev one_less : ℤ
one_less = negsuc 0

-- What a slice may hold in a place: None, an int, or another value with what AS_INTEGER reads of it.
pub data Part : Type 0 where
  nothing : Part
  integer : ℤ → Part
  other : ℤ → Part

pub record Slice : Type 0 where
  pub start : Part
  pub end : Part
  pub step : Part

-- `_wrap`; the sum does not overflow, since the value is negative and the count is not.
unfoldable pub wrap : ℤ → ℤ → ℤ
wrap count val =
    let a = if ltb_ℤ val (pos 0) then val +ℤ count else val in
    let b = if ltb_ℤ a (pos 0) then pos 0 else a in if ltb_ℤ count b then count else b

-- `_wrapn`
unfoldable pub wrapn : ℤ → ℤ → ℤ
wrapn count val =
    let a = if ltb_ℤ val (pos 0) then val +ℤ count else val in
    let b = if ltb_ℤ a one_less then one_less else a in if ltb_ℤ count b then count else b

abbrev pub or_else : Part → ℤ → ℤ
or_else nothing default = default
or_else (integer z) default = z
or_else (other z) default = z

-- `krk_extractSlicer` returns 1, or 0 with the bounds. A step that is no int raises a TypeError, but
-- the function goes on: `raised`.
pub data Extraction : Type 0 where
  refused : Extraction
  extracted : (raised : Bool) (start end step : ℤ) → Extraction

abbrev pub is_other : Part → Bool
is_other nothing = false
is_other (integer z) = false
is_other (other z) = true

-- The end is not past the start, in the direction of the step.
abbrev pub forward_end : ℤ → ℤ → ℤ
forward_end start end = if ltb_ℤ end start then start else end

abbrev pub backward_end : ℤ → ℤ → ℤ
backward_end start end = if ltb_ℤ start end then start else end

-- A step that is positive, and a count, which is the length of a sequence.
unfoldable pub forward : Slice → ℕ → ℤ × ℤ
unfolding wrap
forward slicer count =
    let start = wrap (pos count) (or_else slicer.start (pos 0)) in
    (start, forward_end start (wrap (pos count) (or_else slicer.end (pos count))))

-- A step that is negative. `count - 1` is only computed where the count is not zero.
unfoldable pub wrapped_start : Part → ℕ → ℤ
unfolding wrap
wrapped_start nothing count = pos (count - 1)
wrapped_start (integer z) count = wrap (pos count) z
wrapped_start (other z) count = wrap (pos count) z

abbrev pub below_count : ℕ → ℤ → ℤ
below_count count start = if ltb_ℤ start (pos count) then start else pos (count - 1)

unfoldable pub wrapped_end : Part → ℕ → ℤ
unfolding wrapn
wrapped_end nothing count = one_less
wrapped_end (integer z) count = wrapn (pos count) z
wrapped_end (other z) count = wrapn (pos count) z

unfoldable pub backward : Slice → ℕ → ℤ × ℤ
unfolding wrapped_start wrapped_end
backward slicer count =
    let start = below_count count (wrapped_start slicer.start count) in
    (start, backward_end start (wrapped_end slicer.end count))

-- By the step, which is not zero in the last two cases.
unfoldable pub extract_steps : Slice → ℕ → ℤ → Extraction
unfolding forward backward
extract_steps slicer count (pos zero) = refused
extract_steps slicer count (pos (suc n)) =
    extracted (is_other slicer.step) (forward slicer count).0 (forward slicer count).1 (pos (suc n))
extract_steps slicer count (negsuc n) =
    extracted (is_other slicer.step) (backward slicer count).0 (backward slicer count).1 (negsuc n)

-- The bounds of a slice; a start or an end that is not an int and not None is refused.
unfoldable pub extract_bounds : Slice → ℕ → Extraction
unfolding extract_steps
extract_bounds slicer count =
    if is_other slicer.start
    then refused
    else if is_other slicer.end
    then refused
    else if count == 0
    then extracted (is_other slicer.step) (pos 0) (pos 0) (pos 1)
    else extract_steps slicer count (or_else slicer.step (pos 1))

-- The value that the function takes: a slice, or any other value, which is refused.
pub data Slicer : Type 0 where
  slice : Slice → Slicer
  no_slice : Slicer

unfoldable pub extract_slicer : Slicer → ℕ → Extraction
unfolding extract_bounds
extract_slicer no_slice count = refused
extract_slicer (slice slicer) count = extract_bounds slicer count
