-- ===== src/Tests/Slice.antt =====
-- src/obj_slice.c at concrete values.
use kuroko.Prelude.{◌≡◌, refl, false}
use kuroko.Prelude.Int.{pos, negsuc}
use kuroko.Slice.{Slicer, slice, nothing, integer, extracted, extract_slicer}
use kuroko.Slice.Bounds.{ExtractResult, extract_slicer_lem}

-- [-2::-1]
abbrev reversed : Slicer
reversed = slice (record { start = integer (negsuc 1); end = nothing; step = integer (negsuc 0) })

reversed_runs : extract_slicer reversed 5 ≡ extracted false (pos 3) (negsuc 0) (negsuc 0)
unfolding extract_slicer kuroko.Prelude.Int.◌+ℤ◌
reversed_runs = refl

extract_slicer_lem_example : ExtractResult reversed 5 (extract_slicer reversed 5)
extract_slicer_lem_example = extract_slicer_lem reversed 5
