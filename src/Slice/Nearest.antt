-- ===== src/Slice/Nearest.antt =====
-- src/obj_slice.c: the wrapped bounds are the nearest ones to those asked for.
use kuroko.Prelude.{ℕ, ◌-◌, ◌<◌, ◌≡◌, ◌⊎◌, arith}
use kuroko.Prelude.Int.{ℤ, pos, negsuc, ◌+ℤ◌, ◌≤ℤ◌, +ℤ_parts}
use kuroko.Slice.{
  Part, nothing, integer, other, wrap, wrapn, below_count, forward_end, backward_end,
}

-- An index that counts from the end where it is negative.
abbrev pub from_end : ℕ → ℤ → ℤ
from_end n (pos k) = pos k
from_end n (negsuc k) = negsuc k +ℤ pos n

-- The number nearest to `z` between two bounds.
abbrev pub Nearest : ℤ → ℤ → ℤ → ℤ → Type 0
Nearest low high z w =
    ((z ≤ℤ low) × (w ≡ low)) ⊎ ((low ≤ℤ z) × (z ≤ℤ high) × (w ≡ z)) ⊎ ((high ≤ℤ z) × (w ≡ high))

-- The start and the end that a slice asks for.
abbrev pub part_or : ℕ → Part → ℤ → ℤ
part_or n nothing default = default
part_or n (integer z) default = from_end n z
part_or n (other z) default = from_end n z

pub wrap-Nearest : (n : ℕ) (z : ℤ) → Nearest (pos 0) (pos n) (from_end n z) (wrap (pos n) z)
unfolding wrap
wrap-Nearest n (pos k) = ground (arith, +ℤ_parts (pos k) (pos n))
wrap-Nearest n (negsuc k) = ground (arith, +ℤ_parts (negsuc k) (pos n))

pub wrapn-Nearest : (n : ℕ) (z : ℤ) → Nearest (negsuc 0) (pos n) (from_end n z) (wrapn (pos n) z)
unfolding wrapn
wrapn-Nearest n (pos k) = ground (arith, +ℤ_parts (pos k) (pos n))
wrapn-Nearest n (negsuc k) = ground (arith, +ℤ_parts (negsuc k) (pos n))

pub forward_end-Nearest :
    (n : ℕ) (a z b : ℤ)
    → pos 0 ≤ℤ a
    → a ≤ℤ pos n
    → Nearest (pos 0) (pos n) z b
    → Nearest a (pos n) z (forward_end a b)
forward_end-Nearest n a z b h k near = ground arith

pub below_count-Nearest :
    (n : ℕ) (z a : ℤ)
    → 0 < n
    → Nearest (pos 0) (pos n) z a
    → Nearest (pos 0) (pos (n - 1)) z (below_count n a)
below_count-Nearest n z a h near = ground arith

pub backward_end-Nearest :
    (n : ℕ) (a z b : ℤ)
    → negsuc 0 ≤ℤ a
    → a ≤ℤ pos n
    → Nearest (negsuc 0) (pos n) z b
    → Nearest (negsuc 0) a z (backward_end a b)
backward_end-Nearest n a z b h k near = ground arith
