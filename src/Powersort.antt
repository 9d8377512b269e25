-- ===== src/Powersort.antt =====
-- src/obj_list.c: sorting a list, `powersort`.
--
-- The arrays are lists, pointers into them offsets, and the arrays of the keys and of the values one
-- list of pairs, since all operations do the same with both. `less` stands for `_list_sorter` on the
-- keys: a call of the virtual machine, true where it raises. New memory holds `fill`, None.
pub mod Loops
pub mod Arrays
pub mod Interleaving
pub mod Reverse
pub mod Low
pub mod Downwards
pub mod High
pub mod Merging
pub mod Runs
pub mod Stack
pub mod Laws
pub mod Keys
use kuroko.Prelude.{
  ℕ, zero, suc, ◌+◌, ◌-◌, ◌*◌, Bool, true, false, not, ◌&&◌, Option, none, some, List, [], ◌∷◌, ltb,
  leb, ◌==◌, if◌then◌else◌, length, get_or, set, replicate, map,
}

module _ {ℓ} {A : Type ℓ} (fill : A) where
  -- `while (values < end)`, with fuel.
  unfoldable pub reverse_loop : ℕ → List A → ℕ → ℕ → List A
  reverse_loop zero values lo hi = values
  reverse_loop (suc fuel) values lo hi =
      let x = get_or values lo fill in
      let y = get_or values hi fill in
      let rest = reverse_loop fuel (set (set values lo y) hi x) (lo + 1) (hi - 1) in
      if ltb lo hi then rest else values

  -- Of the `n` values from `begin` on.
  unfoldable pub reverse_values : List A → ℕ → ℕ → List A
  unfolding reverse_loop
  reverse_values values begin n = reverse_loop n values begin (begin + n - 1)

  -- To the offset `at` of the buffer on, for the rounds that are left.
  unfoldable pub copy_slice : ℕ → List A → ℕ → List A → ℕ → List A
  copy_slice zero values start buffer at = buffer
  copy_slice (suc n) values start buffer at =
      copy_slice n values (start + 1) (set buffer at (get_or values start fill)) (at + 1)

  -- What is left of the left run, from the buffer.
  unfoldable pub drain_low : ℕ → List A → ℕ → ℕ → List A → ℕ → List A
  drain_low zero buffer c1 e1 values o = values
  drain_low (suc fuel) buffer c1 e1 values o =
      let rest = drain_low fuel buffer (c1 + 1) e1 (set values o (get_or buffer c1 fill)) (o + 1) in
      if ltb c1 e1 then rest else values

  -- What is left of the right run, from the buffer; the offsets are those behind `c2` and `o`.
  unfoldable pub drain_high : ℕ → List A → ℕ → List A → ℕ → List A
  drain_high zero buffer c2 values o = values
  drain_high (suc fuel) buffer c2 values o =
      let rest =
        drain_high fuel buffer (c2 - 1) (set values (o - 1) (get_or buffer (c2 - 1) fill))
          (o - 1) in
      if ltb 0 c2 then rest else values

module _ {ℓ} {A : Type ℓ} (fill : A) (less : A → A → Bool) where
  -- `while (begin + 1 < end && test(begin[1], begin[0])) begin++;`, with fuel, and the next.
  unfoldable pub prefix_end : ℕ → Bool → List A → ℕ → ℕ → ℕ
  prefix_end zero decreasing values begin end = begin + 1
  prefix_end (suc fuel) decreasing values begin end =
      let rest = prefix_end fuel decreasing values (begin + 1) end in
      let falls = less (get_or values (begin + 1) fill) (get_or values begin fill) in
      if ltb (begin + 1) end && (if decreasing then falls else not falls) then rest else begin + 1

  -- `powersort_extend_and_reverse_right`: the values, and the end of the run.
  unfoldable pub extend_right : List A → ℕ → ℕ → List A × ℕ
  unfolding prefix_end reverse_values
  extend_right values begin end =
      let down = prefix_end (length values) true values (begin + 1) end in
      if begin == end
      then (values, begin)
      else if begin + 1 == end
      then (values, begin + 1)
      else if less (get_or values (begin + 1) fill) (get_or values begin fill)
      then (reverse_values fill values begin (down - begin), down)
      else (values, prefix_end (length values) false values (begin + 1) end)

  -- The loops of `powersort_merge` where the left run, copied to the buffer, is not the longer one;
  -- `c1` counts in the buffer, `e1` is its end there, and `o` where to write.
  unfoldable pub merge_low : ℕ → List A → ℕ → ℕ → List A → ℕ → ℕ → ℕ → List A
  unfolding drain_low
  merge_low zero buffer c1 e1 values c2 e2 o = values
  merge_low (suc fuel) buffer c1 e1 values c2 e2 o =
      let x = get_or buffer c1 fill in
      let y = get_or values c2 fill in
      elim (ltb c1 e1 && ltb c2 e2) [
        | true ↦ elim (not (less y x)) [
          | true ↦ merge_low fuel buffer (c1 + 1) e1 (set values o x) c2 e2 (o + 1)
          | false ↦ merge_low fuel buffer c1 e1 (set values o y) (c2 + 1) e2 (o + 1)
        ]
        | false ↦ drain_low fill e1 buffer c1 e1 values o
      ]

  -- The loops where the right run is copied, which go down. The offsets are those behind `c1`, `c2` and `o`.
  unfoldable pub merge_high : ℕ → List A → ℕ → ℕ → List A → ℕ → ℕ → List A
  unfolding drain_high
  merge_high zero buffer c2 s1 values c1 o = values
  merge_high (suc fuel) buffer c2 s1 values c1 o =
      let x = get_or values (c1 - 1) fill in
      let y = get_or buffer (c2 - 1) fill in
      elim (ltb s1 c1 && ltb 0 c2) [
        | true ↦ elim (not (less y x)) [
          | true ↦ merge_high fuel buffer (c2 - 1) s1 (set values (o - 1) y) c1 (o - 1)
          | false ↦ merge_high fuel buffer c2 s1 (set values (o - 1) x) (c1 - 1) (o - 1)
        ]
        | false ↦ drain_high fill c2 buffer c2 values o
      ]

  -- The values and the buffer. Each round of the loops writes one value, of `right - left`.
  unfoldable pub powersort_merge : ℕ → ℕ → ℕ → List A → List A → List A × List A
  unfolding copy_slice merge_low merge_high
  powersort_merge left mid right values buffer =
      let n1 = mid - left in
      let n2 = right - mid in
      let low = copy_slice fill n1 values left buffer 0 in
      let high = copy_slice fill n2 values mid buffer 0 in
      if leb n1 n2
      then (merge_low (right - left + 1) low 0 n1 values mid right left, low)
      else (merge_high (right - left + 1) high n2 left values mid right, high)

-- The loop of `powersort_power`, with fuel.
unfoldable pub power_loop : ℕ → ℕ → ℕ → ℕ → ℕ → ℕ
power_loop zero n l r common = common + 1
power_loop (suc fuel) n l r common = elim (leb n l) [
  | true ↦ elim (leb n r) [
    | true ↦ power_loop fuel n ((l - n) * 2) ((r - n) * 2) (common + 1)
    | false ↦ common + 1
  ]
  | false ↦ elim (leb n r) [
    | true ↦ common + 1
    | false ↦ power_loop fuel n (l * 2) (r * 2) (common + 1)
  ]
]

unfoldable pub powersort_power : ℕ → ℕ → ℕ → ℕ → ℕ → ℕ
unfolding power_loop
powersort_power begin end begin_a begin_b end_b =
    power_loop 64 (end - begin) (begin_a - begin + (begin_b - begin))
      (begin_b - begin + (end_b - begin)) 0
