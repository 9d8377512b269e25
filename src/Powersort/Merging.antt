-- ===== src/Powersort/Merging.antt =====
-- src/obj_list.c: `powersort_merge` merges two runs that stand side by side.
use kuroko.Prelude.{
  ℕ, ◌+◌, ◌-◌, ◌≤◌, ◌≡◌, refl, sym, ap, ◌∙◌, Bool, List, [], ◌++◌, arith, leb, length, append_assoc,
  length-append, if-both,
}
use kuroko.Powersort.{copy_slice, merge_low, merge_high, powersort_merge}
use kuroko.Powersort.Arrays.{
  IsStrict, IsSorted, copy_slice_lem, upwards, upwards_onto, length-upwards,
}
use kuroko.Powersort.Low.{Merges, merge_low_lem}
use kuroko.Powersort.High.{merge_high_lem}

-- What the merge makes of the values and the buffer.
pub record MergedRuns {ℓ} {A : Type ℓ} (less : A → A → Bool) (before xs ys back buffer : List A)
    (out : List A × List A) : Type ℓ where
  pub run : List A
  pub stored : out.0 ≡ before ++ (run ++ back)
  pub merges : Merges less xs ys run
  pub roomy : length out.1 ≡ length buffer

module _ {ℓ} {A : Type ℓ} (fill : A) (less : A → A → Bool) (o : IsStrict less)
    (before xs ys back buffer : List A) (room : length xs + length ys ≤ length buffer)
    (sx : IsSorted less xs) (sy : IsSorted less ys) where
  abbrev l : ℕ
  l = length before

  abbrev m : ℕ
  m = length before + length xs

  abbrev r : ℕ
  r = length before + length xs + length ys

  abbrev values : List A
  values = before ++ (xs ++ (ys ++ back))

  low_lem :
      (n : ℕ)
      → n ≡ length xs
      → MergedRuns less before xs ys back buffer (
        merge_low fill less (r - l + 1) (copy_slice fill n values l buffer 0) 0 n values m r l,
        copy_slice fill n values l buffer 0,
      )
  low_lem n e =
      let (rest, copied, long) =
        copy_slice_lem fill xs before (ys ++ back) [] buffer l 0 refl refl (omega arith) in
      let (zs, stored, m) =
        merge_low_lem fill less o (r - l + 1) [] xs rest before xs ys back 0 (length xs) m r l
          (record {
            from = refl;
            until = omega arith;
            room = refl;
            to = refl;
            second = refl;
            second_end = refl;
          })
          (omega arith) sx sy in
      rw (e, copied)
        (record {
          run = zs;
          stored = stored;
          merges = m;
          roomy = omega (arith, length-append xs rest);
        })

  from_ends :
      (us vs rest : List A)
      → upwards us ≡ xs
      → upwards vs ≡ ys
      → (zs : List A) × (merge_high fill less (r - l + 1) (ys ++ rest) (length ys) l values m r
          ≡ before ++ (zs ++ back))
        × Merges less xs ys zs
  from_ends us vs rest xs_up ys_up =
      let us_long : length xs ≡ length us = ap length (sym xs_up) ∙ length-upwards us in
      let vs_long : length ys ≡ length vs = ap length (sym ys_up) ∙ length-upwards vs in
      let (zs, stored, m) =
        merge_high_lem fill less o (r - l + 1) vs rest before us ys back (length ys) l m r
          (record {
            buffered = vs_long;
            start = refl;
            until = omega arith;
            room = vs_long;
            to = omega arith;
          })
          (omega arith) (rw xs_up sx) (rw ys_up sy) in
      (zs, rw (ys_up, xs_up) at stored, rw (xs_up, ys_up) at m)

  high_lem :
      (n : ℕ)
      → n ≡ length ys
      → MergedRuns less before xs ys back buffer (
        merge_high fill less (r - l + 1) (copy_slice fill n values m buffer 0) n l values m r,
        copy_slice fill n values m buffer 0,
      )
  high_lem n e =
      let (rest, copied, long) =
        copy_slice_lem fill ys (before ++ xs) back [] buffer m 0 (sym (length-append before xs))
          refl (omega arith) in
      let copied = rw (append_assoc before xs (ys ++ back)) at copied in
      let (zs, stored, m) =
        from_ends (upwards_onto xs).0 (upwards_onto ys).0 rest (upwards_onto xs).1
          (upwards_onto ys).1 in
      rw (e, copied)
        (record {
          run = zs;
          stored = stored;
          merges = m;
          roomy = omega (arith, length-append ys rest);
        })

  -- `powersort_merge` of two runs in order, side by side, merges them in place.
  pub powersort_merge_lem :
      MergedRuns less before xs ys back buffer (powersort_merge fill less l m r values buffer)
  unfolding powersort_merge
  powersort_merge_lem =
      if-both (MergedRuns less before xs ys back buffer) (leb (m - l) (r - m))
        (λ _. low_lem (m - l) (omega arith)) (λ _. high_lem (r - m) (omega arith))
