-- ===== src/Powersort/High.antt =====
-- src/obj_list.c: `powersort_merge` where the right run is copied.
use kuroko.Prelude.{
  ℕ, zero, suc, ◌+◌, ◌-◌, ◌<◌, ◌≡◌, refl, ap, ◌∙◌, inl, inr, Bool, true, false, ◌&&◌, Bool-cases,
  List, [], ◌∷◌, ◌++◌, arith, ltb, length, All-append,
}
use kuroko.Powersort.{merge_high}
use kuroko.Powersort.Arrays.{
  IsStrict, IsSorted, length-snoc, split_last, upwards, IsSorted-snoc, snoc-IsSorted, All-weaken,
}
use kuroko.Powersort.Low.{Merges}
use kuroko.Powersort.Interleaving.{
  left_last, right_last, Interleaves-left, Interleaves-right, Interleaves-All,
}
use kuroko.Powersort.Downwards.{High, drain_high_lem, step_left, step_right}

module _ {ℓ} {A : Type ℓ} (fill : A) (less : A → A → Bool) (o : IsStrict less) where
  -- The last value of the right run comes last, or that of the left run.
  Merges-right_last :
      (x y : A) (xs ys zs : List A)
      → less y x ≡ false
      → IsSorted less (xs ++ (x ∷ []))
      → IsSorted less (ys ++ (y ∷ []))
      → Merges less (xs ++ (x ∷ [])) ys zs
      → Merges less (xs ++ (x ∷ [])) (ys ++ (y ∷ [])) (zs ++ (y ∷ []))
  Merges-right_last x y xs ys zs e sx sy m =
      let below =
        All-weaken _ _ xs (λ z h. o.at_most_trans z x y h e) (snoc-IsSorted less xs x sx).1 in
      record {
        interleaves = right_last y m.interleaves;
        sorted = IsSorted-snoc less zs y m.sorted (
            Interleaves-All _ m.interleaves (All-append _ xs (x ∷ []) below (e, tt))
              (snoc-IsSorted less ys y sy).1);
      }

  Merges-left_last :
      (x y : A) (xs ys zs : List A)
      → less y x ≡ true
      → IsSorted less (xs ++ (x ∷ []))
      → IsSorted less (ys ++ (y ∷ []))
      → Merges less xs (ys ++ (y ∷ [])) zs
      → Merges less (xs ++ (x ∷ [])) (ys ++ (y ∷ [])) (zs ++ (x ∷ []))
  Merges-left_last x y xs ys zs e sx sy m =
      let f = o.asym y x e in
      let below =
        All-weaken _ _ ys (λ z h. o.at_most_trans z y x h f) (snoc-IsSorted less ys y sy).1 in
      record {
        interleaves = left_last x m.interleaves;
        sorted = IsSorted-snoc less zs x m.sorted (
            Interleaves-All _ m.interleaves (snoc-IsSorted less xs x sx).1
              (All-append _ ys (y ∷ []) below (f, tt)));
      }

  pub merge_high_lem :
      (fuel : ℕ) (ys more before xs gap back : List A) (c2 s1 c1 at : ℕ)
      → High ys before xs gap c2 s1 c1 at
      → length xs + length ys < fuel
      → IsSorted less (upwards xs)
      → IsSorted less (upwards ys)
      → (zs : List A) × (merge_high fill less fuel
            (upwards ys ++ more)
            c2
            s1
            (before ++ (upwards xs ++ (gap ++ back)))
            c1
            at
          ≡ before ++ (zs ++ back))
        × Merges less (upwards xs) (upwards ys) zs
  unfolding merge_high
  merge_high_lem zero ys more before xs gap back c2 s1 c1 at high h sx sy = absurd (omega arith)
  merge_high_lem (suc fuel) [] more before xs (g ∷ gap) back c2 s1 c1 at high h sx sy =
      absurd (omega (arith, high.room))
  merge_high_lem (suc fuel) [] more before xs [] back c2 s1 c1 at high h sx sy =
      let stop : (ltb s1 c1 && ltb 0 c2) ≡ false = ground (arith, high.buffered) in
      (
        upwards xs,
        rw (stop, merge_high, high.buffered) refl,
        record { interleaves = Interleaves-left (upwards xs); sorted = sx },
      )
  merge_high_lem (suc fuel) (y ∷ ys) more before [] gap back c2 s1 c1 at high h sx sy =
      let stop : ltb s1 c1 ≡ false = ground (arith, high.start, high.until) in
      (
        upwards ys ++ (y ∷ []),
        rw (stop, merge_high)
            (drain_high_lem fill c2 (y ∷ ys) more before gap back c2 at high.buffered high.room
              (omega (arith, high.to)) (omega (arith, high.buffered))),
        record { interleaves = Interleaves-right _; sorted = sy },
      )
  merge_high_lem (suc fuel) (y ∷ ys) more before (x ∷ xs) gap back c2 s1 c1 at high h sx sy =
      let (init, g, e) = split_last gap (omega (arith, high.room)) in
      let long : length gap ≡ length init + 1 = ap length e ∙ length-snoc init g in
      elim (Bool-cases (less y x)) [
        | inl f ↦
            let (zs, merged, m) =
              merge_high_lem fuel (y ∷ ys) more before xs (x ∷ init) (x ∷ back) c2 s1 (c1 - 1)
                (at - 1)
                (record {
                  buffered = high.buffered;
                  start = high.start;
                  until = omega (arith, high.until);
                  room = omega (arith, high.room);
                  to = omega (arith, high.to);
                })
                (omega arith) (snoc-IsSorted less (upwards xs) x sx).0 sy in
            (
              zs ++ (x ∷ []),
              step_left fill less fuel y ys more before x xs gap init g back c2 s1 c1 at high e zs f
                  merged,
              Merges-left_last x y (upwards xs) (upwards ys) zs f sx sy m,
            )
        | inr f ↦
            let (zs, merged, m) =
              merge_high_lem fuel ys (y ∷ more) before (x ∷ xs) init (y ∷ back) (c2 - 1) s1 c1
                (at - 1)
                (record {
                  buffered = omega (arith, high.buffered);
                  start = high.start;
                  until = high.until;
                  room = omega (arith, high.room);
                  to = omega (arith, high.to);
                })
                (omega arith) sx (snoc-IsSorted less (upwards ys) y sy).0 in
            (
              zs ++ (y ∷ []),
              step_right fill less fuel y ys more before x xs gap init g back c2 s1 c1 at high e zs
                  f merged,
              Merges-right_last x y (upwards xs) (upwards ys) zs f sx sy m,
            )
      ]
