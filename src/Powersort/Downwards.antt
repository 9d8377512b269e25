-- ===== src/Powersort/Downwards.antt =====
-- src/obj_list.c: the rounds of `powersort_merge` where the right run is copied.
use kuroko.Prelude.{
  ℕ, zero, suc, ◌+◌, ◌-◌, ◌≤◌, ◌≡◌, refl, ap, ◌∙◌, Bool, true, false, ◌&&◌, List, [], ◌∷◌, ◌++◌,
  arith, ltb, length, get_or, set,
}
use kuroko.Powersort.{drain_high, merge_high}
use kuroko.Powersort.Arrays.{
  read_at, read_behind, write_behind, write_third, length-snoc, snoc_append, split_last, upwards,
  length-upwards,
}
use kuroko.Powersort.Interleaving.{}

module _ {ℓ} {A : Type ℓ} (fill : A) where
  pub drain_high_lem :
      (fuel : ℕ) (ys more front gap back : List A) (c2 at : ℕ)
      → c2 ≡ length ys
      → length gap ≡ length ys
      → at ≡ length front + length gap
      → length ys ≤ fuel
      → drain_high fill fuel (upwards ys ++ more) c2 (front ++ (gap ++ back)) at
        ≡ front ++ (upwards ys ++ back)
  unfolding drain_high
  drain_high_lem zero [] more front [] back c2 at from room to h = refl
  drain_high_lem zero (y ∷ ys) more front gap back c2 at from room to h = absurd (omega arith)
  drain_high_lem _ [] more front (g ∷ gap) back c2 at from room to h = absurd (omega arith)
  drain_high_lem (suc fuel) [] more front [] back c2 at from room to h =
      let stop : ltb 0 c2 ≡ false = ground arith in rw (stop, drain_high) refl
  drain_high_lem (suc fuel) (y ∷ ys) more front gap back c2 at from room to h =
      let go : ltb 0 c2 ≡ true = ground arith in
      let (init, g, e) = split_last gap (omega arith) in
      let long : length gap ≡ length init + 1 = ap length e ∙ length-snoc init g in
      let ih =
        drain_high_lem fuel ys (y ∷ more) front init (y ∷ back) (c2 - 1) (at - 1) (omega arith)
          (omega arith) (omega arith) (omega arith) in
      let read : get_or (upwards ys ++ (y ∷ more)) (c2 - 1) fill ≡ y =
        read_at (c2 - 1) (upwards ys) y more fill (omega (arith, length-upwards ys)) in
      rw
        (
          e,
          snoc_append (upwards ys) y more,
          snoc_append init g back,
          snoc_append (upwards ys) y back,
          go,
          drain_high,
          read,
          write_behind (at - 1) front init g y back (omega arith),
        )
        ih

-- The buffer begins with what is left of the right run; the values hold `before`, what is left of the
-- left run, a gap, and `back`.
pub record High {ℓ} {A : Type ℓ} (ys before xs gap : List A) (c2 s1 c1 at : ℕ) : Type ℓ where
  pub buffered : c2 ≡ length ys
  pub start : s1 ≡ length before
  pub until : c1 ≡ length before + length xs
  pub room : length gap ≡ length ys
  pub to : at ≡ length before + length xs + length gap

module _ {ℓ} {A : Type ℓ} (fill : A) (less : A → A → Bool) where
  -- One round where both runs have values left.
  module _ (fuel : ℕ) (y : A) (ys more before : List A) (x : A) (xs gap init : List A) (g : A)
      (back : List A) (c2 s1 c1 at : ℕ) (high : High (y ∷ ys) before (x ∷ xs) gap c2 s1 c1 at)
      (e : gap ≡ init ++ (g ∷ [])) (zs : List A) where
    go : (ltb s1 c1 && ltb 0 c2) ≡ true
    go = ground (arith, high.buffered, high.start, high.until)

    shape :
        before ++ ((upwards xs ++ (x ∷ [])) ++ (gap ++ back))
        ≡ before ++ (upwards xs ++ (x ∷ (init ++ (g ∷ back))))
    shape = rw (e, snoc_append init g back, snoc_append (upwards xs) x (init ++ (g ∷ back))) refl

    buffer : (upwards ys ++ (y ∷ [])) ++ more ≡ upwards ys ++ (y ∷ more)
    buffer = snoc_append (upwards ys) y more

    second : get_or (upwards ys ++ (y ∷ more)) (c2 - 1) fill ≡ y
    second =
        read_at (c2 - 1) (upwards ys) y more fill (omega (arith, length-upwards ys, high.buffered))

    first : get_or (before ++ (upwards xs ++ (x ∷ (init ++ (g ∷ back))))) (c1 - 1) fill ≡ x
    first =
        read_behind (c1 - 1) before (upwards xs) x (init ++ (g ∷ back)) fill
          (omega (arith, length-upwards xs, high.until))

    write :
        (z : A)
        → set (before ++ (upwards xs ++ (x ∷ (init ++ (g ∷ back))))) (at - 1) z
          ≡ before ++ (upwards xs ++ (x ∷ (init ++ (z ∷ back))))
    write z =
        let long : length gap ≡ length init + 1 = ap length e ∙ length-snoc init g in
        write_third (at - 1) before (upwards xs) (x ∷ init) g z back
          (omega (arith, length-upwards xs, high.to))

    step_left_canonical :
        less y x ≡ true
        → merge_high fill less fuel
            (upwards ys ++ (y ∷ more))
            c2
            s1
            (before ++ (upwards xs ++ (x ∷ (init ++ (x ∷ back)))))
            (c1 - 1)
            (at - 1)
          ≡ before ++ (zs ++ (x ∷ back))
        → merge_high fill less
            (suc fuel)
            (upwards ys ++ (y ∷ more))
            c2
            s1
            (before ++ (upwards xs ++ (x ∷ (init ++ (g ∷ back)))))
            c1
            at
          ≡ before ++ (zs ++ (x ∷ back))
    unfolding merge_high
    step_left_canonical f merged = rw (go, second, first, f, merge_high, first, write x) merged

    pub step_left :
        less y x ≡ true
        → merge_high fill less fuel
            ((upwards ys ++ (y ∷ [])) ++ more)
            c2
            s1
            (before ++ (upwards xs ++ (x ∷ (init ++ (x ∷ back)))))
            (c1 - 1)
            (at - 1)
          ≡ before ++ (zs ++ (x ∷ back))
        → merge_high fill less
            (suc fuel)
            ((upwards ys ++ (y ∷ [])) ++ more)
            c2
            s1
            (before ++ ((upwards xs ++ (x ∷ [])) ++ (gap ++ back)))
            c1
            at
          ≡ before ++ ((zs ++ (x ∷ [])) ++ back)
    step_left f merged =
        rw (shape, buffer, snoc_append zs x back) (step_left_canonical f (rw buffer at merged))

    step_right_canonical :
        less y x ≡ false
        → merge_high fill less fuel
            (upwards ys ++ (y ∷ more))
            (c2 - 1)
            s1
            (before ++ (upwards xs ++ (x ∷ (init ++ (y ∷ back)))))
            c1
            (at - 1)
          ≡ before ++ (zs ++ (y ∷ back))
        → merge_high fill less
            (suc fuel)
            (upwards ys ++ (y ∷ more))
            c2
            s1
            (before ++ (upwards xs ++ (x ∷ (init ++ (g ∷ back)))))
            c1
            at
          ≡ before ++ (zs ++ (y ∷ back))
    unfolding merge_high
    step_right_canonical f merged = rw (go, second, first, f, merge_high, second, write y) merged

    pub step_right :
        less y x ≡ false
        → merge_high fill less fuel
            (upwards ys ++ (y ∷ more))
            (c2 - 1)
            s1
            (before ++ ((upwards xs ++ (x ∷ [])) ++ (init ++ (y ∷ back))))
            c1
            (at - 1)
          ≡ before ++ (zs ++ (y ∷ back))
        → merge_high fill less
            (suc fuel)
            ((upwards ys ++ (y ∷ [])) ++ more)
            c2
            s1
            (before ++ ((upwards xs ++ (x ∷ [])) ++ (gap ++ back)))
            c1
            at
          ≡ before ++ ((zs ++ (y ∷ [])) ++ back)
    step_right f merged =
        rw (shape, buffer, snoc_append zs y back)
          (step_right_canonical f (rw (snoc_append (upwards xs) x (init ++ (y ∷ back))) at merged))
