-- ===== src/Powersort/Reverse.antt =====
-- src/obj_list.c: `reverse_values` reverses in place.
use kuroko.Prelude.{
  ℕ, zero, suc, ◌+◌, ◌-◌, ◌≤◌, ◌≡◌, refl, ap, true, false, ◌∙◌, List, [], ◌∷◌, ◌++◌, arith, ltb,
  length, set,
}
use kuroko.Powersort.{reverse_loop, reverse_values}
use kuroko.Powersort.Arrays.{
  upwards, read_at, read_behind, write_at, write_behind, snoc_append, length-snoc, split_last,
}

module _ {ℓ} {A : Type ℓ} (fill : A) where
  pub upwards-snoc : (xs : List A) (y : A) → upwards (xs ++ (y ∷ [])) ≡ y ∷ upwards xs
  upwards-snoc [] y = refl
  upwards-snoc (x ∷ xs) y = ap (λ t. t ++ (x ∷ [])) (upwards-snoc xs y)

  -- One round exchanges the ends.
  module _ (fuel : ℕ) (before : List A) (x : A) (mid : List A) (y : A) (back : List A) (lo hi : ℕ)
      (from : lo ≡ length before) (until : hi ≡ length before + suc (length mid)) where
    exchanged :
        set (set (before ++ (x ∷ (mid ++ (y ∷ back)))) lo y) hi x
        ≡ before ++ (y ∷ (mid ++ (x ∷ back)))
    exchanged =
        rw (write_at lo before x y (mid ++ (y ∷ back)) from)
          (write_behind hi before (y ∷ mid) y x back until)

    exchange :
        reverse_loop fill (suc fuel) (before ++ (x ∷ (mid ++ (y ∷ back)))) lo hi
        ≡ reverse_loop fill fuel (before ++ (y ∷ (mid ++ (x ∷ back)))) (lo + 1) (hi - 1)
    unfolding reverse_loop
    exchange =
        let go : ltb lo hi ≡ true = ground arith in
        rw
          (
            go,
            read_at lo before x (mid ++ (y ∷ back)) fill from,
            read_behind hi before (x ∷ mid) y back fill until,
            exchanged,
          )
          refl

  around :
      (fuel : ℕ) (before : List A) (x : A) (xs mid : List A) (y : A) (back : List A) (lo hi : ℕ)
      → lo ≡ length before
      → hi ≡ length before + suc (length mid)
      → xs ≡ mid ++ (y ∷ [])
      → reverse_loop fill fuel ((before ++ (y ∷ [])) ++ (mid ++ (x ∷ back))) (lo + 1) (hi - 1)
        ≡ (before ++ (y ∷ [])) ++ (upwards mid ++ (x ∷ back))
      → reverse_loop fill (suc fuel) (before ++ (x ∷ (xs ++ back))) lo hi
        ≡ before ++ ((upwards xs ++ (x ∷ [])) ++ back)
  around fuel before x xs mid y back lo hi from until split ih =
      let turned : upwards xs ≡ y ∷ upwards mid = rw split (upwards-snoc mid y) in
      rw
        (
          turned,
          split,
          snoc_append mid y back,
          exchange fuel before x mid y back lo hi from until,
          snoc_append (upwards mid) x back,
        )
        (rw
          (
            snoc_append before y (mid ++ (x ∷ back)),
            snoc_append before y (upwards mid ++ (x ∷ back)),
          )
          at ih)

  reverse_loop_lem :
      (fuel : ℕ) (before xs back : List A) (lo hi : ℕ)
      → lo ≡ length before
      → hi ≡ length before + length xs - 1
      → length xs ≤ fuel
      → reverse_loop fill fuel (before ++ (xs ++ back)) lo hi ≡ before ++ (upwards xs ++ back)
  unfolding reverse_loop
  reverse_loop_lem zero before [] back lo hi e f h = refl
  reverse_loop_lem zero before (x ∷ xs) back lo hi e f h = absurd (omega arith)
  reverse_loop_lem (suc fuel) before [] back lo hi e f h =
      let stop : ltb lo hi ≡ false = ground arith in rw stop refl
  reverse_loop_lem (suc fuel) before (x ∷ []) back lo hi e f h =
      let stop : ltb lo hi ≡ false = ground arith in rw stop refl
  reverse_loop_lem (suc fuel) before (x ∷ z ∷ zs) back lo hi e f h =
      let (mid, y, split) = split_last (z ∷ zs) (omega arith) in
      let long = ap length split ∙ length-snoc mid y in
      around fuel before x (z ∷ zs) mid y back lo hi e (omega (arith, long)) split (
        reverse_loop_lem fuel (before ++ (y ∷ [])) mid (x ∷ back) (lo + 1) (hi - 1)
          (omega (arith, length-snoc before y)) (omega (arith, long, length-snoc before y))
          (omega (arith, long)))

  -- `reverse_values` of a part of the values.
  pub reverse_values_lem :
      (before xs back : List A) (begin n : ℕ)
      → begin ≡ length before
      → n ≡ length xs
      → reverse_values fill (before ++ (xs ++ back)) begin n ≡ before ++ (upwards xs ++ back)
  unfolding reverse_values
  reverse_values_lem before xs back begin n e f =
      reverse_loop_lem n before xs back begin (begin + n - 1) e (omega arith) (omega arith)
