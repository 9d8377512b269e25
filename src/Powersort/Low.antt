-- ===== src/Powersort/Low.antt =====
-- src/obj_list.c: `powersort_merge` where the left run is copied.
use kuroko.Prelude.{
  ℕ, zero, suc, ◌+◌, ◌<◌, ◌≤◌, ◌≡◌, refl, inl, inr, Bool, true, false, ◌&&◌, Bool-cases, List, [],
  ◌∷◌, ◌++◌, arith, ltb, length,
}
use kuroko.Powersort.{drain_low, merge_low}
use kuroko.Powersort.Arrays.{
  IsStrict, IsSorted, read_at, read_behind, write_at, length-snoc, snoc_append, below_trans,
}
use kuroko.Powersort.Interleaving.{
  Interleaves, left, right, Interleaves-left, Interleaves-right, Interleaves-All,
}

-- The buffer holds what is left of the left run, behind `done`; the values hold `front`, a gap, what is
-- left of the right run, and `back`.
pub record Low {ℓ} {A : Type ℓ} (done xs more front gap ys back : List A) (c1 e1 c2 e2 o : ℕ)
    : Type ℓ where
  pub from : c1 ≡ length done
  pub until : e1 ≡ length done + length xs
  pub room : length gap ≡ length xs
  pub to : o ≡ length front
  pub second : c2 ≡ length front + length gap
  pub second_end : e2 ≡ length front + length gap + length ys

-- What a merge makes of two runs.
pub record Merges {ℓ} {A : Type ℓ} (less : A → A → Bool) (xs ys zs : List A) : Type ℓ where
  pub interleaves : Interleaves xs ys zs
  pub sorted : IsSorted less zs

module _ {ℓ} {A : Type ℓ} (fill : A) where
  drain_low_lem :
      (fuel : ℕ) (done xs more front gap back : List A) (c1 e1 o : ℕ)
      → c1 ≡ length done
      → e1 ≡ length done + length xs
      → length gap ≡ length xs
      → o ≡ length front
      → length xs ≤ fuel
      → drain_low fill fuel (done ++ (xs ++ more)) c1 e1 (front ++ (gap ++ back)) o
        ≡ front ++ (xs ++ back)
  unfolding drain_low
  drain_low_lem zero done [] more front [] back c1 e1 o from until room to h = refl
  drain_low_lem zero done (x ∷ xs) more front gap back c1 e1 o from until room to h =
      absurd (omega arith)
  drain_low_lem _ done [] more front (g ∷ gap) back c1 e1 o from until room to h =
      absurd (omega arith)
  drain_low_lem (suc fuel) done [] more front [] back c1 e1 o from until room to h =
      let stop : ltb c1 e1 ≡ false = ground arith in rw (stop, drain_low) refl
  drain_low_lem (suc fuel) done (x ∷ xs) more front [] back c1 e1 o from until room to h =
      absurd (omega arith)
  drain_low_lem (suc fuel) done (x ∷ xs) more front (g ∷ gap) back c1 e1 o from until room to h =
      let go : ltb c1 e1 ≡ true = ground arith in
      let ih =
        drain_low_lem fuel (done ++ (x ∷ [])) xs more (front ++ (x ∷ [])) gap back (c1 + 1) e1
          (o + 1) (omega (arith, length-snoc done x)) (omega (arith, length-snoc done x))
          (omega arith) (omega (arith, length-snoc front x)) (omega arith) in
      rw
        (
          go,
          drain_low,
          read_at c1 done x (xs ++ more) fill from,
          write_at o front g x (gap ++ back) to,
        )
        (rw
          (
            snoc_append done x (xs ++ more),
            snoc_append front x (gap ++ back),
            snoc_append front x (xs ++ back),
          )
          at ih)

module _ {ℓ} {A : Type ℓ} (fill : A) (less : A → A → Bool) (o : IsStrict less) where
  -- The first value of the left run comes first, or that of the right run.
  Merges-left :
      (x y : A) (xs ys zs : List A)
      → less y x ≡ false
      → IsSorted less (x ∷ xs)
      → IsSorted less (y ∷ ys)
      → Merges less xs (y ∷ ys) zs
      → Merges less (x ∷ xs) (y ∷ ys) (x ∷ zs)
  Merges-left x y xs ys zs e sx sy m = record {
    interleaves = left (m.interleaves);
    sorted = (Interleaves-All _ m.interleaves sx.0 (e, below_trans o x y ys e sy.0), m.sorted);
  }

  Merges-right :
      (x y : A) (xs ys zs : List A)
      → less y x ≡ true
      → IsSorted less (x ∷ xs)
      → IsSorted less (y ∷ ys)
      → Merges less (x ∷ xs) ys zs
      → Merges less (x ∷ xs) (y ∷ ys) (y ∷ zs)
  Merges-right x y xs ys zs e sx sy m = record {
    interleaves = right (m.interleaves);
    sorted = (
      Interleaves-All _ m.interleaves (o.asym y x e, below_trans o y x xs (o.asym y x e) sx.0) sy.0,
      m.sorted,
    );
  }

  abbrev Merged : (fuel : ℕ) (done xs more front gap ys back : List A) (c1 e1 c2 e2 at : ℕ) → Type ℓ
  Merged fuel done xs more front gap ys back c1 e1 c2 e2 at =
      (zs : List A) × (merge_low fill less fuel (done ++ (xs ++ more)) c1 e1
          (front ++ (gap ++ (ys ++ back))) c2 e2 at
        ≡ front ++ (zs ++ back))
      × Merges less xs ys zs

  pub merge_low_lem :
      (fuel : ℕ) (done xs more front gap ys back : List A) (c1 e1 c2 e2 at : ℕ)
      → Low done xs more front gap ys back c1 e1 c2 e2 at
      → length xs + length ys < fuel
      → IsSorted less xs
      → IsSorted less ys
      → Merged fuel done xs more front gap ys back c1 e1 c2 e2 at
  unfolding merge_low
  merge_low_lem zero done xs more front gap ys back c1 e1 c2 e2 at low h sx sy =
      absurd (omega arith)
  merge_low_lem (suc fuel) done [] more front (g ∷ gap) ys back c1 e1 c2 e2 at low h sx sy =
      absurd (omega (arith, low.room))
  merge_low_lem (suc fuel) done [] more front [] ys back c1 e1 c2 e2 at low h sx sy =
      let stop : ltb c1 e1 ≡ false = ground (arith, low.from, low.until) in
      (
        ys,
        rw (stop, merge_low)
            (drain_low_lem fill e1 done [] more front [] (ys ++ back) c1 e1 at low.from low.until
              low.room low.to (omega arith)),
        record { interleaves = Interleaves-right ys; sorted = sy },
      )
  merge_low_lem (suc fuel) done (x ∷ xs) more front [] ys back c1 e1 c2 e2 at low h sx sy =
      absurd (omega (arith, low.room))
  merge_low_lem (suc fuel) done (x ∷ xs) more front (g ∷ gap) [] back c1 e1 c2 e2 at low h sx sy =
      let stop : (ltb c1 e1 && ltb c2 e2) ≡ false = ground (arith, low.second, low.second_end) in
      (
        x ∷ xs,
        rw (stop, merge_low)
            (drain_low_lem fill e1 done (x ∷ xs) more front (g ∷ gap) back c1 e1 at low.from
              low.until low.room low.to (omega (arith, low.until))),
        record { interleaves = Interleaves-left (x ∷ xs); sorted = sx },
      )
  merge_low_lem (suc fuel) done (x ∷ xs) more front (g ∷ gap) (y ∷ ys) back c1 e1 c2 e2 at low h sx
        sy =
      let go : (ltb c1 e1 && ltb c2 e2) ≡ true =
        ground (arith, low.from, low.until, low.second, low.second_end) in
      let first = read_at c1 done x (xs ++ more) fill low.from in
      let second = read_behind c2 front (g ∷ gap) y (ys ++ back) fill low.second in
      elim (Bool-cases (less y x)) [
        | inl e ↦
            let ih =
              merge_low_lem fuel done (x ∷ xs) more (front ++ (y ∷ [])) (gap ++ (y ∷ [])) ys back c1
                e1 (c2 + 1) e2 (at + 1)
                (record {
                  from = low.from;
                  until = low.until;
                  room = omega (arith, low.room, length-snoc gap y);
                  to = omega (arith, low.to, length-snoc front y);
                  second = omega (arith, low.second, length-snoc front y, length-snoc gap y);
                  second_end =
                      omega (arith, low.second_end, length-snoc front y, length-snoc gap y);
                })
                (omega arith) sx sy.1 in
            let (zs, merged, m) = ih in
            (
              y ∷ zs,
              rw
                  (
                    go,
                    second,
                    first,
                    e,
                    merge_low,
                    second,
                    write_at at front g y (gap ++ (y ∷ (ys ++ back))) low.to,
                  )
                  (rw
                    (
                      snoc_append gap y (ys ++ back),
                      snoc_append front y (gap ++ (y ∷ (ys ++ back))),
                      snoc_append front y (zs ++ back),
                    )
                    at merged),
              Merges-right x y xs ys zs e sx sy m,
            )
        | inr e ↦
            let ih =
              merge_low_lem fuel (done ++ (x ∷ [])) xs more (front ++ (x ∷ [])) gap (y ∷ ys) back
                (c1 + 1) e1 c2 e2 (at + 1)
                (record {
                  from = omega (arith, low.from, length-snoc done x);
                  until = omega (arith, low.until, length-snoc done x);
                  room = omega (arith, low.room);
                  to = omega (arith, low.to, length-snoc front x);
                  second = omega (arith, low.second, length-snoc front x);
                  second_end = omega (arith, low.second_end, length-snoc front x);
                })
                (omega arith) sx.1 sy in
            let (zs, merged, m) = ih in
            (
              x ∷ zs,
              rw
                  (
                    go,
                    second,
                    first,
                    e,
                    merge_low,
                    first,
                    write_at at front g x (gap ++ (y ∷ (ys ++ back))) low.to,
                  )
                  (rw
                    (
                      snoc_append done x (xs ++ more),
                      snoc_append front x (gap ++ (y ∷ (ys ++ back))),
                      snoc_append front x (zs ++ back),
                    )
                    at merged),
              Merges-left x y xs ys zs e sx sy m,
            )
      ]
