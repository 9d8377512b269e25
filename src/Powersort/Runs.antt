-- ===== src/Powersort/Runs.antt =====
-- src/obj_list.c: `powersort_extend_and_reverse_right` finds a run, or turns one round.
use mathlib.Core.List.{Perm}
use mathlib.Core.List.Perm
use kuroko.Prelude.{
  ℕ, zero, suc, ◌+◌, ◌-◌, ◌<◌, ◌≡◌, refl, ap, Bool, true, false, not, List, [], ◌∷◌, ◌++◌, arith,
  ltb, length, length-append, if-both, All, All-append, ◌==◌, if◌then◌else◌,
}
use kuroko.Powersort.{prefix_end, extend_right, reverse_values}
use kuroko.Powersort.Arrays.{
  IsStrict, IsSorted, upwards, length-upwards, IsSorted-snoc, read_at, read_behind, snoc_append,
  length-snoc, below_trans, All-weaken,
}
use kuroko.Powersort.Interleaving.{perm_of_eq, upwards-perm}
use kuroko.Powersort.Reverse.{reverse_values_lem}

module _ {ℓ} {A : Type ℓ} (fill : A) (less : A → A → Bool) where
  -- Each value and the next compare the same way: the next is less, or it is not.
  abbrev pub Chain : Bool → List A → Type 0
  Chain falls [] = Unit
  Chain falls (x ∷ []) = Unit
  Chain falls (x ∷ y ∷ ys) = (less y x ≡ falls) × Chain falls (y ∷ ys)

  rising-IsSorted : IsStrict less → (xs : List A) → Chain false xs → IsSorted less xs
  rising-IsSorted o [] c = tt
  rising-IsSorted o (x ∷ []) c = (tt, tt)
  rising-IsSorted o (x ∷ y ∷ ys) c =
      let sorted = rising-IsSorted o (y ∷ ys) c.1 in
      ((c.0, below_trans o x y ys c.0 sorted.0), sorted)

  -- A falling chain is in order from its end.
  falling-below :
      IsStrict less
      → (x : A) (ys : List A) → Chain true (x ∷ ys)
      → All (λ z. less x z ≡ false) (upwards ys)
  falling-below o x [] c = tt
  falling-below o x (y ∷ ys) c =
      let e = o.asym y x c.0 in
      All-append _ (upwards ys) (y ∷ [])
        (All-weaken _ _ (upwards ys) (λ z h. o.at_most_trans z y x h e) (falling-below o y ys c.1))
        (e, tt)

  falling-IsSorted : IsStrict less → (xs : List A) → Chain true xs → IsSorted less (upwards xs)
  falling-IsSorted o [] c = tt
  falling-IsSorted o (x ∷ ys) c =
      IsSorted-snoc less (upwards ys) x (falling-IsSorted o ys (behind x ys c))
        (falling-below o x ys c)
    where
      behind : (x : A) (ys : List A) → Chain true (x ∷ ys) → Chain true ys
      behind x [] c = tt
      behind x (y ∷ ys) c = c.1

  -- The chain that the loop finds, from the value at `begin` on.
  record Prefix (falls : Bool) (x : A) (rest : List A) (begin end : ℕ) : Type ℓ where
    run : List A
    behind : List A
    split : rest ≡ run ++ behind
    chain : Chain falls (x ∷ run)
    ends : end ≡ begin + 1 + length run

  compares : (falls b : Bool) → (if falls then b else not b) ≡ true → b ≡ falls
  compares true b h = h
  compares false true h = absurd (ground arith)
  compares false false h = refl

  longer :
      (falls : Bool) (x y : A) (ys : List A) (begin end : ℕ)
      → less y x ≡ falls
      → Prefix falls y ys (begin + 1) end
      → Prefix falls x (y ∷ ys) begin end
  longer falls x y ys begin end h p = record {
    run = y ∷ p.run;
    behind = p.behind;
    split = ap (λ t. y ∷ t) p.split;
    chain = (h, p.chain);
    ends = omega (arith, p.ends);
  }

  prefix_end-Prefix :
      (fuel : ℕ) (falls : Bool) (before : List A) (x : A) (rest : List A) (begin end : ℕ)
      → begin ≡ length before
      → end ≡ length before + suc (length rest)
      → Prefix falls x rest begin (prefix_end fill less fuel falls (before ++ (x ∷ rest)) begin end)
  unfolding prefix_end
  prefix_end-Prefix zero falls before x rest begin end e f = record {
    run = [];
    behind = rest;
    split = refl;
    chain = tt;
    ends = omega arith;
  }
  prefix_end-Prefix (suc fuel) falls before x [] begin end e f =
      let stop : ltb (begin + 1) end ≡ false = ground arith in
      rw (stop, prefix_end)
        (record { run = []; behind = []; split = refl; chain = tt; ends = omega arith })
  prefix_end-Prefix (suc fuel) falls before x (y ∷ ys) begin end e f =
      let go : ltb (begin + 1) end ≡ true = ground arith in
      let here = read_at begin before x (y ∷ ys) fill e in
      let next = read_behind (begin + 1) before (x ∷ []) y ys fill (omega arith) in
      let stopped : Prefix falls x (y ∷ ys) begin (begin + 1) = record {
        run = [];
        behind = y ∷ ys;
        split = refl;
        chain = tt;
        ends = omega arith;
      } in
      let onward =
        prefix_end-Prefix fuel falls (before ++ (x ∷ [])) y ys (begin + 1) end
          (omega (arith, length-snoc before x)) (omega (arith, length-snoc before x)) in
      let onward = rw (snoc_append before x (y ∷ ys)) at onward in
      rw (go, next, here)
        (if-both (Prefix falls x (y ∷ ys) begin) (if falls then less y x else not (less y x))
          (λ h. longer falls x y ys begin _ (compares falls (less y x) h) onward) (λ _. stopped))

  -- The next run: the values from `begin` on are those of the run, in order, and the others as they were.
  pub record ExtendsRun (before rest : List A) (begin : ℕ) (out : List A × ℕ) : Type ℓ where
    pub run : List A
    pub behind : List A
    pub stored : out.0 ≡ before ++ (run ++ behind)
    pub ends : out.1 ≡ begin + length run
    pub same : Perm rest (run ++ behind)
    pub sorted : IsSorted less run
    pub long : length rest ≡ length run + length behind
    pub advances : 0 < length rest → 0 < length run

  module _ (o : IsStrict less) (before : List A) (begin : ℕ) (from : begin ≡ length before) where
    rising-ExtendsRun :
        (x : A) (rest : List A) (end : ℕ)
        → Prefix false x rest begin end
        → ExtendsRun before (x ∷ rest) begin (before ++ (x ∷ rest), end)
    rising-ExtendsRun x rest end p = record {
      run = x ∷ p.run;
      behind = p.behind;
      stored = rw (p.split) refl;
      ends = omega (arith, p.ends);
      same = perm_of_eq (ap (λ t. x ∷ t) p.split);
      sorted = rising-IsSorted o (x ∷ p.run) p.chain;
      long = omega (arith, ap length p.split, length-append p.run p.behind);
      advances = λ _. omega arith;
    }

    falling-ExtendsRun :
        (x : A) (rest : List A) (end : ℕ)
        → Prefix true x rest begin end
        → ExtendsRun before
            (x ∷ rest)
            begin
            (reverse_values fill (before ++ (x ∷ rest)) begin (end - begin), end)
    falling-ExtendsRun x rest end p =
        let long : length (upwards (x ∷ p.run)) ≡ suc (length p.run) = length-upwards (x ∷ p.run) in
        record {
          run = upwards (x ∷ p.run);
          behind = p.behind;
          stored = rw (p.split) (
              reverse_values_lem fill before (x ∷ p.run) p.behind begin (end - begin) from
                (omega (arith, p.ends)));
          ends = omega (arith, p.ends);
          same = rw (p.split) (Perm.append_right p.behind (upwards-perm (x ∷ p.run)));
          sorted = falling-IsSorted o (x ∷ p.run) p.chain;
          long = omega (arith, long, ap length p.split, length-append p.run p.behind);
          advances = λ _. omega arith;
        }

    -- `powersort_extend_and_reverse_right` from an offset to the end of the values.
    pub extend_right_lem :
        (rest : List A) (end : ℕ)
        → end ≡ length before + length rest
        → ExtendsRun before rest begin (extend_right fill less (before ++ rest) begin end)
    unfolding extend_right
    extend_right_lem [] end e =
        let stop : (begin == end) ≡ true = ground arith in
        rw stop (record {
          run = [];
          behind = [];
          stored = refl;
          ends = omega arith;
          same = Perm.refl [];
          sorted = tt;
          long = omega arith;
          advances = λ h. h;
        })
    extend_right_lem (x ∷ []) end e =
        let go : (begin == end) ≡ false = ground arith in
        let stop : (begin + 1 == end) ≡ true = ground arith in
        rw (go, stop)
          (record {
            run = x ∷ [];
            behind = [];
            stored = refl;
            ends = omega arith;
            same = Perm.refl _;
            sorted = (tt, tt);
            long = omega arith;
            advances = λ h. h;
          })
    extend_right_lem (x ∷ y ∷ ys) end e =
        let go : (begin == end) ≡ false = ground arith in
        let on : (begin + 1 == end) ≡ false = ground arith in
        let here = read_at begin before x (y ∷ ys) fill from in
        let next = read_behind (begin + 1) before (x ∷ []) y ys fill (omega arith) in
        let values = before ++ (x ∷ y ∷ ys) in
        let chain : (falls : Bool)
            → Prefix falls y ys (begin + 1)
                (prefix_end fill less (length values) falls values (begin + 1) end) =
          λ falls. rw (snoc_append before x (y ∷ ys)) at (
            prefix_end-Prefix (length values) falls (before ++ (x ∷ [])) y ys (begin + 1) end
              (omega (arith, length-snoc before x)) (omega (arith, length-snoc before x))) in
        rw (go, on, next, here)
          (if-both (ExtendsRun before (x ∷ y ∷ ys) begin) (less y x)
            (λ h. falling-ExtendsRun x (y ∷ ys) _ (longer true x y ys begin _ h (chain true)))
            (λ h. rising-ExtendsRun x (y ∷ ys) _ (longer false x y ys begin _ h (chain false))))
