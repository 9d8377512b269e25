-- ===== src/Powersort/Laws.antt =====
-- src/obj_list.c: `powersort` sorts.
use mathlib.Core.List.{Perm}
use mathlib.Core.List.Perm
use kuroko.Prelude.{
  ℕ, ◌≡◌, refl, sym, ap, ◌∙◌, Bool, true, false, List, [], ◌∷◌, arith, length, subst, append-nil,
  length-replicate, replicate, if◌then◌else◌, All, All-append,
}
use kuroko.Powersort.{extend_right, reverse_values}
use kuroko.Powersort.Loops.{Sorting, sort_runs, powersort}
use kuroko.Powersort.Arrays.{IsStrict, IsSorted, upwards, length-upwards, IsSorted-snoc}
use kuroko.Powersort.Reverse.{reverse_values_lem}
use kuroko.Powersort.Interleaving.{upwards-perm}
use kuroko.Powersort.Runs.{ExtendsRun, extend_right_lem}
use kuroko.Powersort.Stack.{IsSorting, Stacked, run_loop-IsSorting, collapse-IsSorting}

-- The values of the input, in order.
pub record Sorts {ℓ} {A : Type ℓ} (less : A → A → Bool) (input out : List A) : Type ℓ where
  pub sorted : IsSorted less out
  pub same : Perm input out
  pub long : length out ≡ length input

module _ {ℓ} {A : Type ℓ} (fill : A) (less : A → A → Bool) (o : IsStrict less) where
  done-Sorts :
      (input : List A) (s : Sorting A)
      → IsSorting fill less input [] s
      → s.stack ≡ []
      → Sorts less input s.values
  done-Sorts input s v e =
      let nothing : v.front ≡ [] = subst (λ stack. Stacked fill less stack v.front) e v.stacked in
      let values : s.values ≡ v.run = v.stored ∙ rw (nothing, append-nil) refl in
      rw values (record {
        sorted = v.sorted;
        same = rw (nothing, append-nil) at v.same;
        long = omega (arith, v.total, ap length nothing);
      })

  start-IsSorting :
      (input : List A)
      → (e : ExtendsRun fill less [] input 0 (extend_right fill less input 0 (length input)))
      → IsSorting fill less input e.behind (record {
        values = (extend_right fill less input 0 (length input)).0;
        buffer = replicate (length input) fill;
        stack = [];
        start = 0;
        end = (extend_right fill less input 0 (length input)).1;
      })
  start-IsSorting input e = record {
    front = [];
    run = e.run;
    stored = e.stored;
    starts = refl;
    ends = e.ends;
    sorted = e.sorted;
    stacked = refl;
    same = e.same;
    total = omega (arith, e.long);
    roomy = length-replicate (length input) fill;
  }

  sort_runs-Sorts : (input : List A) → Sorts less input (sort_runs fill less input)
  unfolding sort_runs
  sort_runs-Sorts input =
      let e = extend_right_lem fill less o [] 0 refl input (length input) (omega arith) in
      let looped =
        run_loop-IsSorting fill less o input e.behind (length input) _ (start-IsSorting input e)
          (omega (arith, e.long)) in
      done-Sorts input _
        (collapse-IsSorting fill less o input [] _ (length input) _
          (omega (arith, looped.ends, looped.total)) looped)
        refl

  -- Backwards: no value is greater than one in front of it.
  abbrev pub greater : A → A → Bool
  greater a b = less b a

  All-upwards : (P : A → Type 0) (xs : List A) → All P xs → All P (upwards xs)
  All-upwards P [] a = tt
  All-upwards P (x ∷ xs) a = All-append P (upwards xs) (x ∷ []) (All-upwards P xs a.1) (a.0, tt)

  turned-IsSorted : (xs : List A) → IsSorted less xs → IsSorted greater (upwards xs)
  turned-IsSorted [] s = tt
  turned-IsSorted (x ∷ xs) s =
      IsSorted-snoc greater (upwards xs) x (turned-IsSorted xs s.1) (All-upwards _ xs s.0)

  pub reverse_all : (xs : List A) (n : ℕ) → n ≡ length xs → reverse_values fill xs 0 n ≡ upwards xs
  reverse_all xs n e =
      sym (ap (λ t. reverse_values fill t 0 n) (append-nil xs))
      ∙ reverse_values_lem fill [] xs [] 0 n refl e
      ∙ append-nil (upwards xs)

  -- `powersort` gives the values of the list in order: no value is less than one in front of it, or, in
  -- reverse, none is greater.
  pub powersort_lem :
      (reverse : Bool) (input : List A)
      → Sorts (if reverse then greater else less) input (powersort fill less reverse input)
  unfolding powersort
  powersort_lem false input = sort_runs-Sorts input
  powersort_lem true input =
      let sorted = sort_runs-Sorts (upwards input) in
      let size : length input ≡ length (sort_runs fill less (upwards input)) =
        omega (arith, sorted.long, length-upwards input) in
      rw
        (
          reverse_all input (length input) refl,
          reverse_all (sort_runs fill less (upwards input)) (length input) size,
        )
        (record {
          sorted = turned-IsSorted _ sorted.sorted;
          same = Perm.trans (upwards-perm input) (Perm.trans sorted.same (upwards-perm _));
          long = omega (arith, size, length-upwards (sort_runs fill less (upwards input)));
        })
