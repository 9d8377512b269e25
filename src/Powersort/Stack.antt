-- ===== src/Powersort/Stack.antt =====
-- src/obj_list.c: the runs on the stack, and the loops of `powersort` that merge them.
use mathlib.Core.List.{Perm}
use mathlib.Core.List.Perm
use kuroko.Prelude.{
  ℕ, zero, suc, ◌+◌, ◌≤◌, ◌≡◌, refl, sym, ap, ◌∙◌, Bool, true, false, List, [], ◌∷◌, ◌++◌, arith,
  ltb, length, append_assoc, length-append, if-both,
}
use kuroko.Powersort.{powersort_merge, powersort_power, extend_right}
use kuroko.Powersort.Loops.{RunStack, Sorting, merge_stack, run_loop, collapse}
use kuroko.Powersort.Arrays.{IsStrict, IsSorted}
use kuroko.Powersort.Interleaving.{Interleaves-perm, Interleaves-length}
use kuroko.Powersort.Merging.{MergedRuns, powersort_merge_lem}
use kuroko.Powersort.Runs.{ExtendsRun, extend_right_lem}

module _ {ℓ} {A : Type ℓ} (fill : A) (less : A → A → Bool) where
  -- The values in front are those of the runs on the stack, each in order.
  abbrev pub Stacked : RunStack → List A → Type ℓ
  Stacked [] front = front ≡ []
  Stacked ((begin, power) ∷ stack) front =
      (lower : List A) × (top : List A) × (front ≡ lower ++ top)
      × (begin ≡ length lower)
      × IsSorted less top
      × Stacked stack lower

  -- The values are those of the input: the runs on the stack, the run `a`, and the rest.
  pub record IsSorting (input rest : List A) (s : Sorting A) : Type ℓ where
    pub front : List A
    pub run : List A
    pub stored : s.values ≡ front ++ (run ++ rest)
    pub starts : s.start ≡ length front
    pub ends : s.end ≡ length front + length run
    pub sorted : IsSorted less run
    pub stacked : Stacked s.stack front
    pub same : Perm input (front ++ (run ++ rest))
    pub total : length front + length run + length rest ≡ length input
    pub roomy : length s.buffer ≡ length input

  -- The state after the run on the top of the stack is merged with the run `a`.
  abbrev pub merge_top : ℕ → RunStack → Sorting A → Sorting A
  merge_top begin stack s = record {
    values = (powersort_merge fill less begin s.start s.end s.values s.buffer).0;
    buffer = (powersort_merge fill less begin s.start s.end s.values s.buffer).1;
    stack = stack;
    start = begin;
    end = s.end;
  }

  module _ (o : IsStrict less) (input rest : List A) where
    merge_top-IsSorting :
        (begin power : ℕ) (stack : RunStack) (s : Sorting A)
        → IsSorting input rest (record s { stack = (begin, power) ∷ stack })
        → IsSorting input rest (merge_top begin stack s)
    merge_top-IsSorting begin power stack s v =
        let (lower, top, split, begins, sorted, below) = v.stacked in
        let long : length v.front ≡ length lower + length top =
          ap length split ∙ length-append lower top in
        let values : s.values ≡ lower ++ (top ++ (v.run ++ rest)) =
          v.stored ∙ rw split (append_assoc lower top (v.run ++ rest)) in
        let start : s.start ≡ length lower + length top = v.starts ∙ long in
        let end : s.end ≡ length lower + length top + length v.run = v.ends ∙ omega arith in
        let merged : MergedRuns less lower top v.run rest s.buffer
            (powersort_merge fill less begin s.start s.end s.values s.buffer) =
          rw (begins, start, end, values)
            (powersort_merge_lem fill less o lower top v.run rest s.buffer
              (omega (arith, v.total, v.roomy)) sorted v.sorted) in
        let size = Interleaves-length merged.merges.interleaves in
        let joined : front_of v ≡ lower ++ ((top ++ v.run) ++ rest) =
          rw (split, append_assoc top v.run rest) (append_assoc lower top (v.run ++ rest)) in
        record {
          front = lower;
          run = merged.run;
          stored = merged.stored;
          starts = begins;
          ends = omega arith;
          sorted = merged.merges.sorted;
          stacked = below;
          same = Perm.trans (rw joined at v.same) (
              Perm.append_left lower
                (Perm.append_right rest (Interleaves-perm merged.merges.interleaves)));
          total = omega (arith, v.total);
          roomy = merged.roomy ∙ v.roomy;
        }
      where
        front_of : IsSorting input rest (record s { stack = (begin, power) ∷ stack }) → List A
        front_of v = v.front ++ (v.run ++ rest)

    -- `while (stack[top].power > a.power)` merges runs, and ends where the run `a` ended.
    merge_stack-IsSorting :
        (stack : RunStack) (power : ℕ) (s : Sorting A)
        → IsSorting input rest (record s { stack = stack })
        → IsSorting input rest (merge_stack fill less stack power s)
          × ((merge_stack fill less stack power s).end ≡ s.end)
    unfolding merge_stack
    merge_stack-IsSorting [] power s v = (v, refl)
    merge_stack-IsSorting ((begin, top_power) ∷ stack) power s v =
        if-both (λ t. IsSorting input rest t × (t.end ≡ s.end)) (ltb power top_power)
          (λ _.
            merge_stack-IsSorting stack power (merge_top begin stack s)
              (merge_top-IsSorting begin top_power stack s v))
          (λ _. (v, refl))

    -- `while (top > 0)` merges them all.
    pub collapse-IsSorting :
        (stack : RunStack) (n : ℕ) (s : Sorting A)
        → s.end ≡ n
        → IsSorting input rest (record s { stack = stack })
        → IsSorting input rest (record (collapse fill less stack n s) { stack = [] })
    unfolding collapse
    collapse-IsSorting [] n s e v = v
    collapse-IsSorting ((begin, top_power) ∷ stack) n s e v = rw (← e) (
        collapse-IsSorting stack s.end (merge_top begin stack s) refl
          (merge_top-IsSorting begin top_power stack s v))

  -- One round of `while (a.end.keys < end.keys)`.
  abbrev round : ℕ → Sorting A → Sorting A
  round n s =
      let (values, b_end) = extend_right fill less s.values s.end n in
      let power = powersort_power 0 n s.start s.end b_end in
      let merged = merge_stack fill less s.stack power (record s { values = values }) in
      record {
        values = merged.values;
        buffer = merged.buffer;
        stack = (merged.start, power) ∷ merged.stack;
        start = s.end;
        end = b_end;
      }

  -- The round finds the next run, and puts the run `a` on the stack.
  module _ (o : IsStrict less) (input rest : List A) (s : Sorting A)
      (v : IsSorting input rest s) where
    extended :
        ExtendsRun fill less
          (v.front ++ v.run)
          rest
          s.end
          (extend_right fill less s.values s.end (length input))
    extended =
        let values : s.values ≡ (v.front ++ v.run) ++ rest =
          v.stored ∙ sym (append_assoc v.front v.run rest) in
        rw values (
          extend_right_lem fill less o (v.front ++ v.run) s.end
            (omega (arith, v.ends, length-append v.front v.run)) rest (length input)
            (omega (arith, v.total, length-append v.front v.run)))

    before_merge :
        (values : List A)
        → values ≡ (v.front ++ v.run) ++ (extended.run ++ extended.behind)
        → IsSorting input (extended.run ++ extended.behind) (record s { values = values })
    before_merge values e = record {
      front = v.front;
      run = v.run;
      stored = e ∙ append_assoc v.front v.run (extended.run ++ extended.behind);
      starts = v.starts;
      ends = v.ends;
      sorted = v.sorted;
      stacked = v.stacked;
      same = Perm.trans v.same (Perm.append_left v.front (Perm.append_left v.run extended.same));
      total = omega (arith, v.total, extended.long, length-append extended.run extended.behind);
      roomy = v.roomy;
    }

    -- The state when the stack is merged, with the next run still among the rest.
    abbrev stacking : Sorting A
    stacking =
        merge_stack fill less s.stack
          (powersort_power 0 (length input) s.start s.end
            (extend_right fill less s.values s.end (length input)).1)
          (record s { values = (extend_right fill less s.values s.end (length input)).0 })

    stacking-IsSorting :
        IsSorting input (extended.run ++ extended.behind) stacking × (stacking.end ≡ s.end)
    stacking-IsSorting =
        merge_stack-IsSorting o input (extended.run ++ extended.behind) s.stack _ _
          (before_merge _ extended.stored)

    round-IsSorting : IsSorting input extended.behind (round (length input) s)
    round-IsSorting =
        let (w, same_end) = stacking-IsSorting in
        let together = sym (append_assoc w.front w.run (extended.run ++ extended.behind)) in
        let size = length-append w.front w.run in
        let sum = length-append extended.run extended.behind in
        record {
          front = w.front ++ w.run;
          run = extended.run;
          stored = w.stored ∙ together;
          starts = omega (arith, same_end, w.ends);
          ends = omega (arith, same_end, w.ends, extended.ends);
          sorted = extended.sorted;
          stacked = (w.front, w.run, refl, w.starts, w.sorted, w.stacked);
          same = rw together at w.same;
          total = omega (arith, w.total);
          roomy = w.roomy;
        }

  -- The loop ends at the end of the values: there is a run in each round.
  pub run_loop-IsSorting :
      IsStrict less
      → (input rest : List A) (fuel : ℕ) (s : Sorting A) → IsSorting input rest s
      → length rest ≤ fuel
      → IsSorting input [] (run_loop fill less fuel (length input) s)
  unfolding run_loop
  run_loop-IsSorting o input [] zero s v h = v
  run_loop-IsSorting o input (x ∷ rest) zero s v h = absurd (omega arith)
  run_loop-IsSorting o input [] (suc fuel) s v h =
      let stop : ltb s.end (length input) ≡ false = ground (arith, v.ends, v.total) in rw stop v
  run_loop-IsSorting o input (x ∷ rest) (suc fuel) s v h =
      let go : ltb s.end (length input) ≡ true = ground (arith, v.ends, v.total) in
      let e = extended o input (x ∷ rest) s v in
      let some_run = e.advances (omega arith) in
      rw go (
        run_loop-IsSorting o input e.behind fuel (round (length input) s)
          (round-IsSorting o input (x ∷ rest) s v) (omega (arith, e.long, some_run)))
