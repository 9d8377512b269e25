-- ===== src/Powersort/Loops.antt =====
-- src/obj_list.c: the loops of `powersort`, and `list.sort`.
use kuroko.Prelude.{
  ℕ, zero, suc, Bool, Option, none, some, List, [], ◌∷◌, ltb, if◌then◌else◌, length, replicate, map,
}
use kuroko.Powersort.{reverse_values, extend_right, powersort_merge, powersort_power}

-- The runs on the stack, from the top: where they begin, and their powers.
abbrev pub RunStack : Type 0
RunStack = List (ℕ × ℕ)

-- What the loops change: the values, the buffer, the stack, and the bounds of the run `a`.
pub record Sorting {ℓ} (A : Type ℓ) : Type ℓ where
  pub values : List A
  pub buffer : List A
  pub stack : RunStack
  pub start : ℕ
  pub end : ℕ

module _ {ℓ} {A : Type ℓ} (fill : A) (less : A → A → Bool) where
  -- `while (stack[top].power > a.power)`; below the stack stands the power 0.
  unfoldable pub merge_stack : RunStack → ℕ → Sorting A → Sorting A
  unfolding powersort_merge
  merge_stack [] power s = record s { stack = [] }
  merge_stack ((begin, top_power) ∷ stack) power s =
      let (values, buffer) = powersort_merge fill less begin s.start s.end s.values s.buffer in
      let merged =
        merge_stack stack power (record {
          values = values;
          buffer = buffer;
          stack = stack;
          start = begin;
          end = s.end;
        }) in
      if ltb power top_power then merged else record s { stack = (begin, top_power) ∷ stack }

  -- `while (a.end.keys < end.keys)`, with fuel.
  unfoldable pub run_loop : ℕ → ℕ → Sorting A → Sorting A
  unfolding extend_right powersort_power merge_stack
  run_loop zero n s = s
  run_loop (suc fuel) n s =
      let (values, b_end) = extend_right fill less s.values s.end n in
      let power = powersort_power 0 n s.start s.end b_end in
      let merged = merge_stack s.stack power (record s { values = values }) in
      let next : Sorting A = record {
        values = merged.values;
        buffer = merged.buffer;
        stack = (merged.start, power) ∷ merged.stack;
        start = s.end;
        end = b_end;
      } in
      let rest = run_loop fuel n next in if ltb s.end n then rest else s

  -- `while (top > 0)`
  unfoldable pub collapse : RunStack → ℕ → Sorting A → Sorting A
  unfolding powersort_merge
  collapse [] n s = s
  collapse ((begin, top_power) ∷ stack) n s =
      let (values, buffer) = powersort_merge fill less begin s.start n s.values s.buffer in
      collapse stack n
        (record { values = values; buffer = buffer; stack = stack; start = begin; end = s.end })

  -- The runs and the merges, without the reversals around them.
  unfoldable pub sort_runs : List A → List A
  unfolding extend_right run_loop collapse
  sort_runs values =
      let n = length values in
      let (first, end) = extend_right fill less values 0 n in
      let s =
        run_loop n n (record {
          values = first;
          buffer = replicate n fill;
          stack = [];
          start = 0;
          end = end;
        }) in
      (collapse s.stack n s).values

  unfoldable pub powersort : Bool → List A → List A
  unfolding reverse_values sort_runs
  powersort reverse values =
      let n = length values in
      if reverse
      then reverse_values fill (sort_runs (reverse_values fill values 0 n)) 0 n
      else sort_runs values

-- The keys with their values, in order; none where the key function raises.
unfoldable pub keyed {ℓ} : {V : Type ℓ} → (V → Option V) → List V → Option (List (V × V))
keyed key [] = some []
keyed key (x ∷ xs) = elim (key x) [
  | none ↦ none
  | some k ↦ elim (keyed key xs) [ none ↦ none | some pairs ↦ some ((k, x) ∷ pairs) ]
]

-- The values by their keys. Where the key function raises they are not sorted, but reversed where that
-- is asked for. Forward again, the values alone are reversed, here with their keys.
unfoldable pub sort_keyed {ℓ} :
    {V : Type ℓ} → V → (V → V → Bool) → Bool → List V → Option (List (V × V)) → List V
unfolding powersort reverse_values
sort_keyed none_val sorter reverse values none =
    if reverse then reverse_values none_val values 0 (length values) else values
sort_keyed none_val sorter reverse values (some pairs) =
    map (λ p. p.1) (powersort (none_val, none_val) (λ a b. sorter a.0 b.0) reverse pairs)

-- `list.sort`. Without a key function the values are their own keys.
unfoldable pub sort {ℓ} :
    {V : Type ℓ} → V → (V → V → Bool) → Option (V → Option V) → Bool → List V → List V
unfolding powersort keyed sort_keyed
sort none_val sorter none reverse values =
    if ltb (length values) 2 then values else powersort none_val sorter reverse values
sort none_val sorter (some key) reverse values =
    if ltb (length values) 2
    then values
    else sort_keyed none_val sorter reverse values (keyed key values)
