-- ===== src/Tests/Pheap.antt =====
-- src/modules/module__pheap.c at concrete values.
use mathlib.Core.List.{Perm}
use kuroko.Prelude.{ℕ, ◌≡◌, refl, Bool, Option, none, some, [], ◌∷◌, ◌++◌, arith, ltb}
use kuroko.Pheap.{null, visit_heap}
use kuroko.Pheap.Order.{IsConsistent}
use kuroko.Pheap.Object.{PheapObject, init, insert, pop, len, IsValid, init-IsValid, insert_lem}
use kuroko.Pheap.Pop.{Pops, Agrees, pop_lem, peek_pop}
use kuroko.Pheap.Drain.{drain, IsSorted, drain_sorts}

abbrev smaller : ℕ → ℕ → Option Bool
smaller a b = some (ltb a b)

smaller-IsConsistent : IsConsistent smaller
smaller-IsConsistent = record {
  asym = λ a b h. ground arith;
  at_most_trans = λ a b c h k. ground arith;
}

-- An object before `__init__`.
abbrev made : PheapObject ℕ
made = record { comparator = λ a b. none; heap = null; count = 0 }

abbrev three : PheapObject ℕ
three = insert (insert (insert (init made smaller) 5) 3) 4

empty-IsValid : IsValid (init made smaller)
empty-IsValid = init-IsValid made smaller refl refl smaller-IsConsistent

three-IsValid : IsValid three
three-IsValid = (insert_lem _ 4 (insert_lem _ 3 (insert_lem _ 5 empty-IsValid).0).0).0

insert_lem_example :
    IsValid (insert three 1)
    × Perm (visit_heap (insert three 1).heap) (visit_heap three.heap ++ (1 ∷ []))
insert_lem_example = insert_lem three 1 three-IsValid

pop_lem_example : Pops three (pop three)
pop_lem_example = pop_lem three three-IsValid

peek_pop_example : Agrees three (pop three)
peek_pop_example = peek_pop three three-IsValid

drain_sorts_example :
    IsSorted smaller (drain (len three) three)
    × Perm (drain (len three) three) (visit_heap three.heap)
unfolding insert init
drain_sorts_example = drain_sorts three three-IsValid

drain_runs : drain 3 three ≡ 3 ∷ 4 ∷ 5 ∷ []
unfolding insert init pop kuroko.Pheap.meld drain
drain_runs = refl
