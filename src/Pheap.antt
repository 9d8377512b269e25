-- ===== src/Pheap.antt =====
-- src/modules/module__pheap.c: the pairing heap.
--
-- A pointer to a heap is `null` or a node with a value, the first of its subheaps and the next
-- sibling, as in the C struct. The `owner` field is left out: the comparator that it leads to is
-- the argument `comp`, the result of the Kuroko callable, which is `none` if it is no Boolean.
-- The comparator is taken to be a function of the two values.
pub mod Order
pub mod Contents
pub mod Object
pub mod Pop
pub mod Drain
use kuroko.Prelude.{Bool, true, false, Option, none, some, List, [], ◌∷◌, ◌++◌, if◌then◌else◌}

pub data Heap {ℓ} (V : Type ℓ) : Type ℓ where
  null : Heap V
  node : V → Heap V → Heap V → Heap V

module _ {ℓ} {V : Type ℓ} where
  -- A comparison that does not return a Boolean counts as false.
  abbrev pub run_comparator : (V → V → Option Bool) → V → V → Bool
  run_comparator comp left right = elim (comp left right) [ some b ↦ b | none ↦ false ]

  -- `if (heap) other->next = heap;`
  abbrev pub next_or : Heap V → Heap V → Heap V
  next_or null next = next
  next_or heap next = heap

  unfoldable pub meld : (V → V → Option Bool) → Heap V → Heap V → Heap V
  meld comp null right = right
  meld comp (node v s n) null = node v s n
  meld comp (node v s n) (node w t m) =
      if run_comparator comp v w
      then node v (node w t (next_or s m)) n
      else node w (node v s (next_or t n)) m

  unfoldable pub merge_pairs : (V → V → Option Bool) → Heap V → Heap V
  unfolding meld
  merge_pairs comp null = null
  merge_pairs comp (node v s null) = node v s null
  merge_pairs comp (node v s (node w t rest)) =
      meld comp (meld comp (node v s null) (node w t null)) (merge_pairs comp rest)

  -- Only called on a heap that is not empty.
  unfoldable pub delete_min : (V → V → Option Bool) → Heap V → Heap V
  unfolding merge_pairs
  delete_min comp null = null
  delete_min comp (node v s n) = merge_pairs comp s

  -- The values in the order in which the visitor is called: before the subheaps and siblings.
  unfoldable pub visit_heap : Heap V → List V
  visit_heap null = []
  visit_heap (node v s n) = v ∷ (visit_heap s ++ visit_heap n)

  -- After the subheaps and siblings.
  unfoldable pub visit_heap_after : Heap V → List V
  visit_heap_after null = []
  visit_heap_after (node v s n) = visit_heap_after s ++ (visit_heap_after n ++ (v ∷ []))
