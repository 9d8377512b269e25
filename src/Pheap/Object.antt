-- ===== src/Pheap/Object.antt =====
-- src/modules/module__pheap.c: the methods of `PHeap`.
use mathlib.Core.List.{Perm}
use kuroko.Prelude.{
  ℕ, ◌+◌, ◌-◌, ◌≡◌, refl, arith, Bool, true, false, Option, none, some, List, [], ◌∷◌, ◌++◌, length,
  if◌then◌else◌,
}
use kuroko.Pheap.{Heap, null, node, meld, delete_min, visit_heap, visit_heap_after}
use kuroko.Pheap.Order.{IsRoot, IsOrdered, IsConsistent, meld-IsOrdered}
use kuroko.Pheap.Contents.{meld-perm, length-meld}

-- `struct PHeap_Obj`
pub record PheapObject {ℓ} (V : Type ℓ) : Type ℓ where
  pub comparator : V → V → Option Bool
  pub heap : Heap V
  pub count : ℕ

-- The error of `pop` is an IndexError.
pub data Popped {ℓ} (V : Type ℓ) : Type ℓ where
  index_error : Popped V
  popped : V → PheapObject V → Popped V

module _ {ℓ} {V : Type ℓ} where
  -- `__init__`
  unfoldable pub init : PheapObject V → (V → V → Option Bool) → PheapObject V
  init self comp = record self { comparator = comp }

  unfoldable pub insert : PheapObject V → V → PheapObject V
  insert self value = record self {
    heap = meld self.comparator self.heap (node value null null);
    count = self.count + 1;
  }

  -- `none` is None.
  unfoldable pub peek : PheapObject V → Option V
  peek self = elim (self.heap) [ null ↦ none | node v _ _ ↦ some v ]

  unfoldable pub pop : PheapObject V → Popped V
  unfolding delete_min
  pop self = elim (self.heap) [
    | null ↦ index_error
    | node v s n ↦
        popped v
          (record self { heap = delete_min self.comparator (node v s n); count = self.count - 1 })
  ]

  -- `__bool__`
  unfoldable pub is_true : PheapObject V → Bool
  is_true self = elim (self.heap) [ null ↦ false | node _ _ _ ↦ true ]

  -- `__len__`
  unfoldable pub len : PheapObject V → ℕ
  len self = self.count

  -- The arguments of the calls that `visit` makes, in order.
  unfoldable pub visit : PheapObject V → Bool → List V
  visit self after = if after then visit_heap_after self.heap else visit_heap self.heap

  -- The invariant of the object.
  pub record IsValid (self : PheapObject V) : Type ℓ where
    pub consistent : IsConsistent self.comparator
    pub ordered : IsOrdered self.comparator self.heap
    pub root : IsRoot self.comparator self.heap
    pub counted : self.count ≡ length (visit_heap self.heap)

  -- An object whose memory is zero, as it is made, is a valid heap after `__init__` with a consistent
  -- comparator.
  pub init-IsValid :
      (self : PheapObject V) (comp : V → V → Option Bool)
      → self.heap ≡ null
      → self.count ≡ 0
      → IsConsistent comp
      → IsValid (init self comp)
  unfolding init visit_heap
  init-IsValid self comp zeroed none_yet c = record {
    consistent = c;
    ordered = rw zeroed tt;
    root = rw zeroed tt;
    counted = rw (zeroed, none_yet) refl;
  }

  -- `insert` into a valid heap gives a valid heap, which holds the values of before and the new one.
  pub insert_lem :
      (self : PheapObject V) (x : V)
      → IsValid self
      → IsValid (insert self x)
        × Perm (visit_heap (insert self x).heap) (visit_heap self.heap ++ (x ∷ []))
  unfolding insert visit_heap
  insert_lem self x v =
      let (ordered, root) =
        meld-IsOrdered self.comparator v.consistent self.heap (node x null null) v.root tt v.ordered
          (tt, tt, tt) in
      (
        record {
          consistent = v.consistent;
          ordered = ordered;
          root = root;
          counted = omega (
            arith,
            v.counted,
            length-meld self.comparator self.heap (node x null null) v.root tt,
          );
        },
        meld-perm self.comparator self.heap (node x null null) v.root tt,
      )
