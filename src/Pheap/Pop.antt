-- ===== src/Pheap/Pop.antt =====
-- src/modules/module__pheap.c: `pop`, `peek`, `__bool__` and `__len__` of `PHeap`.
use mathlib.Core.List.{Perm}
use mathlib.Core.List.Perm
use kuroko.Prelude.{
  ℕ, suc, ◌-◌, ◌≡◌, refl, length-append, arith, Bool, true, false, Option, none, some, [], ◌∷◌, All,
  append-nil, length,
}
use kuroko.Pheap.{Heap, null, node, merge_pairs, visit_heap}
use kuroko.Pheap.Order.{IsConsistent, AtMost, merge_pairs-IsOrdered, root_first}
use kuroko.Pheap.Contents.{merge_pairs-perm, length-merge_pairs, merge_pairs-All}
use kuroko.Pheap.Object.{PheapObject, Popped, index_error, popped, pop, peek, is_true, len, IsValid}

module _ {ℓ} {V : Type ℓ} where
  -- What `pop` does: it fails on an empty heap only, and otherwise returns a value over which no
  -- value of the heap has priority, and keeps the others.
  pub record Removes (self : PheapObject V) (out : V) (rest : PheapObject V) : Type ℓ where
    pub valid : IsValid rest
    pub same : Perm (out ∷ visit_heap rest.heap) (visit_heap self.heap)
    pub first : All (AtMost self.comparator out) (visit_heap self.heap)
    pub comparator : rest.comparator ≡ self.comparator
    pub fewer : self.count ≡ suc rest.count
    pub keeps :
        (a : V)
        → All (AtMost self.comparator a) (visit_heap self.heap)
        → All (AtMost self.comparator a) (out ∷ visit_heap rest.heap)

  abbrev pub Pops : PheapObject V → Popped V → Type ℓ
  Pops self index_error = visit_heap self.heap ≡ []
  Pops self (popped out rest) = Removes self out rest

  AtMost-refl : (comp : V → V → Option Bool) → IsConsistent comp → (a : V) → AtMost comp a a
  AtMost-refl comp c a = ground (arith, c.asym a a)

  pop_heap :
      (comp : V → V → Option Bool) (h : Heap V) (n : ℕ)
      → let self : PheapObject V = record { comparator = comp; heap = h; count = n } in
        IsValid self → Pops self (pop self)
  unfolding pop visit_heap
  pop_heap comp null n v = refl
  pop_heap comp (node x s (node _ _ _)) n v = absurd v.root
  pop_heap comp (node x s null) n v =
      let (ordered, root) = merge_pairs-IsOrdered comp v.consistent s v.ordered.1 in
      let counted : n - 1 ≡ length (visit_heap (merge_pairs comp s)) =
        omega (arith, v.counted, length-append (visit_heap s) [], length-merge_pairs comp s) in
      record {
        valid = record {
          consistent = v.consistent;
          ordered = ordered;
          root = root;
          counted = counted;
        };
        same = rw append-nil (Perm.cons x (merge_pairs-perm comp s));
        first = (
          AtMost-refl comp v.consistent x,
          rw append-nil (root_first comp v.consistent x s v.ordered),
        );
        comparator = refl;
        fewer = omega (arith, v.counted);
        keeps = λ a h. (h.0, merge_pairs-All comp (AtMost comp a) s (rw append-nil at (h.1)));
      }

  -- `pop` on a valid heap fails exactly when the heap is empty; otherwise it returns a value over
  -- which no value of the heap has priority, and leaves a valid heap of the others.
  pub pop_lem : (self : PheapObject V) → IsValid self → Pops self (pop self)
  pop_lem self v = pop_heap self.comparator self.heap self.count v

  -- `peek` and the length agree with the outcome of `pop`.
  abbrev pub Agrees : PheapObject V → Popped V → Type ℓ
  Agrees self index_error = (peek self ≡ none) × (is_true self ≡ false) × (len self ≡ 0)
  Agrees self (popped out rest) =
      (peek self ≡ some out) × (is_true self ≡ true) × (len self ≡ suc (len rest))

  Agrees-heap :
      (comp : V → V → Option Bool) (h : Heap V) (n : ℕ)
      → let self : PheapObject V = record { comparator = comp; heap = h; count = n } in
        IsValid self → Agrees self (pop self)
  unfolding pop peek is_true len visit_heap
  Agrees-heap comp null n v = (refl, refl, v.counted)
  Agrees-heap comp (node x s t) n v = (refl, refl, omega (arith, v.counted))

  -- On a valid heap that `pop` refuses, `peek` gives None, `__bool__` is false and `__len__` is 0;
  -- otherwise `peek` gives the value that `pop` returns, `__bool__` is true, and `__len__` is one
  -- more than it is after the `pop`.
  pub peek_pop : (self : PheapObject V) → IsValid self → Agrees self (pop self)
  peek_pop self v = Agrees-heap self.comparator self.heap self.count v
