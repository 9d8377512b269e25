-- ===== src/Pheap/Drain.antt =====
-- src/modules/module__pheap.c: popping a whole `PHeap`.
use mathlib.Core.List.{Perm}
use mathlib.Core.List.Perm
use kuroko.Prelude.{
  ℕ, zero, suc, ◌≡◌, refl, sym, subst, arith, Bool, Option, List, [], ◌∷◌, All, length,
}
use kuroko.Pheap.{visit_heap}
use kuroko.Pheap.Order.{AtMost}
use kuroko.Pheap.Object.{PheapObject, Popped, index_error, popped, pop, len, IsValid}
use kuroko.Pheap.Pop.{Pops, pop_lem}

module _ {ℓ} {V : Type ℓ} where
  -- Popping `n` times.
  unfoldable pub drain : ℕ → PheapObject V → List V
  drain zero self = []
  drain (suc n) self = elim (pop self) [ index_error ↦ [] | popped out rest ↦ out ∷ drain n rest ]

  abbrev pub IsSorted : (V → V → Option Bool) → List V → Type 0
  IsSorted comp [] = Unit
  IsSorted comp (x ∷ xs) = All (AtMost comp x) xs × IsSorted comp xs

  drain-All :
      (a : V) (n : ℕ) (self : PheapObject V)
      → IsValid self
      → All (AtMost self.comparator a) (visit_heap self.heap)
      → All (AtMost self.comparator a) (drain n self)
  unfolding drain
  drain-All a zero self v h = tt
  drain-All a (suc n) self v h = step (λ rest. drain-All a n rest) (pop self) (pop_lem self v)
    where
      step :
          ((rest : PheapObject V)
            → IsValid rest
            → All (AtMost rest.comparator a) (visit_heap rest.heap)
            → All (AtMost rest.comparator a) (drain n rest))
          → (r : Popped V) → Pops self r
          → All
              (AtMost self.comparator a)
              (elim r [ index_error ↦ [] | popped out rest ↦ out ∷ drain n rest ])
      step rec index_error p = tt
      step rec (popped out rest) p =
          let (first, others) = p.keeps a h in
          (
            first,
            subst (λ c. All (AtMost c a) (drain n rest)) p.comparator
                (rec rest p.valid
                  (subst (λ c. All (AtMost c a) (visit_heap rest.heap)) (sym p.comparator) others)),
          )

  drain-IsSorted :
      (n : ℕ) (self : PheapObject V) → IsValid self → IsSorted self.comparator (drain n self)
  unfolding drain
  drain-IsSorted zero self v = tt
  drain-IsSorted (suc n) self v = step (λ rest. drain-IsSorted n rest) (pop self) (pop_lem self v)
    where
      step :
          ((rest : PheapObject V) → IsValid rest → IsSorted rest.comparator (drain n rest))
          → (r : Popped V) → Pops self r
          → IsSorted self.comparator
              (elim r [ index_error ↦ [] | popped out rest ↦ out ∷ drain n rest ])
      step rec index_error p = tt
      step rec (popped out rest) p =
          let (_, others) = p.keeps out p.first in
          let below =
            drain-All out n rest p.valid
              (subst (λ c. All (AtMost c out) (visit_heap rest.heap)) (sym p.comparator) others) in
          (
            subst (λ c. All (AtMost c out) (drain n rest)) p.comparator below,
            subst (λ c. IsSorted c (drain n rest)) p.comparator (rec rest p.valid),
          )

  drain-perm :
      (n : ℕ) (self : PheapObject V)
      → IsValid self
      → self.count ≡ n
      → Perm (drain n self) (visit_heap self.heap)
  unfolding drain
  drain-perm zero self v e = step (visit_heap self.heap) (omega (arith, v.counted))
    where
      step : (xs : List V) → length xs ≡ 0 → Perm [] xs
      step [] e = Perm.refl []
      step (x ∷ xs) e = absurd (omega arith)
  drain-perm (suc n) self v e = step (λ rest. drain-perm n rest) (pop self) (pop_lem self v)
    where
      step :
          ((rest : PheapObject V)
            → IsValid rest
            → rest.count ≡ n
            → Perm (drain n rest) (visit_heap rest.heap))
          → (r : Popped V) → Pops self r
          → Perm
              (elim r [ index_error ↦ [] | popped out rest ↦ out ∷ drain n rest ])
              (visit_heap self.heap)
      step rec index_error p = rw p (Perm.refl [])
      step rec (popped out rest) p =
          Perm.trans (Perm.cons out (rec rest p.valid (omega (arith, p.fewer)))) p.same

  -- Popping as many values as `__len__` says gives all the values of a valid heap, in an order in
  -- which no value has priority over an earlier one.
  pub drain_sorts :
      (self : PheapObject V)
      → IsValid self
      → IsSorted self.comparator (drain (len self) self)
        × Perm (drain (len self) self) (visit_heap self.heap)
  unfolding len
  drain_sorts self v = (drain-IsSorted self.count self v, drain-perm self.count self v refl)
