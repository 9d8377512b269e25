-- ===== src/Pheap/Contents.antt =====
-- src/modules/module__pheap.c: the operations keep the values that a heap holds.
use mathlib.Core.List.{Perm, perm_middle, perm_append_comm, perm_append_singleton}
use mathlib.Core.List.Perm
use kuroko.Prelude.{
  Bool, Option, List, [], ◌∷◌, ◌++◌, ◌≡◌, ◌+◌, refl, sym, arith, All, All-append, All-split,
  Bool-cases, inl, inr, append-nil, append_assoc, length, length-append,
}
use kuroko.Pheap.{Heap, null, node, run_comparator, meld, merge_pairs, visit_heap, visit_heap_after}
use kuroko.Pheap.Order.{IsRoot, next_or-null}

module _ {ℓ} {V : Type ℓ} where
  perm_of_eq : {xs ys : List V} → xs ≡ ys → Perm xs ys
  perm_of_eq {xs} e = rw (← e) (Perm.refl xs)

  -- One root under another holds the values of both.
  under :
      (v w : V) (xs ys : List V)
      → Perm ((v ∷ ((w ∷ (ys ++ xs)) ++ []))) ((v ∷ (xs ++ [])) ++ (w ∷ (ys ++ [])))
  under v w xs ys = simp append-nil (
      Perm.cons v
        (Perm.trans (Perm.cons w (perm_append_comm ys xs)) (Perm.symm (perm_middle xs ys))))

  over :
      (v w : V) (xs ys : List V)
      → Perm ((w ∷ ((v ∷ (xs ++ ys)) ++ []))) ((v ∷ (xs ++ [])) ++ (w ∷ (ys ++ [])))
  over v w xs ys = simp append-nil (Perm.symm (perm_middle (v ∷ xs) ys))

module _ {ℓ} {V : Type ℓ} (comp : V → V → Option Bool) where
  -- Melding two roots keeps all their values.
  pub meld-perm :
      (l r : Heap V)
      → IsRoot comp l
      → IsRoot comp r
      → Perm (visit_heap (meld comp l r)) (visit_heap l ++ visit_heap r)
  unfolding meld visit_heap
  meld-perm null r hl hr = Perm.refl _
  meld-perm (node v s n) null hl hr = perm_of_eq (sym (append-nil _))
  meld-perm (node v s (node _ _ _)) (node w t m) hl hr = absurd hl
  meld-perm (node v s null) (node w t (node _ _ _)) hl hr = absurd hr
  meld-perm (node v s null) (node w t null) hl hr = elim (Bool-cases (run_comparator comp v w)) [
    | inl e ↦ rw (e, next_or-null) (under v w _ _)
    | inr e ↦ rw (e, next_or-null) (over v w _ _)
  ]

  meld-IsRoot : (l r : Heap V) → IsRoot comp l → IsRoot comp r → IsRoot comp (meld comp l r)
  unfolding meld
  meld-IsRoot null r hl hr = hr
  meld-IsRoot (node v s n) null hl hr = hl
  meld-IsRoot (node v s (node _ _ _)) (node w t m) hl hr = absurd hl
  meld-IsRoot (node v s null) (node w t (node _ _ _)) hl hr = absurd hr
  meld-IsRoot (node v s null) (node w t null) hl hr = elim (Bool-cases (run_comparator comp v w)) [
    | inl e ↦ rw e tt
    | inr e ↦ rw e tt
  ]

  pub merge_pairs-IsRoot : (h : Heap V) → IsRoot comp (merge_pairs comp h)
  unfolding merge_pairs
  merge_pairs-IsRoot null = tt
  merge_pairs-IsRoot (node v s null) = tt
  merge_pairs-IsRoot (node v s (node w t rest)) =
      meld-IsRoot _ _ (meld-IsRoot (node v s null) (node w t null) tt tt) (merge_pairs-IsRoot rest)

  -- Merging a chain of siblings keeps all its values.
  pub merge_pairs-perm : (h : Heap V) → Perm (visit_heap (merge_pairs comp h)) (visit_heap h)
  unfolding merge_pairs visit_heap
  merge_pairs-perm null = Perm.refl _
  merge_pairs-perm (node v s null) = Perm.refl _
  merge_pairs-perm (node v s (node w t rest)) =
      Perm.trans
        (meld-perm (meld comp (node v s null) (node w t null)) (merge_pairs comp rest)
          (meld-IsRoot (node v s null) (node w t null) tt tt) (merge_pairs-IsRoot rest))
        (Perm.trans
          (Perm.append (meld-perm (node v s null) (node w t null) tt tt) (merge_pairs-perm rest))
          (perm_of_eq (simp (append-nil, append_assoc))))

  -- Both visitors meet the same values.
  pub visit_heap_after-perm : (h : Heap V) → Perm (visit_heap_after h) (visit_heap h)
  unfolding visit_heap visit_heap_after
  visit_heap_after-perm null = Perm.refl _
  visit_heap_after-perm (node v s n) =
      Perm.trans
        (perm_of_eq (sym (append_assoc (visit_heap_after s) (visit_heap_after n) (v ∷ []))))
        (Perm.trans (perm_append_singleton v (visit_heap_after s ++ visit_heap_after n))
          (Perm.cons v (Perm.append (visit_heap_after-perm s) (visit_heap_after-perm n))))

  -- The number of values, which the object counts.
  pub length-meld :
      (l r : Heap V)
      → IsRoot comp l
      → IsRoot comp r
      → length (visit_heap (meld comp l r)) ≡ length (visit_heap l) + length (visit_heap r)
  unfolding meld visit_heap
  length-meld null r hl hr = omega arith
  length-meld (node v s n) null hl hr = omega arith
  length-meld (node v s (node _ _ _)) (node w t m) hl hr = absurd hl
  length-meld (node v s null) (node w t (node _ _ _)) hl hr = absurd hr
  length-meld (node v s null) (node w t null) hl hr = elim (Bool-cases (run_comparator comp v w)) [
    | inl e ↦ rw (e, next_or-null) (simp (append-nil, length-append) (omega arith))
    | inr e ↦ rw (e, next_or-null) (simp (append-nil, length-append) (omega arith))
  ]

  pub length-merge_pairs :
      (h : Heap V) → length (visit_heap (merge_pairs comp h)) ≡ length (visit_heap h)
  unfolding merge_pairs visit_heap
  length-merge_pairs null = refl
  length-merge_pairs (node v s null) = refl
  length-merge_pairs (node v s (node w t rest)) = omega (
    arith,
    length-meld (meld comp (node v s null) (node w t null)) (merge_pairs comp rest)
        (meld-IsRoot (node v s null) (node w t null) tt tt) (merge_pairs-IsRoot rest),
    length-meld (node v s null) (node w t null) tt tt,
    length-merge_pairs rest,
    length-append (visit_heap s) (w ∷ (visit_heap t ++ visit_heap rest)),
    length-append (visit_heap t) (visit_heap rest),
    length-append (visit_heap s) [],
    length-append (visit_heap t) [],
  )

  meld-All :
      (P : V → Type 0) (l r : Heap V)
      → IsRoot comp l
      → IsRoot comp r
      → All P (visit_heap l)
      → All P (visit_heap r)
      → All P (visit_heap (meld comp l r))
  unfolding meld visit_heap
  meld-All P null r hl hr pl pr = pr
  meld-All P (node v s n) null hl hr pl pr = pl
  meld-All P (node v s (node _ _ _)) (node w t m) hl hr pl pr = absurd hl
  meld-All P (node v s null) (node w t (node _ _ _)) hl hr pl pr = absurd hr
  meld-All P (node v s null) (node w t null) hl hr pl pr =
      let ps = rw append-nil at (pl.1) in
      let pt = rw append-nil at (pr.1) in
      elim (Bool-cases (run_comparator comp v w)) [
        | inl e ↦ rw (e, next_or-null, append-nil) (pl.0, (pr.0, All-append P _ _ pt ps))
        | inr e ↦ rw (e, next_or-null, append-nil) (pr.0, (pl.0, All-append P _ _ ps pt))
      ]

  -- A property of all the values of a chain holds of all the values of what it is merged to.
  pub merge_pairs-All :
      (P : V → Type 0) (h : Heap V) → All P (visit_heap h) → All P (visit_heap (merge_pairs comp h))
  unfolding merge_pairs visit_heap
  merge_pairs-All P null p = tt
  merge_pairs-All P (node v s null) p = p
  merge_pairs-All P (node v s (node w t rest)) p =
      let (ps, pw) = All-split P (visit_heap s) _ p.1 in
      let (pt, pr) = All-split P (visit_heap t) _ pw.1 in
      meld-All P (meld comp (node v s null) (node w t null)) (merge_pairs comp rest)
        (meld-IsRoot (node v s null) (node w t null) tt tt) (merge_pairs-IsRoot rest)
        (meld-All P (node v s null) (node w t null) tt tt (p.0, rw append-nil ps)
          (pw.0, rw append-nil pt))
        (merge_pairs-All P rest pr)
