-- ===== src/Pheap/Order.antt =====
-- src/modules/module__pheap.c: heap order, and that the operations keep it.
use kuroko.Prelude.{All-append, Bool, true, false, Option, ◌≡◌, refl, All, Bool-cases, inl, inr}
use kuroko.Pheap.{next_or, Heap, null, node, run_comparator, meld, merge_pairs, visit_heap}

-- What the comparator must satisfy: it is a strict weak order. `b` does not come before `a` is
-- read as `a` is at most `b`.
pub record IsConsistent {ℓ} {V : Type ℓ} (comp : V → V → Option Bool) : Type ℓ where
  pub asym : (a b : V) → run_comparator comp a b ≡ true → run_comparator comp b a ≡ false
  pub at_most_trans :
      (a b c : V)
      → run_comparator comp b a ≡ false
      → run_comparator comp c b ≡ false
      → run_comparator comp c a ≡ false

pub next_or-null {ℓ} : {V : Type ℓ} (s : Heap V) → next_or s null ≡ s
next_or-null null = refl
next_or-null (node v s n) = refl

module _ {ℓ} {V : Type ℓ} (comp : V → V → Option Bool) where
  -- `b` does not have priority over `a`.
  abbrev pub AtMost : V → V → Type 0
  AtMost a b = run_comparator comp b a ≡ false

  -- The values of a chain of siblings.
  abbrev pub Siblings {κ} : (V → Type κ) → Heap V → Type κ
  Siblings P null = Unit
  Siblings P (node v s n) = P v × Siblings P n

  -- No child has priority over its parent.
  abbrev pub IsOrdered : Heap V → Type 0
  IsOrdered null = Unit
  IsOrdered (node v s n) = Siblings (AtMost v) s × IsOrdered s × IsOrdered n

  -- A root has no siblings.
  abbrev pub IsRoot : Heap V → Type 0
  IsRoot (node v s (node w t n)) = ⊥
  IsRoot _ = Unit

  -- Melding two roots in heap order gives one root in heap order.
  pub meld-IsOrdered :
      IsConsistent comp
      → (l r : Heap V) → IsRoot l
      → IsRoot r
      → IsOrdered l
      → IsOrdered r
      → IsOrdered (meld comp l r) × IsRoot (meld comp l r)
  unfolding meld
  meld-IsOrdered c null r hl hr ol or = (or, hr)
  meld-IsOrdered c (node v s n) null hl hr ol or = (ol, hl)
  meld-IsOrdered c (node v s (node _ _ _)) (node w t m) hl hr ol or = absurd hl
  meld-IsOrdered c (node v s null) (node w t (node _ _ _)) hl hr ol or = absurd hr
  meld-IsOrdered c (node v s null) (node w t null) hl hr ol or =
      elim (Bool-cases (run_comparator comp v w)) [
        | inl e ↦ rw (e, next_or-null) (((c.asym v w e, ol.0), (or.0, or.1, ol.1), tt), tt)
        | inr e ↦ rw (e, next_or-null) (((e, or.0), (ol.0, ol.1, or.1), tt), tt)
      ]

  pub merge_pairs-IsOrdered :
      IsConsistent comp
      → (h : Heap V) → IsOrdered h
      → IsOrdered (merge_pairs comp h) × IsRoot (merge_pairs comp h)
  unfolding merge_pairs
  merge_pairs-IsOrdered c null o = (tt, tt)
  merge_pairs-IsOrdered c (node v s null) o = (o, tt)
  merge_pairs-IsOrdered c (node v s (node w t rest)) o =
      let first =
        meld-IsOrdered c (node v s null) (node w t null) tt tt (o.0, o.1, tt) (o.2.0, o.2.1, tt) in
      let others = merge_pairs-IsOrdered c rest o.2.2 in
      meld-IsOrdered c _ _ first.1 others.1 first.0 others.0

  -- What stands below a chain of siblings that a value may precede, that value may precede.
  Siblings-below :
      IsConsistent comp
      → (a : V) (h : Heap V) → Siblings (AtMost a) h
      → IsOrdered h
      → All (AtMost a) (visit_heap h)
  unfolding visit_heap
  Siblings-below c a null b o = tt
  Siblings-below c a (node v s n) b o = (
    b.0,
    All-append _ _ _ (Siblings-below c a s (children v s b.0 o.0) o.1)
        (Siblings-below c a n b.1 o.2),
  )
    where
      children : (v : V) (h : Heap V) → AtMost a v → Siblings (AtMost v) h → Siblings (AtMost a) h
      children v null l b = tt
      children v (node w t m) l b = (c.at_most_trans a v w l b.0, children v m l b.1)

  -- The root of a heap in order comes first: no value has priority over it.
  pub root_first :
      IsConsistent comp
      → (v : V) (s : Heap V) → IsOrdered (node v s null)
      → All (AtMost v) (visit_heap s)
  root_first c v s o = Siblings-below c v s o.0 o.1
