-- ===== src/ListObject/Found.antt =====
-- src/obj_list.c: what `list.remove` and `list.index` find.
use kuroko.Buffer.{Buffer, Holds}
use kuroko.ListObject.{list_pop, remove_at, wrap_index, wrap_soft}
use kuroko.ListObject.Indices.{split_at, InsertsAt, InsertsAt-inside, wrap_soft-InsertsAt}
use kuroko.ListObject.Laws.{removed}
use kuroko.Prelude.{
  ℕ, ◌-◌, ◌<◌, ◌≡◌, refl, ap, sym, ◌∙◌, ◌⊎◌, inl, inr, Bool, true, false, Option, none, some, List,
  [], ◌∷◌, ◌++◌, arith, length, append_assoc, length-append, subst, All,
}
use kuroko.Prelude.Int.{ℤ, pos}
use kuroko.ListObject.Search.{
  Outcome, found, bound_or, search_loop, list_remove, list_index, index_bounds, Differs, Ends,
  search_loop-Ends, search_within,
}

inside : (count i : ℕ) → i < count → wrap_index count (pos i) ≡ some i
unfolding wrap_index
inside count i h = ground arith

module _ {ℓ} {V : Type ℓ} (same_or_equal : V → V → Bool × Bool) (none_val : V) where
  -- The list without its first value that equals `x`.
  pub record Removed (xs : List V) (x value : V) (self : Buffer V) : Type ℓ where
    pub front : List V
    pub back : List V
    pub split : xs ≡ front ++ (value ∷ back)
    pub before : All (Differs same_or_equal none_val x) front
    pub same : (same_or_equal value x).0 ≡ true
    pub holds : Holds self (front ++ back)

  -- A comparison that raises before a value that equals `x`.
  pub record Interrupted (xs : List V) (x : V) : Type ℓ where
    pub front : List V
    pub value : V
    pub back : List V
    pub split : xs ≡ front ++ (value ∷ back)
    pub before : All (Differs same_or_equal none_val x) front
    pub differs : (same_or_equal value x).0 ≡ false
    pub pending : (same_or_equal value x).1 ≡ true

  abbrev pub RemoveResult : Buffer V → List V → V → Option V × Buffer V → Type ℓ
  RemoveResult self xs x out =
      ((value : V) × (next : Buffer V) × (out ≡ (some value, next)) × Removed xs x value next)
      ⊎ ((out ≡ (none, self)) × (All (Differs same_or_equal none_val x) xs ⊎ Interrupted xs x))

  pop_inside :
      (self : Buffer V) (i : ℕ)
      → i < self.count
      → list_pop none_val self (some (pos i))
        ≡ (some (remove_at none_val self i).0, (remove_at none_val self i).1)
  unfolding list_pop
  pop_inside self i h = rw (inside self.count i h, list_pop) refl

  -- `list.remove` gives the first value that equals the argument, and the list without it; it
  -- raises, and leaves the values as they are, where a comparison before it raises, and where all differ.
  pub list_remove_lem :
      (self : Buffer V) (xs : List V) (x : V)
      → Holds self xs
      → RemoveResult self xs x (list_remove same_or_equal none_val self x)
  unfolding list_remove
  list_remove_lem self xs x h =
      let search : Ends same_or_equal none_val xs x 0
          (search_loop same_or_equal none_val self.values x 0 self.count) =
        rw (h.stored, h.counted) (search_loop-Ends same_or_equal none_val [] xs h.rest x 0 refl) in
      elim search [
        | inl (e, all) ↦ inr (rw (e, list_remove) refl, inl all)
        | inr (s, end) ↦ elim end [
          | inl (same, e) ↦
              let at : search_loop same_or_equal none_val self.values x 0 self.count
                  ≡ found (length s.front) =
                e ∙ ap found (omega arith) in
              let here : Holds self (s.front ++ (s.value ∷ s.back)) =
                subst (λ t. Holds self t) s.split h in
              let (value, holds) = removed none_val self s.front s.value s.back here in
              let inside : length s.front < self.count =
                omega (arith, here.counted, length-append s.front (s.value ∷ s.back)) in
              inl (
                s.value,
                (remove_at none_val self (length s.front)).1,
                rw (at, list_remove)
                    (pop_inside self (length s.front) inside
                      ∙ ap (λ y. (some y, (remove_at none_val self (length s.front)).1)) value),
                record {
                  front = s.front;
                  back = s.back;
                  split = s.split;
                  before = s.before;
                  same = same;
                  holds = holds;
                },
              )
          | inr (differs, pending, e) ↦ inr (
            rw (e, list_remove) refl,
            inr (record {
              front = s.front;
              value = s.value;
              back = s.back;
              split = s.split;
              before = s.before;
              differs = differs;
              pending = pending;
            }),
          )
        ]
      ]

  -- Which indices are looked at, and how the search of the values there ends.
  pub record IndexResult (xs : List V) (x : V) (min max : Option ℤ) (out : Outcome) : Type ℓ where
    pub from : ℕ
    pub until : ℕ
    pub from_min : InsertsAt (length xs) (bound_or (pos 0) min) from
    pub until_max : InsertsAt (length xs) (bound_or (pos (length xs)) max) until
    pub before : List V
    pub within : List V
    pub behind : List V
    pub split : xs ≡ before ++ (within ++ behind)
    pub starts : length before ≡ from
    pub counts : length within ≡ until - from
    pub ends : Ends same_or_equal none_val within x from out

  -- `list.index` looks at the indices from `min`, up to but without `max`, each from the end where
  -- negative and moved to the nearer end where out of range; it gives the first index of a value
  -- that equals the argument; it raises where a comparison before it raises, and where all differ.
  pub list_index_lem :
      (self : Buffer V) (xs : List V) (x : V) (min max : Option ℤ)
      → Holds self xs
      → IndexResult xs x min max (list_index same_or_equal none_val self x min max)
  unfolding list_index index_bounds
  list_index_lem self xs x min max h =
      let answered : list_index same_or_equal none_val self x min max
          ≡ search_loop same_or_equal none_val self.values x (index_bounds (length xs) min max).0
              ((index_bounds (length xs) min max).1 - (index_bounds (length xs) min max).0) =
        ap
          (λ c.
            search_loop same_or_equal none_val self.values x (index_bounds c min max).0
              ((index_bounds c min max).1 - (index_bounds c min max).0))
          h.counted in
      let low = bound_or (pos 0) min in
      let high = bound_or (pos (length xs)) max in
      let lo = wrap_soft (length xs) low in
      let hi = wrap_soft (length xs) high in
      let from = wrap_soft-InsertsAt (length xs) low in
      let until = wrap_soft-InsertsAt (length xs) high in
      let end = InsertsAt-inside (length xs) high hi until in
      let (before, others, split, starts) =
        split_at lo xs (InsertsAt-inside (length xs) low lo from) in
      let (within, behind, again, counts) =
        split_at (hi - lo) others (omega (arith, ap length split, length-append before others)) in
      let whole : xs ≡ before ++ (within ++ behind) = split ∙ ap (λ t. before ++ t) again in
      let values : self.values ≡ before ++ (within ++ (behind ++ h.rest)) =
        h.stored
        ∙ ap (λ t. t ++ h.rest) whole
        ∙ append_assoc before (within ++ behind) h.rest
        ∙ ap (λ t. before ++ t) (append_assoc within behind h.rest) in
      record {
        from = lo;
        until = hi;
        from_min = from;
        until_max = until;
        before = before;
        within = within;
        behind = behind;
        split = whole;
        starts = starts;
        counts = counts;
        ends =
            subst (λ out. Ends same_or_equal none_val within x lo out) (sym answered)
              (search_within same_or_equal none_val self.values before within (behind ++ h.rest) x
                lo (hi - lo) values (sym starts) (sym counts));
      }
