-- ===== src/ListObject/Search.antt =====
-- src/obj_list.c: the search for a value, in `list.remove` and `list.index`.
use kuroko.Buffer.{Buffer, get_or-length}
use kuroko.ListObject.{list_pop, wrap_soft}
use kuroko.Prelude.{
  ℕ, zero, suc, ◌+◌, ◌-◌, ◌≡◌, refl, ap, ◌∙◌, ◌⊎◌, inl, inr, Bool, true, false, Bool-cases, Option,
  none, some, List, [], ◌∷◌, ◌++◌, arith, if◌then◌else◌, length, get_or, append_assoc,
  length-append, subst, All,
}
use kuroko.Prelude.Int.{ℤ, pos}

-- How a search ends: at an index, with an exception of a comparison, or without the value.
pub data Outcome : Type 0 where
  found : ℕ → Outcome
  raised : Outcome
  not_found : Outcome

-- A bound of `list.index`, or its default.
abbrev pub bound_or : ℤ → Option ℤ → ℤ
bound_or default none = default
bound_or default (some z) = z

-- The least and the first index behind the last that `list.index` looks at.
unfoldable pub index_bounds : ℕ → Option ℤ → Option ℤ → ℕ × ℕ
unfolding wrap_soft
index_bounds count min max =
    (wrap_soft count (bound_or (pos 0) min), wrap_soft count (bound_or (pos count) max))

-- `same_or_equal` is the comparison: its answer, and whether an exception is pending behind it.
module _ {ℓ} {V : Type ℓ} (same_or_equal : V → V → Bool × Bool) (none_val : V) where
  -- The last argument counts the indices left.
  unfoldable pub search_loop : List V → V → ℕ → ℕ → Outcome
  search_loop values x i zero = not_found
  search_loop values x i (suc left) =
      let rest = search_loop values x (i + 1) left in
      let answer = same_or_equal (get_or values i none_val) x in
      if answer.0 then found i else if answer.1 then raised else rest

  -- None where an exception is raised; the list comes with the result.
  unfoldable pub list_remove : Buffer V → V → Option V × Buffer V
  unfolding search_loop list_pop
  list_remove self x = elim (search_loop self.values x 0 self.count) [
    | found i ↦ list_pop none_val self (some (pos i))
    | raised ↦ (none, self)
    | not_found ↦ (none, self)
  ]

  unfoldable pub list_index : Buffer V → V → Option ℤ → Option ℤ → Outcome
  unfolding search_loop index_bounds
  list_index self x min max =
      let bounds = index_bounds self.count min max in
      search_loop self.values x bounds.0 (bounds.1 - bounds.0)

  abbrev pub Differs : V → V → Type 0
  Differs x y = ((same_or_equal y x).0 ≡ false) × ((same_or_equal y x).1 ≡ false)

  -- The first value that does not just differ.
  pub record Stops (xs : List V) (x : V) : Type ℓ where
    pub front : List V
    pub value : V
    pub back : List V
    pub split : xs ≡ front ++ (value ∷ back)
    pub before : All (Differs x) front

  abbrev pub Ends : List V → V → ℕ → Outcome → Type ℓ
  Ends xs x i out =
      ((out ≡ not_found) × All (Differs x) xs)
      ⊎ ((s : Stops xs x) × ((((same_or_equal s.value x).0 ≡ true)
              × (out ≡ found (i + length s.front)))
            ⊎ (((same_or_equal s.value x).0 ≡ false)
                × ((same_or_equal s.value x).1 ≡ true)
                × (out ≡ raised))))

  later :
      (y : V) (ys : List V) (x : V) (i : ℕ) (out : Outcome)
      → Differs x y
      → Ends ys x (i + 1) out
      → Ends (y ∷ ys) x i out
  later y ys x i out d (inl (e, all)) = inl (e, (d, all))
  later y ys x i out d (inr (s, end)) = inr (
    record {
      front = y ∷ s.front;
      value = s.value;
      back = s.back;
      split = ap (λ t. y ∷ t) s.split;
      before = (d, s.before);
    },
    elim end [ inl h ↦ inl (h.0, h.1 ∙ ap found (omega arith)) | inr h ↦ inr h ],
  )

  pub search_loop-Ends :
      (before xs rest : List V) (x : V) (i : ℕ)
      → i ≡ length before
      → Ends xs x i (search_loop (before ++ (xs ++ rest)) x i (length xs))
  unfolding search_loop
  search_loop-Ends before [] rest x i at = inl (refl, tt)
  search_loop-Ends before (y ∷ ys) rest x i at =
      let ih =
        search_loop-Ends (before ++ (y ∷ [])) ys rest x (i + 1)
          (omega (arith, length-append before (y ∷ []))) in
      let read : get_or (before ++ (y ∷ (ys ++ rest))) i none_val ≡ y =
        rw at (get_or-length before y (ys ++ rest) none_val) in
      let stop : Stops (y ∷ ys) x = record {
        front = [];
        value = y;
        back = ys;
        split = refl;
        before = tt;
      } in
      elim (Bool-cases (same_or_equal y x).0) [
        | inl e ↦ inr (stop, inl (e, rw (read, e) (ap found (omega arith))))
        | inr e ↦ elim (Bool-cases (same_or_equal y x).1) [
          | inl r ↦ inr (stop, inr (e, r, rw (read, e, r) refl))
          | inr r ↦
              later y ys x i _ (e, r)
                (rw (read, e, r)
                  (subst (λ t. Ends ys x (i + 1) (search_loop t x (i + 1) (length ys)))
                    (append_assoc before (y ∷ []) (ys ++ rest)) ih))
        ]
      ]

  pub search_within :
      (values before within rest : List V) (x : V) (i n : ℕ)
      → values ≡ before ++ (within ++ rest)
      → i ≡ length before
      → n ≡ length within
      → Ends within x i (search_loop values x i n)
  search_within values before within rest x i n e at many =
      rw (e, many) (search_loop-Ends before within rest x i at)
