-- ===== src/ListObject/Items.antt =====
-- src/obj_list.c: reading and replacing the value at an index.
use kuroko.Buffer.{Buffer, Holds, get_or-length}
use kuroko.ListObject.{wrap_index, get_item, set_item}
use kuroko.ListObject.Indices.{Indexes, wrap_index-Indexes, Indexes-inside, split_value}
use kuroko.Prelude.{
  ℕ, ◌≡◌, refl, ap, sym, ◌∙◌, ◌⊎◌, inl, inr, Option, none, some, List, [], ◌∷◌, ◌++◌, arith, length,
  get_or, set, append_assoc, length-append, subst,
}
use kuroko.Prelude.Int.{ℤ}

module _ {ℓ} {V : Type ℓ} (none_val : V) where
  -- The value at the place, and the list with another in its place.
  pub record Replaced (self : Buffer V) (xs : List V) (z : ℤ) (x : V)
      (item out : Option V × Buffer V) : Type ℓ where
    pub front : List V
    pub old : V
    pub back : List V
    pub split : xs ≡ front ++ (old ∷ back)
    pub place : Indexes (length xs) z (some (length front))
    pub read : item ≡ (some old, self)
    pub next : Buffer V
    pub written : out ≡ (some x, next)
    pub holds : Holds next (front ++ (x ∷ back))

  abbrev pub ItemResult :
      Buffer V → List V → ℤ → V → Option V × Buffer V → Option V × Buffer V → Type ℓ
  ItemResult self xs z x item out =
      ((item ≡ (none, self)) × (out ≡ (none, self)) × Indexes (length xs) z none)
      ⊎ Replaced self xs z x item out

  set-length :
      (front : List V) (y x : V) (back : List V)
      → set (front ++ (y ∷ back)) (length front) x ≡ front ++ (x ∷ back)
  set-length [] y x back = refl
  set-length (z ∷ front) y x back = ap (λ t. z ∷ t) (set-length front y x back)

  replaced :
      (self : Buffer V) (front : List V) (y : V) (back : List V) (x : V)
      → Holds self (front ++ (y ∷ back))
      → (get_or self.values (length front) none_val ≡ y)
        × Holds (record self { values = set self.values (length front) x }) (front ++ (x ∷ back))
  replaced self front y back x h =
      let values : self.values ≡ front ++ (y ∷ (back ++ h.rest)) =
        h.stored ∙ append_assoc front (y ∷ back) h.rest in
      let old = length-append front (y ∷ (back ++ h.rest)) in
      let new = length-append front (x ∷ (back ++ h.rest)) in
      let same : length (front ++ (y ∷ (back ++ h.rest)))
          ≡ length (front ++ (x ∷ (back ++ h.rest))) =
        omega arith in
      (
        rw values (get_or-length front y (back ++ h.rest) none_val),
        record {
          rest = h.rest;
          stored =
              rw (values, set-length front y x (back ++ h.rest))
                (sym (append_assoc front (x ∷ back) h.rest));
          counted =
              omega
                (arith, h.counted, length-append front (y ∷ back), length-append front (x ∷ back));
          sized =
              rw (values, set-length front y x (back ++ h.rest))
                (h.sized ∙ ap length values ∙ same);
        },
      )

  -- `list.__getitem__` and `list.__setitem__` of an index out of range raise, and leave the values as they
  -- are; else the one gives the value at the place that the index names, and the other puts the new
  -- value in its place.
  pub item_lem :
      (self : Buffer V) (xs : List V) (z : ℤ) (x : V)
      → Holds self xs
      → ItemResult self xs z x (get_item none_val self z) (set_item none_val self z x)
  unfolding get_item set_item
  item_lem self xs z x h = by_place (wrap_index self.count z) (
      subst (λ c. Indexes c z (wrap_index self.count z)) h.counted
        (wrap_index-Indexes self.count z))
    where
      by_place :
          (place : Option ℕ)
          → Indexes (length xs) z place
          → ItemResult self xs z x
              (elim place [
                | none ↦ (none, self)
                | some i ↦ (some (get_or self.values i none_val), self)
              ])
              (elim place [
                | none ↦ (none, self)
                | some i ↦ (some x, record self { values = set self.values i x })
              ])
      by_place none at = inl (refl, refl, at)
      by_place (some i) at =
          let (front, y, back, split, long) =
            split_value i xs (Indexes-inside (length xs) z i at) in
          let (read, holds) =
            subst
              (λ n.
                (get_or self.values n none_val ≡ y)
                × Holds (record self { values = set self.values n x }) (front ++ (x ∷ back)))
              long (replaced self front y back x (subst (λ t. Holds self t) split h)) in
          inr (record {
            front = front;
            old = y;
            back = back;
            split = split;
            place = subst (λ n. Indexes (length xs) z (some n)) (sym long) at;
            read = ap (λ y. (some y, self)) read;
            next = record self { values = set self.values i x };
            written = refl;
            holds = holds;
          })
