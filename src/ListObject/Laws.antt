-- ===== src/ListObject/Laws.antt =====
-- src/obj_list.c: insertion and removal at an index, on the values of the list.
use kuroko.ListObject.Indices.{Indexes, InsertsAt, wrap_soft-InsertsAt, InsertsAt-inside, split_at}
use kuroko.Buffer.{Buffer, Holds, push_lem, push, get_or-length}
use kuroko.ListObject.{wrap_soft, list_insert, remove_at}
use kuroko.ListObject.Moves.{open_place, close_place}
use kuroko.Prelude.{
  suc, ◌+◌, ◌-◌, ◌^◌, ◌<◌, ◌≡◌, refl, ap, sym, ◌∙◌, ◌⊎◌, Option, none, some, List, [], ◌∷◌, ◌++◌,
  arith, ◌==◌, length, append_assoc, append-nil, length-append, subst, if-both,
}
use kuroko.Prelude.Int.{ℤ}

module _ {ℓ} {V : Type ℓ} where
  -- The list with the value at the place that the index names.
  pub record Inserted (self : Buffer V) (xs : List V) (z : ℤ) (x : V) : Type ℓ where
    pub front : List V
    pub back : List V
    pub split : xs ≡ front ++ back
    pub place : InsertsAt (length xs) z (length front)
    pub holds : Holds self (front ++ (x ∷ back))

  -- The value at the place that the index names, and the list without it.
  pub record Popped (xs : List V) (z : ℤ) (x : V) (self : Buffer V) : Type ℓ where
    pub front : List V
    pub back : List V
    pub split : xs ≡ front ++ (x ∷ back)
    pub place : Indexes (length xs) z (some (length front))
    pub holds : Holds self (front ++ back)

  abbrev pub PopResult : Buffer V → List V → ℤ → Option V × Buffer V → Type ℓ
  PopResult self xs z out =
      ((out ≡ (none, self)) × Indexes (length xs) z none)
      ⊎ ((x : V) × (next : Buffer V) × (out ≡ (some x, next)) × Popped xs z x next)

module _ {ℓ} {V : Type ℓ} (none_val : V) where
  inserted :
      (self : Buffer V) (front back : List V) (x : V) (z : ℤ)
      → length (front ++ back) < 2 ^ 30
      → Holds self (front ++ back)
      → wrap_soft self.count z ≡ length front
      → Holds (list_insert none_val self z x) (front ++ (x ∷ back))
  unfolding list_insert
  inserted self front back x z few h at =
      let grown = push_lem none_val self (front ++ back) none_val few h in
      let values : (push none_val self none_val).values
          ≡ front ++ (back ++ (none_val ∷ grown.rest)) =
        grown.stored
        ∙ append_assoc (front ++ back) (none_val ∷ []) grown.rest
        ∙ append_assoc front back (none_val ∷ grown.rest) in
      let size : length (front ++ back) ≡ length front + length back = length-append front back in
      let one : length front + 1 ≡ suc (length front) = omega arith in
      let behind : (push none_val self none_val).count - length front - 1 ≡ length back =
        omega (arith, grown.counted, length-append (front ++ back) (none_val ∷ [])) in
      let same_length : length (front ++ (back ++ (none_val ∷ grown.rest)))
          ≡ length (front ++ (x ∷ (back ++ grown.rest))) =
        omega (
          arith,
          length-append front (back ++ (none_val ∷ grown.rest)),
          length-append back (none_val ∷ grown.rest),
          length-append front (x ∷ (back ++ grown.rest)),
          length-append back grown.rest,
        ) in
      let stored = open_place none_val front back none_val grown.rest x in
      record {
        rest = grown.rest;
        stored =
            rw (at, values, behind, one, stored) (sym (append_assoc front (x ∷ back) grown.rest));
        counted = omega (
          arith,
          grown.counted,
          length-append (front ++ back) (none_val ∷ []),
          length-append front (x ∷ back),
        );
        sized = rw (at, values, behind, one, stored) (grown.sized ∙ ap length values ∙ same_length);
      }

  -- `list.insert` into a list of fewer than 2 ^ 30 values puts the value in front of the place that
  -- the index names.
  pub list_insert_lem :
      (self : Buffer V) (xs : List V) (z : ℤ) (x : V)
      → length xs < 2 ^ 30
      → Holds self xs
      → Inserted (list_insert none_val self z x) xs z x
  list_insert_lem self xs z x few h =
      let at = wrap_soft-InsertsAt (length xs) z in
      let (front, back, split, long) =
        split_at (wrap_soft (length xs) z) xs (InsertsAt-inside (length xs) z _ at) in
      record {
        front = front;
        back = back;
        split = split;
        place = rw long at;
        holds =
            inserted self front back x z (omega (arith, ap length split))
              (subst (λ t. Holds self t) split h) (ap (λ n. wrap_soft n z) h.counted ∙ sym long);
      }

  last_removed :
      (self : Buffer V) (front : List V) (x : V) (back : List V)
      → Holds self (front ++ (x ∷ back))
      → length front ≡ self.count - 1
      → Holds (record self { count = self.count - 1 }) (front ++ back)
  last_removed self front x [] h e = record {
    rest = x ∷ h.rest;
    stored = h.stored ∙ append_assoc front (x ∷ []) h.rest ∙ rw append-nil refl;
    counted = omega (arith, length-append front [], e);
    sized = h.sized;
  }
  last_removed self front x (y ∷ back) h e =
      absurd (omega (arith, h.counted, length-append front (x ∷ y ∷ back)))

  pub removed :
      (self : Buffer V) (front : List V) (x : V) (back : List V)
      → Holds self (front ++ (x ∷ back))
      → ((remove_at none_val self (length front)).0 ≡ x)
        × Holds (remove_at none_val self (length front)).1 (front ++ back)
  unfolding remove_at
  removed self front x back h =
      let values : self.values ≡ front ++ (x ∷ (back ++ h.rest)) =
        h.stored ∙ append_assoc front (x ∷ back) h.rest in
      let size = length-append front (x ∷ back) in
      let behind : self.count - length front - 1 ≡ length back = omega (arith, h.counted) in
      let one : length front + 1 ≡ suc (length front) = omega arith in
      let (spare, moved, long) = close_place none_val front x back h.rest in
      let whole = length-append front (x ∷ (back ++ h.rest)) in
      let left = length-append back h.rest in
      let kept = length-append front (back ++ spare) in
      let more = length-append back spare in
      let total : length (front ++ (x ∷ (back ++ h.rest))) ≡ length (front ++ (back ++ spare)) =
        omega arith in
      (
        rw values (get_or-length front x (back ++ h.rest) none_val),
        if-both (λ t. Holds t (front ++ back)) (length front == self.count - 1)
            (λ e. last_removed self front x back h (ground arith))
            (λ _. record {
              rest = spare;
              stored = rw (values, behind, one, moved) (sym (append_assoc front back spare));
              counted = omega (arith, h.counted, length-append front back);
              sized = rw (values, behind, one, moved) (h.sized ∙ ap length values ∙ total);
            }),
      )
