-- ===== src/ListObject/Moves.antt =====
-- src/obj_list.c: what the calls of `memmove` do to the values of a list.
use kuroko.Prelude.{
  ℕ, zero, suc, ◌+◌, ◌-◌, ◌≡◌, refl, ap, List, [], ◌∷◌, ◌++◌, arith, length, set, take, drop,
  length-append,
}
use kuroko.ListObject.{memmove}

module _ {ℓ} {V : Type ℓ} where
  pub take-length : (xs ys : List V) → take (length xs) (xs ++ ys) ≡ xs
  take-length [] ys = refl
  take-length (x ∷ xs) ys = ap (λ t. x ∷ t) (take-length xs ys)

  pub drop-length : (xs ys : List V) → drop (length xs) (xs ++ ys) ≡ ys
  drop-length [] ys = refl
  drop-length (x ∷ xs) ys = drop-length xs ys

  drop_one_more : (xs : List V) (y : V) (ys : List V) → drop (suc (length xs)) (xs ++ (y ∷ ys)) ≡ ys
  drop_one_more [] y ys = refl
  drop_one_more (x ∷ xs) y ys = drop_one_more xs y ys

  memmove_cons :
      (none_val : V) (x : V) (values : List V) (to from n : ℕ)
      → memmove none_val (x ∷ values) (suc to) (suc from) n ≡ x ∷ memmove none_val values to from n
  unfolding memmove
  memmove_cons none_val x values to from n =
      let e : suc to + n ≡ suc (to + n) = omega arith in rw e refl

  at_start :
      (none_val : V) (back : List V) (spare : V) (rest : List V) (x : V)
      → set (memmove none_val (back ++ (spare ∷ rest)) 1 0 (length back)) 0 x ≡ x ∷ (back ++ rest)
  unfolding memmove
  at_start none_val [] spare rest x = refl
  at_start none_val (b ∷ bs) spare rest x =
      let e : 1 + suc (length bs) ≡ suc (suc (length bs)) = omega arith in
      rw (e, take-length bs (spare ∷ rest), drop_one_more bs spare rest) refl

  length-drop : (n : ℕ) (xs : List V) → length (drop n xs) ≡ length xs - n
  length-drop zero xs = omega arith
  length-drop (suc n) [] = omega arith
  length-drop (suc n) (x ∷ xs) = omega (arith, length-drop n xs)

  -- A place opens for a value, and the one behind the last is used up.
  pub open_place :
      (none_val : V) (front back : List V) (spare : V) (rest : List V) (x : V)
      → set
          (memmove none_val
            (front ++ (back ++ (spare ∷ rest)))
            (suc (length front))
            (length front)
            (length back))
          (length front)
          x
        ≡ front ++ (x ∷ (back ++ rest))
  open_place none_val [] back spare rest x = at_start none_val back spare rest x
  open_place none_val (y ∷ front) back spare rest x =
      rw memmove_cons (ap (λ t. y ∷ t) (open_place none_val front back spare rest x))

  -- The values behind a place move down over it.
  pub close_place :
      (none_val : V) (front : List V) (x : V) (back rest : List V)
      → (spare : List V) × (memmove none_val
            (front ++ (x ∷ (back ++ rest)))
            (length front)
            (suc (length front))
            (length back)
          ≡ front ++ (back ++ spare))
        × (length spare ≡ suc (length rest))
  unfolding memmove
  close_place none_val front x back rest =
      let values = front ++ (x ∷ (back ++ rest)) in
      (
        drop (length front + length back) values,
        rw
            (
              take-length front (x ∷ (back ++ rest)),
              drop_one_more front x (back ++ rest),
              take-length back rest,
            )
            refl,
        omega (
          arith,
          length-drop (length front + length back) values,
          length-append front (x ∷ (back ++ rest)),
          length-append back rest,
        ),
      )
