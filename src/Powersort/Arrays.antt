-- ===== src/Powersort/Arrays.antt =====
-- src/obj_list.c: reads, writes and copies at an offset of an array, and the order of its values.
use kuroko.Prelude.{
  ℕ, ◌+◌, ◌<◌, ◌≤◌, ◌≡◌, refl, sym, ap, ◌∙◌, Bool, true, false, List, [], ◌∷◌, ◌++◌, arith, length,
  get_or, set, All, All-append, All-split, append-nil, append_assoc, length-append,
}
use kuroko.Buffer.{get_or-length}
use kuroko.Powersort.{copy_slice}

-- `less` is a strict weak order.
pub record IsStrict {ℓ} {A : Type ℓ} (less : A → A → Bool) : Type ℓ where
  pub asym : (a b : A) → less a b ≡ true → less b a ≡ false
  pub at_most_trans : (a b c : A) → less b a ≡ false → less c b ≡ false → less c a ≡ false

-- No value is less than one in front of it.
abbrev pub IsSorted {ℓ} : {A : Type ℓ} → (A → A → Bool) → List A → Type ℓ
IsSorted less [] = Unit
IsSorted less (x ∷ xs) = All (λ y. less y x ≡ false) xs × IsSorted less xs

module _ {ℓ} {A : Type ℓ} where
  pub read_at :
      (i : ℕ) (xs : List A) (x : A) (ys : List A) (d : A)
      → i ≡ length xs
      → get_or (xs ++ (x ∷ ys)) i d ≡ x
  read_at i xs x ys d e = rw e (get_or-length xs x ys d)

  pub write_at :
      (i : ℕ) (xs : List A) (x y : A) (ys : List A)
      → i ≡ length xs
      → set (xs ++ (x ∷ ys)) i y ≡ xs ++ (y ∷ ys)
  write_at i xs x y ys e = rw e (at_length xs)
    where
      at_length : (xs : List A) → set (xs ++ (x ∷ ys)) (length xs) y ≡ xs ++ (y ∷ ys)
      at_length [] = refl
      at_length (z ∷ xs) = ap (λ t. z ∷ t) (at_length xs)

  pub length-snoc : (xs : List A) (x : A) → length (xs ++ (x ∷ [])) ≡ length xs + 1
  length-snoc xs x = length-append xs (x ∷ [])

  pub snoc_append : (xs : List A) (x : A) (ys : List A) → (xs ++ (x ∷ [])) ++ ys ≡ xs ++ (x ∷ ys)
  snoc_append xs x ys = append_assoc xs (x ∷ []) ys

  -- The copy stands in the buffer.
  pub copy_slice_lem :
      (fill : A) (run before behind done gap : List A) (start at : ℕ)
      → start ≡ length before
      → at ≡ length done
      → length run ≤ length gap
      → (rest : List A) × (copy_slice fill
            (length run)
            (before ++ (run ++ behind))
            start
            (done ++ gap)
            at
          ≡ done ++ (run ++ rest))
        × (length run + length rest ≡ length gap)
  unfolding copy_slice
  copy_slice_lem fill [] before behind done gap start at e f h = (gap, refl, omega arith)
  copy_slice_lem fill (x ∷ run) before behind done [] start at e f h = absurd (omega arith)
  copy_slice_lem fill (x ∷ run) before behind done (g ∷ gap) start at e f h =
      let (rest, copied, long) =
        copy_slice_lem fill run (before ++ (x ∷ [])) behind (done ++ (x ∷ [])) gap (start + 1)
          (at + 1) (omega (arith, length-snoc before x)) (omega (arith, length-snoc done x))
          (omega arith) in
      (
        rest,
        rw (read_at start before x (run ++ behind) fill e, write_at at done g x gap f, copy_slice)
            (rw
              (
                snoc_append before x (run ++ behind),
                snoc_append done x gap,
                snoc_append done x (run ++ rest),
              )
              at copied),
        omega arith,
      )

  pub All-weaken {κ} :
      (P Q : A → Type κ) (xs : List A) → ((x : A) → P x → Q x) → All P xs → All Q xs
  All-weaken P Q [] f a = tt
  All-weaken P Q (x ∷ xs) f a = (f x a.0, All-weaken P Q xs f a.1)

  -- What is not less than a value is not less than what that value is not less than.
  pub below_trans :
      {less : A → A → Bool}
      → IsStrict less
      → (x y : A) (ys : List A) → less y x ≡ false
      → All (λ z. less z y ≡ false) ys
      → All (λ z. less z x ≡ false) ys
  below_trans {less} o x y ys e a = All-weaken _ _ ys (λ z h. o.at_most_trans x y z e h) a

  -- Behind two parts.
  pub read_behind :
      (i : ℕ) (xs ys : List A) (y : A) (zs : List A) (d : A)
      → i ≡ length xs + length ys
      → get_or (xs ++ (ys ++ (y ∷ zs))) i d ≡ y
  read_behind i xs ys y zs d e =
      rw (← append_assoc xs ys (y ∷ zs))
        (read_at i (xs ++ ys) y zs d (omega (arith, length-append xs ys)))

  pub write_behind :
      (i : ℕ) (xs ys : List A) (x y : A) (zs : List A)
      → i ≡ length xs + length ys
      → set (xs ++ (ys ++ (x ∷ zs))) i y ≡ xs ++ (ys ++ (y ∷ zs))
  write_behind i xs ys x y zs e =
      rw (← append_assoc xs ys (x ∷ zs), ← append_assoc xs ys (y ∷ zs))
        (write_at i (xs ++ ys) x y zs (omega (arith, length-append xs ys)))

  pub write_third :
      (i : ℕ) (ws xs ys : List A) (x y : A) (zs : List A)
      → i ≡ length ws + length xs + length ys
      → set (ws ++ (xs ++ (ys ++ (x ∷ zs)))) i y ≡ ws ++ (xs ++ (ys ++ (y ∷ zs)))
  write_third i ws xs ys x y zs e =
      rw (← append_assoc ws xs (ys ++ (x ∷ zs)), ← append_assoc ws xs (ys ++ (y ∷ zs)))
        (write_behind i (ws ++ xs) ys x y zs (omega (arith, length-append ws xs)))

  -- A list that is not empty ends somewhere.
  pub split_last :
      (xs : List A) → 0 < length xs → (init : List A) × (x : A) × (xs ≡ init ++ (x ∷ []))
  split_last [] h = absurd (omega arith)
  split_last (x ∷ []) h = ([], x, refl)
  split_last (x ∷ y ∷ ys) h =
      let (init, z, e) = split_last (y ∷ ys) (omega arith) in (x ∷ init, z, ap (λ t. x ∷ t) e)

  -- A list by its values from the last one on.
  abbrev pub upwards : List A → List A
  upwards [] = []
  upwards (x ∷ xs) = upwards xs ++ (x ∷ [])

  pub upwards_onto : (xs : List A) → (ys : List A) × (upwards ys ≡ xs)
  upwards_onto xs = go xs [] [] refl
    where
      go : (xs done ys : List A) → upwards ys ≡ done → (zs : List A) × (upwards zs ≡ done ++ xs)
      go [] done ys e = (ys, e ∙ sym (append-nil done))
      go (x ∷ xs) done ys e =
          let (zs, f) = go xs (done ++ (x ∷ [])) (x ∷ ys) (ap (λ t. t ++ (x ∷ [])) e) in
          (zs, f ∙ snoc_append done x xs)

  pub length-upwards : (xs : List A) → length (upwards xs) ≡ length xs
  length-upwards [] = refl
  length-upwards (x ∷ xs) = omega (arith, length-snoc (upwards xs) x, length-upwards xs)

  pub IsSorted-snoc :
      (less : A → A → Bool) (xs : List A) (x : A)
      → IsSorted less xs
      → All (λ z. less x z ≡ false) xs
      → IsSorted less (xs ++ (x ∷ []))
  IsSorted-snoc less [] x s a = (tt, tt)
  IsSorted-snoc less (y ∷ ys) x s a =
      (All-append _ ys (x ∷ []) s.0 (a.0, tt), IsSorted-snoc less ys x s.1 a.1)

  pub snoc-IsSorted :
      (less : A → A → Bool) (xs : List A) (x : A)
      → IsSorted less (xs ++ (x ∷ []))
      → IsSorted less xs × All (λ z. less x z ≡ false) xs
  snoc-IsSorted less [] x s = (tt, tt)
  snoc-IsSorted less (y ∷ ys) x s =
      let (before, last) = All-split _ ys (x ∷ []) s.0 in
      let (sorted, below) = snoc-IsSorted less ys x s.1 in ((before, sorted), (last.0, below))
