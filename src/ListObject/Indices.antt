-- ===== src/ListObject/Indices.antt =====
-- src/obj_list.c: which place an index names (`LIST_WRAP_INDEX`, `LIST_WRAP_SOFT`), and the list on
-- both sides of it.
use kuroko.ListObject.{wrap_index, wrap_soft}
use kuroko.Prelude.{
  ℕ, zero, suc, ◌+◌, ◌-◌, ◌<◌, ◌≤◌, ◌≡◌, refl, ap, ◌⊎◌, Option, none, some, List, [], ◌∷◌, ◌++◌,
  arith, length,
}
use kuroko.Prelude.Int.{ℤ, pos, negsuc, ◌+ℤ◌}

-- Which place an index names: from the end where it is negative, none out of range.
abbrev pub Indexes : ℕ → ℤ → Option ℕ → Type 0
Indexes count (pos n) none = count ≤ n
Indexes count (negsuc n) none = count < suc n
Indexes count (pos n) (some i) = (i ≡ n) × (i < count)
Indexes count (negsuc n) (some i) = i + suc n ≡ count

-- The same for an insertion, where an index out of range names the nearer end.
abbrev pub InsertsAt : ℕ → ℤ → ℕ → Type 0
InsertsAt count (pos n) i = ((i ≡ n) × (n ≤ count)) ⊎ ((i ≡ count) × (count < n))
InsertsAt count (negsuc n) i = i ≡ count - suc n

pub wrap_index-Indexes : (count : ℕ) (z : ℤ) → Indexes count z (wrap_index count z)
unfolding wrap_index ◌+ℤ◌
wrap_index-Indexes count (pos n) = ground arith
wrap_index-Indexes count (negsuc n) = ground arith

pub wrap_soft-InsertsAt : (count : ℕ) (z : ℤ) → InsertsAt count z (wrap_soft count z)
unfolding wrap_soft ◌+ℤ◌
wrap_soft-InsertsAt count (pos n) = ground arith
wrap_soft-InsertsAt count (negsuc n) = ground arith

pub InsertsAt-inside : (count : ℕ) (z : ℤ) (i : ℕ) → InsertsAt count z i → i ≤ count
InsertsAt-inside count (pos n) i h = ground arith
InsertsAt-inside count (negsuc n) i h = omega arith

pub Indexes-inside : (count : ℕ) (z : ℤ) (i : ℕ) → Indexes count z (some i) → i < count
Indexes-inside count (pos n) i h = h.1
Indexes-inside count (negsuc n) i h = omega arith

module _ {ℓ} {V : Type ℓ} where
  pub split_at :
      (i : ℕ) (xs : List V)
      → i ≤ length xs
      → (front : List V) × (back : List V) × (xs ≡ front ++ back) × (length front ≡ i)
  split_at zero xs h = ([], xs, refl, refl)
  split_at (suc i) [] h = absurd (omega arith)
  split_at (suc i) (x ∷ xs) h =
      let (front, back, e, long) = split_at i xs (omega arith) in
      (x ∷ front, back, ap (λ t. x ∷ t) e, ap suc long)

  pub split_value :
      (i : ℕ) (xs : List V)
      → i < length xs
      → (front : List V) × (x : V) × (back : List V) × (xs ≡ front ++ (x ∷ back))
        × (length front ≡ i)
  split_value zero [] h = absurd (omega arith)
  split_value zero (x ∷ xs) h = ([], x, xs, refl, refl)
  split_value (suc i) [] h = absurd (omega arith)
  split_value (suc i) (x ∷ xs) h =
      let (front, y, back, e, long) = split_value i xs (omega arith) in
      (x ∷ front, y, back, ap (λ t. x ∷ t) e, ap suc long)
