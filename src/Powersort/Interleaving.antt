-- ===== src/Powersort/Interleaving.antt =====
-- src/obj_list.c: what a merge may do to two runs.
use mathlib.Core.List.{Perm, perm_middle, perm_append_comm}
use mathlib.Core.List.Perm
use kuroko.Prelude.{◌+◌, ◌≡◌, List, [], ◌∷◌, ◌++◌, arith, length, All}
use kuroko.Powersort.Arrays.{upwards}

-- The third list has the values of the first two, each in its order.
pub data Interleaves {ℓ} {A : Type ℓ} : List A → List A → List A → Type ℓ where
  done : Interleaves [] [] []
  left : {x : A} {xs ys zs : List A} → Interleaves xs ys zs → Interleaves (x ∷ xs) ys (x ∷ zs)
  right : {y : A} {xs ys zs : List A} → Interleaves xs ys zs → Interleaves xs (y ∷ ys) (y ∷ zs)

module _ {ℓ} {A : Type ℓ} where
  pub Interleaves-left : (xs : List A) → Interleaves xs [] xs
  Interleaves-left [] = done
  Interleaves-left (x ∷ xs) = left (Interleaves-left xs)

  pub Interleaves-right : (ys : List A) → Interleaves [] ys ys
  Interleaves-right [] = done
  Interleaves-right (y ∷ ys) = right (Interleaves-right ys)

  pub Interleaves-append : (xs ys : List A) → Interleaves xs ys (xs ++ ys)
  Interleaves-append [] ys = Interleaves-right ys
  Interleaves-append (x ∷ xs) ys = left (Interleaves-append xs ys)

  pub left_last :
      {xs ys zs : List A} (x : A)
      → Interleaves xs ys zs
      → Interleaves (xs ++ (x ∷ [])) ys (zs ++ (x ∷ []))
  left_last x done = left done
  left_last x (left w) = left (left_last x w)
  left_last x (right w) = right (left_last x w)

  pub right_last :
      {xs ys zs : List A} (y : A)
      → Interleaves xs ys zs
      → Interleaves xs (ys ++ (y ∷ [])) (zs ++ (y ∷ []))
  right_last y done = right done
  right_last y (left w) = left (right_last y w)
  right_last y (right w) = right (right_last y w)

  pub Interleaves-perm : {xs ys zs : List A} → Interleaves xs ys zs → Perm (xs ++ ys) zs
  Interleaves-perm done = Perm.refl []
  Interleaves-perm (left {x} w) = Perm.cons x (Interleaves-perm w)
  Interleaves-perm (right {y} {xs} {ys} w) =
      Perm.trans (perm_middle xs ys) (Perm.cons y (Interleaves-perm w))

  pub Interleaves-length :
      {xs ys zs : List A} → Interleaves xs ys zs → length zs ≡ length xs + length ys
  Interleaves-length done = omega arith
  Interleaves-length (left w) = omega (arith, Interleaves-length w)
  Interleaves-length (right w) = omega (arith, Interleaves-length w)

  pub Interleaves-All {κ} :
      (P : A → Type κ) {xs ys zs : List A} → Interleaves xs ys zs → All P xs → All P ys → All P zs
  Interleaves-All P done a b = tt
  Interleaves-All P (left w) a b = (a.0, Interleaves-All P w a.1 b)
  Interleaves-All P (right w) a b = (b.0, Interleaves-All P w a b.1)

  pub perm_of_eq : {xs ys : List A} → xs ≡ ys → Perm xs ys
  perm_of_eq {xs} e = rw (← e) (Perm.refl xs)

  pub upwards-perm : (xs : List A) → Perm xs (upwards xs)
  upwards-perm [] = Perm.refl []
  upwards-perm (x ∷ xs) =
      Perm.trans (Perm.cons x (upwards-perm xs)) (perm_append_comm (x ∷ []) (upwards xs))
