-- ===== src/Table/Key.antt =====
-- What the table asks of its keys: src/value.c compares, the classes' `__hash__` and `__eq__` decide.
use kuroko.Prelude.{ℕ, Bool, true, Option, ◌≡◌}

-- `hash` is `none` for a value that is not hashable. `same` is `krk_valuesSame`, equality of the
-- representation, and `same_or_equal` is `krk_valuesSameOrEqual`. The laws are those that Python
-- asks of `__eq__` and `__hash__`.
pub record Keys {ℓ} (K : Type ℓ) : Type ℓ where
  pub hash : K → Option ℕ
  pub same : K → K → Bool
  pub same_or_equal : K → K → Bool
  pub same_refl : (a : K) → same a a ≡ true
  pub equal_of_same : (a b : K) → same a b ≡ true → same_or_equal a b ≡ true
  pub equal_symm : (a b : K) → same_or_equal a b ≡ same_or_equal b a
  pub equal_trans :
      (a b c : K) → same_or_equal a b ≡ true → same_or_equal b c ≡ true → same_or_equal a c ≡ true
  pub hash-equal : (a b : K) → same_or_equal a b ≡ true → hash a ≡ hash b
