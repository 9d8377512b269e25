-- ===== src/Buffer.antt =====
-- The growing arrays of the C code: src/value.c (`krk_writeValueArray`), and the same lines for each
-- array of src/chunk.c.
use mathlib.Core.List.{append_assoc}
use kuroko.Memory.{grow_int_capacity}
use kuroko.Prelude.{
  ℕ, zero, suc, ◌+◌, ◌-◌, ◌*◌, ◌%◌, ◌^◌, ◌<◌, ◌≡◌, refl, ap, inl, inr, Bool-cases, List, [], ◌∷◌,
  ◌++◌, arith, ltb, if◌then◌else◌, length, length-append, length-replicate, length-set, get_or, set,
  replicate,
}

-- `count` of the `capacity` values are in use; new memory is filled with `fill`, which stands for
-- whatever it holds.
pub record Buffer {ℓ} (A : Type ℓ) : Type ℓ where
  pub count : ℕ
  pub capacity : ℕ
  pub values : List A

-- As long as the capacity can be doubled as an int.
grows : (c : ℕ) → c < 2 ^ 30 → c < grow_int_capacity c
grows c h =
    let same : c % 2 ^ 32 ≡ c = omega arith in
    let doubled : c * 2 % 2 ^ 32 ≡ c * 2 = omega arith in rw (same, doubled) (ground arith)

module _ {ℓ} {A : Type ℓ} where
  unfoldable pub empty : Buffer A
  empty = record { count = 0; capacity = 0; values = [] }

  -- The growth, where the next value would not fit.
  unfoldable pub reserve : A → Buffer A → Buffer A
  reserve fill b =
      if ltb b.capacity (b.count + 1)
      then record {
        count = b.count;
        capacity = grow_int_capacity b.capacity;
        values = b.values ++ replicate (grow_int_capacity b.capacity - b.capacity) fill;
      }
      else b

  unfoldable pub push : A → Buffer A → A → Buffer A
  unfolding reserve
  push fill b x =
      let roomy = reserve fill b in
      record {
        count = roomy.count + 1;
        capacity = roomy.capacity;
        values = set roomy.values roomy.count x;
      }

  -- The values in use.
  pub record Holds (b : Buffer A) (xs : List A) : Type ℓ where
    pub rest : List A
    pub stored : b.values ≡ xs ++ rest
    pub counted : b.count ≡ length xs
    pub sized : b.capacity ≡ length b.values

  pub empty-Holds : Holds empty []
  unfolding empty
  empty-Holds = record { rest = []; stored = refl; counted = refl; sized = refl }

  pub get_or-append :
      (xs ys : List A) (i : ℕ) (d : A) → i < length xs → get_or (xs ++ ys) i d ≡ get_or xs i d
  get_or-append [] ys i d h = absurd (omega arith)
  get_or-append (x ∷ xs) ys zero d h = refl
  get_or-append (x ∷ xs) ys (suc i) d h = get_or-append xs ys i d (omega arith)

  pub get_or-length :
      (xs : List A) (y : A) (ys : List A) (d : A) → get_or (xs ++ (y ∷ ys)) (length xs) d ≡ y
  get_or-length [] y ys d = refl
  get_or-length (x ∷ xs) y ys d = get_or-length xs y ys d

  set-length :
      (xs : List A) (y x : A) (ys : List A)
      → set (xs ++ (y ∷ ys)) (length xs) x ≡ (xs ++ (x ∷ [])) ++ ys
  set-length [] y x ys = refl
  set-length (z ∷ xs) y x ys = ap (λ t. z ∷ t) (set-length xs y x ys)

  -- After growth there is a value to overwrite.
  record Roomy (b : Buffer A) (xs : List A) : Type ℓ where
    first : A
    rest : List A
    stored : b.values ≡ xs ++ (first ∷ rest)
    counted : b.count ≡ length xs
    sized : b.capacity ≡ length b.values

  roomy :
      (b : Buffer A) (xs rest : List A)
      → b.values ≡ xs ++ rest
      → b.count ≡ length xs
      → b.capacity ≡ length b.values
      → length xs < length b.values
      → Roomy b xs
  roomy b xs [] stored counted sized h =
      absurd (omega (arith, ap length stored, length-append xs []))
  roomy b xs (y ∷ ys) stored counted sized h = record {
    first = y;
    rest = ys;
    stored = stored;
    counted = counted;
    sized = sized;
  }

  reserve_lem :
      (fill : A) (b : Buffer A) (xs : List A)
      → length xs < 2 ^ 30
      → Holds b xs
      → Roomy (reserve fill b) xs
  unfolding reserve
  reserve_lem fill b xs few h = elim (Bool-cases (ltb b.capacity (b.count + 1))) [
    | inl e ↦
        let bigger : Buffer A = record {
          count = b.count;
          capacity = grow_int_capacity b.capacity;
          values = b.values ++ replicate (grow_int_capacity b.capacity - b.capacity) fill;
        } in
        let long =
          length-append b.values (replicate (grow_int_capacity b.capacity - b.capacity) fill) in
        let more = length-replicate (grow_int_capacity b.capacity - b.capacity) fill in
        let full : b.capacity ≡ length xs =
          let small : b.capacity < b.count + 1 = ground arith in
          omega (arith, small, h.counted, h.sized, ap length h.stored, length-append xs h.rest) in
        let larger = grows b.capacity (omega arith) in
        let z : Roomy bigger xs =
          roomy bigger xs (h.rest ++ replicate (grow_int_capacity b.capacity - b.capacity) fill)
            (rw (h.stored) (append_assoc xs h.rest _)) h.counted
            (omega (arith, long, more, larger, h.sized))
            (omega
              (arith, long, more, larger, h.sized, ap length h.stored, length-append xs h.rest)) in
        rw (e, reserve) z
    | inr e ↦
        let z : Roomy b xs = roomy b xs h.rest h.stored h.counted h.sized (
          let fits : b.count < b.capacity = ground arith in
          omega (arith, fits, h.counted, h.sized)) in
        rw (e, reserve) z
  ]

  -- A value is appended to fewer than 2 ^ 30 values.
  pub push_lem :
      (fill : A) (b : Buffer A) (xs : List A) (x : A)
      → length xs < 2 ^ 30
      → Holds b xs
      → Holds (push fill b x) (xs ++ (x ∷ []))
  unfolding push
  push_lem fill b xs x few h =
      let r = reserve_lem fill b xs few h in
      let stored : set (reserve fill b).values (reserve fill b).count x
          ≡ (xs ++ (x ∷ [])) ++ r.rest =
        rw (r.stored, r.counted) (set-length xs r.first x r.rest) in
      record {
        rest = r.rest;
        stored = stored;
        counted = omega (arith, r.counted, length-append xs (x ∷ []));
        sized = omega (arith, r.sized, length-set (reserve fill b).values (reserve fill b).count x);
      }
