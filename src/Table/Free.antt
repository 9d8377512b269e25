-- ===== src/Table/Free.antt =====
-- src/table.c: probing ends while some slot is unused.
use Prim.Native.Nat.{bit_and}
use native.Mathlib.Nat.{add-zero, mod-add-mod, mod-eq_of_lt, mod-eq-sub-mod}
use kuroko.Prelude.{
  ℕ, zero, suc, ◌+◌, ◌-◌, ◌%◌, ◌^◌, ◌≤◌, ◌<◌, ◌≡◌, refl, ◌∙◌, Bool, none, some, List, [], ◌∷◌,
  arith, length, get_or, set, replicate, dec_lt,
}
use kuroko.Prelude.Bits.{bit_and-mask}
use kuroko.Table.Key.{Keys}
use kuroko.Table.{Index, unused, tombstone, at, Entry, unhashable, index_key}
use kuroko.Table.Probe.{Outcome, probe_from, rounds}

-- The slots that are not unused.
abbrev pub occupied : List Index → ℕ
occupied [] = 0
occupied (unused ∷ xs) = occupied xs
occupied (tombstone ∷ xs) = suc (occupied xs)
occupied (at i ∷ xs) = suc (occupied xs)

pub unused_exists :
    (xs : List Index)
    → occupied xs < length xs
    → (i : ℕ) × (i < length xs) × (get_or xs i unused ≡ unused)
unused_exists [] h = absurd (omega arith)
unused_exists (unused ∷ xs) h = (0, omega arith, refl)
unused_exists (tombstone ∷ xs) h =
    let (i, p, e) = unused_exists xs (omega arith) in (suc i, omega arith, e)
unused_exists (at j ∷ xs) h =
    let (i, p, e) = unused_exists xs (omega arith) in (suc i, omega arith, e)

pub occupied-replicate : (n : ℕ) → occupied (replicate n unused) ≡ 0
occupied-replicate zero = refl
occupied-replicate (suc n) = occupied-replicate n

pub occupied-set-le :
    (xs : List Index) (i : ℕ) (x : Index) → occupied (set xs i x) ≤ suc (occupied xs)
occupied-set-le [] i x = omega arith
occupied-set-le (unused ∷ xs) zero unused = omega arith
occupied-set-le (unused ∷ xs) zero tombstone = omega arith
occupied-set-le (unused ∷ xs) zero (at _) = omega arith
occupied-set-le (tombstone ∷ xs) zero unused = omega arith
occupied-set-le (tombstone ∷ xs) zero tombstone = omega arith
occupied-set-le (tombstone ∷ xs) zero (at _) = omega arith
occupied-set-le (at _ ∷ xs) zero unused = omega arith
occupied-set-le (at _ ∷ xs) zero tombstone = omega arith
occupied-set-le (at _ ∷ xs) zero (at _) = omega arith
occupied-set-le (unused ∷ xs) (suc i) x = omega (arith, occupied-set-le xs i x)
occupied-set-le (tombstone ∷ xs) (suc i) x = omega (arith, occupied-set-le xs i x)
occupied-set-le (at _ ∷ xs) (suc i) x = omega (arith, occupied-set-le xs i x)

-- A slot is at some distance from the home slot.
distance_to : (home i c : ℕ) → home < c → i < c → (d : ℕ) × (d < c) × ((home + d) % c ≡ i)
distance_to home i c hh hi = elim (dec_lt i home) [
  | yes p ↦ (
    i + c - home,
    omega arith,
    mod-eq-sub-mod {n = home + (i + c - home)} {m = c} (omega arith)
        ∙ mod-eq_of_lt {n = home + (i + c - home) - c} {m = c} (omega arith)
        ∙ omega arith,
  )
  | no p ↦ (
    i - home,
    omega arith,
    mod-eq_of_lt {n = home + (i - home)} {m = c} (omega arith) ∙ omega arith,
  )
]

module _ {ℓ} {K V : Type ℓ} ⦃keys : Keys K⦄ (comparator : K → K → Bool) (entries : List (Entry K V))
    (indexes : List Index) (capacity width : ℕ) where
  index_key_starts :
      (key : K) (hash : ℕ)
      → keys.hash key ≡ some hash
      → index_key comparator entries indexes capacity key
        ≡ rounds comparator entries indexes capacity key
            (hash % capacity)
            capacity
            (bit_and hash (capacity - 1))
            none
  unfolding index_key rounds
  index_key_starts key hash h = rw (h, index_key)

  -- A key that is not hashable has no slot.
  pub index_key-unhashable :
      (key : K)
      → keys.hash key ≡ none
      → index_key comparator entries indexes capacity key ≡ unhashable
  unfolding index_key
  index_key-unhashable key h = rw (h, index_key)

  -- With an unused slot, `krk_tableIndexKeyC` ends for every key that is hashable.
  pub index_key_lem :
      (key : K) (hash : ℕ)
      → keys.hash key ≡ some hash
      → capacity ≡ 2 ^ width
      → length indexes ≡ capacity
      → occupied indexes < capacity
      → Outcome comparator entries indexes capacity key
          (hash % capacity)
          (index_key comparator entries indexes capacity key)
  index_key_lem key hash h power sized room =
      let (i, inside, open_end) = unused_exists indexes (omega arith) in
      let start : hash % capacity < capacity = omega arith in
      let (d, near, place) = distance_to (hash % capacity) i capacity start (omega arith) in
      let home : bit_and hash (capacity - 1) ≡ (hash % capacity + 0) % capacity =
        rw (power, bit_and-mask) (rw mod-add-mod (rw add-zero)) in
      rw (index_key_starts key hash h, home)
        (probe_from comparator entries indexes capacity key (hash % capacity) width power start d
          near (rw place open_end) capacity 0 none
          (record {
            left = omega arith;
            before = omega arith;
            reached = λ e p. absurd (omega arith);
            missed = λ e j p. absurd (omega arith);
            marked = tt;
          }))
