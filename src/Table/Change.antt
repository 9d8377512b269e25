-- ===== src/Table/Change.antt =====
-- src/table.c: a built table with one entry changed or deleted.
use kuroko.Prelude.{
  ℕ, zero, suc, ◌+◌, ◌-◌, ◌≤◌, ◌<◌, ◌≡◌, ◌≢◌, refl, sym, ap, subst, ◌∙◌, true, none, some, List, [],
  ◌∷◌, arith, length, length-set, get_or, set, get_or-set_self, get_or-set_ne, get_or_inside,
  ℕ_discrete, dec_lt,
}
use kuroko.Table.Free.{occupied}
use kuroko.Table.Items.{items}
use kuroko.Table.Invariant.{Placed, IsBuilt}
use kuroko.Table.Key.{Keys}
use kuroko.Table.Place.{at_injective, some_injective}
use kuroko.Table.{Index, unused, tombstone, at, Entry, Table}

module _ {ℓ} {K V : Type ℓ} where
  length-items_changed :
      (entries : List (Entry K V)) (i : ℕ) (a b : K × V)
      → get_or entries i none ≡ some a
      → length (items (set entries i (some b))) ≡ length (items entries)
  length-items_changed [] i a b e = refl
  length-items_changed (none ∷ entries) zero a b e = cc
  length-items_changed (some c ∷ entries) zero a b e = refl
  length-items_changed (none ∷ entries) (suc i) a b e = length-items_changed entries i a b e
  length-items_changed (some c ∷ entries) (suc i) a b e =
      ap suc (length-items_changed entries i a b e)

  pub length-items_deleted :
      (entries : List (Entry K V)) (i : ℕ) (a : K × V)
      → get_or entries i none ≡ some a
      → length (items (set entries i none)) + 1 ≡ length (items entries)
  length-items_deleted [] i a e = cc
  length-items_deleted (none ∷ entries) zero a e = cc
  length-items_deleted (some c ∷ entries) zero a e = omega arith
  length-items_deleted (none ∷ entries) (suc i) a e = length-items_deleted entries i a e
  length-items_deleted (some c ∷ entries) (suc i) a e =
      omega (arith, length-items_deleted entries i a e)

-- A tombstone in place of an entry's slot does not change how many slots are in use.
occupied-deleted :
    (xs : List Index) (s i : ℕ)
    → get_or xs s unused ≡ at i
    → occupied (set xs s tombstone) ≡ occupied xs
occupied-deleted [] s i e = refl
occupied-deleted (unused ∷ xs) zero i e = cc
occupied-deleted (tombstone ∷ xs) zero i e = refl
occupied-deleted (at _ ∷ xs) zero i e = refl
occupied-deleted (unused ∷ xs) (suc s) i e = occupied-deleted xs s i e
occupied-deleted (tombstone ∷ xs) (suc s) i e = ap suc (occupied-deleted xs s i e)
occupied-deleted (at _ ∷ xs) (suc s) i e = ap suc (occupied-deleted xs s i e)

module _ {ℓ} {K V : Type ℓ} ⦃keys : Keys K⦄ (t : Table K V) (v : IsBuilt t) (i : ℕ) (a : K × V)
    (here : get_or t.entries i none ≡ some a) where
  inside : i < length t.entries
  inside = get_or_inside t.entries i none (some a) here (λ h. cc)

  before_used : i < t.used
  before_used = elim (dec_lt i t.used) [
    | yes p ↦ p
    | no p ↦ let e = sym here ∙ v.gap i (omega arith) in cc
  ]

  module _ (x : V) where
    abbrev changed : List (Entry K V)
    changed = set t.entries i (some (a.0, x))

    -- An entry after the change, with the key of an entry before it.
    data Before (j : ℕ) (b : K × V) : Type ℓ where
      before : (c : K × V) → get_or t.entries j none ≡ some c → c.0 ≡ b.0 → Before j b

    Before-cases : (j : ℕ) (b : K × V) → get_or changed j none ≡ some b → Before j b
    Before-cases j b e = elim (ℕ_discrete i j) [
      | yes p ↦
          let at_i = subst (λ k. get_or changed k none ≡ some b) (sym p) e in
          let is : (a.0, x) ≡ b =
            some_injective (sym (get_or-set_self t.entries i (some (a.0, x)) none inside) ∙ at_i) in
          before a (subst (λ k. get_or t.entries k none ≡ some a) p here)
            (ap (λ (y : K × V). y.0) is)
      | no p ↦ before b (sym (get_or-set_ne t.entries i j (some (a.0, x)) none p) ∙ e) refl
    ]

    kept : (j : ℕ) → get_or t.entries j none ≢ none → get_or changed j none ≢ none
    kept j ne = elim (ℕ_discrete i j) [
      | yes p ↦
          subst (λ k. get_or changed k none ≢ none) p
            (rw (get_or-set_self t.entries i (some (a.0, x)) none inside) (λ h. cc))
      | no p ↦ rw (get_or-set_ne t.entries i j (some (a.0, x)) none p) ne
    ]

    distinct_after :
        (m n : ℕ) (b c : K × V)
        → Before m b
        → Before n c
        → keys.same_or_equal b.0 c.0 ≡ true
        → m ≡ n
    distinct_after m n b c (before d e p) (before f g q) same =
        v.distinct m n d f e g (rw (p, q) same)

    Placed-after : (j : ℕ) (b : K × V) → Before j b → Placed t.indexes t.capacity b.0 j
    Placed-after j b (before c e p) = rw (← p) (v.placed j c e)

    pub changed-IsBuilt : IsBuilt (record t { entries = changed })
    changed-IsBuilt = record {
      width = v.width;
      power = v.power;
      entries_sized = length-set t.entries _ _ ∙ v.entries_sized;
      indexes_sized = v.indexes_sized;
      filled = v.filled;
      load = v.load;
      gap = λ j h. gap_after j h;
      counted = v.counted ∙ sym (length-items_changed t.entries i a (a.0, x) here);
      full = λ s j e. kept j (v.full s j e);
      once = v.once;
      placed = λ j b e. Placed-after j b (Before-cases j b e);
      distinct = λ m n b c e f. distinct_after m n b c (Before-cases m b e) (Before-cases n c f);
    }
      where
        gap_after : (j : ℕ) → t.used ≤ j → get_or changed j none ≡ none
        gap_after j h =
            get_or-set_ne t.entries i j (some (a.0, x)) none (omega (arith, before_used))
            ∙ v.gap j h

  module _ (s : ℕ) (leads : get_or t.indexes s unused ≡ at i) where
    abbrev deleted : List (Entry K V)
    deleted = set t.entries i none

    abbrev without : List Index
    without = set t.indexes s tombstone

    slot_inside : s < length t.indexes
    slot_inside = get_or_inside t.indexes s unused (at i) leads (λ h. cc)

    entry_gone : get_or deleted i none ≡ none
    entry_gone = get_or-set_self t.entries i none none inside

    slot_gone : get_or without s unused ≡ tombstone
    slot_gone = get_or-set_self t.indexes s tombstone unused slot_inside

    entry_other : (j : ℕ) → i ≢ j → get_or deleted j none ≡ get_or t.entries j none
    entry_other j ne = get_or-set_ne t.entries i j none none ne

    slot_other : (r : ℕ) → s ≢ r → get_or without r unused ≡ get_or t.indexes r unused
    slot_other r ne = get_or-set_ne t.indexes s r tombstone unused ne

    -- An entry that is left stood there before, at another index.
    left_before :
        (j : ℕ) (b : K × V)
        → get_or deleted j none ≡ some b
        → (i ≢ j) × (get_or t.entries j none ≡ some b)
    left_before j b e = elim (ℕ_discrete i j) [
      | yes p ↦
          let gone = subst (λ k. get_or deleted k none ≡ none) p entry_gone in
          let f = sym gone ∙ e in cc
      | no p ↦ (p, sym (entry_other j p) ∙ e)
    ]

    slot_before :
        (r j : ℕ) → get_or without r unused ≡ at j → (s ≢ r) × (get_or t.indexes r unused ≡ at j)
    slot_before r j e = elim (ℕ_discrete s r) [
      | yes p ↦
          let gone = subst (λ k. get_or without k unused ≡ tombstone) p slot_gone in
          let f = sym gone ∙ e in cc
      | no p ↦ (p, sym (slot_other r p) ∙ e)
    ]

    still_reached : (r : ℕ) → get_or t.indexes r unused ≢ unused → get_or without r unused ≢ unused
    still_reached r ne = elim (ℕ_discrete s r) [
      | yes p ↦ subst (λ k. get_or without k unused ≢ unused) p (rw slot_gone (λ h. cc))
      | no p ↦ rw (slot_other r p) ne
    ]

    still-Placed :
        (k : K) (j : ℕ) → i ≢ j → Placed t.indexes t.capacity k j → Placed without t.capacity k j
    still-Placed k j ne p = record {
      hash = p.hash;
      hashed = p.hashed;
      distance = p.distance;
      near = p.near;
      leads =
          slot_other _ (λ e. ne (
            at_injective
              (sym leads ∙ subst (λ r. get_or t.indexes r unused ≡ at j) (sym e) p.leads)))
          ∙ p.leads;
      reached = λ e h. still_reached _ (p.reached e h);
    }

    full_after : (r j : ℕ) → get_or without r unused ≡ at j → get_or deleted j none ≢ none
    full_after r j e =
        let (ne, old) = slot_before r j e in
        rw
          (entry_other j (λ p.
            ne (v.once s r i leads (subst (λ k. get_or t.indexes r unused ≡ at k) (sym p) old))))
          (v.full r j old)

    gap_after : (j : ℕ) → t.used ≤ j → get_or deleted j none ≡ none
    gap_after j h = entry_other j (omega (arith, before_used)) ∙ v.gap j h

    pub deleted-IsBuilt :
        IsBuilt (record t { count = t.count - 1; entries = deleted; indexes = without })
    deleted-IsBuilt = record {
      width = v.width;
      power = v.power;
      entries_sized = length-set t.entries _ _ ∙ v.entries_sized;
      indexes_sized = length-set t.indexes _ _ ∙ v.indexes_sized;
      filled = v.filled;
      load = omega (arith, occupied-deleted t.indexes s i leads, v.load);
      gap = λ j h. gap_after j h;
      counted = omega (arith, v.counted, length-items_deleted t.entries i a here);
      full = λ r j e. full_after r j e;
      once = λ r q j e f. v.once r q j (slot_before r j e).1 (slot_before q j f).1;
      placed =
          λ j b e. let (ne, old) = left_before j b e in still-Placed b.0 j ne (v.placed j b old);
      distinct = λ m n b c e f. v.distinct m n b c (left_before m b e).1 (left_before n c f).1;
    }
