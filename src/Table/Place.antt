-- ===== src/Table/Place.antt =====
-- src/table.c: writes to a built table.
use native.Mathlib.Nat.{one-le-pow}
use kuroko.Prelude.{
  ℕ, ◌+◌, ◌*◌, ◌%◌, ◌≤◌, ◌<◌, ◌≡◌, ◌≢◌, sym, ap, subst, ◌∙◌, Bool, true, none, some, [], ◌∷◌, arith,
  length, length-append, length-set, get_or, set, get_or-set_self, get_or-set_ne, ℕ_discrete,
}
use kuroko.Table.Free.{occupied-set-le}
use kuroko.Table.Items.{items, items-append, IsAbsent}
use kuroko.Table.Invariant.{Placed, IsBuilt}
use kuroko.Table.Key.{Keys}
use kuroko.Table.Probe.{Vacant}
use kuroko.Table.{unused, at, Table}

pub at_injective : {i j : ℕ} → at i ≡ at j → i ≡ j
at_injective e = cc

pub some_injective {ℓ} : {A : Type ℓ} {a b : A} → some a ≡ some b → a ≡ b
some_injective e = cc

module _ {ℓ} {K V : Type ℓ} ⦃keys : Keys K⦄ where
  -- The table with a new entry, as both setters and the rebuilding loop write it.
  abbrev pub with_entry : Table K V → ℕ → K → V → Table K V
  with_entry t s key value = record {
    count = t.count + 1;
    capacity = t.capacity;
    used = t.used + 1;
    entries = set t.entries t.used (some (key, value));
    indexes = set t.indexes s (at t.used);
  }

  module _ (comparator : K → K → Bool) (t : Table K V) (v : IsBuilt t) (key : K) (value : V)
      (hash s : ℕ) (hashed : keys.hash key ≡ some hash) (room : 4 * (t.used + 1) ≤ 3 * t.capacity)
      (absent : IsAbsent key t.entries)
      (vacant : Vacant comparator t.entries t.indexes t.capacity key (hash % t.capacity) s) where
    pos : 0 < t.capacity
    pos = rw (v.power) (one-le-pow v.width 2 (omega arith))

    slot_inside : s < length t.indexes
    slot_inside = let p = pos in let e = vacant.place in omega (arith, v.indexes_sized)

    entry_inside : t.used < length t.entries
    entry_inside = let p = pos in omega (arith, v.entries_sized)

    -- The slot led to no entry.
    slot_free : (j : ℕ) → get_or t.indexes s unused ≢ at j
    slot_free j e = rw e at (vacant.free)

    holds_new : get_or (set t.indexes s (at t.used)) s unused ≡ at t.used
    holds_new = get_or-set_self t.indexes s (at t.used) unused slot_inside

    holds_old :
        (r : ℕ) → s ≢ r → get_or (set t.indexes s (at t.used)) r unused ≡ get_or t.indexes r unused
    holds_old r ne = get_or-set_ne t.indexes s r (at t.used) unused ne

    entry_new : get_or (set t.entries t.used (some (key, value))) t.used none ≡ some (key, value)
    entry_new = get_or-set_self t.entries t.used (some (key, value)) none entry_inside

    entry_old :
        (j : ℕ)
        → t.used ≢ j
        → get_or (set t.entries t.used (some (key, value))) j none ≡ get_or t.entries j none
    entry_old j ne = get_or-set_ne t.entries t.used j (some (key, value)) none ne

    -- A slot that was not unused is not unused after the write.
    still_reached :
        (r : ℕ)
        → get_or t.indexes r unused ≢ unused
        → get_or (set t.indexes s (at t.used)) r unused ≢ unused
    still_reached r ne = elim (ℕ_discrete s r) [
      | yes e ↦ rw (← e, holds_new) (λ h. cc)
      | no d ↦ rw (holds_old r d) ne
    ]

    Placed-old :
        (k : K) (j : ℕ)
        → Placed t.indexes t.capacity k j
        → Placed (set t.indexes s (at t.used)) t.capacity k j
    Placed-old k j p = record {
      hash = p.hash;
      hashed = p.hashed;
      distance = p.distance;
      near = p.near;
      leads = rw (holds_old _ (λ e. slot_free j (rw e p.leads))) p.leads;
      reached = λ e h. still_reached _ (p.reached e h);
    }

    Placed-new : Placed (set t.indexes s (at t.used)) t.capacity key t.used
    Placed-new = record {
      hash = hash;
      hashed = hashed;
      distance = vacant.distance;
      near = vacant.near;
      leads = rw (← vacant.place) holds_new;
      reached = λ e h. still_reached _ (vacant.reached e h);
    }

    -- No slot led to the first unused entry.
    used_unled : (r : ℕ) → get_or t.indexes r unused ≢ at t.used
    used_unled r e = v.full r t.used e (v.gap t.used (omega arith))

    -- What a slot leads to after the write: the new entry from `s`, and otherwise what it led to.
    data Leads (r j : ℕ) : Type 0 where
      new : s ≡ r → t.used ≡ j → Leads r j
      old : s ≢ r → t.used ≢ j → get_or t.indexes r unused ≡ at j → Leads r j

    Leads-cases : (r j : ℕ) → get_or (set t.indexes s (at t.used)) r unused ≡ at j → Leads r j
    Leads-cases r j e = elim (ℕ_discrete s r) [
      | yes p ↦ new p (
          at_injective (
            sym holds_new
            ∙ subst (λ x. get_or (set t.indexes s (at t.used)) x unused ≡ at j) (sym p) e))
      | no p ↦ let e' = sym (holds_old r p) ∙ e in old p (λ q. used_unled r (rw q e')) e'
    ]

    -- The entries after the write.
    data Stored (j : ℕ) (a : K × V) : Type ℓ where
      new_entry : t.used ≡ j → (key, value) ≡ a → Stored j a
      old_entry : t.used ≢ j → get_or t.entries j none ≡ some a → Stored j a

    Stored-cases :
        (j : ℕ) (a : K × V)
        → get_or (set t.entries t.used (some (key, value))) j none ≡ some a
        → Stored j a
    Stored-cases j a e = elim (ℕ_discrete t.used j) [
      | yes p ↦ new_entry p (
          some_injective (
            sym entry_new
            ∙ subst (λ x. get_or (set t.entries t.used (some (key, value))) x none ≡ some a) (sym p)
                e))
      | no p ↦ old_entry p (sym (entry_old j p) ∙ e)
    ]

    entry_kept :
        (r j : ℕ) → Leads r j → get_or (set t.entries t.used (some (key, value))) j none ≢ none
    entry_kept r j (new p q) = rw (← q, entry_new) (λ h. cc)
    entry_kept r j (old p q e) = rw (entry_old j q) (v.full r j e)

    once_after : (r q j : ℕ) → Leads r j → Leads q j → r ≡ q
    once_after r q j (new a b) (new c d) = sym a ∙ c
    once_after r q j (new a b) (old c d e) = absurd (d b)
    once_after r q j (old a b e) (new c d) = absurd (b d)
    once_after r q j (old a b e) (old c d f) = v.once r q j e f

    Placed-after :
        (j : ℕ) (a : K × V) → Stored j a → Placed (set t.indexes s (at t.used)) t.capacity a.0 j
    Placed-after j a (new_entry p q) = rw (← p, ← q) Placed-new
    Placed-after j a (old_entry p e) = Placed-old a.0 j (v.placed j a e)

    distinct_after :
        (i j : ℕ) (a b : K × V)
        → Stored i a
        → Stored j b
        → keys.same_or_equal a.0 b.0 ≡ true
        → i ≡ j
    distinct_after i j a b (new_entry p q) (new_entry r u) same = sym p ∙ r
    distinct_after i j a b (new_entry p q) (old_entry r e) same =
        ground (arith, absent j b e, keys.equal_symm key b.0, ap (λ (x : K × V). x.0) q)
    distinct_after i j a b (old_entry p e) (new_entry r u) same =
        ground (arith, absent i a e, ap (λ (x : K × V). x.0) u)
    distinct_after i j a b (old_entry p e) (old_entry r f) same = v.distinct i j a b e f same

    pub with_entry-IsBuilt : IsBuilt (with_entry t s key value)
    with_entry-IsBuilt = record {
      width = v.width;
      power = v.power;
      entries_sized = length-set t.entries _ _ ∙ v.entries_sized;
      indexes_sized = length-set t.indexes _ _ ∙ v.indexes_sized;
      filled = room;
      load = omega (arith, occupied-set-le t.indexes s (at t.used), v.load);
      gap = λ j h. entry_old j (omega arith) ∙ v.gap j (omega arith);
      counted =
          rw (items-append t.entries t.used (key, value) entry_inside v.gap)
            (omega (arith, length-append (items t.entries) ((key, value) ∷ []), v.counted));
      full = λ r j e. entry_kept r j (Leads-cases r j e);
      once = λ r q j e f. once_after r q j (Leads-cases r j e) (Leads-cases q j f);
      placed = λ j a e. Placed-after j a (Stored-cases j a e);
      distinct = λ i j a b e f. distinct_after i j a b (Stored-cases i a e) (Stored-cases j b f);
    }
