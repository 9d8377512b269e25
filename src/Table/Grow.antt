-- ===== src/Table/Grow.antt =====
-- src/table.c: `krk_tableAdjustCapacity` keeps the items of a table.
use native.Mathlib.Nat.{zero-add}
use kuroko.Prelude.{
  ℕ, zero, suc, ◌*◌, ◌^◌, ◌≤◌, ◌≡◌, ◌≢◌, refl, sym, ap, ◌∙◌, none, some, [], arith, All, All-both,
  length, length-replicate, get_or, replicate, get_or-replicate,
}
use kuroko.Table.Free.{occupied-replicate}
use kuroko.Table.Items.{items, IsAbsent}
use kuroko.Table.Invariant.{IsBuilt}
use kuroko.Table.Key.{Keys}
use kuroko.Table.Rebuild.{
  IsApart, IsHashable, All-items, items-IsApart, partial, Rebuilt-returns, rebuild-Rebuilt,
}
use kuroko.Table.{unused, at, Table, returns, init, adjust_capacity}

no_lead : (n s j : ℕ) → get_or (replicate n unused) s unused ≢ at j
no_lead n s j e = let f = sym (get_or-replicate n s unused) ∙ e in cc

module _ {ℓ} {K V : Type ℓ} ⦃keys : Keys K⦄ where
  -- What rebuilding needs of the old entries.
  pub record IsSource (t : Table K V) : Type ℓ where
    pub counted : t.count ≡ length (items t.entries)
    pub apart : IsApart (items t.entries)
    pub hashable : All IsHashable (items t.entries)

  pub built-IsSource : (t : Table K V) → IsBuilt t → IsSource t
  built-IsSource t v = record {
    counted = v.counted;
    apart = items-IsApart t.entries v.distinct;
    hashable =
        All-items IsHashable t.entries (λ j a e. let p = v.placed j a e in (p.hash, p.hashed));
  }

  pub init-IsSource : IsSource init
  unfolding init
  init-IsSource = record { counted = refl; apart = tt; hashable = tt }

  items-replicate : (n : ℕ) → items {K = K} {V = V} (replicate n none) ≡ []
  items-replicate zero = refl
  items-replicate (suc n) = items-replicate n

  no_entry : (n j : ℕ) (a : K × V) → get_or (replicate n none) j none ≢ some a
  no_entry n j a e = let f = sym (get_or-replicate n j none) ∙ e in cc

  -- The fresh arrays.
  fresh-IsBuilt :
      (width : ℕ)
      → IsBuilt {K = K} {V = V}
          (partial (2 ^ width) 0 (replicate (2 ^ width) none) (replicate (2 ^ width) unused))
  fresh-IsBuilt width = record {
    width = width;
    power = refl;
    entries_sized = length-replicate _ _;
    indexes_sized = length-replicate _ _;
    filled = omega arith;
    load = omega (arith, occupied-replicate (2 ^ width));
    gap = λ j h. get_or-replicate _ j none;
    counted = sym (ap length (items-replicate (2 ^ width)));
    full = λ s j e. absurd (no_lead _ s j e);
    once = λ s r j e f. absurd (no_lead _ s j e);
    placed = λ j a e. absurd (no_entry _ j a e);
    distinct = λ i j a b e f g. absurd (no_entry _ i a e);
  }

  -- The table after a change of capacity.
  pub record Resized (t : Table K V) (capacity : ℕ) (r : Table K V) : Type ℓ where
    pub built : IsBuilt r
    pub same : items r.entries ≡ items t.entries
    pub sized : r.capacity ≡ capacity
    pub packed : r.used ≡ t.count

  -- For a table that counts its items, whose keys are hashable and pairwise different,
  -- `krk_tableAdjustCapacity` to a power of two of which the items fill at most three quarters ends
  -- in a well-formed table of that capacity with the same items in the same order and no gaps.
  pub adjust_capacity_lem :
      (t : Table K V) (width : ℕ)
      → IsSource t
      → 4 * t.count ≤ 3 * 2 ^ width
      → (r : Table K V) × (adjust_capacity t (2 ^ width) ≡ returns r) × Resized t (2 ^ width) r
  unfolding adjust_capacity
  adjust_capacity_lem t width source room =
      let capacity = 2 ^ width in
      let absent =
        All-both IsHashable IsHashable (λ a. IsAbsent a.0 (replicate capacity none))
          (items t.entries) (λ a _ _ j b e. absurd (no_entry capacity j b e)) source.hashable
          source.hashable in
      let (nentries, nindexes, run, built, same) =
        Rebuilt-returns capacity t.count (items t.entries) _ (
          rw (items-replicate, zero-add) at
            (rebuild-Rebuilt capacity t.entries t.count 0 (replicate capacity none)
              (replicate capacity unused) (fresh-IsBuilt width) source.counted (omega arith) absent
              source.apart source.hashable)) in
      (
        record t { entries = nentries; indexes = nindexes; capacity = capacity; used = t.count },
        rw (run, adjust_capacity),
        record { built = built; same = same; sized = refl; packed = refl },
      )
