-- ===== src/Table/Rebuild.antt =====
-- src/table.c: `krk_tableAdjustCapacity`.
use native.Mathlib.Nat.{add-zero, one-le-pow}
use kuroko.Prelude.{
  ℕ, zero, suc, ◌+◌, ◌*◌, ◌%◌, ◌≤◌, ◌<◌, ◌≡◌, ◌≢◌, refl, sym, subst, ◌∙◌, inl, inr, Bool, true,
  false, Bool-cases, none, some, List, [], ◌∷◌, ◌++◌, append_assoc, append-nil, arith, All,
  All-both, length, get_or, set, get_or-set_self, get_or-set_ne, ℕ_discrete,
}
use kuroko.Table.Find.{matched}
use kuroko.Table.Free.{index_key_lem}
use kuroko.Table.Items.{items, items-append, IsAbsent}
use kuroko.Table.Invariant.{IsBuilt}
use kuroko.Table.Key.{Keys}
use kuroko.Table.Place.{some_injective, with_entry, with_entry-IsBuilt}
use kuroko.Table.Probe.{Found, Vacant, Outcome}
use kuroko.Table.{
  Index, unused, at, Entry, Table, Slot, slot, unhashable, endless, Run, fault, returns, index_key,
  matches, rebuild,
}

module _ {ℓ} {K V : Type ℓ} ⦃keys : Keys K⦄ where
  -- No two items have equal keys.
  abbrev pub IsApart : List (K × V) → Type ℓ
  IsApart [] = Unit
  IsApart (x ∷ xs) = All (λ y. keys.same_or_equal x.0 y.0 ≡ false) xs × IsApart xs

  abbrev pub IsHashable : K × V → Type 0
  IsHashable x = (h : ℕ) × (keys.hash x.0 ≡ some h)

  -- A property of the entries at all indexes is one of the items.
  pub All-items {κ} :
      (P : K × V → Type κ) (entries : List (Entry K V))
      → ((j : ℕ) (a : K × V) → get_or entries j none ≡ some a → P a)
      → All P (items entries)
  All-items P [] h = tt
  All-items P (none ∷ entries) h = All-items P entries (λ j a e. h (suc j) a e)
  All-items P (some a ∷ entries) h = (h 0 a refl, All-items P entries (λ j a e. h (suc j) a e))

  pub items-IsApart :
      (entries : List (Entry K V))
      → ((i j : ℕ) (a b : K × V)
          → get_or entries i none ≡ some a
          → get_or entries j none ≡ some b
          → keys.same_or_equal a.0 b.0 ≡ true
          → i ≡ j)
      → IsApart (items entries)
  items-IsApart [] d = tt
  items-IsApart (none ∷ entries) d =
      items-IsApart entries (λ i j a b e f g. omega (arith, d (suc i) (suc j) a b e f g))
  items-IsApart (some a ∷ entries) d = (
    All-items _ entries (λ j b e. elim (Bool-cases (keys.same_or_equal a.0 b.0)) [
      | inl h ↦ absurd (omega (arith, d 0 (suc j) a b refl e h))
      | inr h ↦ h
    ]),
    items-IsApart entries (λ i j a b e f g. omega (arith, d (suc i) (suc j) a b e f g)),
  )

  -- The new arrays as a table, while the loop fills them.
  abbrev pub partial : ℕ → ℕ → List (Entry K V) → List Index → Table K V
  partial capacity i entries indexes = record {
    count = i;
    capacity = capacity;
    used = i;
    entries = entries;
    indexes = indexes;
  }

  -- The slot where the loop puts an entry, and the table with it.
  data Puts (capacity i : ℕ) (nentries : List (Entry K V)) (nindexes : List Index) (a : K × V)
      : Slot → Type ℓ where
    puts :
        (s : ℕ)
        → IsBuilt (with_entry (partial capacity i nentries nindexes) s a.0 a.1)
        → Puts capacity i nentries nindexes a (slot s)

  -- The entries that are still to come are new to the array with one more of them.
  fresh_after :
      (entries nentries : List (Entry K V)) (i : ℕ) (a : K × V)
      → i < length nentries
      → All (λ b. IsAbsent b.0 nentries) (items entries)
      → All (λ b. keys.same_or_equal a.0 b.0 ≡ false) (items entries)
      → All (λ b. IsAbsent b.0 (set nentries i (some a))) (items entries)
  fresh_after entries nentries i a inside =
      All-both (λ b. IsAbsent b.0 nentries) (λ b. keys.same_or_equal a.0 b.0 ≡ false)
        (λ b. IsAbsent b.0 (set nentries i (some a))) (items entries)
        (λ b old new j c h. elim (ℕ_discrete i j) [
          | yes p ↦
              let here : get_or (set nentries i (some a)) j none ≡ some a =
                subst (λ k. get_or (set nentries i (some a)) k none ≡ some a) p
                  (get_or-set_self nentries i (some a) none inside) in
              let is : a ≡ c = some_injective (sym here ∙ h) in
              subst (λ (x : K × V). keys.same_or_equal x.0 b.0 ≡ false) is new
          | no p ↦ old j c (sym (get_or-set_ne nentries i j (some a) none p) ∙ h)
        ])

  module _ (capacity i : ℕ) (nentries : List (Entry K V)) (nindexes : List Index)
      (v : IsBuilt (partial capacity i nentries nindexes)) (a : K × V)
      (absent : IsAbsent a.0 nentries) (hash : ℕ) (hashed : keys.hash a.0 ≡ some hash)
      (room : 4 * (i + 1) ≤ 3 * capacity) where
    -- The entry is stored before its slot is looked for; no slot leads to it yet.
    abbrev stored : List (Entry K V)
    stored = set nentries i (some a)

    unled : (r : ℕ) → get_or nindexes r unused ≢ at i
    unled r e = v.full r i e (v.gap i (omega arith))

    same_match :
        (j : ℕ) (b : Bool)
        → i ≢ j
        → matches keys.same stored j a.0 ≡ b
        → matches keys.same nentries j a.0 ≡ b
    same_match j b ne e = rw (get_or-set_ne nentries i j (some a) none ne, matches) at e

    -- No slot leads to an entry with the key, so probing finds a place for it.
    placing :
        Outcome keys.same stored nindexes capacity a.0
          (hash % capacity)
          (index_key keys.same stored nindexes capacity a.0)
    placing =
        index_key_lem keys.same stored nindexes capacity v.width a.0 hash hashed v.power
          v.indexes_sized
          (let pos = one-le-pow v.width 2 (omega arith) in omega (arith, v.load, v.filled, v.power))

    not-Found : (s : ℕ) → Found keys.same stored nindexes capacity a.0 (hash % capacity) s → ⊥
    not-Found s f =
        let other : i ≢ f.entry = λ p. unled s (rw p f.leads) in
        let (b, here, same) =
          matched keys.same nentries f.entry a.0 (same_match f.entry true other f.same) in
        let e = sym (absent f.entry b here) ∙ keys.equal_of_same b.0 a.0 same in cc

    Vacant-before :
        (s : ℕ)
        → Vacant keys.same stored nindexes capacity a.0 (hash % capacity) s
        → Vacant keys.same nentries nindexes capacity a.0 (hash % capacity) s
    Vacant-before s f = record {
      free = f.free;
      distance = f.distance;
      near = f.near;
      place = f.place;
      reached = f.reached;
      stop = f.stop;
      stop_near = f.stop_near;
      stops = f.stops;
      missed = λ e j h at_j.
          same_match j false (λ p. unled ((hash % capacity + e) % capacity) (rw p at_j))
            (f.missed e j h at_j);
    }

    index_key-Puts :
        Puts capacity i nentries nindexes a (index_key keys.same stored nindexes capacity a.0)
    index_key-Puts = by_outcome _ placing
      where
        by_outcome :
            (x : Slot)
            → Outcome keys.same stored nindexes capacity a.0 (hash % capacity) x
            → Puts capacity i nentries nindexes a x
        by_outcome unhashable o = absurd o
        by_outcome endless o = absurd o
        by_outcome (slot s) (inl f) = absurd (not-Found s f)
        by_outcome (slot s) (inr f) = puts s (
            with_entry-IsBuilt keys.same (partial capacity i nentries nindexes) v a.0 a.1 hash s
              hashed room absent (Vacant-before s f))

  -- The loop ends, and the new arrays hold the items in the same order.
  pub data Rebuilt (capacity n : ℕ) (xs : List (K × V))
      : Run (List (Entry K V) × List Index) → Type ℓ where
    rebuilt :
        {nentries : List (Entry K V)} {nindexes : List Index}
        → IsBuilt (partial capacity n nentries nindexes)
        → items nentries ≡ xs
        → Rebuilt capacity n xs (returns (nentries, nindexes))

  pub rebuild-Rebuilt :
      (capacity : ℕ) (entries : List (Entry K V)) (left i : ℕ) (nentries : List (Entry K V))
      (nindexes : List Index)
      → IsBuilt (partial capacity i nentries nindexes)
      → left ≡ length (items entries)
      → 4 * (i + left) ≤ 3 * capacity
      → All (λ a. IsAbsent a.0 nentries) (items entries)
      → IsApart (items entries)
      → All IsHashable (items entries)
      → Rebuilt capacity
          (i + left)
          (items nentries ++ items entries)
          (rebuild capacity entries left i nentries nindexes)
  unfolding rebuild
  rebuild-Rebuilt capacity [] zero i nentries nindexes v e room fresh apart hashable =
      rw (add-zero, append-nil) (rebuilt v refl)
  rebuild-Rebuilt capacity [] (suc left) i nentries nindexes v e room fresh apart hashable =
      absurd (omega arith)
  rebuild-Rebuilt capacity (none ∷ entries) left i nentries nindexes v e room fresh apart hashable =
      rebuild-Rebuilt capacity entries left i nentries nindexes v e room fresh apart hashable
  rebuild-Rebuilt capacity (some a ∷ entries) zero i nentries nindexes v e room fresh apart
        hashable =
      absurd (omega arith)
  rebuild-Rebuilt capacity (some a ∷ entries) (suc left) i nentries nindexes v e room fresh apart
        hashable =
      step _
        (index_key-Puts capacity i nentries nindexes v a fresh.0 hashable.0.0 hashable.0.1
          (omega arith))
        (λ s built.
          rebuild-Rebuilt capacity entries left (i + 1) stored (set nindexes s (at i)) built
            (omega arith) (omega arith) (fresh_after entries nentries i a inside fresh.1 apart.0)
            apart.1 hashable.1)
    where
      stored : List (Entry K V)
      stored = set nentries i (some a)

      inside : i < length nentries
      inside =
          let pos = one-le-pow v.width 2 (omega arith) in
          omega (arith, v.entries_sized, v.power, v.filled)

      total : i + 1 + left ≡ i + suc left
      total = omega arith

      order : items stored ++ items entries ≡ items nentries ++ (a ∷ items entries)
      order =
          rw (items-append nentries i a inside v.gap)
            (append_assoc (items nentries) (a ∷ []) (items entries))

      step :
          (x : Slot)
          → Puts capacity i nentries nindexes a x
          → ((s : ℕ)
              → IsBuilt (with_entry (partial capacity i nentries nindexes) s a.0 a.1)
              → Rebuilt capacity
                  (i + 1 + left)
                  (items stored ++ items entries)
                  (rebuild capacity entries left (i + 1) stored (set nindexes s (at i))))
          → Rebuilt capacity (i + suc left) (items nentries ++ (a ∷ items entries)) (elim x [
            | slot s ↦ rebuild capacity entries left (i + 1) stored (set nindexes s (at i))
            | unhashable ↦ fault
            | endless ↦ fault
          ])
      step _ (puts s built) rec = rw (← total, ← order) (rec s built)

  pub Rebuilt-returns :
      (capacity n : ℕ) (xs : List (K × V)) (r : Run (List (Entry K V) × List Index))
      → Rebuilt capacity n xs r
      → (nentries : List (Entry K V)) × (nindexes : List Index) × (r ≡ returns (nentries, nindexes))
        × IsBuilt (partial capacity n nentries nindexes)
        × (items nentries ≡ xs)
  Rebuilt-returns capacity n xs _ (rebuilt {nentries} {nindexes} v e) =
      (nentries, nindexes, refl, v, e)
