-- ===== src/Table/Find.antt =====
-- src/table.c: what a slot that probing finds says of the entries of a built table.
use native.Mathlib.Nat.{one-le-pow}
use kuroko.Prelude.{
  ℕ, ◌+◌, ◌%◌, ◌<◌, ◌≡◌, ◌≢◌, sym, subst, ◌∙◌, inl, inr, Bool, true, false, Bool-cases, none, some,
  Option-cases, List, arith, get_or, dec_lt,
}
use kuroko.Table.Free.{occupied, index_key_lem}
use kuroko.Table.Items.{IsAbsent, IsOnly}
use kuroko.Table.Invariant.{IsBuilt}
use kuroko.Table.Key.{Keys}
use kuroko.Table.Place.{some_injective}
use kuroko.Table.Probe.{Found, Vacant, Outcome}
use kuroko.Table.{unused, at, Entry, Table, Slot, slot, unhashable, endless, index_key, matches}

module _ {ℓ} {K V : Type ℓ} ⦃keys : Keys K⦄ where
  pub matched :
      (comparator : K → K → Bool) (entries : List (Entry K V)) (i : ℕ) (key : K)
      → matches comparator entries i key ≡ true
      → (a : K × V) × (get_or entries i none ≡ some a) × (comparator a.0 key ≡ true)
  matched comparator entries i key e = elim (Option-cases (get_or entries i none)) [
    | inl h ↦ let f = rw (h, matches) at e in cc
    | inr (a, h) ↦ (a, h, rw (h, matches) at e)
  ]

  -- The only entry of a key, and the slot that leads to it.
  pub record Held (t : Table K V) (key : K) (s : ℕ) : Type ℓ where
    pub index : ℕ
    pub entry : K × V
    pub leads : get_or t.indexes s unused ≡ at index
    pub here : get_or t.entries index none ≡ some entry
    pub same : keys.same_or_equal entry.0 key ≡ true
    pub only : IsOnly key index t.entries

  module _ (t : Table K V) (v : IsBuilt t) (key : K) where
    module _ (home s : ℕ) where
      Found-Held : Found keys.same_or_equal t.entries t.indexes t.capacity key home s → Held t key s
      Found-Held f =
          let (a, here, same) = matched keys.same_or_equal t.entries f.entry key f.same in
          record {
            index = f.entry;
            entry = a;
            leads = f.leads;
            here = here;
            same = same;
            only = λ i b e ne. elim (Bool-cases (keys.same_or_equal b.0 key)) [
              | inl h ↦ absurd (
                  ne (
                    v.distinct i f.entry b a e here
                      (keys.equal_trans b.0 key a.0 h (keys.equal_symm key a.0 ∙ same))))
              | inr h ↦ h
            ];
          }

    -- An entry with a key that the comparator accepts is met before an unused slot, if its home
    -- slot is that of the key.
    missed_absent :
        (comparator : K → K → Bool) (hash s : ℕ)
        → Vacant comparator t.entries t.indexes t.capacity key (hash % t.capacity) s
        → (i : ℕ) (a : K × V) → get_or t.entries i none ≡ some a
        → keys.hash a.0 ≡ some hash
        → comparator a.0 key ≡ false
    missed_absent comparator hash s f i a e hashed =
        let p = v.placed i a e in
        let same_home : p.hash ≡ hash = some_injective (sym p.hashed ∙ hashed) in
        let leads =
          subst (λ h. get_or t.indexes ((h % t.capacity + p.distance) % t.capacity) unused ≡ at i)
            same_home p.leads in
        let reached =
          subst
            (λ h.
              (e : ℕ)
              → e < p.distance
              → get_or t.indexes ((h % t.capacity + e) % t.capacity) unused ≢ unused)
            same_home p.reached in
        elim (dec_lt p.distance f.stop) [
          | yes near ↦ rw (e, matches) at (f.missed p.distance i near leads)
          | no far ↦ elim (dec_lt f.stop p.distance) [
            | yes beyond ↦ absurd (reached f.stop beyond f.stops)
            | no not_beyond ↦
                let equal : p.distance ≡ f.stop = omega arith in
                let g =
                  sym f.stops
                  ∙ subst
                      (λ d. get_or t.indexes ((hash % t.capacity + d) % t.capacity) unused ≡ at i)
                      equal leads in
                cc
          ]
        ]

    Vacant-IsAbsent :
        (hash s : ℕ)
        → keys.hash key ≡ some hash
        → Vacant keys.same_or_equal t.entries t.indexes t.capacity key (hash % t.capacity) s
        → IsAbsent key t.entries
    Vacant-IsAbsent hash s hashed f i a e = elim (Bool-cases (keys.same_or_equal a.0 key)) [
      | inl h ↦ missed_absent keys.same_or_equal hash s f i a e (keys.hash-equal a.0 key h ∙ hashed)
      | inr h ↦ h
    ]

    -- Where probing ends for a key that is hashable: at its entry, or where one may be put.
    pub data Lookup (hash : ℕ) : Slot → Type ℓ where
      held : (s : ℕ) → Held t key s → Lookup hash (slot s)
      absent :
          (s : ℕ)
          → Vacant keys.same_or_equal t.entries t.indexes t.capacity key (hash % t.capacity) s
          → IsAbsent key t.entries
          → Lookup hash (slot s)

    pub index_key-Lookup :
        (hash : ℕ)
        → keys.hash key ≡ some hash
        → Lookup hash (index_key keys.same_or_equal t.entries t.indexes t.capacity key)
    index_key-Lookup hash hashed = by_outcome _ (
        index_key_lem keys.same_or_equal t.entries t.indexes t.capacity v.width key hash hashed
          v.power v.indexes_sized room)
      where
        room : occupied t.indexes < t.capacity
        room =
            let pos = one-le-pow v.width 2 (omega arith) in omega (arith, v.load, v.filled, v.power)

        by_outcome :
            (x : Slot)
            → Outcome keys.same_or_equal t.entries t.indexes t.capacity key (hash % t.capacity) x
            → Lookup hash x
        by_outcome unhashable o = absurd o
        by_outcome endless o = absurd o
        by_outcome (slot s) (inl f) = held s (Found-Held (hash % t.capacity) s f)
        by_outcome (slot s) (inr f) = absent s f (Vacant-IsAbsent hash s hashed f)
