-- ===== src/Table/Get.antt =====
-- src/table.c: `krk_tableGet` on the items of a table.
use kuroko.Prelude.{
  ℕ, ◌≡◌, refl, inl, inr, true, Bool-cases, ◌==◌, none, some, List, [], ◌∷◌, arith, get_or, length,
}
use kuroko.Table.Find.{Held, Lookup, held, absent, index_key-Lookup}
use kuroko.Table.Invariant.{IsBuilt, IsTable}
use kuroko.Table.Items.{items, lookup, IsAbsent, absent_lem, present_lem}
use kuroko.Table.Key.{Keys}
use kuroko.Table.Probe.{is_unused, is_tombstone, is_at, index_cases}
use kuroko.Table.{unused, Table, Slot, returns, init, index_key}
use kuroko.Table.Ops.{find_entry, get}

module _ {ℓ} {K V : Type ℓ} ⦃keys : Keys K⦄ where
  items_empty : (xs : List (K × V)) → length xs ≡ 0 → xs ≡ []
  items_empty [] h = refl
  items_empty (x ∷ xs) h = absurd (omega arith)

module _ {ℓ} {K V : Type ℓ} ⦃keys : Keys K⦄ (t : Table K V) (v : IsBuilt t) (key : K) where
  -- What looking for a key comes to: its only entry, or that no entry has the key.
  pub data Search : Type ℓ where
    is_held :
        (s : ℕ) (h : Held t key s)
        → find_entry keys.same_or_equal t key ≡ returns (some (s, h.index))
        → Search
    is_absent : IsAbsent key t.entries → find_entry keys.same_or_equal t key ≡ returns none → Search

  search_by :
      (hash : ℕ) (x : Slot)
      → index_key keys.same_or_equal t.entries t.indexes t.capacity key ≡ x
      → Lookup t v key hash x
      → Search
  unfolding find_entry
  search_by hash _ e (held s h) = is_held s h (rw (e, h.leads, find_entry))
  search_by hash _ e (absent s f a) = is_absent a (elim (index_cases (get_or t.indexes s unused)) [
    | is_unused h ↦ rw (e, h, find_entry)
    | is_tombstone h ↦ rw (e, h, find_entry)
    | is_at i h ↦ absurd (rw h at (f.free))
  ])

  pub search_lem : (hash : ℕ) → keys.hash key ≡ some hash → Search
  search_lem hash hashed = search_by hash _ refl (index_key-Lookup t v key hash hashed)

  -- A table that counts no entries has no items.
  pub no_items : (t.count == 0) ≡ true → items t.entries ≡ []
  no_items e =
      let z : t.count ≡ 0 = ground arith in items_empty (items t.entries) (omega (arith, v.counted))

module _ {ℓ} {K V : Type ℓ} ⦃keys : Keys K⦄ (t : Table K V) (key : K) (hash : ℕ)
    (hashed : keys.hash key ≡ some hash) where
  get_built : IsBuilt t → get t key ≡ returns (lookup key (items t.entries))
  unfolding get lookup
  get_built v = elim (Bool-cases (t.count == 0)) [
    | inl e ↦ rw (no_items t v key e, e, get)
    | inr e ↦ elim (search_lem t v key hash hashed) [
      | is_held s h run ↦
          let p = present_lem key t.entries h.index h.entry h.here h.same h.only in
          rw (p.lookup_some, e, run, h.here, get)
      | is_absent a run ↦ let p = absent_lem key t.entries a in rw (p.lookup_none, e, run, get)
    ]
  ]

  get-init : get init key ≡ returns (lookup key (items (init {K = K} {V = V}).entries))
  unfolding get init lookup
  get-init = refl

  -- `krk_tableGet` of a hashable key from a well-formed table ends, and returns the value of the
  -- first item whose key is the same or equal, or finds nothing where there is none.
  pub get_lem : IsTable t → get t key ≡ returns (lookup key (items t.entries))
  get_lem (inl e) = rw e get-init
  get_lem (inr v) = get_built v
