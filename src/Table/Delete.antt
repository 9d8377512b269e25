-- ===== src/Table/Delete.antt =====
-- src/table.c: `krk_tableDelete` and `krk_tableSetIfExists` on the items of a table.
use kuroko.Prelude.{
  ℕ, ◌-◌, ◌≡◌, refl, sym, inl, inr, Bool, true, false, Bool-cases, ◌==◌, none, some, if◌then◌else◌,
  get_or, set,
}
use kuroko.Table.Change.{changed-IsBuilt, deleted-IsBuilt}
use kuroko.Table.Get.{is_held, is_absent, search_lem, no_items}
use kuroko.Table.Invariant.{IsBuilt, IsTable}
use kuroko.Table.Items.{items, has, put, remove, absent_lem, present_lem}
use kuroko.Table.Key.{Keys}
use kuroko.Table.{tombstone, Table, returns, init}
use kuroko.Table.Ops.{find_entry, delete_with, delete, insert_if_exists}

module _ {ℓ} {K V : Type ℓ} ⦃keys : Keys K⦄ (key : K) where
  -- The table after a deletion, and whether the key was there.
  pub record Deleted (t : Table K V) (r : Table K V × Bool) : Type ℓ where
    pub valid : IsTable r.0
    pub result : items r.0.entries ≡ remove key (items t.entries)
    pub found : r.1 ≡ has key (items t.entries)

  -- The table after an update of a key that is present, and whether it was.
  pub record Updated (value : V) (t : Table K V) (r : Table K V × Bool) : Type ℓ where
    pub valid : IsTable r.0
    pub result :
        items r.0.entries
        ≡ (if has key (items t.entries) then put key value (items t.entries) else items t.entries)
    pub found : r.1 ≡ has key (items t.entries)

  delete-init : (r : Table K V × Bool) × (delete init key ≡ returns r) × Deleted init r
  unfolding delete delete_with init remove has
  delete-init = ((init, false), refl, record { valid = inl refl; result = refl; found = refl })

  update_init :
      (value : V)
      → (r : Table K V × Bool) × (insert_if_exists init key value ≡ returns r)
        × Updated value init r
  unfolding insert_if_exists init has
  update_init value =
      ((init, false), refl, record { valid = inl refl; result = refl; found = refl })

  module _ (t : Table K V) where
    delete_nothing : (t.count == 0) ≡ true → delete t key ≡ returns (t, false)
    unfolding delete delete_with
    delete_nothing e = rw (e, delete_with)

    delete_missing :
        (t.count == 0) ≡ false
        → find_entry keys.same_or_equal t key ≡ returns none
        → delete t key ≡ returns (t, false)
    unfolding delete delete_with
    delete_missing e f = rw (e, f, delete_with)

    delete_found :
        (s i : ℕ)
        → (t.count == 0) ≡ false
        → find_entry keys.same_or_equal t key ≡ returns (some (s, i))
        → delete t key
          ≡ returns (
            record t {
              count = t.count - 1;
              entries = set t.entries i none;
              indexes = set t.indexes s tombstone;
            },
            true,
          )
    unfolding delete delete_with
    delete_found s i e f = rw (e, f, delete_with)

    unchanged-Deleted :
        IsBuilt t
        → has key (items t.entries) ≡ false
        → remove key (items t.entries) ≡ items t.entries
        → Deleted t (t, false)
    unchanged-Deleted v h r = record { valid = inr v; result = sym r; found = sym h }

    delete_built :
        (hash : ℕ)
        → keys.hash key ≡ some hash
        → IsBuilt t
        → (r : Table K V × Bool) × (delete t key ≡ returns r) × Deleted t r
    unfolding has remove
    delete_built hash hashed v = elim (Bool-cases (t.count == 0)) [
      | inl e ↦
          let z = no_items t v key e in
          (_, delete_nothing e, unchanged-Deleted v (rw z refl) (rw z refl))
      | inr e ↦ elim (search_lem t v key hash hashed) [
        | is_held s h run ↦
            let p = present_lem key t.entries h.index h.entry h.here h.same h.only in
            (
              _,
              delete_found s h.index e run,
              record {
                valid = inr (deleted-IsBuilt t v h.index h.entry h.here s h.leads);
                result = p.remove_set;
                found = sym (p.has_it);
              },
            )
        | is_absent a run ↦
            let p = absent_lem key t.entries a in
            (_, delete_missing e run, unchanged-Deleted v (p.has_not) (p.remove_none))
      ]
    ]

  -- `krk_tableDelete` of a hashable key on a well-formed table ends; the result is well-formed
  -- again, its items are those of before without the key's, and it returns whether it was present.
  pub delete_lem :
      (hash : ℕ) (t : Table K V)
      → keys.hash key ≡ some hash
      → IsTable t
      → (r : Table K V × Bool) × (delete t key ≡ returns r) × Deleted t r
  delete_lem hash t hashed (inl e) = rw e delete-init
  delete_lem hash t hashed (inr v) = delete_built t hash hashed v

  module _ (value : V) (t : Table K V) where
    update_nothing : (t.count == 0) ≡ true → insert_if_exists t key value ≡ returns (t, false)
    unfolding insert_if_exists
    update_nothing e = rw (e, insert_if_exists)

    update_missing :
        (t.count == 0) ≡ false
        → find_entry keys.same_or_equal t key ≡ returns none
        → insert_if_exists t key value ≡ returns (t, false)
    unfolding insert_if_exists
    update_missing e f = rw (e, f, insert_if_exists)

    update_found :
        (s i : ℕ) (a : K × V)
        → (t.count == 0) ≡ false
        → find_entry keys.same_or_equal t key ≡ returns (some (s, i))
        → get_or t.entries i none ≡ some a
        → insert_if_exists t key value
          ≡ returns (record t { entries = set t.entries i (some (a.0, value)) }, true)
    unfolding insert_if_exists
    update_found s i a e f here = rw (e, f, here, insert_if_exists)

    unchanged-Updated : IsBuilt t → has key (items t.entries) ≡ false → Updated value t (t, false)
    unchanged-Updated v h = record { valid = inr v; result = rw h; found = sym h }

    update_built :
        (hash : ℕ)
        → keys.hash key ≡ some hash
        → IsBuilt t
        → (r : Table K V × Bool) × (insert_if_exists t key value ≡ returns r) × Updated value t r
    unfolding has
    update_built hash hashed v = elim (Bool-cases (t.count == 0)) [
      | inl e ↦ let z = no_items t v key e in (_, update_nothing e, unchanged-Updated v (rw z refl))
      | inr e ↦ elim (search_lem t v key hash hashed) [
        | is_held s h run ↦
            let p = present_lem key t.entries h.index h.entry h.here h.same h.only in
            (
              _,
              update_found s h.index h.entry e run h.here,
              record {
                valid = inr (changed-IsBuilt t v h.index h.entry h.here value);
                result = rw (p.has_it) (p.put_set value);
                found = sym (p.has_it);
              },
            )
        | is_absent a run ↦
            (_, update_missing e run, unchanged-Updated v (absent_lem key t.entries a).has_not)
      ]
    ]

  -- `krk_tableSetIfExists` of a hashable key on a well-formed table ends with a well-formed table;
  -- where the key is present its item gets the value, otherwise the items stay, and it returns
  -- whether the key was present.
  pub insert_if_exists_lem :
      (value : V) (hash : ℕ) (t : Table K V)
      → keys.hash key ≡ some hash
      → IsTable t
      → (r : Table K V × Bool) × (insert_if_exists t key value ≡ returns r) × Updated value t r
  insert_if_exists_lem value hash t hashed (inl e) = rw e (update_init value)
  insert_if_exists_lem value hash t hashed (inr v) = update_built value t hash hashed v
