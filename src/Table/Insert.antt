-- ===== src/Table/Insert.antt =====
-- src/table.c: `krk_tableSet` on the items of a table.
use kuroko.Prelude.{
  ℕ, ◌+◌, ◌*◌, ◌≤◌, ◌≡◌, ◌≢◌, refl, sym, ◌∙◌, Bool, true, false, not, none, some, arith, get_or,
  set,
}
use kuroko.Table.Change.{changed-IsBuilt}
use kuroko.Table.Find.{Lookup, held, absent, index_key-Lookup}
use kuroko.Table.Free.{index_key-unhashable}
use kuroko.Table.Invariant.{IsBuilt, IsTable}
use kuroko.Table.Items.{items, items-append, has, put, absent_lem, present_lem}
use kuroko.Table.Key.{Keys}
use kuroko.Table.Place.{with_entry, with_entry-IsBuilt}
use kuroko.Table.Probe.{is_unused, is_tombstone, is_at, index_cases}
use kuroko.Table.{unused, at, Table, Slot, slot, returns, index_key, place, make_room, set_with}
use kuroko.Table.Ops.{insert}
use kuroko.Table.Room.{make_room_lem}

module _ {ℓ} {K V : Type ℓ} ⦃keys : Keys K⦄ (key : K) (value : V) where
  -- The table after a set, and whether the key was new.
  pub record Inserted (t : Table K V) (r : Table K V × Bool) : Type ℓ where
    pub built : IsBuilt r.0
    pub result : items r.0.entries ≡ put key value (items t.entries)
    pub new : r.1 ≡ not (has key (items t.entries))

  module _ (t : Table K V) where
    abbrev slot_of : Slot
    slot_of = index_key keys.same_or_equal t.entries t.indexes t.capacity key

    place_held :
        (s i : ℕ) (a : K × V)
        → slot_of ≡ slot s
        → get_or t.indexes s unused ≡ at i
        → get_or t.entries i none ≡ some a
        → place keys.same_or_equal t key value
          ≡ returns (record t { entries = set t.entries i (some (a.0, value)) }, false)
    unfolding place
    place_held s i a e leads here = rw (e, leads, here, place)

    place_free :
        (s : ℕ)
        → slot_of ≡ slot s
        → ((i : ℕ) → get_or t.indexes s unused ≢ at i)
        → place keys.same_or_equal t key value ≡ returns (with_entry t s key value, true)
    unfolding place
    place_free s e free = elim (index_cases (get_or t.indexes s unused)) [
      | is_unused h ↦ rw (e, h, place)
      | is_tombstone h ↦ rw (e, h, place)
      | is_at i h ↦ absurd (free i h)
    ]

    place_unhashable :
        keys.hash key ≡ none → place keys.same_or_equal t key value ≡ returns (t, false)
    unfolding place
    place_unhashable h =
        rw (index_key-unhashable keys.same_or_equal t.entries t.indexes t.capacity 0 key h, place)

    place_by :
        (hash : ℕ) (x : Slot) (v : IsBuilt t)
        → keys.hash key ≡ some hash
        → 4 * (t.used + 1) ≤ 3 * t.capacity
        → slot_of ≡ x
        → Lookup t v key hash x
        → (r : Table K V × Bool) × (place keys.same_or_equal t key value ≡ returns r) × Inserted t r
    place_by hash _ v hashed room e (held s h) =
        let p = present_lem key t.entries h.index h.entry h.here h.same h.only in
        (
          _,
          place_held s h.index h.entry e h.leads h.here,
          record {
            built = changed-IsBuilt t v h.index h.entry h.here value;
            result = p.put_set value;
            new = rw (p.has_it) refl;
          },
        )
    place_by hash _ v hashed room e (absent s f a) =
        let p = absent_lem key t.entries a in
        (
          _,
          place_free s e (λ i q. rw q at (f.free)),
          record {
            built = with_entry-IsBuilt keys.same_or_equal t v key value hash s hashed room a f;
            result =
                items-append t.entries t.used (key, value) (omega (arith, v.entries_sized)) v.gap
                ∙ sym (p.put_append value);
            new = rw (p.has_not) refl;
          },
        )

  set_with-place :
      (t r : Table K V)
      → make_room t ≡ returns r
      → insert t key value ≡ place keys.same_or_equal r key value
  unfolding insert set_with
  set_with-place t r e = rw (e, set_with)

  -- `krk_tableSet` of a hashable key on a well-formed table ends; the result is well-formed again,
  -- its items in order are those of before with the value put under the key (in place for a key
  -- that is present, at the end for a new one), and it returns whether the key was new.
  pub insert-items :
      (hash : ℕ) (t : Table K V)
      → keys.hash key ≡ some hash
      → IsTable t
      → (r : Table K V × Bool) × (insert t key value ≡ returns r) × Inserted t r
  insert-items hash t hashed valid =
      let (grown, run, z) = make_room_lem t valid in
      let (r, placed, i) =
        place_by grown hash _ z.built hashed z.room refl
          (index_key-Lookup grown z.built key hash hashed) in
      (
        r,
        set_with-place t grown run ∙ placed,
        record { built = i.built; result = rw (← z.same) (i.result); new = rw (← z.same) (i.new) },
      )

  -- `krk_tableSet` of a key that is not hashable on a well-formed table ends and returns false; the
  -- result is well-formed and has the same items.
  pub insert_unhashable :
      (t : Table K V)
      → keys.hash key ≡ none
      → IsTable t
      → (r : Table K V) × (insert t key value ≡ returns (r, false))
        × IsBuilt r
        × (items r.entries ≡ items t.entries)
  insert_unhashable t h valid =
      let (grown, run, z) = make_room_lem t valid in
      (grown, set_with-place t grown run ∙ place_unhashable grown h, z.built, z.same)
