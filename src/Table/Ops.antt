-- ===== src/Table/Ops.antt =====
-- src/table.c: the operations on a table, by those of the parent.
use kuroko.Prelude.{
  ℕ, ◌-◌, Bool, true, false, Option, none, some, List, [], ◌∷◌, ◌==◌, if◌then◌else◌, get_or, set,
}
use kuroko.Table.Key.{Keys}
use kuroko.Table.{
  unused, tombstone, at, Entry, Table, slot, unhashable, endless, Run, fault, returns, index_key,
  set_with,
}

abbrev pub value_of {ℓ} : {K V : Type ℓ} → Entry K V → Option V
value_of none = none
value_of (some entry) = some entry.1

module _ {ℓ} {K V : Type ℓ} ⦃keys : Keys K⦄ where
  -- `krk_tableSet`; false for an update, and for a key that is not hashable.
  unfoldable pub insert : Table K V → K → V → Run (Table K V × Bool)
  unfolding set_with
  insert table key value = set_with keys.same_or_equal table key value

  -- `krk_tableSetExact`
  unfoldable pub insert_exact : Table K V → K → V → Run (Table K V × Bool)
  unfolding set_with
  insert_exact table key value = set_with keys.same table key value

  -- The entry that the slot of a key leads to: `index < 0 || indexes[index] < 0` is `none`.
  unfoldable pub find_entry : (K → K → Bool) → Table K V → K → Run (Option (ℕ × ℕ))
  unfolding index_key
  find_entry comparator table key =
      elim (index_key comparator table.entries table.indexes table.capacity key) [
        | endless ↦ fault
        | unhashable ↦ returns none
        | slot index ↦ elim (get_or table.indexes index unused) [
          | at i ↦ returns (some (index, i))
          | _ ↦ returns none
        ]
      ]

  -- `krk_tableGet`; `none` where it returns 0.
  unfoldable pub get : Table K V → K → Run (Option V)
  unfolding find_entry
  get table key =
      if table.count == 0 then returns none else elim (find_entry keys.same_or_equal table key) [
        | fault ↦ fault
        | returns none ↦ returns none
        | returns (some (index, i)) ↦ returns (value_of (get_or table.entries i none))
      ]

  -- `krk_tableSetIfExists`
  unfoldable pub insert_if_exists : Table K V → K → V → Run (Table K V × Bool)
  unfolding find_entry
  insert_if_exists table key value =
      if table.count == 0
      then returns (table, false)
      else elim (find_entry keys.same_or_equal table key) [
        | fault ↦ fault
        | returns none ↦ returns (table, false)
        | returns (some (index, i)) ↦ returns (
          record table {
            entries = set table.entries i (elim (get_or table.entries i none) [
              | none ↦ none
              | some entry ↦ some (entry.0, value)
            ]);
          },
          true,
        )
      ]

  -- `krk_tableDelete` and `krk_tableDeleteExact`, by their comparator.
  unfoldable pub delete_with : (K → K → Bool) → Table K V → K → Run (Table K V × Bool)
  unfolding find_entry
  delete_with comparator table key =
      if table.count == 0 then returns (table, false) else elim (find_entry comparator table key) [
        | fault ↦ fault
        | returns none ↦ returns (table, false)
        | returns (some (index, i)) ↦ returns (
          record table {
            count = table.count - 1;
            entries = set table.entries i none;
            indexes = set table.indexes index tombstone;
          },
          true,
        )
      ]

  unfoldable pub delete : Table K V → K → Run (Table K V × Bool)
  unfolding delete_with
  delete table key = delete_with keys.same_or_equal table key

  unfoldable pub delete_exact : Table K V → K → Run (Table K V × Bool)
  unfolding delete_with
  delete_exact table key = delete_with keys.same table key

  -- `krk_tableAddAll`: the entries of `from` that are left, and `to`.
  unfoldable pub add_entries : List (Entry K V) → Table K V → Run (Table K V)
  unfolding insert
  add_entries [] to = returns to
  add_entries (none ∷ entries) to = add_entries entries to
  add_entries (some entry ∷ entries) to = elim (insert to entry.0 entry.1) [
    | fault ↦ fault
    | returns (to', _) ↦ add_entries entries to'
  ]

  unfoldable pub add_all : Table K V → Table K V → Run (Table K V)
  unfolding add_entries
  add_all from to = add_entries from.entries to
