-- ===== src/Table/Invariant.antt =====
-- src/table.c: the invariant of a table.
use kuroko.Prelude.{
  ℕ, ◌+◌, ◌*◌, ◌%◌, ◌^◌, ◌≤◌, ◌<◌, ◌≡◌, ◌≢◌, ◌⊎◌, true, none, some, List, length, get_or,
}
use kuroko.Table.Free.{occupied}
use kuroko.Table.Items.{items, IsGapFrom}
use kuroko.Table.Key.{Keys}
use kuroko.Table.{Index, unused, at, Table, init}

module _ {ℓ} {K : Type ℓ} ⦃keys : Keys K⦄ where
  -- An entry is found by probing from the home slot of its key: no slot before its own is unused.
  pub record Placed (indexes : List Index) (capacity : ℕ) (key : K) (i : ℕ) : Type ℓ where
    pub hash : ℕ
    pub hashed : keys.hash key ≡ some hash
    pub distance : ℕ
    pub near : distance < capacity
    pub leads : get_or indexes ((hash % capacity + distance) % capacity) unused ≡ at i
    pub reached :
        (e : ℕ) → e < distance → get_or indexes ((hash % capacity + e) % capacity) unused ≢ unused

module _ {ℓ} {K V : Type ℓ} ⦃keys : Keys K⦄ where
  pub record IsBuilt (t : Table K V) : Type ℓ where
    pub width : ℕ
    pub power : t.capacity ≡ 2 ^ width
    pub entries_sized : length t.entries ≡ t.capacity
    pub indexes_sized : length t.indexes ≡ t.capacity
    pub filled : 4 * t.used ≤ 3 * t.capacity
    pub load : occupied t.indexes ≤ t.used
    pub gap : IsGapFrom t.used t.entries
    pub counted : t.count ≡ length (items t.entries)
    pub full : (s j : ℕ) → get_or t.indexes s unused ≡ at j → get_or t.entries j none ≢ none
    pub once :
        (s r j : ℕ) → get_or t.indexes s unused ≡ at j → get_or t.indexes r unused ≡ at j → s ≡ r
    pub placed :
        (j : ℕ) (a : K × V) → get_or t.entries j none ≡ some a → Placed t.indexes t.capacity a.0 j
    pub distinct :
        (i j : ℕ) (a b : K × V)
        → get_or t.entries i none ≡ some a
        → get_or t.entries j none ≡ some b
        → keys.same_or_equal a.0 b.0 ≡ true
        → i ≡ j

  -- A table is empty with no memory, as `krk_initTable` leaves it, or built.
  abbrev pub IsTable : Table K V → Type ℓ
  IsTable t = (t ≡ init) ⊎ IsBuilt t
