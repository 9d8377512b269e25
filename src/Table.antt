-- ===== src/Table.antt =====
-- src/table.c, src/kuroko/table.h: the ordered hash map.
--
-- A key is a value of any type with a hash and two comparisons (`Keys`); a gap in the entries,
-- KWARGS_VAL(0) in the C code, is `none`. An operation returns the new table beside the C
-- function's result, or `fault` where its probing loop would not end or it would access memory
-- out of bounds.
pub mod Key
pub mod Ops
pub mod Probe
pub mod Free
pub mod Items
pub mod Invariant
pub mod Place
pub mod Change
pub mod Find
pub mod Rebuild
pub mod Grow
pub mod Room
pub mod Insert
pub mod Get
pub mod Delete
pub mod Dictionary
pub mod Fast
use Prim.Native.Nat.{bit_and}
use kuroko.Prelude.{
  ℕ, zero, suc, ◌+◌, ◌-◌, ◌*◌, ◌/◌, Bool, true, false, Option, none, some, List, [], ◌∷◌, ltb, ◌==◌,
  if◌then◌else◌, length, get_or, set, replicate,
}
use kuroko.Memory.{grow_capacity}
use kuroko.Table.Key.{Keys}

-- `-1`, `-2` and an index into the entries.
pub data Index : Type 0 where
  unused tombstone : Index
  at : ℕ → Index

abbrev pub Entry {ℓ} : Type ℓ → Type ℓ → Type ℓ
Entry K V = Option (K × V)

pub record Table {ℓ} (K V : Type ℓ) : Type ℓ where
  pub count : ℕ
  pub capacity : ℕ
  pub used : ℕ
  pub entries : List (Entry K V)
  pub indexes : List Index

pub data Slot : Type 0 where
  unhashable endless : Slot
  slot : ℕ → Slot

pub data Run {ℓ} (A : Type ℓ) : Type ℓ where
  fault : Run A
  returns : A → Run A

module _ {ℓ} {K V : Type ℓ} where
  unfoldable pub init : Table K V
  init = record { count = 0; capacity = 0; used = 0; entries = []; indexes = [] }

  module _ ⦃keys : Keys K⦄ (comparator : K → K → Bool) where
    -- `comparator(entries[i].key, key)`
    abbrev pub matches : List (Entry K V) → ℕ → K → Bool
    matches entries i key = elim (get_or entries i none) [
      | none ↦ false
      | some entry ↦ comparator entry.0 key
    ]

    -- The loop of `krk_tableIndexKeyC` with fuel, at `index` with the tombstone seen before.
    unfoldable pub probe : List (Entry K V) → List Index → ℕ → K → ℕ → ℕ → Option ℕ → Slot
    probe entries indexes capacity key zero index seen = endless
    probe entries indexes capacity key (suc fuel) index seen =
        let next = bit_and (index + 1) (capacity - 1) in
        elim (get_or indexes index unused) [
          | unused ↦ elim seen [ none ↦ slot index | some t ↦ slot t ]
          | tombstone ↦ elim seen [
            | none ↦ probe entries indexes capacity key fuel next (some index)
            | some t ↦ elim (t == index) [
              | true ↦ slot t
              | false ↦ probe entries indexes capacity key fuel next (some t)
            ]
          ]
          | at i ↦ elim (matches entries i key) [
            | true ↦ slot index
            | false ↦ probe entries indexes capacity key fuel next seen
          ]
        ]

    -- `krk_tableIndexKeyC`; as many rounds as there are slots are enough.
    unfoldable pub index_key : List (Entry K V) → List Index → ℕ → K → Slot
    unfolding probe
    index_key entries indexes capacity key = elim (keys.hash key) [
      | none ↦ unhashable
      | some hash ↦ probe entries indexes capacity key capacity (bit_and hash (capacity - 1)) none
    ]

module _ {ℓ} {K V : Type ℓ} ⦃keys : Keys K⦄ where
  -- The loop over the used entries, which skips gaps: `i` entries are placed and `left` are to
  -- come. A key that is no longer hashable would be written to index -1.
  unfoldable pub rebuild :
      ℕ
      → List (Entry K V)
      → ℕ
      → ℕ
      → List (Entry K V)
      → List Index
      → Run (List (Entry K V) × List Index)
  rebuild capacity [] zero i nentries nindexes = returns (nentries, nindexes)
  rebuild capacity [] (suc left) i nentries nindexes = fault
  rebuild capacity (none ∷ entries) left i nentries nindexes =
      rebuild capacity entries left i nentries nindexes
  rebuild capacity (some entry ∷ entries) zero i nentries nindexes = returns (nentries, nindexes)
  rebuild capacity (some entry ∷ entries) (suc left) i nentries nindexes =
      let nentries' = set nentries i (some entry) in
      elim (index_key keys.same nentries' nindexes capacity entry.0) [
        | slot s ↦ rebuild capacity entries left (i + 1) nentries' (set nindexes s (at i))
        | unhashable ↦ fault
        | endless ↦ fault
      ]

  unfoldable pub adjust_capacity : Table K V → ℕ → Run (Table K V)
  unfolding rebuild index_key
  adjust_capacity table capacity =
      elim (rebuild capacity table.entries table.count 0 (replicate capacity none)
        (replicate capacity unused)) [
          | fault ↦ fault
          | returns (nentries, nindexes) ↦ returns (record table {
            entries = nentries;
            indexes = nindexes;
            capacity = capacity;
            used = table.count;
          })
        ]

  -- Both setters, after the table has grown where it must.
  unfoldable pub place : (K → K → Bool) → Table K V → K → V → Run (Table K V × Bool)
  unfolding index_key
  place comparator table key value =
      elim (index_key comparator table.entries table.indexes table.capacity key) [
        | endless ↦ fault
        | unhashable ↦ returns (table, false)
        | slot index ↦ elim (get_or table.indexes index unused) [
          | at i ↦ returns (
            record table {
              entries = set table.entries i (elim (get_or table.entries i none) [
                | none ↦ none
                | some entry ↦ some (entry.0, value)
              ]);
            },
            false,
          )
          | _ ↦ returns (
            record {
              count = table.count + 1;
              capacity = table.capacity;
              used = table.used + 1;
              entries = set table.entries table.used (some (key, value));
              indexes = set table.indexes index (at table.used);
            },
            true,
          )
        ]
      ]

  -- The test for growth with which both setters begin.
  unfoldable pub make_room : Table K V → Run (Table K V)
  unfolding adjust_capacity
  make_room table =
      if ltb (table.capacity * 3 / 4) (table.used + 1)
      then adjust_capacity table (grow_capacity table.capacity)
      else returns table

  -- `krk_tableSet` and `krk_tableSetExact`, by their comparator.
  unfoldable pub set_with : (K → K → Bool) → Table K V → K → V → Run (Table K V × Bool)
  unfolding make_room place
  set_with comparator table key value = elim (make_room table) [
    | fault ↦ fault
    | returns grown ↦ place comparator grown key value
  ]
