-- ===== src/Table/Fast.antt =====
-- src/table.c: `krk_tableGet_fast`, the copy of the probing loop for strings.
use Prim.Native.Nat.{bit_and}
use kuroko.Prelude.{
  ℕ, zero, suc, ◌+◌, ◌-◌, ◌≡◌, ◌≢◌, refl, sym, ◌∙◌, inl, inr, Bool, true, false, Bool-cases,
  Option-cases, ◌==◌, Option, none, some, List, if◌then◌else◌, get_or,
}
use kuroko.Table.Find.{Lookup, held, absent, index_key-Lookup}
use kuroko.Table.Invariant.{IsBuilt, IsTable}
use kuroko.Table.Key.{Keys}
use kuroko.Table.Ops.{find_entry, get, value_of}
use kuroko.Table.Probe.{is_unused, is_tombstone, is_at, index_cases}
use kuroko.Table.{
  Index, unused, tombstone, at, Entry, Table, Slot, slot, unhashable, endless, Run, fault, returns,
  init, matches, probe, index_key,
}

-- The loop with fuel: the entry that passes the test, or none.
unfoldable pub hunt : (ℕ → Bool) → List Index → ℕ → ℕ → ℕ → Option ℕ → Run (Option ℕ)
hunt test indexes capacity zero index seen = fault
hunt test indexes capacity (suc fuel) index seen =
    let next = bit_and (index + 1) (capacity - 1) in
    elim (get_or indexes index unused) [
      | unused ↦ returns none
      | tombstone ↦ elim seen [
        | none ↦ hunt test indexes capacity fuel next (some index)
        | some t ↦ elim (t == index) [
          | true ↦ returns none
          | false ↦ hunt test indexes capacity fuel next (some t)
        ]
      ]
      | at i ↦ elim (test i) [
        | true ↦ returns (some i)
        | false ↦ hunt test indexes capacity fuel next seen
      ]
    ]

abbrev found_value {ℓ} : {K V : Type ℓ} → List (Entry K V) → Run (Option ℕ) → Run (Option V)
found_value entries fault = fault
found_value entries (returns none) = returns none
found_value entries (returns (some i)) = returns (value_of (get_or entries i none))

-- The entry that a slot leads to.
abbrev found_at : List Index → Slot → Run (Option ℕ)
found_at indexes unhashable = fault
found_at indexes endless = fault
found_at indexes (slot s) = elim (get_or indexes s unused) [
  | at i ↦ returns (some i)
  | _ ↦ returns none
]

found_at-unused :
    (indexes : List Index) (s : ℕ)
    → get_or indexes s unused ≡ unused
    → returns none ≡ found_at indexes (slot s)
found_at-unused indexes s h = rw (h, found_at) refl

found_at-tombstone :
    (indexes : List Index) (s : ℕ)
    → get_or indexes s unused ≡ tombstone
    → returns none ≡ found_at indexes (slot s)
found_at-tombstone indexes s h = rw (h, found_at) refl

found_at-entry :
    (indexes : List Index) (s i : ℕ)
    → get_or indexes s unused ≡ at i
    → returns (some i) ≡ found_at indexes (slot s)
found_at-entry indexes s i h = rw (h, found_at) refl

module _ {ℓ} {K V : Type ℓ} ⦃keys : Keys K⦄ where
  -- `krk_tableGet_fast` for a string and its hash.
  unfoldable pub get_fast : Table K V → K → ℕ → Run (Option V)
  unfolding hunt
  get_fast table key hash =
      if table.count == 0
      then returns none
      else found_value table.entries (
          hunt (λ i. matches keys.same table.entries i key) table.indexes table.capacity
            table.capacity (bit_and hash (table.capacity - 1)) none)

  module _ (t : Table K V) (key : K) (test : ℕ → Bool)
      (tests : (i : ℕ) → test i ≡ matches keys.same_or_equal t.entries i key) where
    -- A tombstone that was seen is one.
    abbrev Marked : Option ℕ → Type 0
    Marked none = Unit
    Marked (some s) = get_or t.indexes s unused ≡ tombstone

    hunt-probe :
        (fuel index : ℕ) (seen : Option ℕ)
        → Marked seen
        → hunt test t.indexes t.capacity fuel index seen
          ≡ found_at t.indexes
              (probe keys.same_or_equal t.entries t.indexes t.capacity key fuel index seen)
    unfolding hunt probe
    hunt-probe zero index seen m = refl
    hunt-probe (suc fuel) index none m = elim (index_cases (get_or t.indexes index unused)) [
      | is_unused h ↦ rw (h, hunt, probe) (found_at-unused t.indexes index h)
      | is_tombstone h ↦ rw (h, hunt, probe) (hunt-probe fuel _ (some index) h)
      | is_at i h ↦ elim (Bool-cases (test i)) [
        | inl e ↦
            let f = sym (tests i) ∙ e in
            rw (h, e, f, hunt, probe) (found_at-entry t.indexes index i h)
        | inr e ↦ let f = sym (tests i) ∙ e in rw (h, e, f, hunt, probe) (hunt-probe fuel _ none m)
      ]
    ]
    hunt-probe (suc fuel) index (some s) m = elim (index_cases (get_or t.indexes index unused)) [
      | is_unused h ↦ rw (h, hunt, probe) (found_at-tombstone t.indexes s m)
      | is_tombstone h ↦ elim (Bool-cases (s == index)) [
        | inl e ↦ rw (h, e, hunt, probe) (found_at-tombstone t.indexes s m)
        | inr e ↦ rw (h, e, hunt, probe) (hunt-probe fuel _ (some s) m)
      ]
      | is_at i h ↦ elim (Bool-cases (test i)) [
        | inl e ↦
            let f = sym (tests i) ∙ e in
            rw (h, e, f, hunt, probe) (found_at-entry t.indexes index i h)
        | inr e ↦
            let f = sym (tests i) ∙ e in rw (h, e, f, hunt, probe) (hunt-probe fuel _ (some s) m)
      ]
    ]

  module _ (t : Table K V) (key : K) (hash : ℕ) where
    abbrev same_entry : ℕ → Bool
    same_entry i = matches keys.same t.entries i key

    hunt-index_key :
        keys.hash key ≡ some hash
        → ((i : ℕ) → same_entry i ≡ matches keys.same_or_equal t.entries i key)
        → hunt same_entry t.indexes t.capacity t.capacity (bit_and hash (t.capacity - 1)) none
          ≡ found_at t.indexes (index_key keys.same_or_equal t.entries t.indexes t.capacity key)
    unfolding index_key
    hunt-index_key h tests =
        rw (h, index_key) (hunt-probe t key same_entry tests t.capacity _ none tt)

    found-find :
        (x : Slot)
        → index_key keys.same_or_equal t.entries t.indexes t.capacity key ≡ x
        → x ≢ unhashable
        → (t.count == 0) ≡ false
        → found_value t.entries (found_at t.indexes x) ≡ get t key
    unfolding get find_entry
    found-find unhashable e ne some_items = absurd (ne refl)
    found-find endless e ne some_items = rw (some_items, e, get, find_entry)
    found-find (slot s) e ne some_items = elim (index_cases (get_or t.indexes s unused)) [
      | is_unused h ↦ rw (some_items, e, h, get, find_entry, found_at, found_value)
      | is_tombstone h ↦ rw (some_items, e, h, get, find_entry, found_at, found_value)
      | is_at i h ↦ rw (some_items, e, h, get, find_entry, found_at, found_value)
    ]

    Lookup-ne-unhashable : (v : IsBuilt t) (x : Slot) → Lookup t v key hash x → x ≢ unhashable
    Lookup-ne-unhashable v _ (held s h) e = cc
    Lookup-ne-unhashable v _ (absent s f a) e = cc

    hashes :
        keys.hash key ≡ some hash
        → IsTable t
        → (t.count == 0) ≡ false
        → index_key keys.same_or_equal t.entries t.indexes t.capacity key ≢ unhashable
    unfolding init
    hashes h (inl q) e = let f : true ≡ false = rw q at e in cc
    hashes h (inr v) e = Lookup-ne-unhashable v _ (index_key-Lookup t v key hash h)

    get-empty : (t.count == 0) ≡ true → get t key ≡ returns none
    unfolding get
    get-empty e = rw (e, get)

    same_tests :
        ((i : ℕ) (a : K × V)
          → get_or t.entries i none ≡ some a
          → keys.same_or_equal a.0 key ≡ true
          → keys.same a.0 key ≡ true)
        → (i : ℕ) → same_entry i ≡ matches keys.same_or_equal t.entries i key
    same_tests interned i = elim (Option-cases (get_or t.entries i none)) [
      | inl h ↦ rw (h, matches) refl
      | inr (a, h) ↦ elim (Bool-cases (keys.same_or_equal a.0 key)) [
        | inl e ↦ rw (h, e, interned i a h e, matches) refl
        | inr e ↦ elim (Bool-cases (keys.same a.0 key)) [
          | inl f ↦ let g = keys.equal_of_same a.0 key f in cc
          | inr f ↦ rw (h, e, f, matches) refl
        ]
      ]
    ]

    -- On a well-formed table in which an entry with an equal key always has the same key, as for
    -- strings, which are interned, `krk_tableGet_fast` of a key with its hash gives what
    -- `krk_tableGet` gives.
    pub get_fast-get :
        keys.hash key ≡ some hash
        → IsTable t
        → ((i : ℕ) (a : K × V)
            → get_or t.entries i none ≡ some a
            → keys.same_or_equal a.0 key ≡ true
            → keys.same a.0 key ≡ true)
        → get_fast t key hash ≡ get t key
    unfolding get_fast
    get_fast-get h valid interned = elim (Bool-cases (t.count == 0)) [
      | inl e ↦ rw (e, get-empty e)
      | inr e ↦
          rw (e, hunt-index_key h (same_tests interned))
            (found-find (index_key keys.same_or_equal t.entries t.indexes t.capacity key) refl
              (hashes h valid e) e)
    ]
