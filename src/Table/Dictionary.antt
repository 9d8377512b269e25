-- ===== src/Table/Dictionary.antt =====
-- src/table.c: the operations as a client sees them, one after the other.
use kuroko.Prelude.{
  ℕ, ◌≡◌, refl, sym, ap, ◌∙◌, inl, inr, Bool, true, false, Bool-cases, none, some, List, [], ◌∷◌,
  if◌then◌else◌, All,
}
use kuroko.Table.Delete.{delete_lem}
use kuroko.Table.Get.{get_lem}
use kuroko.Table.Insert.{insert-items}
use kuroko.Table.Invariant.{IsTable}
use kuroko.Table.Items.{items, lookup, put, remove}
use kuroko.Table.Key.{Keys}
use kuroko.Table.Rebuild.{IsApart, IsHashable, All-items, items-IsApart}
use kuroko.Table.{Entry, Table, returns, init}
use kuroko.Table.Ops.{insert, get, delete, add_entries, add_all}

module _ {ℓ} {K : Type ℓ} ⦃keys : Keys K⦄ where
  -- Equal keys are equal to the same keys.
  same_tests :
      (a b c : K) → keys.same_or_equal a b ≡ true → keys.same_or_equal a c ≡ keys.same_or_equal b c
  same_tests a b c h = elim (Bool-cases (keys.same_or_equal a c)) [
    | inl e ↦ e ∙ sym (keys.equal_trans b a c (keys.equal_symm b a ∙ h) e)
    | inr e ↦ elim (Bool-cases (keys.same_or_equal b c)) [
      | inl f ↦ let g = keys.equal_trans a b c h f in cc
      | inr f ↦ e ∙ sym f
    ]
  ]

module _ {ℓ} {K V : Type ℓ} ⦃keys : Keys K⦄ (key : K) where
  lookup-put :
      (value : V) (other : K) (xs : List (K × V))
      → lookup other (put key value xs)
        ≡ (if keys.same_or_equal key other then some value else lookup other xs)
  unfolding lookup put
  lookup-put value other [] = refl
  lookup-put value other ((k, v) ∷ r) = elim (Bool-cases (keys.same_or_equal k key)) [
    | inl e ↦
        let f = same_tests k key other e in
        elim (Bool-cases (keys.same_or_equal key other)) [
          | inl g ↦ rw (e, f, g, lookup)
          | inr g ↦ rw (e, f, g, lookup)
        ]
    | inr e ↦ elim (Bool-cases (keys.same_or_equal k other)) [
      | inl g ↦ elim (Bool-cases (keys.same_or_equal key other)) [
        | inl h ↦ let q = keys.equal_trans k other key g (keys.equal_symm other key ∙ h) in cc
        | inr h ↦ rw (e, g, h, lookup)
      ]
      | inr g ↦ rw (e, g, lookup) (lookup-put value other r)
    ]
  ]

  lookup-apart :
      (other : K) (a : K × V) (xs : List (K × V))
      → keys.same_or_equal a.0 other ≡ true
      → All (λ y. keys.same_or_equal a.0 y.0 ≡ false) xs
      → lookup other xs ≡ none
  unfolding lookup
  lookup-apart other a [] h all = refl
  lookup-apart other a ((k, v) ∷ r) h all = elim (Bool-cases (keys.same_or_equal k other)) [
    | inl g ↦
        let q = keys.equal_trans a.0 other k h (keys.equal_symm other k ∙ g) in let z = all.0 in cc
    | inr g ↦ rw (g, lookup) (lookup-apart other a r h all.1)
  ]

  lookup-remove :
      (other : K) (xs : List (K × V))
      → IsApart xs
      → lookup other (remove key xs)
        ≡ (if keys.same_or_equal key other then none else lookup other xs)
  unfolding lookup remove
  lookup-remove other [] apart = elim (Bool-cases (keys.same_or_equal key other)) [
    | inl g ↦ rw g
    | inr g ↦ rw g
  ]
  lookup-remove other ((k, v) ∷ r) apart = elim (Bool-cases (keys.same_or_equal k key)) [
    | inl e ↦
        let f = same_tests k key other e in
        elim (Bool-cases (keys.same_or_equal key other)) [
          | inl g ↦ rw (e, f, g, lookup) (lookup-apart other (k, v) r (f ∙ g) apart.0)
          | inr g ↦ rw (e, f, g, lookup)
        ]
    | inr e ↦ elim (Bool-cases (keys.same_or_equal k other)) [
      | inl g ↦ elim (Bool-cases (keys.same_or_equal key other)) [
        | inl h ↦ let q = keys.equal_trans k other key g (keys.equal_symm other key ∙ h) in cc
        | inr h ↦ rw (e, g, h, lookup)
      ]
      | inr g ↦ rw (e, g, lookup) (lookup-remove other r apart.1)
    ]
  ]

  table-IsApart : (t : Table K V) → IsTable t → IsApart (items t.entries)
  unfolding init
  table-IsApart t (inl e) = rw e tt
  table-IsApart t (inr v) = items-IsApart t.entries v.distinct

  module _ (hash : ℕ) (t : Table K V) (hashed : keys.hash key ≡ some hash) (valid : IsTable t) where
    -- After `krk_tableSet` of a hashable key on a well-formed table, `krk_tableGet` finds the value
    -- under every hashable key that equals the key, and under every other hashable key what it found
    -- before.
    pub get-insert :
        (value : V) (other : K) (n : ℕ)
        → keys.hash other ≡ some n
        → (r : Table K V × Bool) × (insert t key value ≡ returns r)
          × (get r.0 other
              ≡ (if keys.same_or_equal key other then returns (some value) else get t other))
    get-insert value other n h =
        let (r, run, i) = insert-items key value hash t hashed valid in
        (
          r,
          run,
          elim (Bool-cases (keys.same_or_equal key other)) [
            | inl e ↦ rw (get_lem r.0 other n h (inr i.built), i.result, lookup-put, e)
            | inr e ↦ rw (
              get_lem r.0 other n h (inr i.built),
              i.result,
              lookup-put,
              e,
              get_lem t other n h valid,
            )
          ],
        )

    -- After `krk_tableDelete` of a hashable key on a well-formed table, `krk_tableGet` finds nothing
    -- under a hashable key that equals the key, and under every other hashable key what it found
    -- before.
    pub get-delete :
        (other : K) (n : ℕ)
        → keys.hash other ≡ some n
        → (r : Table K V × Bool) × (delete t key ≡ returns r)
          × (get r.0 other ≡ (if keys.same_or_equal key other then returns none else get t other))
    get-delete other n h =
        let (r, run, d) = delete_lem key hash t hashed valid in
        (
          r,
          run,
          elim (Bool-cases (keys.same_or_equal key other)) [
            | inl e ↦ rw (
              get_lem r.0 other n h d.valid,
              d.result,
              lookup-remove other _ (table-IsApart t valid),
              e,
            )
            | inr e ↦ rw (
              get_lem r.0 other n h d.valid,
              d.result,
              lookup-remove other _ (table-IsApart t valid),
              e,
              get_lem t other n h valid,
            )
          ],
        )

module _ {ℓ} {K V : Type ℓ} ⦃keys : Keys K⦄ where
  -- All items of a list put in, the first one first.
  unfoldable pub put_all : List (K × V) → List (K × V) → List (K × V)
  unfolding put
  put_all [] to = to
  put_all ((k, v) ∷ r) to = put_all r (put k v to)

  pub record Added (from : List (Entry K V)) (to r : Table K V) : Type ℓ where
    pub valid : IsTable r
    pub result : items r.entries ≡ put_all (items from) (items to.entries)

  insert_before :
      (entry : K × V) (entries : List (Entry K V)) (to : Table K V) (p : Table K V × Bool)
      → insert to entry.0 entry.1 ≡ returns p
      → add_entries (some entry ∷ entries) to ≡ add_entries entries p.0
  unfolding add_entries
  insert_before entry entries to p e = rw (e, add_entries)

  add_entries_lem :
      (from : List (Entry K V)) (to : Table K V)
      → All IsHashable (items from)
      → IsTable to
      → (r : Table K V) × (add_entries from to ≡ returns r) × Added from to r
  unfolding add_entries put_all
  add_entries_lem [] to h valid = (to, refl, record { valid = valid; result = refl })
  add_entries_lem (none ∷ entries) to h valid =
      let (r, run, a) = add_entries_lem entries to h valid in
      (r, run, record { valid = a.valid; result = a.result })
  add_entries_lem (some entry ∷ entries) to h valid =
      let (p, run, i) = insert-items entry.0 entry.1 h.0.0 to h.0.1 valid in
      let (r, rest, a) = add_entries_lem entries p.0 h.1 (inr i.built) in
      (
        r,
        insert_before entry entries to p run ∙ rest,
        record { valid = a.valid; result = a.result ∙ ap (put_all (items entries)) i.result },
      )

  table-IsHashable : (t : Table K V) → IsTable t → All IsHashable (items t.entries)
  unfolding init
  table-IsHashable t (inl e) = rw e tt
  table-IsHashable t (inr v) =
      All-items IsHashable t.entries (λ j a e. let p = v.placed j a e in (p.hash, p.hashed))

  -- `krk_tableAddAll` from a well-formed table to another one ends, and leaves a well-formed table
  -- with the items of the first put into those of the second, in their order.
  pub add_all_lem :
      (from to : Table K V)
      → IsTable from
      → IsTable to
      → (r : Table K V) × (add_all from to ≡ returns r) × Added from.entries to r
  unfolding add_all
  add_all_lem from to source valid =
      add_entries_lem from.entries to (table-IsHashable from source) valid
