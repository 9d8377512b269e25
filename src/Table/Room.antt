-- ===== src/Table/Room.antt =====
-- src/table.c: how the setters make room.
use native.Mathlib.Nat.{pow-suc}
use kuroko.Memory.{grow_capacity}
use kuroko.Prelude.{
  ℕ, zero, suc, ◌+◌, ◌*◌, ◌/◌, ◌^◌, ◌≤◌, ◌≡◌, refl, sym, ap, ◌∙◌, inl, inr, true, false, Bool-cases,
  none, some, List, [], ◌∷◌, arith, ltb, length,
}
use kuroko.Table.Grow.{built-IsSource, init-IsSource, adjust_capacity_lem}
use kuroko.Table.Invariant.{IsBuilt, IsTable}
use kuroko.Table.Items.{items, IsGapFrom}
use kuroko.Table.Key.{Keys}
use kuroko.Table.{Entry, Table, returns, init, make_room, adjust_capacity}

module _ {ℓ} {K V : Type ℓ} where
  length-items-le :
      (entries : List (Entry K V)) (n : ℕ) → IsGapFrom n entries → length (items entries) ≤ n
  length-items-le [] n gap = omega arith
  length-items-le (none ∷ entries) zero gap =
      length-items-le entries zero (λ j h. gap (suc j) (omega arith))
  length-items-le (some a ∷ entries) zero gap = cc (gap 0 (omega arith))
  length-items-le (none ∷ entries) (suc n) gap =
      omega (arith, length-items-le entries n (λ j h. gap (suc j) (omega arith)))
  length-items-le (some a ∷ entries) (suc n) gap =
      omega (arith, length-items-le entries n (λ j h. gap (suc j) (omega arith)))

-- Growing keeps the capacity a power of two.
grown_width : (width : ℕ) → (w : ℕ) × (grow_capacity (2 ^ width) ≡ 2 ^ w)
grown_width width = elim (Bool-cases (ltb (2 ^ width) 8)) [
  | inl e ↦ (3, rw e refl)
  | inr e ↦ (suc width, rw e (sym (pow-suc 2 width)))
]

grow_room : (c n : ℕ) → 4 * n ≤ 3 * c → 4 * (n + 1) ≤ 3 * grow_capacity c
grow_room c n h = ground arith

module _ {ℓ} {K V : Type ℓ} ⦃keys : Keys K⦄ where
  -- A built table with room for one more entry and the items of `t`.
  pub record Roomy (t r : Table K V) : Type ℓ where
    pub built : IsBuilt r
    pub same : items r.entries ≡ items t.entries
    pub room : 4 * (r.used + 1) ≤ 3 * r.capacity

  make_room-init : (r : Table K V) × (make_room init ≡ returns r) × Roomy init r
  unfolding make_room init
  make_room-init =
      let (r, run, v) = adjust_capacity_lem init 3 init-IsSource (omega arith) in
      (r, run, record { built = v.built; same = v.same; room = omega (arith, v.packed, v.sized) })

  make_room-keeps :
      (t : Table K V) → ltb (t.capacity * 3 / 4) (t.used + 1) ≡ false → make_room t ≡ returns t
  unfolding make_room
  make_room-keeps t e = rw (e, make_room)

  make_room-grows :
      (t : Table K V)
      → ltb (t.capacity * 3 / 4) (t.used + 1) ≡ true
      → make_room t ≡ adjust_capacity t (grow_capacity t.capacity)
  unfolding make_room
  make_room-grows t e = rw (e, make_room)

  -- The setters begin with a table that has room for one more entry and the same items.
  pub make_room_lem :
      (t : Table K V) → IsTable t → (r : Table K V) × (make_room t ≡ returns r) × Roomy t r
  make_room_lem t (inl e) = rw e make_room-init
  make_room_lem t (inr v) = elim (Bool-cases (ltb (t.capacity * 3 / 4) (t.used + 1))) [
    | inr e ↦ (t, make_room-keeps t e, record { built = v; same = refl; room = ground arith })
    | inl e ↦
        let (w, power) = grown_width v.width in
        let larger : grow_capacity t.capacity ≡ 2 ^ w = rw (v.power) power in
        let few : t.count ≤ t.used =
          omega (arith, v.counted, length-items-le t.entries t.used v.gap) in
        let roomy : 4 * (t.count + 1) ≤ 3 * 2 ^ w =
          rw (← larger) (grow_room t.capacity t.count (omega (arith, v.filled))) in
        let (r, run, z) = adjust_capacity_lem t w (built-IsSource t v) (omega arith) in
        (
          r,
          make_room-grows t e ∙ (ap (adjust_capacity t) larger ∙ run),
          record { built = z.built; same = z.same; room = omega (arith, z.packed, z.sized) },
        )
  ]
