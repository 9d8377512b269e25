-- ===== src/Table/Probe.antt =====
-- src/table.c: what the probing loop of `krk_tableIndexKeyC` finds.
use Prim.Native.Nat.{bit_and}
use native.Mathlib.Nat.{mod-add-mod, mod-eq_of_lt, mod-eq-sub-mod}
use kuroko.Prelude.{
  ℕ, zero, suc, ◌+◌, ◌-◌, ◌%◌, ◌^◌, ◌≤◌, ◌<◌, ◌≡◌, ◌≢◌, refl, sym, ap, ◌∙◌, ◌⊎◌, inl, inr, Bool,
  true, false, Option, none, some, List, arith, get_or, ◌==◌, Bool-cases, dec_lt,
}
use kuroko.Prelude.Bits.{bit_and-mask}
use kuroko.Table.Key.{Keys}
use kuroko.Table.{
  Index, unused, tombstone, at, Entry, Slot, slot, unhashable, endless, matches, probe,
}

-- Slots at different distances below the capacity are different.
round-ne : (h c d e : ℕ) → h < c → d < e → e < c → (h + d) % c ≢ (h + e) % c
round-ne h c d e hh hd he = elim (dec_lt (h + e) c) [
  | yes p ↦ omega (arith, mod-eq_of_lt p, mod-eq_of_lt {n = h + d} {m = c} (omega arith))
  | no p ↦
      let far =
        mod-eq-sub-mod {n = h + e} {m = c} (omega arith)
        ∙ mod-eq_of_lt {n = h + e - c} {m = c} (omega arith) in
      elim (dec_lt (h + d) c) [
        | yes q ↦ omega (arith, far, mod-eq_of_lt q)
        | no q ↦ omega (
          arith,
          far,
          mod-eq-sub-mod {n = h + d} {m = c} (omega arith),
          mod-eq_of_lt {n = h + d - c} {m = c} (omega arith),
        )
      ]
]

pub data IndexCases (x : Index) : Type 0 where
  is_unused : x ≡ unused → IndexCases x
  is_tombstone : x ≡ tombstone → IndexCases x
  is_at : (i : ℕ) → x ≡ at i → IndexCases x

pub index_cases : (x : Index) → IndexCases x
index_cases unused = is_unused refl
index_cases tombstone = is_tombstone refl
index_cases (at i) = is_at i refl

module _ {ℓ} {K V : Type ℓ} ⦃keys : Keys K⦄ (comparator : K → K → Bool) (entries : List (Entry K V))
    (indexes : List Index) (capacity : ℕ) (key : K) (home : ℕ) where
  -- The slot at a distance from the home slot of the key, and what it holds.
  abbrev pub slot_at : ℕ → ℕ
  slot_at d = (home + d) % capacity

  abbrev pub holds : ℕ → Index
  holds s = get_or indexes s unused

  -- No slot before this distance is unused.
  abbrev pub IsReached : ℕ → Type 0
  IsReached d = (e : ℕ) → e < d → holds (slot_at e) ≢ unused

  -- Nor does one lead to an entry that matches the key.
  abbrev pub IsMissed : ℕ → Type 0
  IsMissed d =
      (e : ℕ) (i : ℕ) → e < d → holds (slot_at e) ≡ at i → matches comparator entries i key ≡ false

  abbrev pub IsFree : Index → Type 0
  IsFree unused = Unit
  IsFree tombstone = Unit
  IsFree (at i) = ⊥

  -- The key has an entry, and the slot leads to it.
  pub record Found (s : ℕ) : Type 0 where
    pub entry : ℕ
    pub leads : holds s ≡ at entry
    pub same : matches comparator entries entry key ≡ true

  -- The key has no entry, and one may be put at the slot.
  pub record Vacant (s : ℕ) : Type 0 where
    pub free : IsFree (holds s)
    pub distance : ℕ
    pub near : distance < capacity
    pub place : s ≡ slot_at distance
    pub reached : IsReached distance
    pub stop : ℕ
    pub stop_near : stop < capacity
    pub stops : holds (slot_at stop) ≡ unused
    pub missed : IsMissed stop

  abbrev pub Outcome : Slot → Type 0
  Outcome unhashable = ⊥
  Outcome endless = ⊥
  Outcome (slot s) = Found s ⊎ Vacant s

  -- A tombstone that was seen stands on the way.
  abbrev pub Seen : ℕ → Option ℕ → Type 0
  Seen d none = Unit
  Seen d (some t) = (e : ℕ) × (e < d) × (t ≡ slot_at e) × (holds t ≡ tombstone)

  -- One round of the loop, by what the slot holds.
  unfoldable pub rounds : ℕ → ℕ → Option ℕ → Slot
  rounds fuel s seen = probe comparator entries indexes capacity key fuel s seen

  abbrev next : ℕ → ℕ
  next s = bit_and (s + 1) (capacity - 1)

  module _ (fuel s : ℕ) where
    probe_unused : holds s ≡ unused → rounds (suc fuel) s none ≡ slot s
    unfolding rounds probe
    probe_unused h = rw (h, probe)

    probe_unused_seen : (t : ℕ) → holds s ≡ unused → rounds (suc fuel) s (some t) ≡ slot t
    unfolding rounds probe
    probe_unused_seen t h = rw (h, probe)

    probe_tombstone : holds s ≡ tombstone → rounds (suc fuel) s none ≡ rounds fuel (next s) (some s)
    unfolding rounds probe
    probe_tombstone h = rw (h, probe)

    probe_tombstone_seen :
        (t : ℕ)
        → holds s ≡ tombstone
        → t ≢ s
        → rounds (suc fuel) s (some t) ≡ rounds fuel (next s) (some t)
    unfolding rounds probe
    probe_tombstone_seen t h ne =
        let differs : (t == s) ≡ false = ground arith in rw (h, differs, probe)

    probe_match :
        (seen : Option ℕ) (i : ℕ)
        → holds s ≡ at i
        → matches comparator entries i key ≡ true
        → rounds (suc fuel) s seen ≡ slot s
    unfolding rounds probe
    probe_match seen i h e = rw (h, e, probe)

    probe_other :
        (seen : Option ℕ) (i : ℕ)
        → holds s ≡ at i
        → matches comparator entries i key ≡ false
        → rounds (suc fuel) s seen ≡ rounds fuel (next s) seen
    unfolding rounds probe
    probe_other seen i h e = rw (h, e, probe)

  module _ (width : ℕ) (power : capacity ≡ 2 ^ width) (start : home < capacity) (end : ℕ)
      (inside : end < capacity) (open_end : holds (slot_at end) ≡ unused) where
    next_slot : (d : ℕ) → bit_and (slot_at d + 1) (capacity - 1) ≡ slot_at (d + 1)
    next_slot d =
        rw (power, bit_and-mask, mod-add-mod, ← power) (ap (λ k. k % capacity) (omega arith))

    further-IsReached : (d : ℕ) → IsReached d → holds (slot_at d) ≢ unused → IsReached (d + 1)
    further-IsReached d reached ne e h = elim (dec_lt e d) [
      | yes p ↦ reached e p
      | no p ↦ let same : e ≡ d = omega arith in rw same ne
    ]

    further-IsMissed :
        (d : ℕ)
        → IsMissed d
        → ((i : ℕ) → holds (slot_at d) ≡ at i → matches comparator entries i key ≡ false)
        → IsMissed (d + 1)
    further-IsMissed d missed here e i h at_i = elim (dec_lt e d) [
      | yes p ↦ missed e i p at_i
      | no p ↦ let same : e ≡ d = omega arith in here i (rw same at at_i)
    ]

    not_end : (d : ℕ) → d ≤ end → holds (slot_at d) ≢ unused → d + 1 ≤ end
    not_end d le ne = elim (dec_lt d end) [
      | yes p ↦ omega arith
      | no p ↦ let same : d ≡ end = omega arith in absurd (ne (rw same open_end))
    ]

    Vacant-here :
        (d : ℕ)
        → d ≤ end
        → IsReached d
        → IsMissed d
        → holds (slot_at d) ≡ unused
        → Vacant (slot_at d)
    Vacant-here d le reached missed h = record {
      free = rw h tt;
      distance = d;
      near = omega arith;
      place = refl;
      reached = reached;
      stop = d;
      stop_near = omega arith;
      stops = h;
      missed = missed;
    }

    Vacant-Seen :
        (d t : ℕ)
        → d ≤ end
        → IsReached d
        → IsMissed d
        → holds (slot_at d) ≡ unused
        → Seen d (some t)
        → Vacant t
    Vacant-Seen d t le reached missed h (e, before, place, dead) = record {
      free = rw dead tt;
      distance = e;
      near = omega arith;
      place = place;
      reached = λ f p. reached f (omega arith);
      stop = d;
      stop_near = omega arith;
      stops = h;
      missed = missed;
    }

    -- What the loop needs at a distance.
    pub record On (fuel d : ℕ) (seen : Option ℕ) : Type 0 where
      pub left : fuel + d ≡ capacity
      pub before : d ≤ end
      pub reached : IsReached d
      pub missed : IsMissed d
      pub marked : Seen d seen

    Seen-later : (d : ℕ) (seen : Option ℕ) → Seen d seen → Seen (d + 1) seen
    Seen-later d none s = tt
    Seen-later d (some t) (e, before, place, dead) = (e, omega arith, place, dead)

    On-next :
        (fuel d : ℕ) (seen seen' : Option ℕ)
        → On (suc fuel) d seen
        → holds (slot_at d) ≢ unused
        → ((i : ℕ) → holds (slot_at d) ≡ at i → matches comparator entries i key ≡ false)
        → Seen (d + 1) seen'
        → On fuel (d + 1) seen'
    On-next fuel d seen seen' on ne other marked = record {
      left = omega (arith, on.left);
      before = not_end d on.before ne;
      reached = further-IsReached d on.reached ne;
      missed = further-IsMissed d on.missed other;
      marked = marked;
    }

    -- An index is one of the three kinds.
    tombstone-ne-unused : {x : Index} → x ≡ tombstone → x ≢ unused
    tombstone-ne-unused e h = cc

    at-ne-unused : {x : Index} {i : ℕ} → x ≡ at i → x ≢ unused
    at-ne-unused e h = cc

    tombstone-ne-at :
        {x : Index} → x ≡ tombstone → (i : ℕ) → x ≡ at i → matches comparator entries i key ≡ false
    tombstone-ne-at e i h = cc

    same_at :
        {x : Index} {i : ℕ}
        → x ≡ at i
        → matches comparator entries i key ≡ false
        → (j : ℕ) → x ≡ at j
        → matches comparator entries j key ≡ false
    same_at {x} {i} e m j h = ground arith

    -- Within the rounds that are left the loop ends, at a matching entry or at a vacant slot.
    pub probe_from :
        (fuel d : ℕ) (seen : Option ℕ) → On fuel d seen → Outcome (rounds fuel (slot_at d) seen)
    probe_from zero d seen on = absurd (omega (arith, on.left, on.before))
    probe_from (suc fuel) d seen on = elim (index_cases (holds (slot_at d))) [
      | is_unused h ↦ ends seen on h
      | is_tombstone h ↦ goes_on seen on h (λ marked. probe_from fuel (d + 1) marked)
      | is_at i h ↦ elim (Bool-cases (matches comparator entries i key)) [
        | inl e ↦
            rw (probe_match fuel (slot_at d) seen i h e)
              (inl (record { entry = i; leads = h; same = e }))
        | inr e ↦
            rw (probe_other fuel (slot_at d) seen i h e, next_slot)
              (probe_from fuel (d + 1) seen (
                On-next fuel d seen seen on (at-ne-unused h) (same_at h e)
                  (Seen-later d seen on.marked)))
      ]
    ]
      where
        ends :
            (seen : Option ℕ)
            → On (suc fuel) d seen
            → holds (slot_at d) ≡ unused
            → Outcome (rounds (suc fuel) (slot_at d) seen)
        ends none on h =
            rw (probe_unused fuel (slot_at d) h)
              (inr (Vacant-here d on.before on.reached on.missed h))
        ends (some t) on h =
            rw (probe_unused_seen fuel (slot_at d) t h)
              (inr (Vacant-Seen d t on.before on.reached on.missed h on.marked))

        goes_on :
            (seen : Option ℕ)
            → On (suc fuel) d seen
            → holds (slot_at d) ≡ tombstone
            → ((seen' : Option ℕ)
                → On fuel (d + 1) seen'
                → Outcome (rounds fuel (slot_at (d + 1)) seen'))
            → Outcome (rounds (suc fuel) (slot_at d) seen)
        goes_on none on h rec =
            rw (probe_tombstone fuel (slot_at d) h, next_slot)
              (rec (some (slot_at d)) (
                On-next fuel d none (some (slot_at d)) on (tombstone-ne-unused h)
                  (tombstone-ne-at h) (d, omega arith, refl, h)))
        goes_on (some t) on h rec =
            rw (probe_tombstone_seen fuel (slot_at d) t h (different on), next_slot)
              (rec (some t) (
                On-next fuel d (some t) (some t) on (tombstone-ne-unused h) (tombstone-ne-at h)
                  (Seen-later d (some t) on.marked)))
          where
            different : On (suc fuel) d (some t) → t ≢ slot_at d
            different on same =
                round-ne home capacity on.marked.0 d start on.marked.1 (omega arith)
                  (sym on.marked.2 ∙ same)
