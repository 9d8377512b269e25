-- ===== src/Powersort/Keys.antt =====
-- src/obj_list.c: `list.sort`, with and without a key function.
use mathlib.Core.List.Perm
use kuroko.Prelude.{
  suc, ◌<◌, ◌≡◌, refl, ap, Bool, true, false, List, [], ◌∷◌, arith, ltb, length, if-both,
  if◌then◌else◌, Option, none, some, map, ◌++◌, ◌⊎◌, inl, inr, All,
}
use kuroko.Powersort.Loops.{powersort, keyed, sort, sort_keyed}
use kuroko.Powersort.Arrays.{IsStrict, upwards}
use kuroko.Powersort.Laws.{Sorts, powersort_lem, reverse_all}

module _ {ℓ} {V : Type ℓ} (none_val : V) (sorter : V → V → Bool) (o : IsStrict sorter) where
  -- Pairs by their first parts.
  abbrev by_key : V × V → V × V → Bool
  by_key a b = sorter a.0 b.0

  -- The order that is asked for.
  abbrev pub direction {κ} : {A : Type κ} → Bool → (A → A → Bool) → A → A → Bool
  direction reverse less = if reverse then (λ a b. less b a) else less

  -- The values in order by the keys that the key function gives.
  pub record Ordered (key : V → Option V) (reverse : Bool) (values out : List V) : Type ℓ where
    pub pairs : List (V × V)
    pub whole : values ≡ map (λ p. p.1) pairs
    pub keys : All (λ p. key p.1 ≡ some p.0) pairs
    pub sorted : List (V × V)
    pub in_order : Sorts (direction reverse by_key) pairs sorted
    pub result : out ≡ map (λ p. p.1) sorted

  -- A value whose key raises.
  pub record Raises (key : V → Option V) (values : List V) : Type ℓ where
    pub front : List V
    pub value : V
    pub back : List V
    pub split : values ≡ front ++ (value ∷ back)
    pub raised : key value ≡ none

  abbrev pub SortedByKeys : (V → Option V) → Bool → List V → List V → Type ℓ
  SortedByKeys key reverse values out =
      Ordered key reverse values out
      ⊎ (Raises key values × (out ≡ (if reverse then upwards values else values)))

  abbrev pub IsSortResult : Option (V → Option V) → Bool → List V → List V → Type ℓ
  IsSortResult none reverse values out = Sorts (direction reverse sorter) values out
  IsSortResult (some key) reverse values out = SortedByKeys key reverse values out

  by_key-IsStrict : IsStrict by_key
  by_key-IsStrict = record {
    asym = λ a b. o.asym a.0 b.0;
    at_most_trans = λ a b c. o.at_most_trans a.0 b.0 c.0;
  }

  -- The pairs hold the values, in order, with their keys; there are none where a key raises.
  abbrev IsKeyed : (V → Option V) → List V → Option (List (V × V)) → Type ℓ
  IsKeyed key values none = Raises key values
  IsKeyed key values (some pairs) =
      (values ≡ map (λ p. p.1) pairs)
      × All (λ p. key p.1 ≡ some p.0) pairs
      × (length pairs ≡ length values)

  keyed-IsKeyed : (key : V → Option V) (values : List V) → IsKeyed key values (keyed key values)
  unfolding keyed
  keyed-IsKeyed key [] = (refl, tt, refl)
  keyed-IsKeyed key (x ∷ xs) = one_more (key x) (keyed key xs) refl (keyed-IsKeyed key xs)
    where
      one_more :
          (k : Option V) (pairs : Option (List (V × V)))
          → key x ≡ k
          → IsKeyed key xs pairs
          → IsKeyed key (x ∷ xs) (elim k [
            | none ↦ none
            | some k ↦ elim pairs [ none ↦ none | some pairs ↦ some ((k, x) ∷ pairs) ]
          ])
      one_more none pairs e h = record {
        front = [];
        value = x;
        back = xs;
        split = refl;
        raised = e;
      }
      one_more (some k) none e h = record {
        front = x ∷ h.front;
        value = h.value;
        back = h.back;
        split = ap (λ t. x ∷ t) h.split;
        raised = h.raised;
      }
      one_more (some k) (some pairs) e h = (ap (λ t. x ∷ t) h.0, (e, h.1), ap suc h.2)

  short-Sorts : {A : Type ℓ} (less : A → A → Bool) (xs : List A) → length xs < 2 → Sorts less xs xs
  short-Sorts less [] h = record { sorted = tt; same = Perm.refl []; long = refl }
  short-Sorts less (x ∷ []) h = record { sorted = (tt, tt); same = Perm.refl (x ∷ []); long = refl }
  short-Sorts less (x ∷ y ∷ xs) h = absurd (omega arith)

  short-upwards :
      (xs : List V) (reverse : Bool) → length xs < 2 → xs ≡ (if reverse then upwards xs else xs)
  short-upwards [] true h = refl
  short-upwards (x ∷ []) true h = refl
  short-upwards (x ∷ y ∷ xs) true h = absurd (omega arith)
  short-upwards xs false h = refl

  short-SortedByKeys :
      (key : V → Option V) (reverse : Bool) (values : List V) (pairs : Option (List (V × V)))
      → IsKeyed key values pairs
      → length values < 2
      → SortedByKeys key reverse values values
  short-SortedByKeys key reverse values none h short = inr (h, short-upwards values reverse short)
  short-SortedByKeys key reverse values (some pairs) h short = inl (record {
    pairs = pairs;
    whole = h.0;
    keys = h.1;
    sorted = pairs;
    in_order = short-Sorts _ pairs (omega (arith, h.2));
    result = h.0;
  })

  sort_keyed-SortedByKeys :
      (key : V → Option V) (reverse : Bool) (values : List V) (pairs : Option (List (V × V)))
      → IsKeyed key values pairs
      → SortedByKeys key reverse values (sort_keyed none_val sorter reverse values pairs)
  unfolding sort_keyed
  sort_keyed-SortedByKeys key true values none h =
      inr (h, reverse_all none_val sorter o values (length values) refl)
  sort_keyed-SortedByKeys key false values none h = inr (h, refl)
  sort_keyed-SortedByKeys key reverse values (some pairs) h = inl (record {
    pairs = pairs;
    whole = h.0;
    keys = h.1;
    sorted = powersort (none_val, none_val) by_key reverse pairs;
    in_order = powersort_lem (none_val, none_val) by_key by_key-IsStrict reverse pairs;
    result = refl;
  })

  -- `list.sort` without a key function gives the values in order, from the largest on where a reverse
  -- order is asked for. With a key function it gives them in the order of the keys that the function
  -- returns for them; only where the function raises for one of them are they as before, or, with a
  -- reverse order asked for, reversed.
  pub sort_lem :
      (key : Option (V → Option V)) (reverse : Bool) (values : List V)
      → IsSortResult key reverse values (sort none_val sorter key reverse values)
  unfolding sort
  sort_lem none reverse values =
      if-both (IsSortResult none reverse values) (ltb (length values) 2)
        (λ e. short-Sorts _ values (ground arith))
        (λ _. powersort_lem none_val sorter o reverse values)
  sort_lem (some key) reverse values =
      let h = keyed-IsKeyed key values in
      if-both (IsSortResult (some key) reverse values) (ltb (length values) 2)
        (λ e. short-SortedByKeys key reverse values (keyed key values) h (ground arith))
        (λ _. sort_keyed-SortedByKeys key reverse values (keyed key values) h)
