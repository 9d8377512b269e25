-- ===== src/Table/Items.antt =====
-- The items of a table in insertion order, and the association list that they form.
use kuroko.Prelude.{
  ℕ, zero, suc, ◌≤◌, ◌<◌, ◌≡◌, ◌≢◌, refl, ap, Bool, true, false, Option, none, some, List, [], ◌∷◌,
  ◌++◌, arith, length, get_or, set, if◌then◌else◌,
}
use kuroko.Table.Key.{Keys}
use kuroko.Table.{Entry}

module _ {ℓ} {K V : Type ℓ} where
  -- The entries without the gaps.
  abbrev pub items : List (Entry K V) → List (K × V)
  items [] = []
  items (none ∷ entries) = items entries
  items (some entry ∷ entries) = entry ∷ items entries

  -- No entry from index `n` on.
  abbrev pub IsGapFrom : ℕ → List (Entry K V) → Type ℓ
  IsGapFrom n entries = (j : ℕ) → n ≤ j → get_or entries j none ≡ none

  items_gap : (entries : List (Entry K V)) → IsGapFrom 0 entries → items entries ≡ []
  items_gap [] h = refl
  items_gap (none ∷ entries) h = items_gap entries (λ j p. h (suc j) (omega arith))
  items_gap (some a ∷ entries) h = cc (h 0 (omega arith))

  -- Writing behind the last entry appends an item.
  pub items-append :
      (entries : List (Entry K V)) (n : ℕ) (a : K × V)
      → n < length entries
      → IsGapFrom n entries
      → items (set entries n (some a)) ≡ items entries ++ (a ∷ [])
  items-append [] n a h gap = absurd (omega arith)
  items-append (none ∷ entries) zero a h gap =
      rw (items_gap entries (λ j p. gap (suc j) (omega arith)))
  items-append (some b ∷ entries) zero a h gap = cc (gap 0 (omega arith))
  items-append (none ∷ entries) (suc n) a h gap =
      items-append entries n a (omega arith) (λ j p. gap (suc j) (omega arith))
  items-append (some b ∷ entries) (suc n) a h gap =
      ap (λ t. b ∷ t) (items-append entries n a (omega arith) (λ j p. gap (suc j) (omega arith)))

module _ {ℓ} {K V : Type ℓ} ⦃keys : Keys K⦄ (key : K) where
  -- The dictionary that a table promises: an association list in insertion order.
  unfoldable pub lookup : List (K × V) → Option V
  lookup [] = none
  lookup ((k, v) ∷ r) = if keys.same_or_equal k key then some v else lookup r

  unfoldable pub has : List (K × V) → Bool
  has [] = false
  has ((k, v) ∷ r) = if keys.same_or_equal k key then true else has r

  -- An update keeps the key and its place; a new key goes to the end.
  unfoldable pub put : V → List (K × V) → List (K × V)
  put x [] = (key, x) ∷ []
  put x ((k, v) ∷ r) = if keys.same_or_equal k key then (k, x) ∷ r else (k, v) ∷ put x r

  unfoldable pub remove : List (K × V) → List (K × V)
  remove [] = []
  remove ((k, v) ∷ r) = if keys.same_or_equal k key then r else (k, v) ∷ remove r

  -- No entry has the key, but for the one at the index.
  abbrev pub IsAbsent : List (Entry K V) → Type ℓ
  IsAbsent entries =
      (i : ℕ) (a : K × V) → get_or entries i none ≡ some a → keys.same_or_equal a.0 key ≡ false

  abbrev pub IsOnly : ℕ → List (Entry K V) → Type ℓ
  IsOnly j entries =
      (i : ℕ) (a : K × V)
      → get_or entries i none ≡ some a
      → i ≢ j
      → keys.same_or_equal a.0 key ≡ false

  pub record Absent (entries : List (Entry K V)) : Type ℓ where
    pub lookup_none : lookup (items entries) ≡ none
    pub has_not : has (items entries) ≡ false
    pub put_append : (x : V) → put x (items entries) ≡ items entries ++ ((key, x) ∷ [])
    pub remove_none : remove (items entries) ≡ items entries

  pub absent_lem : (entries : List (Entry K V)) → IsAbsent entries → Absent entries
  unfolding lookup has put remove
  absent_lem [] h = record {
    lookup_none = refl;
    has_not = refl;
    put_append = λ x. refl;
    remove_none = refl;
  }
  absent_lem (none ∷ entries) h =
      let r = absent_lem entries (λ i a e. h (suc i) a e) in
      record {
        lookup_none = r.lookup_none;
        has_not = r.has_not;
        put_append = r.put_append;
        remove_none = r.remove_none;
      }
  absent_lem (some a ∷ entries) h =
      let r = absent_lem entries (λ i b e. h (suc i) b e) in
      let here = h 0 a refl in
      record {
        lookup_none = rw here r.lookup_none;
        has_not = rw here r.has_not;
        put_append = λ x. rw here (ap (λ t. a ∷ t) (r.put_append x));
        remove_none = rw here (ap (λ t. a ∷ t) r.remove_none);
      }

  pub record Present (j : ℕ) (a : K × V) (entries : List (Entry K V)) : Type ℓ where
    pub lookup_some : lookup (items entries) ≡ some a.1
    pub has_it : has (items entries) ≡ true
    pub put_set : (x : V) → items (set entries j (some (a.0, x))) ≡ put x (items entries)
    pub remove_set : items (set entries j none) ≡ remove (items entries)

  pub present_lem :
      (entries : List (Entry K V)) (j : ℕ) (a : K × V)
      → get_or entries j none ≡ some a
      → keys.same_or_equal a.0 key ≡ true
      → IsOnly j entries
      → Present j a entries
  unfolding lookup has put remove
  present_lem [] j a e same only = cc
  present_lem (none ∷ entries) zero a e same only = cc
  present_lem (none ∷ entries) (suc j) a e same only =
      let r = present_lem entries j a e same (λ i b q ne. only (suc i) b q (omega arith)) in
      record {
        lookup_some = r.lookup_some;
        has_it = r.has_it;
        put_set = r.put_set;
        remove_set = r.remove_set;
      }
  present_lem (some b ∷ entries) zero a e same only =
      let is_a : b ≡ a = cc in
      rw is_a (record {
        lookup_some = rw same;
        has_it = rw same;
        put_set = λ x. rw same;
        remove_set = rw same;
      })
  present_lem (some b ∷ entries) (suc j) a e same only =
      let r = present_lem entries j a e same (λ i b q ne. only (suc i) b q (omega arith)) in
      let other = only 0 b refl (omega arith) in
      record {
        lookup_some = rw other r.lookup_some;
        has_it = rw other r.has_it;
        put_set = λ x. rw other (ap (λ t. b ∷ t) (r.put_set x));
        remove_set = rw other (ap (λ t. b ∷ t) r.remove_set);
      }
