-- ===== src/Tests/Table.antt =====
-- src/table.c: runs on small tables.
use kuroko.Prelude.{
  ◌^◌, ◌*◌, ◌≤◌, ℕ, ◌≡◌, refl, ap, inl, inr, Bool, true, false, ◌==◌, Option, none, some, [], ◌∷◌,
  if◌then◌else◌, arith,
}
use kuroko.Table.Delete.{delete_lem, Deleted, insert_if_exists_lem, Updated}
use kuroko.Table.Dictionary.{get-insert, get-delete, add_all_lem, Added}
use kuroko.Table.Grow.{IsSource, Resized, init-IsSource, built-IsSource, adjust_capacity_lem}
use kuroko.Table.Fast.{get_fast, get_fast-get}
use kuroko.Table.Get.{get_lem}
use kuroko.Table.Insert.{Inserted, insert-items, insert_unhashable}
use kuroko.Table.Invariant.{IsBuilt, IsTable}
use kuroko.Table.Items.{items, lookup}
use kuroko.Table.Key.{Keys}
use kuroko.Table.{Table, Run, fault, returns, init, adjust_capacity}
use kuroko.Table.Ops.{insert, get, delete, insert_if_exists, add_all}

-- Numbers as keys; 13 is not hashable, 8 apart from another key probes from the same slot.
abbrev hash_of : ℕ → Option ℕ
hash_of n = if n == 13 then none else some n

symm_lem : (a b : ℕ) → (a == b) ≡ (b == a)
symm_lem a b = ground arith

trans_lem : (a b c : ℕ) → (a == b) ≡ true → (b == c) ≡ true → (a == c) ≡ true
trans_lem a b c h k = ground arith

congruence_lem : (a b : ℕ) → (a == b) ≡ true → hash_of a ≡ hash_of b
congruence_lem a b h = let e : a ≡ b = ground arith in ap hash_of e

refl_lem : (a : ℕ) → (a == a) ≡ true
refl_lem a = ground arith

instance abbrev ℕ_keys : Keys ℕ
ℕ_keys = record {
  hash = hash_of;
  same = λ a b. a == b;
  same_or_equal = λ a b. a == b;
  same_refl = refl_lem;
  equal_of_same = λ a b h. h;
  equal_symm = symm_lem;
  equal_trans = trans_lem;
  hash-equal = congruence_lem;
}

abbrev empty : Table ℕ ℕ
empty = init

abbrev after : Run (Table ℕ ℕ × Bool) → Table ℕ ℕ
after fault = init
after (returns r) = r.0

after-IsTable :
    (t : Table ℕ ℕ) (key value hash : ℕ)
    → hash_of key ≡ some hash
    → IsTable t
    → IsTable (after (insert t key value))
after-IsTable t key value hash hashed valid =
    let (r, run, i) = insert-items key value hash t hashed valid in rw run (inr i.built)

abbrev one : Table ℕ ℕ
one = after (insert empty 5 50)

one-IsTable : IsTable one
one-IsTable = after-IsTable empty 5 50 5 refl (inl refl)

-- 5, then 21 from the same slot.
abbrev two : Table ℕ ℕ
two = after (insert one 21 60)

two-IsTable : IsTable two
two-IsTable = after-IsTable one 21 60 21 refl one-IsTable

insert-items_example : (r : Table ℕ ℕ × Bool) × (insert two 5 51 ≡ returns r) × Inserted 5 51 two r
insert-items_example = insert-items 5 51 5 two refl two-IsTable

insert_unhashable_example :
    (r : Table ℕ ℕ) × (insert two 13 1 ≡ returns (r, false))
    × IsBuilt r
    × (items r.entries ≡ items two.entries)
insert_unhashable_example = insert_unhashable 13 1 two refl two-IsTable

get_lem_example : get two 21 ≡ returns (lookup 21 (items two.entries))
get_lem_example = get_lem two 21 21 refl two-IsTable

delete_lem_example : (r : Table ℕ ℕ × Bool) × (delete two 5 ≡ returns r) × Deleted 5 two r
delete_lem_example = delete_lem 5 5 two refl two-IsTable

insert_if_exists_lem_example :
    (r : Table ℕ ℕ × Bool) × (insert_if_exists two 21 7 ≡ returns r) × Updated 21 7 two r
insert_if_exists_lem_example = insert_if_exists_lem 21 7 21 two refl two-IsTable

get-insert_example :
    (r : Table ℕ ℕ × Bool) × (insert two 5 51 ≡ returns r)
    × (get r.0 21 ≡ (if 5 == 21 then returns (some 51) else get two 21))
get-insert_example = get-insert 5 5 two refl two-IsTable 51 21 21 refl

get-delete_example :
    (r : Table ℕ ℕ × Bool) × (delete two 5 ≡ returns r)
    × (get r.0 21 ≡ (if 5 == 21 then returns none else get two 21))
get-delete_example = get-delete 5 5 two refl two-IsTable 21 21 refl

add_all_lem_example : (r : Table ℕ ℕ) × (add_all one two ≡ returns r) × Added one.entries two r
add_all_lem_example = add_all_lem one two one-IsTable two-IsTable

two_runs : items two.entries ≡ (5, 50) ∷ (21, 60) ∷ []
unfolding insert init
two_runs = refl

get_runs : get two 21 ≡ returns (some 60)
unfolding insert init get
get_runs = refl

absent_runs : get (after (delete two 5)) 5 ≡ returns none
unfolding insert init get delete
absent_runs = refl

two_fits : 4 * two.count ≤ 3 * 2 ^ 4
unfolding insert init
two_fits = omega arith

two-IsSource : IsSource two
two-IsSource = elim two-IsTable [ inl e ↦ rw e init-IsSource | inr v ↦ built-IsSource two v ]

adjust_capacity_lem_example :
    (r : Table ℕ ℕ) × (adjust_capacity two (2 ^ 4) ≡ returns r) × Resized two (2 ^ 4) r
adjust_capacity_lem_example = adjust_capacity_lem two 4 two-IsSource two_fits

get_fast-get_example : get_fast two 21 21 ≡ get two 21
get_fast-get_example = get_fast-get two 21 21 refl two-IsTable (λ i a h e. e)

fast_runs : get_fast two 21 21 ≡ returns (some 60)
unfolding insert init get_fast
fast_runs = refl
