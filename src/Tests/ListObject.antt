-- ===== src/Tests/ListObject.antt =====
-- src/obj_list.c: methods at an index on a list of three numbers.
use kuroko.Buffer.{Buffer, Holds, empty, push, empty-Holds, push_lem}
use kuroko.ListObject.{get_item, set_item, list_insert}
use kuroko.ListObject.Items.{ItemResult, item_lem}
use kuroko.ListObject.Search.{found, list_index, list_remove}
use kuroko.ListObject.Found.{RemoveResult, IndexResult, list_index_lem, list_remove_lem}
use kuroko.ListObject.Laws.{Inserted, list_insert_lem}
use kuroko.Prelude.{
  arith, Bool, true, false, ◌==◌, ℕ, ◌+◌, ◌≡◌, refl, Option, none, some, List, [], ◌∷◌, take, map,
}
use kuroko.Prelude.Int.{ℤ, pos, negsuc}

abbrev three : Buffer ℕ
three = push 0 (push 0 (push 0 empty 7) 8) 9

three-Holds : Holds three (7 ∷ 8 ∷ 9 ∷ [])
three-Holds =
    push_lem 0 _ (7 ∷ 8 ∷ []) 9 (omega arith)
      (push_lem 0 _ (7 ∷ []) 8 (omega arith) (push_lem 0 _ [] 7 (omega arith) empty-Holds))

abbrev contents : Buffer ℕ → List ℕ
contents b = take b.count b.values

insert_runs : contents (list_insert 0 three (negsuc 0) 5) ≡ 7 ∷ 8 ∷ 5 ∷ 9 ∷ []
unfolding list_insert push empty kuroko.Prelude.Int.◌+ℤ◌
insert_runs = refl

insert_runs_far : contents (list_insert 0 three (pos 50) 5) ≡ 7 ∷ 8 ∷ 9 ∷ 5 ∷ []
unfolding list_insert push empty kuroko.Prelude.Int.◌+ℤ◌
insert_runs_far = refl

pop_runs : get_item 0 three (pos 3) ≡ (none, three)
unfolding get_item push empty
pop_runs = refl

list_insert_lem_example : Inserted (list_insert 0 three (negsuc 0) 5) (7 ∷ 8 ∷ 9 ∷ []) (negsuc 0) 5
list_insert_lem_example =
    list_insert_lem 0 three (7 ∷ 8 ∷ 9 ∷ []) (negsuc 0) 5 (omega arith) three-Holds

item_lem_example :
    ItemResult 0 three
      (7 ∷ 8 ∷ 9 ∷ [])
      (negsuc 2)
      6
      (get_item 0 three (negsuc 2))
      (set_item 0 three (negsuc 2) 6)
item_lem_example = item_lem 0 three (7 ∷ 8 ∷ 9 ∷ []) (negsuc 2) 6 three-Holds

-- Numbers compare, and a nine raises.
abbrev compares : ℕ → ℕ → Bool × Bool
compares y x = (y == x, y == 9)

remove_runs : list_remove compares 0 three 6 ≡ (none, three)
unfolding list_remove push empty
remove_runs = refl

list_remove_lem_example :
    RemoveResult compares 0 three (7 ∷ 8 ∷ 9 ∷ []) 8 (list_remove compares 0 three 8)
list_remove_lem_example = list_remove_lem compares 0 three (7 ∷ 8 ∷ 9 ∷ []) 8 three-Holds

index_runs : list_index compares 0 three 8 (some (negsuc 2)) none ≡ found 1
unfolding list_index push empty kuroko.Prelude.Int.◌+ℤ◌
index_runs = refl

list_index_lem_example :
    IndexResult compares 0
      (7 ∷ 8 ∷ 9 ∷ [])
      8
      (some (negsuc 2))
      none
      (list_index compares 0 three 8 (some (negsuc 2)) none)
list_index_lem_example =
    list_index_lem compares 0 three (7 ∷ 8 ∷ 9 ∷ []) 8 (some (negsuc 2)) none three-Holds
