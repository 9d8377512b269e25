-- ===== src/Tests/Powersort.antt =====
-- src/obj_list.c: sorting numbers.
use kuroko.Powersort.{powersort_merge, powersort_power}
use kuroko.Powersort.Loops.{sort}
use kuroko.Powersort.Arrays.{IsStrict}
use kuroko.Powersort.Keys.{IsSortResult, sort_lem}
use kuroko.Powersort.Merging.{MergedRuns, powersort_merge_lem}
use kuroko.Prelude.{ℕ, Option, ◌%◌, ◌≡◌, refl, true, false, some, none, List, [], ◌∷◌, arith, ltb}

ltb-IsStrict : IsStrict ltb
ltb-IsStrict = record { asym = λ a b h. ground arith; at_most_trans = λ a b c e f. ground arith }

abbrev numbers : List ℕ
numbers = 5 ∷ 3 ∷ 8 ∷ 9 ∷ 2 ∷ 1 ∷ 7 ∷ []

sort_runs_up : sort 0 ltb none false numbers ≡ 1 ∷ 2 ∷ 3 ∷ 5 ∷ 7 ∷ 8 ∷ 9 ∷ []
unfolding sort
sort_runs_up = refl

sort_runs_down : sort 0 ltb none true numbers ≡ 9 ∷ 8 ∷ 7 ∷ 5 ∷ 3 ∷ 2 ∷ 1 ∷ []
unfolding sort
sort_runs_down = refl

-- By the last digit: equal keys keep their order.
sort_runs_keyed :
    sort 0 ltb (some (λ n. some (n % 10))) false (31 ∷ 12 ∷ 21 ∷ 42 ∷ 5 ∷ [])
    ≡ 31 ∷ 21 ∷ 12 ∷ 42 ∷ 5 ∷ []
unfolding sort
sort_runs_keyed = refl

-- A key function that raises, in reverse.
sort_runs_raising : sort 0 ltb (some (λ n. none)) true (1 ∷ 2 ∷ 3 ∷ []) ≡ 3 ∷ 2 ∷ 1 ∷ []
unfolding sort
sort_runs_raising = refl

powersort_power_runs : powersort_power 0 10 0 3 5 ≡ 2
unfolding powersort_power
powersort_power_runs = refl

abbrev last_digit : ℕ → Option ℕ
last_digit n = some (n % 10)

sort_lem_example :
    IsSortResult 0 ltb ltb-IsStrict
      (some last_digit)
      true
      (31 ∷ 12 ∷ 21 ∷ 42 ∷ 5 ∷ [])
      (sort 0 ltb (some last_digit) true (31 ∷ 12 ∷ 21 ∷ 42 ∷ 5 ∷ []))
sort_lem_example = sort_lem 0 ltb ltb-IsStrict (some last_digit) true (31 ∷ 12 ∷ 21 ∷ 42 ∷ 5 ∷ [])

powersort_merge_lem_example :
    MergedRuns ltb
      (7 ∷ [])
      (1 ∷ 4 ∷ 6 ∷ [])
      (3 ∷ 5 ∷ [])
      (2 ∷ [])
      (0 ∷ 0 ∷ 0 ∷ 0 ∷ 0 ∷ 0 ∷ [])
      (powersort_merge 0 ltb 1 4 6 (7 ∷ 1 ∷ 4 ∷ 6 ∷ 3 ∷ 5 ∷ 2 ∷ []) (0 ∷ 0 ∷ 0 ∷ 0 ∷ 0 ∷ 0 ∷ []))
powersort_merge_lem_example =
    powersort_merge_lem 0 ltb ltb-IsStrict (7 ∷ []) (1 ∷ 4 ∷ 6 ∷ []) (3 ∷ 5 ∷ []) (2 ∷ [])
      (0 ∷ 0 ∷ 0 ∷ 0 ∷ 0 ∷ 0 ∷ []) (omega arith) (ground arith) (ground arith)
