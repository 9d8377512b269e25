-- ===== src/ListObject.antt =====
-- src/obj_list.c: methods of lists at an index.
pub mod Moves
pub mod Indices
pub mod Laws
pub mod Items
pub mod Search
pub mod Found
use kuroko.Buffer.{Buffer, push}
use kuroko.Prelude.{
  ℕ, zero, suc, ◌+◌, ◌-◌, Bool, true, false, Option, none, some, List, [], ◌∷◌, ◌++◌, ltb, leb,
  ◌==◌, if◌then◌else◌, length, get_or, set, take, drop,
}
use kuroko.Prelude.Int.{ℤ, pos, negsuc, ltb_ℤ, ◌+ℤ◌, ◌-ℤ◌, pos_part}

-- `LIST_WRAP_INDEX`; none where it raises an IndexError.
unfoldable pub wrap_index : ℕ → ℤ → Option ℕ
wrap_index count index =
    let wrapped = if ltb_ℤ index (pos 0) then index +ℤ pos count else index in
    if ltb_ℤ wrapped (pos 0)
    then none
    else if ltb_ℤ wrapped (pos count)
    then some (pos_part wrapped)
    else none

-- `LIST_WRAP_SOFT`
unfoldable pub wrap_soft : ℕ → ℤ → ℕ
wrap_soft count val =
    let wrapped = if ltb_ℤ val (pos 0) then val +ℤ pos count else val in
    let inside = if ltb_ℤ wrapped (pos 0) then pos 0 else wrapped in
    pos_part (if ltb_ℤ (pos count) inside then pos count else inside)

-- The index of `list.pop`: that of the last value where none is given.
abbrev pub pop_index : ℕ → Option ℤ → ℤ
pop_index count none = pos count -ℤ pos 1
pop_index count (some z) = z

module _ {ℓ} {V : Type ℓ} (none_val : V) where
  -- `memmove` of `n` values within an array.
  unfoldable pub memmove : List V → ℕ → ℕ → ℕ → List V
  memmove values to from n = take to values ++ (take n (drop from values) ++ drop (to + n) values)

  -- `list.__getitem__` at an int. Here and below, none is an IndexError, and the list comes with the
  -- result.
  unfoldable pub get_item : Buffer V → ℤ → Option V × Buffer V
  unfolding wrap_index
  get_item self index = elim (wrap_index self.count index) [
    | none ↦ (none, self)
    | some i ↦ (some (get_or self.values i none_val), self)
  ]

  -- `list.__setitem__` at an int.
  unfoldable pub set_item : Buffer V → ℤ → V → Option V × Buffer V
  unfolding wrap_index
  set_item self index x = elim (wrap_index self.count index) [
    | none ↦ (none, self)
    | some i ↦ (some x, record self { values = set self.values i x })
  ]

  unfoldable pub list_append : Buffer V → V → Buffer V
  unfolding push
  list_append self x = push none_val self x

  unfoldable pub list_insert : Buffer V → ℤ → V → Buffer V
  unfolding wrap_soft push memmove
  list_insert self index x =
      let i = wrap_soft self.count index in
      let grown = push none_val self none_val in
      record grown { values = set (memmove grown.values (i + 1) i (grown.count - i - 1)) i x }

  -- Behind the check of the index.
  unfoldable pub remove_at : Buffer V → ℕ → V × Buffer V
  unfolding memmove
  remove_at self i = (
    get_or self.values i none_val,
    if i == self.count - 1 then record self { count = self.count - 1 } else record self {
      count = self.count - 1;
      values = memmove self.values i (i + 1) (self.count - i - 1);
    },
  )

  unfoldable pub list_pop : Buffer V → Option ℤ → Option V × Buffer V
  unfolding wrap_index remove_at
  list_pop self index = elim (wrap_index self.count (pop_index self.count index)) [
    | none ↦ (none, self)
    | some i ↦ (some (remove_at self i).0, (remove_at self i).1)
  ]
