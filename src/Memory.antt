-- ===== src/Memory.antt =====
-- src/kuroko/memory.h: how arrays grow.
use kuroko.Prelude.{ℕ, ◌+◌, ◌-◌, ◌*◌, ◌%◌, ◌^◌, ltb, ◌||◌, if◌then◌else◌}

-- KRK_GROW_CAPACITY of a size_t
abbrev pub grow_capacity : ℕ → ℕ
grow_capacity c = if ltb c 8 then 8 else c * 2

-- An int, given by its 32 bits, as a size_t: the sign is extended.
abbrev pub size_of_int : ℕ → ℕ
size_of_int bits = if ltb bits (2 ^ 31) then bits else bits + (2 ^ 64 - 2 ^ 32)

-- KRK_GROW_CAPACITY of `int old = capacity`, stored as a size_t. The bits of `old` from 2 ^ 31 on are
-- those of a negative number. Doubling an int from 2 ^ 30 on overflows, which C leaves undefined; here
-- it wraps around.
abbrev pub grow_int_capacity : ℕ → ℕ
grow_int_capacity capacity =
    let old = capacity % 2 ^ 32 in
    if ltb old 8 || ltb (2 ^ 31 - 1) old then 8 else size_of_int (old * 2 % 2 ^ 32)
