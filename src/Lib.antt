-- ===== src/Lib.antt =====
-- Kuroko is an interpreter for a dialect of Python, written in C. This library models the data
-- structures under its values, in the C code as it is, and proves what they promise.
--
-- Parts and files:
--
-- Long, with its modules, models src/obj_long.c, the integers of any size. A long is a signed width
-- and as many digits of 31 bits, the lowest one first; the sign of the width is the sign of the
-- integer. Long holds construction from machine integers (krk_long_init_ui, krk_long_init_si),
-- krk_long_resize, krk_long_set_sign, krk_long_trim; Long.Compare krk_long_compare and
-- krk_long_compare_abs; Long.Add krk_long_add_ignore_sign; Long.Sub _sub_big_small; Long.Sum
-- krk_long_add and krk_long_sub; Long.Mul _mul_abs and krk_long_mul; Long.Div krk_long_div_rem,
-- _div_abs and the helpers for single bits; Long.Abs is about krk_long_abs and krk_long_sign. Long.Digits says which integer
-- a long stands for, and when a long is well-formed: its digits are as many as its width says, each
-- below 2 ^ 31, and the last one is not zero. Machine words keep their wrap-around where the C code
-- relies on it; the counting of the digits of a 64-bit number has fuel 3, since it has at most three
-- digits. A result that is also an operand goes through a temporary in the C code (PREP_OUTPUT,
-- FINISH_OUTPUT), or is written digit by digit behind the digits that were read (_sub_big_small, which
-- krk_long_div_rem calls in place), so aliasing does not show in the functions here, which return the
-- result.
--
-- Pheap, with its modules, models src/modules/module__pheap.c, a pairing heap: Pheap the trees,
-- Pheap.Object the methods of the Python class. The comparator is a parameter, a call of the virtual
-- machine: it returns none where it raises, which run_comparator takes as false. Pheap.Order says which
-- comparators are consistent: a value has no priority over one that has priority over it, and having
-- no priority is transitive.
--
-- Table, with its modules, models src/table.c and src/kuroko/table.h, the hash map in insertion order
-- under dicts, sets, module and instance attributes: Table the probing loop, growth and the common
-- part of the setters, Table.Ops the operations, Table.Invariant the invariant. Table.Items holds the
-- abstract view, an association list in insertion order, which the other modules refine to. A key is
-- of any type with a hash and two comparisons (Table.Key), with the laws that Python asks of __eq__
-- and __hash__; in the C code these are krk_hashValue, krk_valuesSame and krk_valuesSameOrEqual,
-- which may call methods of the values. Table.Fast models krk_tableGet_fast, the copy of the loop for
-- strings. The probing loop has the capacity as its fuel, since a round goes to the next slot; a result
-- `fault` stands for a loop without end and for accesses out of bounds.
--
-- Chunk, with its modules, models src/chunk.c, the bytecode of a function: the bytes, the map from
-- offsets to lines, and the constants, each a growing array (Buffer, src/value.c). The search of
-- krk_lineNumber has one round more than there are entries as its fuel, since each round shortens the
-- range. The numbers of the two opcodes are parameters, since the build may change them.
--
-- Powersort, with its modules, models the sorting of lists in src/obj_list.c: powersort with its runs,
-- merges and stack of runs, and list.sort. Arrays are lists and pointers into them offsets; keys and
-- values, which the C code keeps in two arrays, are pairs. The comparison of two keys, a call of the
-- virtual machine, is a parameter, true where it raises, and the theorems ask that it is a strict weak
-- order (Powersort.Arrays). Powersort.Loops holds the loops over runs, and list.sort. Each loop has as its fuel the number of values it may pass, the one for the
-- power of a run 64, since each round doubles the distance of two numbers below 2 ^ 64. The stack is a
-- list: that the 64 entries of the C array are enough is not shown.
--
-- ListObject, with its modules, models methods of the same file at an int: list.__getitem__,
-- list.__setitem__, append, insert and pop, with the macros LIST_WRAP_INDEX and LIST_WRAP_SOFT. The
-- values are a growing array (Buffer), a method returns them with its result, in which none stands for
-- an exception, and memmove is a function on the
-- array. ListObject.Search holds list.remove and list.index, which share the loop of their search; it
-- has the number of indices left as its fuel. The comparison krk_valuesSameOrEqual, which may call
-- methods of the values, is a parameter that answers and says whether an exception is pending; one
-- that changes the list is not modelled, and neither is the lock of a list.
--
-- Scanner, with its modules, models src/scanner.c and src/kuroko/scanner.h, which cut a source into
-- tokens: Scanner the position and its moves, Scanner.Token the tokens, Scanner.Words keywords and
-- identifiers, Scanner.Numbers and Scanner.Strings the literals, Scanner.Scan krk_scanToken and
-- krk_ungetToken. The source is a list of bytes with a NUL behind it, and a pointer into it an offset.
-- The loops have the length of the source as their fuel, since each round goes past a byte.
-- Scanner.Walk gives the moves as a relation: over a character, or over a newline, which begins a line.
--
-- Slice models krk_extractSlicer of src/obj_slice.c; Slice.Nearest is about its clamping of an index. A
-- value in a slice that is neither an int nor
-- None comes with the number that AS_INTEGER reads from its bits.
--
-- Memory holds the growth of arrays (src/kuroko/memory.h). The arrays of Buffer keep their capacity in
-- an int while they grow, which overflows at 2 ^ 30 values; the theorems about them stay below that. Prelude shared names and lemmas; Tests
-- concrete runs, and every theorem with hypotheses at an input that meets them.
--
-- Not modelled: the compiler, the virtual machine, the garbage collector, and the other
-- built-in classes; allocation failure; methods of a key that change the table while it is probed;
-- input and output, threads, floating point, generated tables, and the line editor that is a copy of
-- another project's library.
pub mod Prelude
pub mod Memory
pub mod Buffer
pub mod Chunk
pub mod Slice
pub mod Scanner
pub mod Powersort
pub mod ListObject
pub mod Long
pub mod Pheap
pub mod Table
mod Tests
