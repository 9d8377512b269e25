-- ===== src/Long/Sum.antt =====
-- src/obj_long.c: `krk_long_add` and `krk_long_sub`. A result that is one of the operands goes
-- through a temporary in the C code (PREP_OUTPUT, FINISH_OUTPUT), so aliasing does not show.
pub mod Defs
pub mod Signs
pub mod Laws
