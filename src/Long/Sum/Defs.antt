-- ===== src/Long/Sum/Defs.antt =====
-- src/obj_long.c: `krk_long_add`, `krk_long_sub`.
use kuroko.Prelude.{Bool, true, false, not, ◌&&◌, zero, suc, ◌==◌, if◌then◌else◌}
use kuroko.Prelude.Int.{pos, negsuc}
use kuroko.Long.{Long, abs_width, is_negative, long_zero, set_sign}
use kuroko.Long.Add.{add_ignore_sign}
use kuroko.Long.Compare.{compare_abs}
use kuroko.Long.Sub.{sub_big_small}

unfoldable pub add : Long → Long → Long
add a b =
    if abs_width a.width == 0
    then b
    else if abs_width b.width == 0
    then a
    else if is_negative a.width && not (is_negative b.width)
    then elim (compare_abs a b) [
      | negsuc _ ↦ set_sign (sub_big_small b a) (pos 1)
      | pos zero ↦ long_zero
      | pos (suc _) ↦ set_sign (sub_big_small a b) (negsuc 0)
    ]
    else if not (is_negative a.width) && is_negative b.width
    then elim (compare_abs a b) [
      | negsuc _ ↦ set_sign (sub_big_small b a) (negsuc 0)
      | pos zero ↦ long_zero
      | pos (suc _) ↦ set_sign (sub_big_small a b) (pos 1)
    ]
    else set_sign (add_ignore_sign a b) (if is_negative a.width then negsuc 0 else pos 1)

-- `!=` on truth values
abbrev pub differ : Bool → Bool → Bool
differ true b = not b
differ false b = b

unfoldable pub sub : Long → Long → Long
sub a b =
    if abs_width a.width == 0
    then set_sign b (if is_negative b.width then pos 1 else negsuc 0)
    else if abs_width b.width == 0
    then a
    else if differ (is_negative a.width) (is_negative b.width)
    then set_sign (add_ignore_sign a b) (if is_negative a.width then negsuc 0 else pos 1)
    else elim (compare_abs a b) [
      | pos zero ↦ long_zero
      | pos (suc _) ↦
          let res = sub_big_small a b in
          if is_negative a.width then set_sign res (negsuc 0) else res
      | negsuc _ ↦
          let res = sub_big_small b a in
          if is_negative b.width then res else set_sign res (negsuc 0)
    ]
