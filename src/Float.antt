-- ===== src/Float.antt =====
-- Python floats, as far as the program compares them. A finite binary64 number is a whole multiple
-- of 2 ^ -1074, and `finite` holds that multiple; the two zeros, which compare equal, are one value.
-- A comparison with `nan` is false.
use sentinelai_v.Prelude.{ℕ, zero, ◌*◌, ◌^◌, ◌<◌, Bool, true, false, arith}
use sentinelai_v.Prelude.Int.{ℤ, pos, leb_ℤ, ltb_ℤ}

pub data Float : Type 0 where
  nan : Float
  neg_inf : Float
  pos_inf : Float
  finite : ℤ → Float

-- What 1.0 is in units of 2 ^ -1074.
unfoldable pub unit : ℕ
unit = 2 ^ 1074

pub unit_pos : 0 < unit
unfolding unit
unit_pos = omega arith

abbrev pub of_ℕ : ℕ → Float
of_ℕ n = finite (pos (n * unit))

abbrev pub zero_float : Float
zero_float = finite (pos 0)

-- a < b
unfoldable pub lt_float : Float → Float → Bool
lt_float nan b = false
lt_float neg_inf nan = false
lt_float neg_inf neg_inf = false
lt_float neg_inf b = true
lt_float pos_inf b = false
lt_float (finite a) nan = false
lt_float (finite a) neg_inf = false
lt_float (finite a) pos_inf = true
lt_float (finite a) (finite b) = ltb_ℤ a b

-- a <= b
unfoldable pub le_float : Float → Float → Bool
le_float nan b = false
le_float neg_inf nan = false
le_float neg_inf b = true
le_float pos_inf pos_inf = true
le_float pos_inf b = false
le_float (finite a) nan = false
le_float (finite a) neg_inf = false
le_float (finite a) pos_inf = true
le_float (finite a) (finite b) = leb_ℤ a b

-- bool(a): every float but zero counts as true, `nan` too.
unfoldable pub truthy_float : Float → Bool
truthy_float (finite (pos zero)) = false
truthy_float a = true
