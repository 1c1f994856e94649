-- ===== src/Convert.antt =====
-- log/utils/convert_utils_base.h: conversions that throw (`none`) out of range.
use rpc.Common.{ℕ, ◌-◌, ◌^◌, Option, none, some, if◌then◌else◌, ltb}
use rpc.Common.Words.{ℤ, pos, negsuc, u32_mod, u64_mod}

unfoldable pub size_to_int : ℕ → Option ℤ
size_to_int u = if ltb (2 ^ 31 - 1) u then none else some (pos u)

unfoldable pub size_to_uint : ℕ → Option ℕ
size_to_uint u = if ltb (u32_mod - 1) u then none else some u

unfoldable pub size_to_long : ℕ → Option ℤ
size_to_long u = if ltb (2 ^ 63 - 1) u then none else some (pos u)

-- A negative number gives SIZE_MAX here, and no exception.
unfoldable pub int_to_size : ℤ → ℕ
int_to_size (pos n) = n
int_to_size (negsuc n) = u64_mod - 1

unfoldable pub long_to_size : ℤ → Option ℕ
long_to_size (pos n) = some n
long_to_size (negsuc n) = none

unfoldable pub uint_to_int : ℕ → Option ℤ
uint_to_int u = if ltb (2 ^ 31 - 1) u then none else some (pos u)

unfoldable pub int_to_uint : ℤ → Option ℕ
int_to_uint (pos n) = some n
int_to_uint (negsuc n) = none
