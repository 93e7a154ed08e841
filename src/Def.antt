-- ===== src/Def.antt =====
-- inc/ek_def.h: the macros that compute, on `uint32_t`. `strrchr` is C's, and gives a position.
pub mod Ceil
mod Tests
use ek_utils.Base.{
  ℕ, ◌+◌, ◌/◌, Option, none, some, ◌==◌, ltb, if◌then◌else◌, Bytes, drop, add32, sub32, mul32,
}

-- `EK_FREQ_K`, `EK_FREQ_M`: `unsigned long` has 32 bits.
unfoldable pub freq_k : ℕ → ℕ
freq_k x = mul32 x 1000

unfoldable pub freq_m : ℕ → ℕ
freq_m x = mul32 (mul32 x 1000) 1000

-- `EK_DIV_CEIL`
unfoldable pub div_ceil : ℕ → ℕ → ℕ
div_ceil x d = if d == 0 then x else sub32 (add32 x d) 1 / d

-- `EK_CLAMP`
unfoldable pub clamp : ℕ → ℕ → ℕ → ℕ
clamp val lo hi = if ltb val lo then lo else (if ltb hi val then hi else val)

-- `EK_MAX`, `EK_MIN`
unfoldable pub max_of : ℕ → ℕ → ℕ
max_of v1 v2 = if ltb v2 v1 then v1 else v2

unfoldable pub min_of : ℕ → ℕ → ℕ
min_of v1 v2 = if ltb v1 v2 then v1 else v2

-- `EK_GET_FILE_NAME`: behind the last `/`, or else behind the last `\`.
unfoldable pub file_name : (Bytes → ℕ → Option ℕ) → Bytes → Bytes
file_name strrchr path = elim (strrchr path 47) [
  | some i ↦ drop (i + 1) path
  | none ↦ elim (strrchr path 92) [ some i ↦ drop (i + 1) path | none ↦ path ]
]
