-- ===== src/Def/Ceil.antt =====
-- inc/ek_def.h: the division that rounds up, and the bounds.
use native.Mathlib.Nat.{div-add-mod', mod-lt, mul-le-mul_right}
use ek_utils.Base.{
  ℕ, zero, ◌+◌, ◌-◌, ◌*◌, ◌/◌, ◌%◌, ◌≤◌, ◌<◌, ◌≡◌, ap, arith, false, ◌==◌, word, add32, sub32,
  dec_lt,
}
use ek_utils.Def.{div_ceil, clamp, max_of, min_of}

-- With no wrap, the macro is the division of the source's formula.
div_ceil_formula : (x d : ℕ) → zero < d → x + d < word → div_ceil x d ≡ (x + d - 1) / d
unfolding div_ceil
div_ceil_formula x d pos_d top =
    let ne : (d == 0) ≡ false = ground arith in
    let e : sub32 (add32 x d) 1 ≡ x + d - 1 = omega arith in rw ne (ap (λ z. z / d) e)

-- For a divisor that is not 0, and a sum of both numbers below 2^32, `EK_DIV_CEIL` is the least
-- number whose product with the divisor is not below the dividend.
pub div_ceil_lem :
    (x d : ℕ)
    → zero < d
    → x + d < word
    → (x ≤ div_ceil x d * d) × ((m : ℕ) → x ≤ m * d → div_ceil x d ≤ m)
div_ceil_lem x d pos_d top =
    let s = x + d - 1 in
    let q = s / d in
    let parts : q * d + s % d ≡ s = div-add-mod' s d in
    let rest : s % d < d = mod-lt s pos_d in
    rw (div_ceil_formula x d pos_d top) (
      omega (arith, parts, rest),
      (λ m h. elim (dec_lt m q) [
        | no ge ↦ omega (arith, ge)
        | yes lt ↦
            let step : (m + 1) * d ≤ q * d = mul-le-mul_right d (omega (arith, lt)) in
            let split : (m + 1) * d ≡ m * d + d = omega arith in
            absurd (omega (arith, parts, rest, step, split, h, pos_d))
      ]),
    )

-- Between bounds that are in order, `EK_CLAMP` is the greater of the lower bound and the lesser of
-- the upper bound and the value, as `EK_MAX` and `EK_MIN` give them, and lies between them.
pub clamp_lem :
    (val lo hi : ℕ)
    → lo ≤ hi
    → (clamp val lo hi ≡ max_of lo (min_of hi val))
      × (lo ≤ clamp val lo hi)
      × (clamp val lo hi ≤ hi)
unfolding clamp max_of min_of
clamp_lem val lo hi le = ground arith
