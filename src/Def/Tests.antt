-- ===== src/Def/Tests.antt =====
-- The macros at concrete numbers.
use ek_utils.Base.{ℕ, ◌*◌, ◌≤◌, ◌≡◌, refl, arith, max_word, some, [], ◌∷◌}
use ek_utils.Def.{div_ceil, freq_k, freq_m, file_name}
use ek_utils.Def.Ceil.{div_ceil_lem}

div_ceil_lem_example : (10 ≤ div_ceil 10 4 * 4) × ((m : ℕ) → 10 ≤ m * 4 → div_ceil 10 4 ≤ m)
div_ceil_lem_example = div_ceil_lem 10 4 (omega arith) (omega arith)

-- The sum wraps: the largest number divided by 2, rounded up, is 0.
div_ceil_wraps : div_ceil max_word 2 ≡ 0
unfolding div_ceil
div_ceil_wraps = refl

-- 4295 MHz are more than 32 bits hold.
freq_m_wraps : (freq_k 72 ≡ 72000) × (freq_m 72 ≡ 72000000) × (freq_m 4295 ≡ 32704)
unfolding freq_k freq_m
freq_m_wraps = (refl, refl, refl)

-- The path `a/b`, whose last `/` is at 1.
file_name_of_path : file_name (λ path c. some 1) (97 ∷ 47 ∷ 98 ∷ []) ≡ 98 ∷ []
unfolding file_name
file_name_of_path = refl
