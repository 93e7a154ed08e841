-- ===== src/Str/Growth.antt =====
-- The loop of `_str_ensure_cap`: when it ends.
use ek_utils.Base.{
  ℕ, zero, suc, ◌+◌, ◌/◌, ◌^◌, ◌≤◌, ◌<◌, ◌≡◌, ◌≢◌, refl, arith, inl, inr, Bool-cases, true, none,
  some, ◌==◌, ltb, if◌then◌else◌, word, add32,
}
use ek_utils.Str.{grow}

-- A round enlarges the capacity and does not wrap.
larger : (c : ℕ) → 2 ≤ c → c < 2 ^ 31 → (c < add32 c (c / 2)) × (add32 c (c / 2) < word)
larger c two low = (omega arith, omega arith)

-- From a capacity other than 1, the loop of `_str_ensure_cap` ends with a capacity that is large
-- enough, for requests up to 2^31 bytes, and one round for each missing byte is enough fuel.
pub grow-ends :
    (fuel cap len : ℕ)
    → cap ≢ 1
    → cap < len
    → len ≤ 2 ^ 31
    → len ≤ cap + fuel
    → (c : ℕ) × (grow fuel cap len ≡ some c) × (len ≤ c) × (c < word)
unfolding grow
grow-ends zero cap len one lt top few = absurd (omega arith)
grow-ends (suc fuel) cap len one lt top few =
    let from = if cap == 0 then 2 else cap in
    let two : 2 ≤ from = ground arith in
    let up : cap ≤ from = ground arith in
    let low : from < 2 ^ 31 = ground arith in
    let (more, fits) = larger from two low in
    elim (Bool-cases (ltb (add32 from (from / 2)) len)) [
      | inl e ↦ rw e (
          grow-ends fuel (add32 from (from / 2)) len (λ q. omega (arith, q)) (ground arith) top
            (omega arith))
      | inr e ↦ rw e (add32 from (from / 2), refl, ground arith, fits)
    ]

-- From a capacity of 1 the loop of `_str_ensure_cap` never ends, for any request above it: whatever
-- the fuel, it runs out.
pub grow_one-stuck : (fuel len : ℕ) → 1 < len → grow fuel 1 len ≡ none
unfolding grow
grow_one-stuck zero len h = refl
grow_one-stuck (suc fuel) len h =
    let small : ltb 1 len ≡ true = ground arith in rw small (grow_one-stuck fuel len h)
