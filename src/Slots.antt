-- ===== src/Slots.antt =====
-- The slots of a ring: item `i` of a ring of `cap` items of `s` bytes stands at byte `i * s`, and
-- the items that a ring holds are those of a stretch of slots that goes round at `cap`.
use native.Mathlib.Nat.{mod-add-mod, mod-eq_of_lt, mod-eq-sub-mod, add-zero}
use ek_utils.Base.{
  ◌/◌, max_word, ℕ, zero, suc, ◌+◌, ◌-◌, ◌*◌, ◌%◌, ◌≤◌, ◌<◌, ◌≡◌, refl, sym, ap, ◌∙◌, ◌≢◌, ◌⊎◌, inl,
  inr, List, [], ◌∷◌, ◌++◌, arith, dec_lt, length, take, take_all, word, mul32, add32, Bytes, blit,
  slice, slice-blit_self, slice-blit_slot_ne, slot_end,
}
use mathlib.Core.Path.{ap₂}

-- A slot number short of two rounds is its own slot, or one round further than its slot.
slot_of :
    (cap n : ℕ) → n < cap + cap → ((n < cap) × (n % cap ≡ n)) ⊎ ((cap ≤ n) × (n % cap ≡ n - cap))
slot_of cap n two = elim (dec_lt n cap) [
  | yes below ↦ inl (below, mod-eq_of_lt below)
  | no above ↦
      let rest : (n - cap) % cap ≡ n - cap = mod-eq_of_lt (omega arith) in
      inr (omega arith, mod-eq-sub-mod (omega arith) ∙ rest)
]

-- Fewer than `cap` steps round a ring do not come back to the start.
pub steps_apart : (cap h k : ℕ) → h < cap → suc k < cap → (h + suc k) % cap ≢ h
steps_apart cap h k hh hk = elim (slot_of cap (h + suc k) (omega arith)) [
  | inl here ↦ omega (arith, here.1)
  | inr round ↦ omega (arith, round.1)
]

-- A stretch less its first slot starts at the next slot and ends where it did.
next_start : (cap h n : ℕ) → (h + suc n) % cap ≡ ((h + 1) % cap + n) % cap
next_start cap h n = let same : h + suc n ≡ h + 1 + n = omega arith in rw (mod-add-mod, same) refl

-- The size that a `create` function asks for is the header and the slots, with no wrap.
pub request_fits :
    (header n s : ℕ)
    → header < word
    → 0 < s
    → n ≤ (max_word - header) / s
    → (add32 header (mul32 n s) ≡ header + n * s) × (n * s < word)
request_fits header n s hh hs hn =
    let fits : n * s ≤ max_word - header = grind arith in (omega arith, omega arith)

module _ (s cap : ℕ) where
  -- The `n` items from slot `h` on.
  abbrev pub slots : Bytes → ℕ → ℕ → List Bytes
  slots b h zero = []
  slots b h (suc n) = slice b (h * s) s ∷ slots b ((h + 1) % cap) n

  pub length-slots : (b : Bytes) (h n : ℕ) → length (slots b h n) ≡ n
  length-slots b h zero = refl
  length-slots b h (suc n) = ap suc (length-slots b ((h + 1) % cap) n)

  -- The code tests a count against 0, `slots` matches on `suc`.
  pub slots-cons :
      (b : Bytes) (h n : ℕ)
      → n ≢ 0
      → slots b h n ≡ slice b (h * s) s ∷ slots b ((h + 1) % cap) (n - 1)
  slots-cons b h zero p = absurd (p refl)
  slots-cons b h (suc n) p = ap (λ k. slots b h (suc k)) (omega arith)

  -- A copy into the slot just behind a stretch lengthens the stretch by that item.
  pub slots-blit :
      (b : Bytes) (x : Bytes) (n h i : ℕ)
      → cap * s ≤ length b
      → length x ≡ s
      → h < cap
      → n < cap
      → i ≡ (h + n) % cap
      → slots (blit b (i * s) x) h (suc n) ≡ slots b h n ++ (x ∷ [])
  slots-blit b x zero h i hb hx hh hn e =
      let at : i ≡ h = e ∙ rw add-zero (mod-eq_of_lt hh) in
      rw at (
        ap (λ l. l ∷ [])
          (slice-blit_self b (h * s) s x (omega arith) (omega (arith, slot_end h cap s hh))))
  slots-blit b x (suc n) h i hb hx hh hn e =
      ap₂ ◌∷◌ (slice-blit_slot_ne b i h s x (rw e (steps_apart cap h n hh hn)) hx) (
        slots-blit b x n ((h + 1) % cap) i hb hx (omega arith) (omega arith)
          (e ∙ next_start cap h n))

  -- The offset of a slot below `cap` does not wrap, and the slot ends inside the storage.
  pub mul32_slot : (i : ℕ) → cap * s < word → 0 < s → i < cap → mul32 i s ≡ i * s
  mul32_slot i hf hs hi = omega (arith, slot_end i cap s hi)

  -- What the code does to put an item behind a stretch: the copy at the wrapped offset.
  pub slots-put :
      (b item : Bytes) (n h w : ℕ)
      → cap * s ≤ length b
      → cap * s < word
      → 0 < s
      → length item ≡ s
      → h < cap
      → n < cap
      → w ≡ (h + n) % cap
      → slots (blit b (mul32 w s) (take s item)) h (suc n) ≡ slots b h n ++ (item ∷ [])
  slots-put b item n h w hb hf hs hx hh hn e =
      ap (λ c. slots c h (suc n))
        (ap₂ (blit b) (mul32_slot w hf hs (omega arith)) (take_all s item hx))
      ∙ slots-blit b item n h w hb hx hh hn e

  -- What the code reads at the head of a stretch is its first item, and the rest follows.
  pub slots-take :
      (b : Bytes) (n h : ℕ)
      → cap * s < word
      → cap < word
      → 0 < s
      → h < cap
      → n ≢ 0
      → slots b h n ≡ slice b (mul32 h s) s ∷ slots b (add32 h 1 % cap) (n - 1)
  slots-take b n h hf hc hs hh hn =
      let a : add32 h 1 ≡ h + 1 = omega arith in rw (mul32_slot h hf hs hh, a) (slots-cons b h n hn)

  -- A stretch that is one longer ends in the item of the slot just behind it.
  pub slots-snoc :
      (b : Bytes) (n h : ℕ)
      → h < cap
      → slots b h (suc n) ≡ slots b h n ++ (slice b ((h + n) % cap * s) s ∷ [])
  slots-snoc b zero h hh = ap (λ k. slice b (k * s) s ∷ []) (sym (rw add-zero (mod-eq_of_lt hh)))
  slots-snoc b (suc n) h hh =
      ap (λ l. slice b (h * s) s ∷ l)
        (slots-snoc b n ((h + 1) % cap) (omega arith)
          ∙ ap (λ k. slots b ((h + 1) % cap) n ++ (slice b (k * s) s ∷ [])) (round h n))
    where
      round : (h n : ℕ) → ((h + 1) % cap + n) % cap ≡ (h + suc n) % cap
      round h n = rw mod-add-mod (ap (λ k. k % cap) (omega arith))

  -- A copy into the slot just behind a stretch leaves the stretch alone.
  pub slots-blit_behind :
      (b x : Bytes) (n h i : ℕ)
      → length x ≡ s
      → h < cap
      → n < cap
      → i ≡ (h + n) % cap
      → slots (blit b (i * s) x) h n ≡ slots b h n
  slots-blit_behind b x zero h i hx hh hn e = refl
  slots-blit_behind b x (suc n) h i hx hh hn e =
      ap₂ ◌∷◌ (slice-blit_slot_ne b i h s x (rw e (steps_apart cap h n hh hn)) hx)
        (slots-blit_behind b x n ((h + 1) % cap) i hx (omega arith) (omega arith) (e ∙ round h n))
    where
      round : (h n : ℕ) → (h + suc n) % cap ≡ ((h + 1) % cap + n) % cap
      round h n = rw mod-add-mod (ap (λ k. k % cap) (omega arith))
