-- ===== src/Str/Reverse.antt =====
-- `ek_str_reverse`: what the exchange of the ends, inwards, makes of the text.
use ek_utils.Base.{
  ℕ, zero, suc, ◌+◌, ◌-◌, ◌≤◌, ◌<◌, ◌≡◌, ◌≢◌, refl, ap, ◌∙◌, arith, inl, inr, Bool-cases, some, [],
  ◌∷◌, ◌==◌, ltb, get_or, length, Bytes, blit, length-blit,
}
use ek_utils.Err.{ok}
use ek_utils.Str.{store, swap_ends, reverse}
use ek_utils.Str.Append.{get_or-blit, store_within}

get_or-blit_ne :
    (b : Bytes) (off v i d : ℕ) → i ≢ off → get_or (blit b off (v ∷ [])) i d ≡ get_or b i d
unfolding blit
get_or-blit_ne [] off v i d h = refl
get_or-blit_ne (x ∷ xs) zero v zero d h = absurd (h refl)
get_or-blit_ne (x ∷ []) zero v (suc i) d h = refl
get_or-blit_ne (x ∷ y ∷ xs) zero v (suc i) d h = refl
get_or-blit_ne (x ∷ xs) (suc off) v zero d h = refl
get_or-blit_ne (x ∷ xs) (suc off) v (suc i) d h = get_or-blit_ne xs off v i d (λ e. h (ap suc e))

-- `c` is `b` with the bytes from `left` up to `right` in the opposite order.
pub record IsReversal (left right : ℕ) (b c : Bytes) : Type 0 where
  pub same_size : length c ≡ length b
  pub inside : (i : ℕ) → left ≤ i → i < right → get_or c i 0 ≡ get_or b (left + right - 1 - i) 0
  pub below : (i : ℕ) → i < left → get_or c i 0 ≡ get_or b i 0
  pub above : (i : ℕ) → right ≤ i → get_or c i 0 ≡ get_or b i 0

-- The two stores of a round.
exchange : ℕ → ℕ → Bytes → Bytes
exchange left right b =
    blit (blit b left (get_or b (right - 1) 0 ∷ [])) (right - 1) (get_or b left 0 ∷ [])

exchange_ends :
    (left right : ℕ) (b : Bytes)
    → left + 1 < right
    → right ≤ length b
    → (length (exchange left right b) ≡ length b)
      × (get_or (exchange left right b) left 0 ≡ get_or b (right - 1) 0)
      × (get_or (exchange left right b) (right - 1) 0 ≡ get_or b left 0)
      × ((i : ℕ) → i ≢ left → i ≢ right - 1 → get_or (exchange left right b) i 0 ≡ get_or b i 0)
unfolding exchange
exchange_ends left right b lt fits =
    let c = blit b left (get_or b (right - 1) 0 ∷ []) in
    let size : length c ≡ length b = length-blit b left (get_or b (right - 1) 0 ∷ []) in
    (
      length-blit c (right - 1) (get_or b left 0 ∷ []) ∙ size,
      get_or-blit_ne c (right - 1) (get_or b left 0) left 0 (λ e. omega (arith, e))
          ∙ get_or-blit b left (get_or b (right - 1) 0) 0 (omega arith),
      get_or-blit c (right - 1) (get_or b left 0) 0 (omega arith),
      λ i l r.
          get_or-blit_ne c (right - 1) (get_or b left 0) i 0 r
          ∙ get_or-blit_ne b left (get_or b (right - 1) 0) i 0 l,
    )

-- A round, and a reversal of what is between, reverse the whole.
wider :
    (left right : ℕ) (b c : Bytes)
    → left + 1 < right
    → right ≤ length b
    → IsReversal (left + 1) (right - 1) (exchange left right b) c
    → IsReversal left right b c
wider left right b c lt fits is =
    let (size, at_left, at_right, else_same) = exchange_ends left right b lt fits in
    let e = exchange left right b in
    record {
      same_size = is.same_size ∙ size;
      inside = λ i l r. elim (Bool-cases (i == left)) [
        | inl q ↦
            let p : i ≡ left = ground arith in
            let m : right - 1 ≡ left + right - 1 - i = omega arith in
            is.below i (omega arith) ∙ ap (λ k. get_or e k 0) p ∙ at_left ∙ ap (λ k. get_or b k 0) m
        | inr q ↦ elim (Bool-cases (i == right - 1)) [
          | inl q' ↦
              let p : i ≡ right - 1 = ground arith in
              let m : left ≡ left + right - 1 - i = omega arith in
              is.above i (omega arith)
              ∙ ap (λ k. get_or e k 0) p
              ∙ at_right
              ∙ ap (λ k. get_or b k 0) m
          | inr q' ↦
              let n : i ≢ left = ground arith in
              let n' : i ≢ right - 1 = ground arith in
              let m : left + 1 + (right - 1) - 1 - i ≡ left + right - 1 - i = omega arith in
              is.inside i (omega arith) (omega arith)
              ∙ ap (λ k. get_or e k 0) m
              ∙ else_same (left + right - 1 - i) (λ z. n' (omega arith)) (λ z. n (omega arith))
        ]
      ];
      below = λ i h. is.below i (omega arith) ∙ else_same i (λ z. omega arith) (λ z. omega arith);
      above = λ i h. is.above i (omega arith) ∙ else_same i (λ z. omega arith) (λ z. omega arith);
    }

swap_ends_lem :
    (fuel left right : ℕ) (b : Bytes)
    → right ≤ length b
    → right ≤ left + fuel
    → (c : Bytes) × (swap_ends fuel left right b ≡ some c) × IsReversal left right b c
unfolding swap_ends exchange
swap_ends_lem zero left right b fits few = (
  b,
  refl,
  record {
    same_size = refl;
    inside = λ i l r. absurd (omega arith);
    below = λ i h. refl;
    above = λ i h. refl;
  },
)
swap_ends_lem (suc fuel) left right b fits few = elim (Bool-cases (ltb (left + 1) right)) [
  | inl e ↦
      let lt : left + 1 < right = ground arith in
      let b1 = blit b left (get_or b (right - 1) 0 ∷ []) in
      let size : length b1 ≡ length b = length-blit b left (get_or b (right - 1) 0 ∷ []) in
      let first : store b left (get_or b (right - 1) 0 ∷ []) ≡ some b1 =
        store_within b left _ (omega arith) in
      let second : store b1 (right - 1) (get_or b left 0 ∷ []) ≡ some (exchange left right b) =
        store_within b1 (right - 1) _ (omega arith) in
      let same = (exchange_ends left right b lt fits).0 in
      let (c, runs, is) =
        swap_ends_lem fuel (left + 1) (right - 1) (exchange left right b) (omega arith)
          (omega arith) in
      rw (e, first, second) (c, runs, wider left right b c lt fits is)
  | inr e ↦ rw e (
    b,
    refl,
    record {
      same_size = refl;
      inside = λ i l r. ap (λ k. get_or b k 0) (ground arith);
      below = λ i h. refl;
      above = λ i h. refl;
    },
  )
]

-- `ek_str_reverse` of a string whose text ends within its buffer ends, and leaves the text in the
-- opposite order and the rest of the buffer, the NUL with it, as it was.
pub reverse_lem :
    (b : Bytes) (cap len : ℕ)
    → len ≤ length b
    → (c : Bytes) × (reverse (some (record { buf = some b; cap = cap; len = len }))
        ≡ some (ok, some (record { buf = some c; cap = cap; len = len })))
      × IsReversal 0 len b c
unfolding reverse
reverse_lem b cap len fits =
    let (c, runs, is) = swap_ends_lem len 0 len b fits (omega arith) in rw runs (c, refl, is)
