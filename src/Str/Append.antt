-- ===== src/Str/Append.antt =====
-- `ek_str_append_len`: what it appends, and where it fails.
use ek_utils.Base.{
  ℕ, zero, suc, ◌+◌, ◌^◌, ◌≤◌, ◌<◌, ◌≡◌, ◌≢◌, refl, sym, ap, ◌∙◌, arith, inl, inr, ◌⊎◌, Bool-cases,
  Option-cases, true, false, Option, none, some, [], ◌∷◌, ◌++◌, ◌==◌, leb, ◌>>=◌, get_or, length,
  length-take, take, Bytes, blit, length-blit, word, add32,
}
use ek_utils.Err.{ok, nomem}
use ek_utils.Str.{grow, Str, store, ensure_cap, new_block, put_text, append_bytes, append_len}
use ek_utils.Str.Growth.{grow-ends}

pub take-blit :
    (b : Bytes) (off : ℕ) (src : Bytes)
    → off + length src ≤ length b
    → take (off + length src) (blit b off src) ≡ take off b ++ src
unfolding blit
take-blit [] zero [] h = refl
take-blit [] zero (y ∷ ys) h = absurd (omega arith)
take-blit [] (suc off) src h = absurd (omega arith)
take-blit (x ∷ xs) zero [] h = refl
take-blit (x ∷ xs) zero (y ∷ ys) h =
    let n : 0 + suc (length ys) ≡ suc (0 + length ys) = omega arith in
    rw n (ap (◌∷◌ y) (take-blit xs zero ys (omega arith)))
take-blit (x ∷ xs) (suc off) src h =
    let n : suc off + length src ≡ suc (off + length src) = omega arith in
    rw n (ap (◌∷◌ x) (take-blit xs off src (omega arith)))

take-take : (k n : ℕ) (xs : Bytes) → k ≤ n → take k (take n xs) ≡ take k xs
take-take zero n xs h = refl
take-take (suc k) zero xs h = absurd (omega arith)
take-take (suc k) (suc n) [] h = refl
take-take (suc k) (suc n) (x ∷ xs) h = ap (◌∷◌ x) (take-take k n xs (omega arith))

pub take-blit_before : (b : Bytes) (off : ℕ) (src : Bytes) → take off (blit b off src) ≡ take off b
unfolding blit
take-blit_before b zero src = refl
take-blit_before [] (suc off) src = refl
take-blit_before (x ∷ xs) (suc off) src = ap (◌∷◌ x) (take-blit_before xs off src)

pub get_or-blit :
    (b : Bytes) (off v d : ℕ) → off < length b → get_or (blit b off (v ∷ [])) off d ≡ v
unfolding blit
get_or-blit [] off v d h = absurd (omega arith)
get_or-blit (x ∷ xs) zero v d h = refl
get_or-blit (x ∷ xs) (suc off) v d h = get_or-blit xs off v d (omega arith)

pub store_within :
    (b : Bytes) (off : ℕ) (src : Bytes)
    → off + length src ≤ length b
    → store b off src ≡ some (blit b off src)
store_within b off src h =
    let yes : leb (off + length src) (length b) ≡ true = ground arith in rw yes refl

-- A string with the buffer `b`.
abbrev pub within : Bytes → ℕ → Str
within b len = record { buf = some b; cap = length b; len = len }

-- Its buffer is as large as its capacity says, and has room for the text and the NUL.
pub record IsValid (b : Bytes) (len : ℕ) : Type 0 where
  pub inside : suc len ≤ length b
  pub grows : length b ≢ 1
  pub narrow : length b < word

-- The text, and the NUL behind it.
abbrev pub Reads : Bytes → ℕ → Bytes → Type 0
Reads b n text = (take n b ≡ text) × (get_or b n 1 ≡ 0)

-- What `ek_realloc` does when it does not fail: a block of the size asked for that begins as the old.
abbrev pub Reallocates : (Bytes → ℕ → Option Bytes) → Type 0
Reallocates realloc =
    (b : Bytes) (n : ℕ) (b' : Bytes)
    → realloc b n ≡ some b'
    → length b ≤ n
    → (length b' ≡ n) × (take (length b) b' ≡ b)

put_text_lem :
    (malloc : ℕ → Option Bytes) (realloc : Bytes → ℕ → Option Bytes) (fuel : ℕ) (b : Bytes)
    (cap len : ℕ) (str : Bytes) (n : ℕ)
    → len + n + 1 ≤ length b
    → len + n < word
    → n ≤ length str
    → (b' : Bytes) × (put_text malloc realloc fuel
          (record { buf = some b; cap = cap; len = len })
          str
          n
        ≡ some (ok, record { buf = some b'; cap = cap; len = len + n }))
      × (length b' ≡ length b)
      × Reads b' (len + n) (take len b ++ take n str)
unfolding put_text
put_text_lem malloc realloc fuel b cap len str n room narrow enough =
    let src = take n str in
    let size : length src ≡ n = omega (arith, length-take n str) in
    let at : add32 len n ≡ len + n = omega arith in
    let b1 = blit b len src in
    let same : length b1 ≡ length b = length-blit b len src in
    let first : store b len src ≡ some b1 = store_within b len src (omega arith) in
    let second : store b1 (len + n) (0 ∷ []) ≡ some (blit b1 (len + n) (0 ∷ [])) =
      store_within b1 (len + n) (0 ∷ []) (omega arith) in
    rw (first, at, second)
      (
        _,
        refl,
        length-blit b1 (len + n) (0 ∷ []) ∙ same,
        (
          take-blit_before b1 (len + n) (0 ∷ [])
              ∙ ap (λ k. take (len + k) b1) (sym size)
              ∙ take-blit b len src (omega arith),
          get_or-blit b1 (len + n) 0 1 (omega arith),
        ),
      )

grow_first : (fuel : ℕ) → 0 < fuel → grow fuel 0 2 ≡ some 3
unfolding grow
grow_first zero h = absurd (omega arith)
grow_first (suc fuel) h = refl

module _ (malloc : ℕ → Option Bytes) (realloc : Bytes → ℕ → Option Bytes) (fuel : ℕ) where
  -- `_str_ensure_cap` of a valid string: room for the request, and the text kept.
  ensure_cap_lem :
      (b : Bytes) (len need : ℕ)
      → Reallocates realloc
      → IsValid b len
      → need ≤ 2 ^ 31
      → need ≤ fuel
      → (ensure_cap malloc realloc fuel (within b len) need ≡ some (nomem, within b len))
        ⊎ ((b' : Bytes) × (ensure_cap malloc realloc fuel (within b len) need
              ≡ some (ok, within b' len))
            × (need ≤ length b')
            × (length b ≤ length b')
            × (length b' < word)
            × (take len b' ≡ take len b))
  unfolding ensure_cap new_block
  ensure_cap_lem b len need law v top few = elim (Bool-cases (leb need (length b))) [
    | inl e ↦ rw e (inr (b, refl, ground arith, omega arith, v.narrow, refl))
    | inr e ↦
        let (c, ends, big, fits) =
          grow-ends fuel (length b) need v.grows (ground arith) top (omega arith) in
        elim (Option-cases (realloc b c)) [
          | inl out ↦ rw (e, ends, out) (inl refl)
          | inr (b', got) ↦
              let (size, kept) = law b c b' got (ground arith) in
              rw (e, ends, got)
                (inr (
                  b',
                  ap (λ k. some (ok, record { buf = some b'; cap = k; len = len })) (sym size),
                  omega arith,
                  ground arith,
                  omega arith,
                  sym (take-take len (length b) b' (omega arith)) ∙ ap (take len) kept,
                ))
        ]
  ]

  -- `ek_str_append_len` to a valid string of a part of a text, not empty, that leaves the string with
  -- its NUL no longer than 2^31, with as much fuel, and an `ek_realloc` that keeps the bytes when it
  -- enlarges a block: if the memory is not short, the string then is its text, the part, and a NUL,
  -- and valid; if it is, the result is `EK_ERR_NOMEM` and the string stays as it was. It always ends,
  -- and writes nothing outside the buffer.
  pub append_len_lem :
      (b : Bytes) (len : ℕ) (str : Bytes) (n : ℕ)
      → Reallocates realloc
      → IsValid b len
      → 0 < n
      → n ≤ length str
      → len + n + 1 ≤ 2 ^ 31
      → len + n + 1 ≤ fuel
      → (append_len malloc realloc fuel (some (within b len)) (some str) n
          ≡ some (nomem, some (within b len)))
        ⊎ ((b' : Bytes) × (append_len malloc realloc fuel (some (within b len)) (some str) n
              ≡ some (ok, some (within b' (len + n))))
            × IsValid b' (len + n)
            × Reads b' (len + n) (take len b ++ take n str))
  unfolding append_len append_bytes
  append_len_lem b len str n law v some_text enough top few =
      let used : (n == 0) ≡ false = ground arith in
      let need : add32 (add32 len n) 1 ≡ len + n + 1 = omega arith in
      elim (ensure_cap_lem b len (len + n + 1) law v top few) [
        | inl out ↦ rw (used, need, out) (inl refl)
        | inr (b1, got, room, longer, narrow, kept) ↦
            let (b', wrote, same, reads) =
              put_text_lem malloc realloc fuel b1 (length b1) len str n room (omega arith) enough in
            rw (used, need, got, wrote)
              (inr (
                b',
                ap (λ k. some (ok, some (record { buf = some b'; cap = k; len = len + n })))
                    (sym same),
                record {
                  inside = omega arith;
                  grows = λ q. v.grows (omega (arith, q, v.inside));
                  narrow = omega arith;
                },
                (reads.0 ∙ ap (λ t. t ++ take n str) kept, reads.1),
              ))
      ]

  -- Where `ek_malloc` of 2 bytes gives a block of 2 bytes, with fuel for one round: an append of one
  -- byte to a string without a buffer, and then of another, writes behind the block.
  pub second_append-faults :
      (x y : ℕ) (block : Bytes)
      → 0 < fuel
      → malloc 2 ≡ some block
      → length block ≡ 2
      → (append_len malloc realloc fuel
            (some (record { buf = none; cap = 0; len = 0 }))
            (some (x ∷ []))
            1
          >>= λ r. append_len malloc realloc fuel r.1 (some (y ∷ [])) 1)
        ≡ none
  unfolding append_len append_bytes ensure_cap new_block put_text blit
  second_append-faults x y [] run got two = absurd (omega (arith, two))
  second_append-faults x y (u ∷ []) run got two = absurd (omega (arith, two))
  second_append-faults x y (u ∷ v ∷ w ∷ block) run got two = absurd (omega (arith, two))
  second_append-faults x y (u ∷ v ∷ []) run got two = rw (grow_first fuel run, got) refl
