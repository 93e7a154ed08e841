-- ===== src/Str/Slice.antt =====
-- `ek_str_slice`: the part that it copies.
use ek_utils.Base.{
  ℕ, ◌+◌, ◌-◌, ◌^◌, ◌≤◌, ◌<◌, ◌≡◌, refl, ap, ◌∙◌, arith, true, false, Option, some, [], ◌∷◌, ◌==◌,
  leb, length, take, Bytes, blit, length-blit, slice, length-slice, add32, sub32,
}
use ek_utils.Str.{store, clamp, ℤ, pos, negsuc, copy_part, slice_str}
use ek_utils.Str.Append.{Reads, take-blit, take-blit_before, get_or-blit, store_within}

clamp_le : (i : ℤ) (len : ℕ) → clamp i len ≤ len
unfolding clamp
clamp_le (pos i) len = ground arith
clamp_le (negsuc i) len = omega arith

copy_part_lem :
    (block b : Bytes) (from n : ℕ)
    → length block ≡ n + 1
    → from + n ≤ length b
    → (c : Bytes) × (copy_part (some block) (some b) from n
        ≡ some (some (record { buf = some c; cap = n; len = n })))
      × Reads c n (slice b from n)
unfolding copy_part
copy_part_lem block b from n size fits =
    let part = slice b from n in
    let long : length part ≡ n = length-slice b from n fits in
    let c = blit block 0 part in
    let end_at : n ≡ 0 + length part = omega arith in
    let same : length c ≡ length block = length-blit block 0 part in
    let read : leb (from + n) (length b) ≡ true = ground arith in
    let first : store block 0 part ≡ some c = store_within block 0 part (omega arith) in
    let second : store c n (0 ∷ []) ≡ some (blit c n (0 ∷ [])) =
      store_within c n (0 ∷ []) (omega arith) in
    rw (read, first, second)
      (
        _,
        refl,
        (
          take-blit_before c n (0 ∷ [])
              ∙ ap (λ k. take k c) end_at
              ∙ take-blit block 0 part (omega arith),
          get_or-blit c n 0 1 (omega arith),
        ),
      )

-- `ek_str_slice` between two indices that stand in this order once they are clamped, of a string
-- shorter than 2^31 that ends within its buffer, with memory for it: a string of the text between
-- the indices and a NUL. It reads and writes nothing outside the buffers.
pub slice_str_lem :
    (malloc : ℕ → Option Bytes) (realloc : Bytes → ℕ → Option Bytes) (fuel : ℕ) (b : Bytes)
    (cap len : ℕ) (start end : ℤ) (block : Bytes)
    → len ≤ length b
    → len < 2 ^ 31
    → clamp start len < clamp end len
    → malloc (clamp end len - clamp start len + 1) ≡ some block
    → length block ≡ clamp end len - clamp start len + 1
    → (c : Bytes) × (slice_str malloc realloc fuel true
          (some (record { buf = some b; cap = cap; len = len }))
          start
          end
        ≡ some (
            some (record {
              buf = some c;
              cap = clamp end len - clamp start len;
              len = clamp end len - clamp start len;
            })))
      × Reads c
          (clamp end len - clamp start len)
          (slice b (clamp start len) (clamp end len - clamp start len))
unfolding slice_str
slice_str_lem malloc realloc fuel b cap len start end block fits narrow order got size =
    let from = clamp start len in
    let to = clamp end len in
    let top : to ≤ len = clamp_le end len in
    let apart : (from == to) ≡ false = ground arith in
    let width : sub32 to from ≡ to - from = omega arith in
    let asked : add32 (to - from) 1 ≡ to - from + 1 = omega arith in
    let (c, runs, reads) = copy_part_lem block b from (to - from) size (omega arith) in
    rw (apart, width, asked, got, runs) (c, refl, reads)
