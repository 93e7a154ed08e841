-- ===== src/Heap.antt =====
-- src/ek_heap.c: the sizes of the default heap and of pools. The TLSF allocator is vendored code: a
-- pool is the sequence of the blocks that `tlsf_walk_pool` shows a walker, and `tlsf_size` a number.
pub mod Calls
mod Tests
use ek_utils.Base.{
  ℕ, ◌+◌, ◌%◌, ◌≡◌, refl, ap, ◌∙◌, arith, inl, inr, Bool-cases, Bool, true, false, not, List, [],
  ◌∷◌, if◌then◌else◌, word, add32, sub32,
}

-- The arguments `size` and `used` of a walker.
pub record Block : Type 0 where
  pub size : ℕ
  pub used : Bool

-- `tlsf_walk_pool` with a walker that changes a count.
abbrev pub walk_pool : (Block → ℕ → ℕ) → List Block → ℕ → ℕ
walk_pool walker [] count = count
walk_pool walker (b ∷ pool) count = walk_pool walker pool (walker b count)

unfoldable pub walker_unused : Block → ℕ → ℕ
walker_unused b count = if not b.used then add32 count b.size else count

unfoldable pub walker_used : Block → ℕ → ℕ
walker_used b count = if b.used then add32 count b.size else count

abbrev pub pool_unused : List Block → ℕ
pool_unused pool = walk_pool walker_unused pool 0

abbrev pub pool_used : List Block → ℕ
pool_used pool = walk_pool walker_used pool 0

abbrev pub pool_total_size : List Block → ℕ
pool_total_size pool =
    let unused = walk_pool walker_unused pool 0 in
    let used = walk_pool walker_used pool 0 in add32 unused used

-- The statics `s_unused_bytes` and `s_used_bytes`.
pub record Counts : Type 0 where
  pub unused_bytes : ℕ
  pub used_bytes : ℕ

-- `pool` is the pool of the default heap.
abbrev pub heap_unused : List Block → Counts → ℕ × Counts
heap_unused pool c = let n = walk_pool walker_unused pool 0 in (n, record c { unused_bytes = n })

abbrev pub heap_used : List Block → Counts → ℕ × Counts
heap_used pool c = let n = walk_pool walker_used pool 0 in (n, record c { used_bytes = n })

-- `heap_size` is `EKCFG_HEAP_SIZE`, `control` is `tlsf_size ()`.
abbrev pub heap_total_size : ℕ → ℕ → ℕ
heap_total_size heap_size control = sub32 heap_size control

-- The sizes of all blocks, with no wrap.
abbrev pub sizes : List Block → ℕ
sizes [] = 0
sizes (b ∷ pool) = b.size + sizes pool

unused_and_used :
    (pool : List Block) (m n : ℕ)
    → (walk_pool walker_unused pool m + walk_pool walker_used pool n) % word
      ≡ (m + n + sizes pool) % word
unfolding walker_unused walker_used
unused_and_used [] m n = ap (λ x. x % word) (omega arith)
unused_and_used (b ∷ pool) m n = elim (Bool-cases b.used) [
  | inl u ↦ rw u (unused_and_used pool m (add32 n b.size) ∙ omega arith)
  | inr u ↦ rw u (unused_and_used pool (add32 m b.size) n ∙ omega arith)
]

-- `ek_pool_total_size` is the sum of the sizes of all blocks of the pool, used or not, modulo 2^32,
-- and `ek_pool_used` and `ek_pool_unused` add up to it, modulo 2^32.
pub pool_total_size_lem :
    (pool : List Block)
    → (pool_total_size pool ≡ sizes pool % word)
      × (add32 (pool_used pool) (pool_unused pool) ≡ pool_total_size pool)
pool_total_size_lem pool =
    (unused_and_used pool 0 0 ∙ ap (λ x. x % word) (omega arith), omega arith)
