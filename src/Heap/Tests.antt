-- ===== src/Heap/Tests.antt =====
-- The sizes of a small pool.
use ek_utils.Base.{
  ℕ, ◌+◌, ◌≡◌, refl, true, false, List, [], ◌∷◌, add32, Option, none, some, ◌==◌, if◌then◌else◌,
  ◌>>=◌,
}
use ek_utils.Heap.Calls.{
  Tlsf, heap_init, heap_destroy, heap_add_pool, heap_remove_pool, ek_malloc, ek_realloc, ek_free,
}
use ek_utils.Heap.{
  Block, Counts, walker_unused, walker_used, pool_unused, pool_used, pool_total_size, heap_unused,
  heap_used, heap_total_size, pool_total_size_lem,
}

abbrev pool : List Block
pool =
    record { size = 8; used = true }
    ∷ record { size = 100; used = false }
    ∷ record { size = 24; used = true }
    ∷ []

abbrev counts : List ℕ
counts =
    let c : Counts = record { unused_bytes = 0; used_bytes = 0 } in
    let (unused, c) = heap_unused pool c in
    let (used, c) = heap_used pool c in
    unused ∷ used ∷ c.unused_bytes ∷ c.used_bytes ∷ heap_total_size 200 40 ∷ []

counted : counts ≡ 100 ∷ 32 ∷ 100 ∷ 32 ∷ 160 ∷ []
unfolding walker_unused walker_used
counted = refl

pool_of_132 :
    (pool_total_size pool ≡ 132)
    × (add32 (pool_used pool) (pool_unused pool) ≡ pool_total_size pool)
pool_of_132 = pool_total_size_lem pool

-- An allocator that gives the addresses 100, 101 and so on, and keeps what was freed last.
abbrev counter : Tlsf (ℕ × Option ℕ) (Unit {0})
counter = record {
  create_with_pool = λ heap size. if size == 0 then none else some (heap, none);
  destroy = λ t. t;
  add_pool = λ t ptr size. (some tt, t);
  remove_pool = λ t pool. t;
  malloc = λ t size. (some t.0, (t.0 + 1, t.1));
  realloc = λ t ptr size. (some t.0, (t.0 + 1, ptr));
  free = λ t ptr. (t.0, ptr);
}

abbrev session : Option (Option ℕ × Option ℕ × Option (ℕ × Option ℕ))
session = do
  t ← heap_init counter 100 64 none
  (_, t) ← heap_add_pool counter 300 64 t
  t ← heap_remove_pool counter tt t
  (p, t) ← ek_malloc counter 8 t
  (q, t) ← ek_realloc counter p 16 t
  t ← ek_free counter q t
  t ← heap_destroy counter t
  some (p, q, t)

session_runs :
    (session ≡ some (some 100, some 101, some (102, some 101)))
    × (heap_init counter 100 0 none ≡ none)
unfolding heap_init heap_add_pool heap_remove_pool ek_malloc ek_realloc ek_free heap_destroy
session_runs = (refl, refl)
