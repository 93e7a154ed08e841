-- ===== src/Heap/Calls.antt =====
-- src/ek_heap.c: the default heap, over the vendored allocator, whose functions are parameters.
use ek_utils.Base.{ℕ, Option, some, ◌>>=◌}

-- What the code calls of TLSF. `T` is the memory behind a `tlsf_t`, `P` is `pool_t`; a pointer is a
-- number.
pub record Tlsf (T P : Type 0) : Type 0 where
  pub create_with_pool : ℕ → ℕ → Option T
  pub destroy : T → T
  pub add_pool : T → ℕ → ℕ → Option P × T
  pub remove_pool : T → P → T
  pub malloc : T → ℕ → Option ℕ × T
  pub realloc : T → Option ℕ → ℕ → Option ℕ × T
  pub free : T → Option ℕ → T

-- `s_default_tlsf` is an option: `NULL` before `ek_heap_init`, and then no call is in order, `none`.
module _ {T P : Type 0} (tlsf : Tlsf T P) where
  -- `heap` is `s_default_heap`, `size` is `EKCFG_HEAP_SIZE`. Where no heap is made the code goes
  -- round for ever: `none`.
  unfoldable pub heap_init : ℕ → ℕ → Option T → Option (Option T)
  heap_init heap size t = do t ← tlsf.create_with_pool heap size; some (some t)

  unfoldable pub heap_destroy : Option T → Option (Option T)
  heap_destroy t = do t ← t; some (some (tlsf.destroy t))

  unfoldable pub heap_add_pool : ℕ → ℕ → Option T → Option (Option P × Option T)
  heap_add_pool ptr size t = do t ← t; let (pool, t) = tlsf.add_pool t ptr size; some (pool, some t)

  unfoldable pub heap_remove_pool : P → Option T → Option (Option T)
  heap_remove_pool pool t = do t ← t; some (some (tlsf.remove_pool t pool))

  unfoldable pub ek_malloc : ℕ → Option T → Option (Option ℕ × Option T)
  ek_malloc size t = do t ← t; let (ptr, t) = tlsf.malloc t size; some (ptr, some t)

  unfoldable pub ek_realloc : Option ℕ → ℕ → Option T → Option (Option ℕ × Option T)
  ek_realloc ptr size t = do t ← t; let (ptr, t) = tlsf.realloc t ptr size; some (ptr, some t)

  unfoldable pub ek_free : Option ℕ → Option T → Option (Option T)
  ek_free ptr t = do t ← t; some (some (tlsf.free t ptr))
