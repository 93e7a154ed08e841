-- ===== src/Vec.antt =====
-- inc/ek_vec.h: growing vectors, which macros make for an element type. `size` is the `sizeof` of an
-- element. The result `none` is a read or a write outside of the block of the elements.
mod Tests
pub mod Holds
pub mod Append
pub mod Remove
use ek_utils.Base.{
  up_from, ℕ, zero, suc, ◌+◌, ◌-◌, ◌*◌, ◌/◌, Bool, true, false, Option, none, some, List, [], ◌∷◌,
  ◌==◌, ltb, leb, if◌then◌else◌, length, get_elem?, set, ◌>>=◌, add32, mul32,
}

-- `ek_vec_t (A)`; `items` is the block, or `NULL`.
pub record Vec (A : Type 0) : Type 0 where
  pub items : Option (List A)
  pub amount : ℕ
  pub cap : ℕ

-- `VEC_LARGE_THRESHOLD`
abbrev pub large_threshold : ℕ
large_threshold = 32

-- The capacity that an append asks for.
abbrev pub new_cap : ℕ → ℕ
new_cap cap =
    if ltb cap large_threshold then (if cap == 0 then 8 else 2 * cap) else add32 cap (cap / 2)

module _ {A : Type 0} where
  abbrev pub init : Vec A
  init = record { items = none; amount = 0; cap = 0 }

  -- `ek_free_safely` of the block; `free` is what `ek_free` does to the heap.
  abbrev pub free_safely :
      {Heap : Type 0} → (Option (List A) → Heap → Heap) → Vec A → Heap → Vec A × Heap
  free_safely free v h = (record v { items = none }, free v.items h)

  unfoldable pub destroy :
      {Heap : Type 0} → (Option (List A) → Heap → Heap) → Vec A → Heap → Vec A × Heap
  destroy free v h = let (v, h) = free_safely free v h in (record v { amount = 0; cap = 0 }, h)

  -- The elements that may be read and written.
  abbrev pub block_of : Option (List A) → List A
  block_of none = []
  block_of (some b) = b

  -- `b[i] = x`
  abbrev pub store : List A → ℕ → A → Option (List A)
  store b i x = if ltb i (length b) then some (set b i x) else none

  -- `(v).items[(v).amount++] = (val)`
  unfoldable pub put : A → Vec A → Option (Vec A)
  put x v = do
    b ← store (block_of v.items) v.amount x
    some (record v { items = some b; amount = add32 v.amount 1 })

  -- What `ek_realloc` gave for the elements of a new capacity; a refusal ends the append.
  abbrev pub put_into : ℕ → Option (List A) → A → Vec A → Option (Vec A)
  put_into cap none x v = some v
  put_into cap (some b) x v = put x (record v { items = some b; cap = cap })

  -- `realloc` is `ek_realloc`.
  module _ (size : ℕ) (realloc : Option (List A) → ℕ → Option (List A)) where
    unfoldable pub append : A → Vec A → Option (Vec A)
    append x v =
        let cap = new_cap v.cap in
        let grown = put_into cap (realloc v.items (mul32 cap size)) x v in
        if leb v.cap v.amount then grown else put x v

    abbrev pub shrink_into : Option (List A) → Vec A → Vec A
    shrink_into none v = v
    shrink_into (some b) v = record v { items = some b; cap = v.amount }

    abbrev pub free_items :
        {Heap : Type 0} → (Option (List A) → Heap → Heap) → Vec A → Heap → Vec A × Heap
    free_items free v h = elim v.items [
      | none ↦ (v, h)
      | some b ↦ let (v, h) = free_safely free v h in (record v { cap = 0 }, h)
    ]

    unfoldable pub shrink :
        {Heap : Type 0} → (Option (List A) → Heap → Heap) → Vec A → Heap → Vec A × Heap
    shrink free v h =
        if v.amount == 0
        then free_items free v h
        else (shrink_into (realloc v.items (mul32 v.amount size)) v, h)

  -- The loop of `ek_vec_remove`, which has `n` rounds from `i` on.
  unfoldable pub shift : ℕ → ℕ → List A → Option (List A)
  shift zero i b = some b
  shift (suc n) i b = do x ← get_elem? b (i + 1); b ← store b i x; shift n (i + 1) b

  unfoldable pub remove : ℕ → Vec A → Option (Vec A)
  remove i v =
      let removed = (do
        b ← shift (v.amount - 1 - i) i (block_of v.items)
        some (record v { items = some b; amount = v.amount - 1 })) in
      if ltb i v.amount then removed else some v

  unfoldable pub remove_unorder : ℕ → Vec A → Option (Vec A)
  remove_unorder i v =
      let removed = (do
        x ← get_elem? (block_of v.items) (v.amount - 1)
        b ← store (block_of v.items) i x
        some (record v { items = some b; amount = v.amount - 1 })) in
      if ltb i v.amount then removed else some v

  abbrev pub clear : Vec A → Vec A
  clear v = record v { amount = 0 }

  -- The positions that `ek_vec_foreach_from` visits, if its body leaves the vector alone.
  unfoldable pub foreach_from : ℕ → Vec A → List ℕ
  foreach_from index v =
      let pos = if ltb index v.amount then index else v.amount in up_from pos (v.amount - pos)

  abbrev pub foreach : Vec A → List ℕ
  foreach v = up_from 0 v.amount
