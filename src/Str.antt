-- ===== src/Str.antt =====
-- src/ek_str.c: growing strings. A string is its struct; the buffer is a block of bytes. The result
-- `none` is a run that reads or writes outside a block or through `NULL`, or does not end.
pub mod Growth
pub mod Append
pub mod Reverse
pub mod Slice
mod Tests
use ek_utils.Base.{
  ℕ, zero, suc, ◌+◌, ◌-◌, ◌/◌, Bool, true, false, not, ◌||◌, Option, none, some, List, [], ◌∷◌,
  ◌==◌, ltb, leb, if◌then◌else◌, get_or, length, take, Bytes, blit, slice, add32, sub32, ◌>>=◌,
}
use ek_utils.Err.{Err, ok, inval, nomem, parse, is_ok}
use ek_utils.StrView.{strlen}

-- `struct ek_str`
pub record Str : Type 0 where
  pub buf : Option Bytes
  pub cap : ℕ
  pub len : ℕ

-- A write into a block: it faults where it would leave the block.
abbrev pub store : Bytes → ℕ → Bytes → Option Bytes
store b off src = if leb (off + length src) (length b) then some (blit b off src) else none

-- The loop of `_str_ensure_cap`, with fuel for its rounds.
unfoldable pub grow : ℕ → ℕ → ℕ → Option ℕ
grow zero cap len = none
grow (suc fuel) cap len =
    let cap = if cap == 0 then 2 else cap in
    let cap = add32 cap (cap / 2) in
    let more = grow fuel cap len in if ltb cap len then more else some cap

-- `malloc` and `realloc` are `ek_malloc` and `ek_realloc`.
module _ (malloc : ℕ → Option Bytes) (realloc : Bytes → ℕ → Option Bytes) (fuel : ℕ) where
  -- The new block; the first is of `len` bytes, not of the new capacity.
  unfoldable pub new_block : Option Bytes → ℕ → ℕ → Option Bytes
  new_block none len new_cap = malloc len
  new_block (some b) len new_cap = realloc b new_cap

  unfoldable pub ensure_cap : Str → ℕ → Option (Err × Str)
  ensure_cap s len = if leb len s.cap then some (ok, s) else do
    new_cap ← grow fuel s.cap len
    some (elim (new_block s.buf len new_cap) [
      | none ↦ (nomem, s)
      | some b ↦ (ok, record { buf = some b; cap = new_cap; len = s.len })
    ])

  -- The copy behind the text, and the NUL behind the copy.
  unfoldable pub put_text : Str → Bytes → ℕ → Option (Err × Str)
  put_text s str n = do
    b ← s.buf
    b ← store b s.len (take n str)
    b ← store b (add32 s.len n) (0 ∷ [])
    some (ok, record { buf = some b; cap = s.cap; len = add32 s.len n })

  -- `ek_str_append_len` behind its tests
  unfoldable pub append_bytes : Str → Bytes → ℕ → Option (Err × Str)
  append_bytes s str n = do
    (e, s) ← ensure_cap s (add32 (add32 s.len n) 1)
    let done = put_text s str n
    if is_ok e then done else some (e, s)

  unfoldable pub append_len : Option Str → Option Bytes → ℕ → Option (Err × Option Str)
  append_len none str n = some (inval, none)
  append_len (some s) none n = some (if n == 0 then ok else inval, some s)
  append_len (some s) (some str) n =
      let done = (do (e, s) ← append_bytes s str n; some (e, some s)) in
      if n == 0 then some (inval, some s) else done

  unfoldable pub append : Option Str → Bytes → Option (Err × Option Str)
  append s str = append_len s (some str) (strlen str)

  -- Of two different strings.
  unfoldable pub cat : Option Str → Option Str → Option (Err × Option Str)
  cat dst none = some (inval, dst)
  cat none (some src) = some (inval, none)
  cat (some dst) (some src) = append_len (some dst) src.buf src.len

  -- `text` is what `ek_vsnprintf` makes of the format and the arguments: `none` is an error of it.
  unfoldable pub append_fmt : Option Str → Bool → Option Bytes → Option (Err × Option Str)
  append_fmt none has_fmt text = some (inval, none)
  append_fmt (some s) false text = some (inval, some s)
  append_fmt (some s) true none = some (parse, some s)
  append_fmt (some s) true (some text) = do
    (e, s) ← ensure_cap s (add32 s.len (length text))
    let done = (do (e, s) ← put_text s text (length text); some (e, some s))
    if is_ok e then done else some (e, some s)

  -- `got` tells whether the struct could be allocated.
  unfoldable pub create : Bool → Option Bytes → Option (Option Str)
  create false str = some none
  create true none = some (some (record { buf = none; cap = 0; len = 0 }))
  create true (some str) = do
    (e, s) ← append (some (record { buf = none; cap = 0; len = 0 })) str
    some (if is_ok e then s else none)

-- The value of an `int32_t`; `negsuc n` is -(n + 1).
pub data ℤ : Type 0 where
  pos negsuc : ℕ → ℤ

-- `INDEX_CLAMP`, for a length below 2^31
unfoldable pub clamp : ℤ → ℕ → ℕ
clamp (pos i) len = if ltb len i then len else i
clamp (negsuc i) len = len - suc i

-- A read from a block: it faults where it would leave the block.
abbrev pub load : Bytes → ℕ → ℕ → Option Bytes
load b off n = if leb (off + n) (length b) then some (slice b off n) else none

-- The copy that `ek_str_slice` makes into its new buffer, if there is one.
unfoldable pub copy_part : Option Bytes → Option Bytes → ℕ → ℕ → Option (Option Str)
copy_part none buf from n = some none
copy_part (some block) buf from n = do
  b ← buf
  part ← load b from n
  block ← store block 0 part
  block ← store block n (0 ∷ [])
  some (some (record { buf = some block; cap = n; len = n }))

module _ (malloc : ℕ → Option Bytes) (realloc : Bytes → ℕ → Option Bytes) (fuel : ℕ) where
  -- The indices wrap where the end stands before the start.
  unfoldable pub slice_str : Bool → Option Str → ℤ → ℤ → Option (Option Str)
  slice_str got none start end = some none
  slice_str got (some s) start end =
      let from = clamp start s.len in
      let to = clamp end s.len in
      let n = sub32 to from in
      let empty = create malloc realloc fuel got (some (0 ∷ [])) in
      let part = copy_part (malloc (add32 n 1)) s.buf from n in
      if from == to then empty else if got then part else some none

unfoldable pub clear : Option Str → Option Str
clear none = none
clear (some s) = some (record s { len = 0 })

-- `free_buf` and `free_str` are `ek_free`.
unfoldable pub free :
    {Heap : Type 0} → (Option Bytes → Heap → Heap) → (Str → Heap → Heap) → Option Str → Heap → Heap
free free_buf free_str none h = h
free free_buf free_str (some s) h = free_str (record s { cap = 0; len = 0 }) (free_buf s.buf h)

-- The loop of `ek_str_reverse`: `right` is one behind the pointer of that name. A round brings the
-- two closer, so the length is enough fuel.
unfoldable pub swap_ends : ℕ → ℕ → ℕ → Bytes → Option Bytes
swap_ends zero left right b = some b
swap_ends (suc fuel) left right b =
    let swapped = (do
      c ← store b left (get_or b (right - 1) 0 ∷ [])
      c ← store c (right - 1) (get_or b left 0 ∷ [])
      swap_ends fuel (left + 1) (right - 1) c) in
    if ltb (left + 1) right then swapped else some b

unfoldable pub reverse : Option Str → Option (Err × Option Str)
reverse none = some (inval, none)
reverse (some s) = elim s.buf [
  | none ↦ some (inval, some s)
  | some b ↦ do b ← swap_ends s.len 0 s.len b; some (ok, some (record s { buf = some b }))
]

unfoldable pub get_cstring : Option Str → Bytes
get_cstring none = 0 ∷ []
get_cstring (some s) = elim s.buf [ none ↦ 0 ∷ [] | some b ↦ b ]

unfoldable pub get_len : Option Str → ℕ
get_len none = 0
get_len (some s) = s.len

unfoldable pub get_cap : Option Str → ℕ
get_cap none = 0
get_cap (some s) = s.cap

-- `strcmp` and `strncmp` are the C library's.
unfoldable pub cmp : {R : Type 0} → (Bytes → Bytes → R) → Option Str → Option Str → R
cmp strcmp s1 s2 = strcmp (get_cstring s1) (get_cstring s2)

unfoldable pub ncmp : {R : Type 0} → (Bytes → Bytes → ℕ → R) → Option Str → Option Str → ℕ → R
ncmp strncmp s1 s2 n =
    let shorter = if leb (get_len s1) (get_len s2) then get_len s1 else get_len s2 in
    strncmp (get_cstring s1) (get_cstring s2) (if ltb shorter n then shorter else n)
