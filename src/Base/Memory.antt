-- ===== src/Base/Memory.antt =====
-- Memory as lists of bytes: what `memcpy` and `memset` do to a block, and reading part of one.
use Prim.Native.Nat.{ℕ, zero, suc, ◌+◌, ◌*◌, ◌≤◌, ◌<◌}
use mathlib.Core.Path.{◌≡◌, refl, ap}
use mathlib.Core.Logic.{◌≢◌}
use mathlib.Core.List.{List, [], ◌∷◌}
use mathlib.Core.Option.{Option, none, some}
use native.Mathlib.Omega.{arith}
use native.Mathlib.Decide.{dec_lt}
use ek_utils.Base.Lists.{length, take, drop}

-- The bytes of a block.
abbrev pub Bytes : Type 0
Bytes = List ℕ

-- `memcpy (block + off, src, length src)`. A byte that would fall behind the block is dropped.
unfoldable pub blit : Bytes → ℕ → Bytes → Bytes
blit [] off src = []
blit (x ∷ xs) zero [] = x ∷ xs
blit (x ∷ xs) zero (y ∷ ys) = y ∷ blit xs zero ys
blit (x ∷ xs) (suc off) src = x ∷ blit xs off src

-- The `n` bytes from `block + off`: fewer, if the block ends before.
unfoldable pub slice : Bytes → ℕ → ℕ → Bytes
slice xs off n = take n (drop off xs)

pub length-blit : (xs : Bytes) (off : ℕ) (src : Bytes) → length (blit xs off src) ≡ length xs
unfolding blit
length-blit [] off src = refl
length-blit (x ∷ xs) zero [] = refl
length-blit (x ∷ xs) zero (y ∷ ys) = ap suc (length-blit xs zero ys)
length-blit (x ∷ xs) (suc off) src = ap suc (length-blit xs off src)

pub length-slice : (xs : Bytes) (off n : ℕ) → off + n ≤ length xs → length (slice xs off n) ≡ n
unfolding slice
length-slice xs zero zero h = refl
length-slice [] zero (suc n) h = absurd (omega arith)
length-slice (x ∷ xs) zero (suc n) h = ap suc (length-slice xs zero n (omega arith))
length-slice [] (suc off) zero h = refl
length-slice [] (suc off) (suc n) h = absurd (omega arith)
length-slice (x ∷ xs) (suc off) n h = length-slice xs off n (omega arith)

-- What was copied in is read back.
pub slice-blit_self :
    (xs : Bytes) (off n : ℕ) (src : Bytes)
    → n ≡ length src
    → off + n ≤ length xs
    → slice (blit xs off src) off n ≡ src
unfolding blit slice
slice-blit_self [] zero zero [] e h = refl
slice-blit_self [] zero zero (y ∷ ys) e h = absurd (omega arith)
slice-blit_self [] zero (suc n) src e h = absurd (omega arith)
slice-blit_self [] (suc off) n src e h = absurd (omega arith)
slice-blit_self (x ∷ xs) zero zero [] e h = refl
slice-blit_self (x ∷ xs) zero zero (y ∷ ys) e h = absurd (omega arith)
slice-blit_self (x ∷ xs) zero (suc n) [] e h = absurd (omega arith)
slice-blit_self (x ∷ xs) zero (suc n) (y ∷ ys) e h =
    ap (λ l. y ∷ l) (slice-blit_self xs zero n ys (omega arith) (omega arith))
slice-blit_self (x ∷ xs) (suc off) n src e h = slice-blit_self xs off n src e (omega arith)

-- A copy leaves what stands before it alone.
pub slice-blit_before :
    (xs : Bytes) (off k n : ℕ) (src : Bytes)
    → k + n ≤ off
    → slice (blit xs off src) k n ≡ slice xs k n
unfolding blit slice
slice-blit_before xs off zero zero src h = refl
slice-blit_before [] off zero (suc n) src h = refl
slice-blit_before (x ∷ xs) zero zero (suc n) src h = absurd (omega arith)
slice-blit_before (x ∷ xs) (suc off) zero (suc n) src h =
    ap (λ l. x ∷ l) (slice-blit_before xs off zero n src (omega arith))
slice-blit_before [] off (suc k) n src h = refl
slice-blit_before (x ∷ xs) zero (suc k) n src h = absurd (omega arith)
slice-blit_before (x ∷ xs) (suc off) (suc k) n src h =
    slice-blit_before xs off k n src (omega arith)

-- A copy leaves what stands behind it alone.
pub slice-blit_after :
    (xs : Bytes) (off k n : ℕ) (src : Bytes)
    → off + length src ≤ k
    → slice (blit xs off src) k n ≡ slice xs k n
unfolding blit slice
slice-blit_after [] off k n src h = refl
slice-blit_after (x ∷ xs) zero k n [] h = refl
slice-blit_after (x ∷ xs) zero zero n (y ∷ ys) h = absurd (omega arith)
slice-blit_after (x ∷ xs) zero (suc k) n (y ∷ ys) h = slice-blit_after xs zero k n ys (omega arith)
slice-blit_after (x ∷ xs) (suc off) zero n src h = absurd (omega arith)
slice-blit_after (x ∷ xs) (suc off) (suc k) n src h = slice-blit_after xs off k n src (omega arith)

-- Slots of `s` bytes: a slot below `cap` ends within `cap * s` bytes.
pub slot_end : (i cap s : ℕ) → i < cap → i * s + s ≤ cap * s
slot_end i cap s h = grind arith

-- A copy into slot `i` leaves slot `j` alone.
pub slice-blit_slot_ne :
    (xs : Bytes) (i j s : ℕ) (src : Bytes)
    → i ≢ j
    → length src ≡ s
    → slice (blit xs (i * s) src) (j * s) s ≡ slice xs (j * s) s
slice-blit_slot_ne xs i j s src ne e = elim (dec_lt i j) [
  | yes lt ↦ slice-blit_after xs (i * s) (j * s) s src (omega (arith, slot_end i j s lt))
  | no ge ↦ slice-blit_before xs (i * s) (j * s) s src (slot_end j i s (omega arith))
]

-- `memcpy (out, src, length src)` through a pointer that may be `NULL`, where the code tests it.
unfoldable pub copy_out : Option Bytes → Bytes → Option Bytes
copy_out none src = none
copy_out (some out) src = some (blit out 0 src)
