-- ===== src/Fifo.antt =====
-- What a bounded queue of items promises: first in, first out, at most `cap` items.
use ek_utils.Base.{
  ℕ, ◌≡◌, Option, none, some, List, [], ◌∷◌, ◌++◌, ◌==◌, if◌then◌else◌, length, Bytes, copy_out,
}
use ek_utils.Err.{Err, ok, full, empty}

abbrev pub Fifo : Type 0
Fifo = List Bytes

-- A reply: the error code, and the caller's buffer after the call.
abbrev pub Reply : Type 0
Reply = Err × Option Bytes

-- What a client may ask for. The buffer of `get` may be `NULL`, that of `peek` may not.
pub data Op : Type 0 where
  put : Bytes → Op
  get : Option Bytes → Op
  look : Bytes → Op

unfoldable pub push : ℕ → Fifo → Bytes → Err × Fifo
push cap q x = if length q == cap then (full, q) else (ok, q ++ (x ∷ []))

unfoldable pub pop : Fifo → Option Bytes → Err × Option Bytes × Fifo
pop [] out = (empty, out, [])
pop (x ∷ q) out = (ok, copy_out out x, q)

unfoldable pub peek : Fifo → Option Bytes → Err × Option Bytes
peek [] out = (empty, out)
peek (x ∷ q) out = (ok, copy_out out x)

unfoldable pub run : ℕ → Fifo → List Op → List Reply
run cap q [] = []
run cap q (put x ∷ ops) = let (e, q') = push cap q x in (e, none) ∷ run cap q' ops
run cap q (get out ∷ ops) = let (e, out', q') = pop q out in (e, out') ∷ run cap q' ops
run cap q (look out ∷ ops) = peek q (some out) ∷ run cap q ops

-- A client that puts items of one size.
abbrev pub Fits : ℕ → List Op → Type 0
Fits size [] = Unit {0}
Fits size (put x ∷ l) = (length x ≡ size) × Fits size l
Fits size (get out ∷ l) = Fits size l
Fits size (look out ∷ l) = Fits size l
