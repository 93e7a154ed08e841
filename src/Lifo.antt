-- ===== src/Lifo.antt =====
-- What a bounded stack of items promises: last in, first out, at most `cap` items.
use ek_utils.Base.{
  ℕ, ◌≡◌, Option, none, some, List, [], ◌∷◌, ◌==◌, if◌then◌else◌, length, Bytes, blit,
}
use ek_utils.Err.{Err, ok, full, empty}

-- The items, the one on top first.
abbrev pub Lifo : Type 0
Lifo = List Bytes

-- What a client may ask for; `pull` brings a buffer.
pub data Op : Type 0 where
  put : Bytes → Op
  pull : Bytes → Op

-- A reply: the error code, and the caller's buffer after the call.
abbrev pub Reply : Type 0
Reply = Err × Option Bytes

unfoldable pub push : ℕ → Lifo → Bytes → Err × Lifo
push cap q x = if length q == cap then (full, q) else (ok, x ∷ q)

unfoldable pub pop : Lifo → Bytes → Err × Bytes × Lifo
pop [] out = (empty, out, [])
pop (x ∷ q) out = (ok, blit out 0 x, q)

unfoldable pub run : ℕ → Lifo → List Op → List Reply
run cap q [] = []
run cap q (put x ∷ l) = let (e, q') = push cap q x in (e, none) ∷ run cap q' l
run cap q (pull out ∷ l) = let (e, out', q') = pop q out in (e, some out') ∷ run cap q' l

-- A client that puts items of one size.
abbrev pub Fits : ℕ → List Op → Type 0
Fits size [] = Unit {0}
Fits size (put x ∷ l) = (length x ≡ size) × Fits size l
Fits size (pull out ∷ l) = Fits size l
