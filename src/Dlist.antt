-- ===== src/Dlist.antt =====
-- inc/ek_list.h: circular lists of nodes that stand inside other structs. A node is an address, and
-- the links are read and written on an explicit heap. `none` is an access through `NULL`.
pub mod Chain
pub mod Insert
pub mod Remove
pub mod Foreach
pub mod Frame
mod Tests
use ek_utils.Base.{
  ◌>>=◌, ℕ, zero, suc, Bool, true, false, Option, none, some, List, [], ◌∷◌, ◌==◌, if◌then◌else◌,
}

abbrev pub Ptr : Type 0
Ptr = ℕ

abbrev pub null : Ptr
null = 0

-- The fields `prev` and `next` of every node.
pub record Links : Type 0 where
  pub prev : Ptr → Ptr
  pub next : Ptr → Ptr

abbrev pub put : (Ptr → Ptr) → Ptr → Ptr → Ptr → Ptr
put f p v c = if c == p then v else f c

-- `p->next = v` and `p->prev = v`
abbrev pub set_next : Ptr → Ptr → Links → Option Links
set_next p v h = if p == null then none else some (record h { next = put h.next p v })

abbrev pub set_prev : Ptr → Ptr → Links → Option Links
set_prev p v h = if p == null then none else some (record h { prev = put h.prev p v })

pub init : Ptr → Links → Option Links
init head h = do h ← set_next head head h; set_prev head head h

-- `_ek_list_insert`
pub insert : Ptr → Ptr → Ptr → Links → Option Links
insert new prev next h = do
  h ← set_next prev new h
  h ← set_next new next h
  h ← set_prev new prev h
  set_prev next new h

-- `p->next`, `p->prev`
abbrev pub get_next : Ptr → Links → Option Ptr
get_next p h = if p == null then none else some (h.next p)

abbrev pub get_prev : Ptr → Links → Option Ptr
get_prev p h = if p == null then none else some (h.prev p)

pub insert_head : Ptr → Ptr → Links → Option Links
insert_head head new h = do first ← get_next head h; insert new head first h

pub insert_tail : Ptr → Ptr → Links → Option Links
insert_tail head new h = do last ← get_prev head h; insert new last head h

pub insert_before : Ptr → Ptr → Links → Option Links
insert_before next new h = do prev ← get_prev next h; insert new prev next h

pub insert_after : Ptr → Ptr → Links → Option Links
insert_after prev new h = do next ← get_next prev h; insert new prev next h

-- `_ek_list_remove`
pub unlink : Ptr → Ptr → Links → Option Links
unlink prev next h = do h ← set_prev next prev h; set_next prev next h

pub remove : Ptr → Links → Option Links
remove node h = do
  prev ← get_prev node h
  next ← get_next node h
  h ← unlink prev next h
  h ← set_prev node null h
  set_next node null h

pub is_empty : Ptr → Links → Option Bool
is_empty head h = do first ← get_next head h; some (first == head)

pub is_last : Ptr → Ptr → Links → Option Bool
is_last node head h = do next ← get_next node h; some (next == head)

pub get_first : Ptr → Links → Option Ptr
get_first head h = get_next head h

pub get_last : Ptr → Links → Option Ptr
get_last head h = get_prev head h

-- The nodes that `ek_list_foreach` visits, in order, with fuel for its rounds.
pub foreach_from : ℕ → Ptr → Ptr → Links → Option (List Ptr)
foreach_from zero pos head h = none
foreach_from (suc fuel) pos head h =
    let rest = do
      next ← get_next pos h
      visited ← foreach_from fuel next head h
      some (pos ∷ visited)
    in if pos == head then some [] else rest

pub foreach : ℕ → Ptr → Links → Option (List Ptr)
foreach fuel head h = do first ← get_next head h; foreach_from fuel first head h
