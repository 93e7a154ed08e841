-- ===== src/Pt/Order.antt =====
-- src/ek_picothread.c: the two sorted insertions, by time and by priority.
use ek_utils.Base.{ℕ, ◌≡◌, refl, ap, ◌∙◌, arith, Bool, not, List, [], ◌∷◌, ◌++◌, ltb, has, ◌∉◌}
use ek_utils.Dlist.Chain.{Distinct}
use ek_utils.Pt.Kernel.{Thread}
use ek_utils.Pt.Queues.{insert_by_prio, insert_by_time, later}
use ek_utils.Sorting.{
  keep, Sorted, insert_by, has-insert_by, IsOrder, insert_by-Sorted, insert_by-keep,
  Distinct-insert_by,
}

module _ (t : ℕ → Thread) where
  -- In front by its number: a smaller one is more urgent.
  abbrev pub more_urgent : ℕ → ℕ → Bool
  more_urgent i x = ltb (t i).prio (t x).prio

  by_prio : (i : ℕ) (xs : List ℕ) → insert_by_prio t i xs ≡ insert_by more_urgent i xs
  unfolding insert_by_prio
  by_prio i [] = refl
  by_prio i (x ∷ xs) = rw (by_prio i xs) refl

  pub has-insert_by_prio : (c i : ℕ) (xs : List ℕ) → has c (insert_by_prio t i xs) ≡ has c (i ∷ xs)
  has-insert_by_prio c i xs = ap (has c) (by_prio i xs) ∙ has-insert_by more_urgent c i xs

  by_time : (i : ℕ) (xs : List ℕ) → insert_by_time t i xs ≡ insert_by (later t) i xs
  unfolding insert_by_time
  by_time i [] = refl
  by_time i (x ∷ xs) = rw (by_time i xs) refl

  more_urgent-IsOrder : IsOrder more_urgent
  more_urgent-IsOrder = ((λ i. ground arith), (λ i x c b h. (ground arith, ground arith)))

  pub has-insert_by_time : (c i : ℕ) (xs : List ℕ) → has c (insert_by_time t i xs) ≡ has c (i ∷ xs)
  has-insert_by_time c i xs = ap (has c) (by_time i xs) ∙ has-insert_by (later t) c i xs

  pub Distinct-insert_by_prio :
      (i : ℕ) (xs : List ℕ) → Distinct xs → i ∉ xs → Distinct (insert_by_prio t i xs)
  Distinct-insert_by_prio i xs d n = rw (by_prio i xs) (Distinct-insert_by more_urgent i xs d n)

  pub Distinct-insert_by_time :
      (i : ℕ) (xs : List ℕ) → Distinct xs → i ∉ xs → Distinct (insert_by_time t i xs)
  Distinct-insert_by_time i xs d n = rw (by_time i xs) (Distinct-insert_by (later t) i xs d n)

  later-IsOrder : IsOrder (later t)
  later-IsOrder = ((λ i. ground arith), (λ i x c b h. (ground arith, ground arith)))

-- `_insert_state_by_time` keeps the block list in the order of the waking ticks, and of the
-- priorities where the ticks are the same.
pub insert_by_time-Sorted :
    (t : ℕ → Thread) (i : ℕ) (xs : List ℕ)
    → Sorted (later t) xs
    → Sorted (later t) (insert_by_time t i xs)
insert_by_time-Sorted t i xs s =
    rw (by_time t i xs) (insert_by-Sorted (later t) (later-IsOrder t) i xs s)

-- In a block list that is in order, `_insert_state_by_time` puts a thread behind all those that
-- do not wake after it, in their order, and in front of all those that do.
pub insert_by_time_lem :
    (t : ℕ → Thread) (i : ℕ) (xs : List ℕ)
    → Sorted (later t) xs
    → insert_by_time t i xs ≡ keep (λ x. not (later t i x)) xs ++ (i ∷ keep (later t i) xs)
insert_by_time_lem t i xs s = by_time t i xs ∙ insert_by-keep (later t) (later-IsOrder t) i xs s

-- `_insert_event_by_prio` keeps a list of waiting threads in the order of their priorities.
pub insert_by_prio-Sorted :
    (t : ℕ → Thread) (i : ℕ) (xs : List ℕ)
    → Sorted (more_urgent t) xs
    → Sorted (more_urgent t) (insert_by_prio t i xs)
insert_by_prio-Sorted t i xs s =
    rw (by_prio t i xs) (insert_by-Sorted (more_urgent t) (more_urgent-IsOrder t) i xs s)

-- In a list of waiting threads that is in order, `_insert_event_by_prio` puts a thread behind all
-- those that are as urgent or more, which have waited longer, and in front of the others.
pub insert_by_prio_lem :
    (t : ℕ → Thread) (i : ℕ) (xs : List ℕ)
    → Sorted (more_urgent t) xs
    → insert_by_prio t i xs
      ≡ keep (λ x. not (more_urgent t i x)) xs ++ (i ∷ keep (more_urgent t i) xs)
insert_by_prio_lem t i xs s =
    by_prio t i xs ∙ insert_by-keep (more_urgent t) (more_urgent-IsOrder t) i xs s
