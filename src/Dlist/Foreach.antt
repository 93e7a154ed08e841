-- ===== src/Dlist/Foreach.antt =====
-- Walking along a list: `ek_list_foreach` ends, and visits its nodes in order.
use ek_utils.Base.{
  ◌∉◌, ℕ, zero, suc, ◌<◌, ◌≡◌, refl, sym, ap, arith, true, false, some, List, [], ◌∷◌, ◌==◌, length,
}
use mathlib.Core.Path.{subst}
use mathlib.Core.List.{append-nil}
use ek_utils.Dlist.{Ptr, null, Links, foreach_from, foreach, is_empty, get_first, get_last}
use ek_utils.Dlist.Chain.{Chain, IsList, last, first, links_at}

foreach_from-chain :
    (h : Links) (head : Ptr) (fuel : ℕ) (a : Ptr) (xs : List Ptr)
    → Chain h a xs head
    → head ∉ xs
    → null ∉ (head ∷ xs)
    → length xs < fuel
    → foreach_from fuel (h.next a) head h ≡ some xs
unfolding foreach_from
foreach_from-chain h head zero a xs ch out nn few = absurd (omega arith)
foreach_from-chain h head (suc fuel) a [] ch out nn few =
    let at : (head == head) ≡ true = ground arith in rw (ch.0, at) refl
foreach_from-chain h head (suc fuel) a (x ∷ xs) ch out nn few =
    let more : (x == head) ≡ false = ground arith in
    let real : (x == null) ≡ false = ground arith in
    rw
      (
        ch.0,
        more,
        real,
        foreach_from-chain h head fuel x xs ch.2 (ground arith) (ground arith) (omega arith),
      )
      refl

-- With fuel for one round more than the list has nodes, `ek_list_foreach` visits exactly the nodes of
-- the list, in their order, and ends.
pub foreach_lem :
    {h : Links} {head : Ptr} (fuel : ℕ) (xs : List Ptr)
    → IsList h head xs
    → length xs < fuel
    → foreach fuel head h ≡ some xs
unfolding foreach
foreach_lem {h} {head} fuel xs is few =
    let real : (head == null) ≡ false = ground (arith, is.not_null) in
    rw real (foreach_from-chain h head fuel head xs is.chain is.distinct.0 is.not_null few)

-- `ek_list_is_empty` says whether the list has no nodes; `ek_list_get_first` and
-- `ek_list_get_last` return its first and last node, or the head.
pub ends_lem :
    {h : Links} {head : Ptr} (xs : List Ptr)
    → IsList h head xs
    → (is_empty head h ≡ some (length xs == 0))
      × (get_first head h ≡ some (first xs head))
      × (get_last head h ≡ some (last head xs))
unfolding is_empty get_first get_last
ends_lem {h} {head} xs is =
    let real : (head == null) ≡ false = ground (arith, is.not_null) in
    let at = links_at h head [] xs head is.chain in
    let at' =
      links_at h head xs [] head
        (subst (λ l. Chain h head l head) (sym (append-nil xs)) is.chain) in
    rw (real, at.0) (empty xs is.distinct.0, refl, ap some at'.1)
  where
    empty : (xs : List Ptr) → head ∉ xs → some (first xs head == head) ≡ some (length xs == 0)
    empty [] out = ground arith
    empty (x ∷ xs) out = ground arith
