-- ===== src/Startup/StaticOrder.antt =====
-- src/ek_static_alloc.c: the order in which the static objects are initialised, and the error that is
-- kept.
use mathlib.Core.List.{Perm, Pairwise}
use mathlib.Core.List.Pairwise
use ek_utils.Base.{
  ℕ, ◌≤◌, ◌≡◌, refl, arith, inl, inr, Bool-cases, Option-cases, false, none, some, List, [], ◌∷◌,
  ◌==◌, if◌then◌else◌, length,
}
use ek_utils.Err.{Err, ok, is_ok}
use ek_utils.Startup.{ℤ, is_positive, IsComparison, Sorts, sort_if_two, sort_if_two_lem}
use ek_utils.Startup.StaticAlloc.{Item, order_compare, kept_error, init_items, static_alloc_init}

order_compare-IsComparison : IsComparison order_compare
unfolding order_compare
order_compare-IsComparison = record {
  opposite = λ a b. ground arith;
  chained = λ a b c h g. ground (arith, h, g);
}

order_compare-Before : (a b : Item) → is_positive (order_compare a b) ≡ false → a.order ≤ b.order
unfolding order_compare
order_compare-Before a b h = ground (arith, h)

-- The first code that is not `EK_OK`, or `EK_OK`.
abbrev pub first_failure : List Err → Err
first_failure [] = ok
first_failure (e ∷ codes) = if is_ok e then first_failure codes else e

module _ {S : Type 0} (call : ℕ → S → Err × S) where
  -- What the functions return and leave, each called once in the order of the list, `NULL` left out.
  abbrev pub outcomes : List Item → S → List Err × S
  outcomes [] s = ([], s)
  outcomes (x ∷ l) s = elim x.fn [
    | none ↦ outcomes l s
    | some f ↦ let (e, s) = call f s in let (codes, s) = outcomes l s in (e ∷ codes, s)
  ]

  -- An error is kept.
  init_items-failed :
      (l : List Item) (kept : Err) (s : S)
      → is_ok kept ≡ false
      → init_items call l kept s ≡ (kept, (outcomes l s).1)
  unfolding init_items
  init_items-failed [] kept s bad = refl
  init_items-failed (x ∷ l) kept s bad = elim (Option-cases x.fn) [
    | inl e ↦ rw e (init_items-failed l kept s bad)
    | inr (f, e) ↦
        let same : kept_error kept (call f s).0 ≡ kept = ground (arith, bad) in
        rw (e, same) (init_items-failed l kept (call f s).1 bad)
  ]

  init_items_lem :
      (l : List Item) (s : S)
      → init_items call l ok s ≡ (first_failure (outcomes l s).0, (outcomes l s).1)
  unfolding init_items
  init_items_lem [] s = refl
  init_items_lem (x ∷ l) s = elim (Option-cases x.fn) [
    | inl e ↦ rw e (init_items_lem l s)
    | inr (f, e) ↦ elim (Bool-cases (is_ok (call f s).0)) [
      | inl good ↦ rw (e, good) (init_items_lem l (call f s).1)
      | inr bad ↦ rw (e, bad) (init_items-failed l (call f s).0 (call f s).1 bad)
    ]
  ]

  init_lem :
      (qsort : (Item → Item → ℤ) → List Item → List Item) (items : List Item) (s : S)
      → let l = sort_if_two qsort order_compare items in
        static_alloc_init call qsort items s ≡ (first_failure (outcomes l s).0, (outcomes l s).1)
  unfolding static_alloc_init
  init_lem qsort [] s = refl
  init_lem qsort (x ∷ items) s =
      let some_items : (length (x ∷ items) == 0) ≡ false = ground arith in
      rw some_items (init_items_lem (sort_if_two qsort order_compare (x ∷ items)) s)

  -- Let `qsort` sort. Then `ek_static_alloc_init` calls the function of each registered object once,
  -- in the order of their numbers, and goes on after a failure. The error that is kept is the first
  -- code that is not `EK_OK`, or `EK_OK`. Items whose function is `NULL` are passed over.
  pub static_alloc_init_lem :
      (qsort : (Item → Item → ℤ) → List Item → List Item) (items : List Item) (s : S)
      → Sorts qsort
      → (l : List Item) × Perm l items
        × Pairwise (λ a b. a.order ≤ b.order) l
        × (static_alloc_init call qsort items s
            ≡ (first_failure (outcomes l s).0, (outcomes l s).1))
  static_alloc_init_lem qsort items s sorts =
      let (same, ordered) =
        sort_if_two_lem qsort order_compare items sorts order_compare-IsComparison in
      (
        sort_if_two qsort order_compare items,
        same,
        Pairwise.imp order_compare-Before ordered,
        init_lem qsort items s,
      )
