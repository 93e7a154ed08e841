-- ===== src/Startup/ExportOrder.antt =====
-- src/ek_export.c: the order in which the exported functions run.
use mathlib.Core.List.{Perm, Pairwise}
use mathlib.Core.List.Pairwise
use ek_utils.Base.{
  ℕ, ◌<◌, ◌≤◌, ◌≡◌, ◌⊎◌, refl, arith, inl, inr, Option-cases, Bool, true, false, ◌&&◌, none, some,
  List, [], ◌∷◌, ◌==◌, if◌then◌else◌, length,
}
use ek_utils.Startup.{ℤ, is_positive, IsComparison, Sorts, sort_if_two, sort_if_two_lem}
use ek_utils.Startup.Export.{Item, item_compare, run_items, export_init}

-- The order of the levels, and in a level the order of its items.
abbrev pub Before : Item → Item → Type 0
Before a b = (a.level < b.level) ⊎ (a.level ≡ b.level) × (a.order ≤ b.order)

item_compare-IsComparison : IsComparison item_compare
unfolding item_compare
item_compare-IsComparison = record {
  opposite = λ a b. ground arith;
  chained = λ a b c h g. ground (arith, h, g);
}

item_compare-Before : (a b : Item) → is_positive (item_compare a b) ≡ false → Before a b
unfolding item_compare
item_compare-Before a b h = ground (arith, h)

abbrev pub all_there : List Item → Bool
all_there [] = true
all_there (x ∷ l) = elim x.fn [ none ↦ false | some f ↦ true ] && all_there l

module _ {S : Type 0} (call : ℕ → S → S) where
  -- Each function once, in the order of the list.
  abbrev pub calls : List Item → S → S
  calls [] s = s
  calls (x ∷ l) s = calls l (elim x.fn [ none ↦ s | some f ↦ call f s ])

  run_items_lem :
      (l : List Item) (s : S)
      → run_items call l s ≡ (if all_there l then some (calls l s) else none)
  unfolding run_items
  run_items_lem [] s = refl
  run_items_lem (x ∷ l) s = elim (Option-cases x.fn) [
    | inl e ↦ rw e refl
    | inr (f, e) ↦ rw e (run_items_lem l (call f s))
  ]

  init_lem :
      (qsort : (Item → Item → ℤ) → List Item → List Item) (items : List Item) (s : S)
      → let l = sort_if_two qsort item_compare items in
        export_init call qsort items s ≡ (if all_there l then some (calls l s) else none)
  unfolding export_init
  init_lem qsort [] s = refl
  init_lem qsort (x ∷ items) s =
      let some_items : (length (x ∷ items) == 0) ≡ false = ground arith in
      rw some_items (run_items_lem (sort_if_two qsort item_compare (x ∷ items)) s)

  -- Let `qsort` sort. Then `ek_export_init` calls each exported function once, those of a lower level
  -- before those of a higher one and in a level by their order, and leaves the state that this
  -- gives, unless one of the functions is `NULL`: then an assertion stops the program.
  pub export_init_lem :
      (qsort : (Item → Item → ℤ) → List Item → List Item) (items : List Item) (s : S)
      → Sorts qsort
      → (l : List Item) × Perm l items
        × Pairwise Before l
        × (export_init call qsort items s ≡ (if all_there l then some (calls l s) else none))
  export_init_lem qsort items s sorts =
      let (same, ordered) =
        sort_if_two_lem qsort item_compare items sorts item_compare-IsComparison in
      (
        sort_if_two qsort item_compare items,
        same,
        Pairwise.imp item_compare-Before ordered,
        init_lem qsort items s,
      )
