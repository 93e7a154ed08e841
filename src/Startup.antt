-- ===== src/Startup.antt =====
-- src/ek_export.c and src/ek_static_alloc.c: the tables of functions that run at start-up. The linker
-- gathers the tables, and the C library's `qsort` sorts them: both are parameters.
mod Tests
pub mod Export
pub mod StaticAlloc
pub mod ExportOrder
pub mod StaticOrder
use mathlib.Core.List.{Perm, Pairwise, Pairwise-singleton}
use mathlib.Core.List.Perm
use ek_utils.Base.{
  arith, ℕ, zero, suc, ◌<◌, ◌≡◌, ◌⊎◌, inl, inr, Bool, true, false, List, [], ◌∷◌, ltb,
  if◌then◌else◌, length,
}

-- The `int` of a comparison.
pub data ℤ : Type 0 where
  pos : ℕ → ℤ
  negsuc : ℕ → ℤ

abbrev pub is_positive : ℤ → Bool
is_positive (pos zero) = false
is_positive (pos (suc n)) = true
is_positive (negsuc n) = false

abbrev pub is_negative : ℤ → Bool
is_negative (pos n) = false
is_negative (negsuc n) = true

module _ {Item : Type 0} where
  -- What `qsort` asks of a comparison: that it is a total order, up to items that compare equal.
  pub record IsComparison (compare : Item → Item → ℤ) : Type 0 where
    pub opposite : (a b : Item) → is_positive (compare a b) ≡ is_negative (compare b a)
    pub chained :
        (a b c : Item)
        → is_positive (compare a b) ≡ false
        → is_positive (compare b c) ≡ false
        → is_positive (compare a c) ≡ false

  -- What `qsort` does with such a comparison: the items are the same, and none stands in front of one
  -- that it compares greater than.
  abbrev pub Sorts : ((Item → Item → ℤ) → List Item → List Item) → Type 0
  Sorts qsort =
      (compare : Item → Item → ℤ) (l : List Item)
      → IsComparison compare
      → Perm (qsort compare l) l
        × Pairwise (λ a b. is_positive (compare a b) ≡ false) (qsort compare l)

  -- `if (count > 1U) qsort (…)`
  abbrev pub sort_if_two :
      ((Item → Item → ℤ) → List Item → List Item) → (Item → Item → ℤ) → List Item → List Item
  sort_if_two qsort compare l = if ltb 1 (length l) then qsort compare l else l

  -- Fewer than two items are sorted as they are.
  pub sort_if_two_lem :
      (qsort : (Item → Item → ℤ) → List Item → List Item) (compare : Item → Item → ℤ)
      (l : List Item)
      → Sorts qsort
      → IsComparison compare
      → Perm (sort_if_two qsort compare l) l
        × Pairwise (λ a b. is_positive (compare a b) ≡ false) (sort_if_two qsort compare l)
  sort_if_two_lem qsort compare [] sorts total = (Perm.refl [], Pairwise.nil)
  sort_if_two_lem qsort compare (x ∷ []) sorts total = (Perm.refl (x ∷ []), Pairwise-singleton _ x)
  sort_if_two_lem qsort compare (x ∷ y ∷ l) sorts total =
      let two : ltb 1 (length (x ∷ y ∷ l)) ≡ true = ground arith in
      rw two (sorts compare (x ∷ y ∷ l) total)
