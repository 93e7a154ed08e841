-- ===== src/Startup/Tests.antt =====
-- An insertion sort in the place of `qsort`, and what is proved of the start-up at concrete tables.
use mathlib.Core.List.{Perm, Pairwise, not-mem-nil, eq-or-mem_of_mem-cons}
use mathlib.Core.List.Perm
use mathlib.Core.Logic.Or
use ek_utils.Base.{
  map, ℕ, ◌≤◌, ◌≡◌, refl, sym, ◌∙◌, arith, inl, inr, Bool-cases, true, false, none, some, List, [],
  ◌∷◌, ◌++◌, ◌==◌, if◌then◌else◌,
}
use ek_utils.Err.{Err, ok, nomem, busy}
use ek_utils.Startup.{ℤ, pos, negsuc, is_positive, is_negative, IsComparison, Sorts}
use ek_utils.Startup.Export
use ek_utils.Startup.StaticAlloc
use ek_utils.Startup.Export.{
  export_earliest, export_hardware, export_components, export_app, export_user, export_init,
  run_items, item_compare,
}
use ek_utils.Startup.StaticAlloc.{
  static_alloc_register, static_alloc_init, init_items, order_compare,
}
use ek_utils.Startup.ExportOrder.{Before, all_there, calls, export_init_lem}
use ek_utils.Startup.StaticOrder.{first_failure, outcomes, static_alloc_init_lem}

negative : (z : ℤ) → is_negative z ≡ true → is_positive z ≡ false
negative (pos n) h = ground (arith, h)
negative (negsuc n) h = refl

module _ {Item : Type 0} (compare : Item → Item → ℤ) where
  abbrev insert : Item → List Item → List Item
  insert x [] = x ∷ []
  insert x (y ∷ l) = if is_positive (compare x y) then y ∷ insert x l else x ∷ y ∷ l

  insert-Perm : (x : Item) (l : List Item) → Perm (insert x l) (x ∷ l)
  insert-Perm x [] = Perm.refl (x ∷ [])
  insert-Perm x (y ∷ l) = elim (Bool-cases (is_positive (compare x y))) [
    | inl q ↦ rw q (Perm.trans (Perm.cons y (insert-Perm x l)) (Perm.swap x y l))
    | inr q ↦ rw q (Perm.refl (x ∷ y ∷ l))
  ]

  abbrev InFront : Item → Item → Type 0
  InFront a b = is_positive (compare a b) ≡ false

  insert-Pairwise :
      IsComparison compare
      → (x : Item) (l : List Item) → Pairwise InFront l
      → Pairwise InFront (insert x l)
  insert-Pairwise total x [] p = Pairwise.cons (λ a m. absurd (not-mem-nil m)) Pairwise.nil
  insert-Pairwise total x (y ∷ l) (Pairwise.cons h p) =
      elim (Bool-cases (is_positive (compare x y))) [
        | inl q ↦ rw q (
            Pairwise.cons
              (λ a m.
                Or.elim (hlevel) (eq-or-mem_of_mem-cons ((Perm.mem_iff (insert-Perm x l)).0 m))
                  (λ e. rw e (negative (compare y x) (sym (total.opposite x y) ∙ q))) (h a))
              (insert-Pairwise total x l p))
        | inr q ↦ rw q (
            Pairwise.cons
              (λ a m.
                Or.elim (hlevel) (eq-or-mem_of_mem-cons m) (λ e. rw e q)
                  (λ m. total.chained x y a q (h a m)))
              (Pairwise.cons h p))
      ]

  abbrev sorted : List Item → List Item
  sorted [] = []
  sorted (x ∷ l) = insert x (sorted l)

  sorted-Perm : (l : List Item) → Perm (sorted l) l
  sorted-Perm [] = Perm.refl []
  sorted-Perm (x ∷ l) = Perm.trans (insert-Perm x (sorted l)) (Perm.cons x (sorted-Perm l))

  sorted-Pairwise : IsComparison compare → (l : List Item) → Pairwise InFront (sorted l)
  sorted-Pairwise total [] = Pairwise.nil
  sorted-Pairwise total (x ∷ l) = insert-Pairwise total x (sorted l) (sorted-Pairwise total l)

sorted-Sorts : {Item : Type 0} → Sorts {Item = Item} sorted
sorted-Sorts compare l total = (sorted-Perm compare l, sorted-Pairwise compare total l)

-- The functions write their numbers down.
abbrev note : ℕ → List ℕ → List ℕ
note f s = s ++ (f ∷ [])

-- The functions that the library exports itself: those of ek_heap.c (0), ek_static_alloc.c (1),
-- ek_picothread.c (2), ek_io.c (3) and ek_evoke.c (4), with one of an application (5).
abbrev table : List Export.Item
table =
    export_components (some 1) 1
    ∷ export_app (some 5) 0
    ∷ export_components (some 4) 0
    ∷ export_earliest (some 0) 0
    ∷ export_components (some 2) 0
    ∷ export_components (some 3) 0
    ∷ []

-- The heap is there before all others, and the static objects come behind the schedulers.
exported : export_init note sorted table [] ≡ some (0 ∷ 4 ∷ 2 ∷ 3 ∷ 1 ∷ 5 ∷ [])
unfolding export_init run_items item_compare
exported = refl

levels :
    map (λ (x : Export.Item). x.level) (export_hardware none 0 ∷ export_user none 65536 ∷ [])
    ≡ 1 ∷ 4 ∷ []
levels = refl

export_init_lem_example :
    (l : List Export.Item) × Perm l table
    × Pairwise Before l
    × (export_init note sorted table [] ≡ (if all_there l then some (calls note l []) else none))
export_init_lem_example = export_init_lem note sorted table [] sorted-Sorts

-- Functions 2 and 3 fail.
abbrev try : ℕ → List ℕ → Err × List ℕ
try f s = (if f == 2 then busy else if f == 3 then nomem else ok, s ++ (f ∷ []))

abbrev objects : List StaticAlloc.Item
objects =
    static_alloc_register 30 (some 3)
    ∷ static_alloc_register 20 (some 2)
    ∷ static_alloc_register 10 none
    ∷ static_alloc_register 10 (some 1)
    ∷ []

initialised : static_alloc_init try sorted objects [] ≡ (busy, 1 ∷ 2 ∷ 3 ∷ [])
unfolding static_alloc_init init_items order_compare
initialised = refl

static_alloc_init_lem_example :
    (l : List StaticAlloc.Item) × Perm l objects
    × Pairwise (λ a b. a.order ≤ b.order) l
    × (static_alloc_init try sorted objects []
        ≡ (first_failure (outcomes try l []).0, (outcomes try l []).1))
static_alloc_init_lem_example = static_alloc_init_lem try sorted objects [] sorted-Sorts
