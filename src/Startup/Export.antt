-- ===== src/Startup/Export.antt =====
-- src/ek_export.c: the exported functions run by level and by order in a level. The result `none` is
-- an assertion that fails, which stops the program.
use ek_utils.Base.{ℕ, ◌%◌, ◌^◌, Option, none, some, List, [], ◌∷◌, ◌==◌, ltb, if◌then◌else◌, length}
use ek_utils.Startup.{ℤ, pos, negsuc, sort_if_two}

-- `_ek_export_item_t`; a function is known by number.
pub record Item : Type 0 where
  pub level : ℕ
  pub order : ℕ
  pub fn : Option ℕ

-- `EK_EXPORT_LEVEL`, whose casts to `uint16_t` wrap, and the macros for the five levels.
abbrev pub export_level : Option ℕ → ℕ → ℕ → Item
export_level fn level order = record { level = level % 2 ^ 16; order = order % 2 ^ 16; fn = fn }

abbrev pub export_earliest : Option ℕ → ℕ → Item
export_earliest fn order = export_level fn 0 order

abbrev pub export_hardware : Option ℕ → ℕ → Item
export_hardware fn order = export_level fn 1 order

abbrev pub export_components : Option ℕ → ℕ → Item
export_components fn order = export_level fn 2 order

abbrev pub export_app : Option ℕ → ℕ → Item
export_app fn order = export_level fn 3 order

abbrev pub export_user : Option ℕ → ℕ → Item
export_user fn order = export_level fn 4 order

-- `_ek_export_item_compare`
unfoldable pub item_compare : Item → Item → ℤ
item_compare lhs rhs =
    if ltb lhs.level rhs.level
    then negsuc 0
    else if ltb rhs.level lhs.level
    then pos 1
    else if ltb lhs.order rhs.order
    then negsuc 0
    else if ltb rhs.order lhs.order
    then pos 1
    else pos 0

-- `call f` is what the function `f` does to the state.
module _ {S : Type 0} (call : ℕ → S → S) where
  -- The loop over the items.
  unfoldable pub run_items : List Item → S → Option S
  run_items [] s = some s
  run_items (x ∷ items) s = elim x.fn [ none ↦ none | some f ↦ run_items items (call f s) ]

  unfoldable pub export_init :
      ((Item → Item → ℤ) → List Item → List Item) → List Item → S → Option S
  export_init qsort items s =
      if length items == 0 then some s else run_items (sort_if_two qsort item_compare items) s
