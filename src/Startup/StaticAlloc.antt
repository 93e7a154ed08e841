-- ===== src/Startup/StaticAlloc.antt =====
-- src/ek_static_alloc.c: the static objects are initialised by order, and the first error is kept.
use ek_utils.Base.{
  ◌%◌, ◌^◌, ℕ, Bool, true, false, not, ◌&&◌, Option, none, some, List, [], ◌∷◌, ◌==◌, ltb,
  if◌then◌else◌, length,
}
use ek_utils.Err.{Err, ok, is_ok}
use ek_utils.Startup.{ℤ, pos, negsuc, sort_if_two}

-- `_ek_static_alloc_item_t`, but for the name, which goes to the log.
pub record Item : Type 0 where
  pub order : ℕ
  pub fn : Option ℕ

-- `EK_STATIC_ALLOC_REGISTER`, whose cast to `uint16_t` wraps.
abbrev pub static_alloc_register : ℕ → Option ℕ → Item
static_alloc_register order fn = record { order = order % 2 ^ 16; fn = fn }

-- The difference of two tests.
abbrev difference : Bool → Bool → ℤ
difference true false = pos 1
difference false true = negsuc 0
difference true true = pos 0
difference false false = pos 0

-- `_static_alloc_compare`
unfoldable pub order_compare : Item → Item → ℤ
order_compare lhs rhs = difference (ltb rhs.order lhs.order) (ltb lhs.order rhs.order)

-- What `s_static_alloc_error` is after a function returned `err`.
abbrev pub kept_error : Err → Err → Err
kept_error kept err = if not (is_ok err) && is_ok kept then err else kept

-- `call f` is what the function `f` returns and does to the state.
module _ {S : Type 0} (call : ℕ → S → Err × S) where
  -- The loop over the items, with `s_static_alloc_error`.
  unfoldable pub init_items : List Item → Err → S → Err × S
  init_items [] kept s = (kept, s)
  init_items (x ∷ items) kept s = elim x.fn [
    | none ↦ init_items items kept s
    | some f ↦ let (err, s) = call f s in init_items items (kept_error kept err) s
  ]

  -- What `ek_static_alloc_get_init_error` returns afterwards, and the state.
  unfoldable pub static_alloc_init :
      ((Item → Item → ℤ) → List Item → List Item) → List Item → S → Err × S
  static_alloc_init qsort items s =
      if length items == 0 then (ok, s) else init_items (sort_if_two qsort order_compare items) ok s
