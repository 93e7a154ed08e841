-- ===== src/StrView.antt =====
-- src/ek_str_view.c: views of strings that they do not own. The text of a view is what stands in
-- memory from its pointer on.
pub mod Trim
pub mod Split
mod Tests
use ek_utils.Base.{
  ℕ, zero, suc, ◌+◌, ◌-◌, Bool, true, false, ◌&&◌, Option, none, some, List, [], ◌∷◌, ◌==◌, ltb,
  if◌then◌else◌, get_or, take, drop, Bytes,
}
use ek_utils.Err.{Err, ok, inval}

-- `struct ek_str_view`
pub record View : Type 0 where
  pub str : Bytes
  pub str_len : ℕ

-- `strlen`: the bytes before the first that is 0.
abbrev pub strlen : Bytes → ℕ
strlen [] = 0
strlen (x ∷ xs) = if x == 0 then 0 else suc (strlen xs)

unfoldable pub create : Bytes → View
create cstr = record { str = cstr; str_len = strlen cstr }

-- `ek_str_view_chop_left` and `ek_str_view_chop_right` behind their tests for `NULL`.
unfoldable pub cut_left : ℕ → View → View
cut_left n sv =
    let n = if ltb sv.str_len n then sv.str_len else n in
    record { str = drop n sv.str; str_len = sv.str_len - n }

unfoldable pub cut_right : ℕ → View → View
cut_right n sv =
    let n = if ltb sv.str_len n then sv.str_len else n in record sv { str_len = sv.str_len - n }

unfoldable pub chop_left : Option View → ℕ → Err × Option View
chop_left none n = (inval, none)
chop_left (some sv) n = (ok, some (cut_left n sv))

unfoldable pub chop_right : Option View → ℕ → Err × Option View
chop_right none n = (inval, none)
chop_right (some sv) n = (ok, some (cut_right n sv))

-- `isspace` is the C library's.
module _ (isspace : ℕ → Bool) where
  -- The loops of `ek_str_view_trim`, with fuel for their rounds.
  unfoldable pub trim_left : ℕ → View → View
  trim_left zero sv = sv
  trim_left (suc fuel) sv =
      let rest = trim_left fuel (cut_left 1 sv) in
      if ltb 0 sv.str_len && isspace (get_or sv.str 0 0) then rest else sv

  unfoldable pub trim_right : ℕ → View → View
  trim_right zero sv = sv
  trim_right (suc fuel) sv =
      let rest = trim_right fuel (cut_right 1 sv) in
      if ltb 0 sv.str_len && isspace (get_or sv.str (sv.str_len - 1) 0) then rest else sv

  -- A round shortens the view, so its length is enough fuel.
  unfoldable pub trim : Option View → Err × Option View
  trim none = (inval, none)
  trim (some sv) = let sv = trim_left sv.str_len sv in (ok, some (trim_right sv.str_len sv))

-- The loop of `ek_str_view_split`: from `i` on, with `n` bytes to go.
unfoldable pub find : ℕ → Bytes → ℕ → ℕ → ℕ
find c str zero i = i
find c str (suc n) i = let rest = find c str n (i + 1) in if get_or str i 0 == c then i else rest

-- The part that is split off, and the view that is left.
unfoldable pub split : View → ℕ → View × View
split sv c =
    let i = find c sv.str sv.str_len 0 in
    if ltb i sv.str_len
    then (record { str = sv.str; str_len = i }, cut_left (i + 1) sv)
    else (sv, cut_left i sv)
