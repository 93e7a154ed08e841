-- ===== src/StrView/Tests.antt =====
-- Runs of the string views, and instances of what is proved of them.
use ek_utils.Base.{ℕ, ◌≡◌, refl, arith, some, none, Bool, ◌||◌, [], ◌∷◌, ◌==◌}
use ek_utils.Err.{ok, inval}
use ek_utils.StrView.{View, create, chop_left, chop_right, cut_left, cut_right, trim, split}
use ek_utils.StrView.Trim.{IsValid, contents, trim_lem}
use ek_utils.StrView.Split.{split_lem}

-- A blank or a tab.
abbrev blank : ℕ → Bool
blank c = c == 32 || c == 9

-- " a,b " and its final NUL
abbrev text : View
text = record { str = 32 ∷ 97 ∷ 44 ∷ 98 ∷ 32 ∷ 0 ∷ []; str_len = 5 }

created : create (32 ∷ 97 ∷ 44 ∷ 98 ∷ 32 ∷ 0 ∷ []) ≡ text
unfolding create
created = refl

chopped :
    (chop_left (some text) 9 ≡ (ok, some (record { str = 0 ∷ []; str_len = 0 })))
    × ((chop_right (some text) 4).0 ≡ ok)
    × ((chop_left none 1).0 ≡ inval)
    × ((chop_right none 1).0 ≡ inval)
unfolding chop_left chop_right cut_left cut_right
chopped = (refl, refl, refl, refl)

trim_lem_example :
    (sv' : View) × (trim blank (some text) ≡ (ok, some sv'))
    × IsValid sv'
    × (contents sv' ≡ 97 ∷ 44 ∷ 98 ∷ [])
trim_lem_example = trim_lem blank text (omega arith)

split_lem_example :
    (contents (split text 44).0 ≡ 32 ∷ 97 ∷ []) × (contents (split text 44).1 ≡ 98 ∷ 32 ∷ [])
split_lem_example = split_lem 44 text (omega arith)
