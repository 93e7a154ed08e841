-- ===== src/Vec/Tests.antt =====
-- Vectors of numbers: runs, and the theorems about them at concrete states.
use ek_utils.Base.{
  ℕ, zero, suc, ◌*◌, ◌/◌, ◌≤◌, ◌≡◌, sym, ◌∙◌, refl, ap, arith, ◌⊎◌, Option, none, some, List, [],
  ◌∷◌, ◌++◌, ◌>>=◌, length, mul32,
}
use mathlib.Core.Option.{some-injective}
use ek_utils.Vec.{
  Vec, init, block_of, put, append, shrink, shift, remove, remove_unorder, clear, destroy, foreach,
  foreach_from, new_cap,
}
use ek_utils.Vec.Holds.{Holds}
use ek_utils.Vec.Append.{Reallocates, append-Holds}
use ek_utils.Vec.Remove.{remove-Holds}

-- The elements have four bytes; new ones are 0.
abbrev resize : ℕ → List ℕ → List ℕ
resize zero l = []
resize (suc n) [] = 0 ∷ resize n []
resize (suc n) (x ∷ l) = x ∷ resize n l

abbrev enough : Option (List ℕ) → ℕ → Option (List ℕ)
enough old n = some (resize (n / 4) (block_of old))

abbrev refuses : Option (List ℕ) → ℕ → Option (List ℕ)
refuses old n = none

length-resize : (n : ℕ) (l : List ℕ) → length (resize n l) ≡ n
length-resize zero l = refl
length-resize (suc n) [] = ap suc (length-resize n [])
length-resize (suc n) (x ∷ l) = ap suc (length-resize n l)

resize-keeps :
    (n : ℕ) (kept lost : List ℕ)
    → length kept ≤ n
    → (spare : List ℕ) × (resize n (kept ++ lost) ≡ kept ++ spare)
resize-keeps n [] lost h = (resize n lost, refl)
resize-keeps zero (x ∷ kept) lost h = absurd (omega (arith, h))
resize-keeps (suc n) (x ∷ kept) lost h =
    let (spare, e) = resize-keeps n kept lost (omega (arith, h)) in (spare, ap (◌∷◌ x) e)

enough-Reallocates : Reallocates 4 enough
enough-Reallocates old n b e =
    let same : resize (n / 4) (block_of old) ≡ b = some-injective _ _ e in
    (
      (λ m h. omega (arith, h, length-resize (n / 4) (block_of old), ap length same)),
      (λ kept lost held h.
          let (spare, q) = resize-keeps (n / 4) kept lost (omega (arith, h)) in
          (spare, sym same ∙ ap (resize (n / 4)) held ∙ q)),
    )

-- Nine numbers, of which one is removed in order and one by the last: the capacity went from 8 to 16.
abbrev ten_times : ℕ → Vec ℕ → Option (Vec ℕ)
ten_times zero v = some v
ten_times (suc n) v = append 4 enough (10 * suc n) v >>= ten_times n

abbrev nine : Option (Vec ℕ)
nine = ten_times 9 init

abbrev elements : Vec ℕ → List ℕ × ℕ × ℕ
elements v = (block_of v.items, v.amount, v.cap)

abbrev seen : Option (Vec ℕ) → Option (List ℕ × ℕ × ℕ)
seen v = do v ← v; some (elements v)

removals :
    seen (nine >>= remove 1 >>= remove_unorder 0 >>= remove 7)
    ≡ some (10 ∷ 70 ∷ 60 ∷ 50 ∷ 40 ∷ 30 ∷ 20 ∷ 10 ∷ 10 ∷ 0 ∷ 0 ∷ 0 ∷ 0 ∷ 0 ∷ 0 ∷ 0 ∷ [], 7, 16)
unfolding append put remove remove_unorder shift
removals = refl

-- What remains takes as much as it needs, and nothing when it is empty.
abbrev free : Option (List ℕ) → ℕ → ℕ
free b h = suc h

shrunk :
    seen (do v ← nine; v ← remove 0 v; some (shrink 4 enough free v 0).0)
    ≡ some (80 ∷ 70 ∷ 60 ∷ 50 ∷ 40 ∷ 30 ∷ 20 ∷ 10 ∷ [], 8, 8)
unfolding append put remove shift shrink
shrunk = refl

emptied : seen (do v ← nine; some (shrink 4 enough free (clear v) 0).0) ≡ some ([], 0, 0)
unfolding append put shrink
emptied = refl

destroyed : seen (do v ← nine; some (destroy free v 0).0) ≡ some ([], 0, 0)
unfolding append put destroy
destroyed = refl

-- Without memory an append does nothing, and says nothing.
dropped : append 4 refuses 7 init ≡ some init
unfolding append
dropped = refl

abbrev three : Vec ℕ
three = record { items = some (5 ∷ 6 ∷ 7 ∷ []); amount = 3; cap = 3 }

visits :
    (foreach three ≡ 0 ∷ 1 ∷ 2 ∷ []) × (foreach_from 2 three ≡ 2 ∷ []) × (foreach_from 9 three ≡ [])
unfolding foreach_from
visits = (refl, refl, refl)

three-Holds : Holds three (5 ∷ 6 ∷ 7 ∷ [])
three-Holds = record {
  spare = [];
  held = refl;
  counted = refl;
  room = omega arith;
  backed = omega arith;
}

append-Holds_example :
    (v' : Vec ℕ) × (append 4 enough 8 three ≡ some v')
    × (Holds v' (5 ∷ 6 ∷ 7 ∷ 8 ∷ [])
        ⊎ (v' ≡ three)
          × (three.amount ≡ three.cap)
          × (enough (some (5 ∷ 6 ∷ 7 ∷ [])) (mul32 (new_cap 3) 4) ≡ none))
append-Holds_example =
    append-Holds 4 enough 8 three (5 ∷ 6 ∷ 7 ∷ []) enough-Reallocates (omega arith) (omega arith)
      (omega arith) three-Holds

remove-Holds_example : (v' : Vec ℕ) × (remove 1 three ≡ some v') × Holds v' (5 ∷ 7 ∷ [])
remove-Holds_example = remove-Holds (5 ∷ []) (7 ∷ []) 6 three three-Holds
