-- ===== src/StrView/Trim.antt =====
-- What `ek_str_view_trim` leaves of a view.
use ek_utils.Base.{
  ℕ, zero, suc, ◌-◌, ◌≤◌, ◌<◌, ◌≡◌, refl, ap, ◌∙◌, arith, inl, inr, Bool-cases, Bool, true, false,
  some, [], ◌∷◌, ◌++◌, ltb, if◌then◌else◌, get_or, take, length, Bytes,
}
use ek_utils.Err.{ok}
use ek_utils.StrView.{View, cut_left, cut_right, trim_left, trim_right, trim}

-- The view ends within its text.
abbrev pub IsValid : View → Type 0
IsValid sv = sv.str_len ≤ length sv.str

-- The bytes in view.
abbrev pub contents : View → Bytes
contents sv = take sv.str_len sv.str

pos : (n : ℕ) → ltb 0 (suc n) ≡ true
pos n = ground arith

sub_one : (n : ℕ) → suc n - 1 ≡ n
sub_one n = omega arith

at_most : (n : ℕ) → (if ltb (suc n) 1 then suc n else 1) ≡ 1
at_most n = ground arith

cut_left_one :
    (x : ℕ) (xs : Bytes) (n : ℕ)
    → cut_left 1 (record { str = x ∷ xs; str_len = suc n }) ≡ record { str = xs; str_len = n }
unfolding cut_left
cut_left_one x xs n = rw (at_most n, sub_one n) refl

cut_right_one :
    (xs : Bytes) (n : ℕ)
    → cut_right 1 (record { str = xs; str_len = suc n }) ≡ record { str = xs; str_len = n }
unfolding cut_right
cut_right_one xs n = rw (at_most n, sub_one n) refl

module _ (isspace : ℕ → Bool) where
  abbrev pub AllSpace : Bytes → Type 0
  AllSpace [] = Unit {0}
  AllSpace (x ∷ xs) = (isspace x ≡ true) × AllSpace xs

  abbrev pub skip : Bytes → Bytes
  skip [] = []
  skip (x ∷ xs) = if isspace x then skip xs else x ∷ xs

  abbrev pub keep_unless : ℕ → Bytes → Bytes
  keep_unless x [] = if isspace x then [] else x ∷ []
  keep_unless x (y ∷ ys) = x ∷ y ∷ ys

  -- A list less the spaces at its end.
  abbrev pub skip_end : Bytes → Bytes
  skip_end [] = []
  skip_end (x ∷ xs) = keep_unless x (skip_end xs)

  trim_left_lem :
      (fuel : ℕ) (xs : Bytes) (n : ℕ)
      → n ≤ length xs
      → n ≤ fuel
      → let sv' = trim_left isspace fuel (record { str = xs; str_len = n }) in
        IsValid sv' × (contents sv' ≡ skip (take n xs))
  unfolding trim_left
  trim_left_lem zero xs zero v h = (v, refl)
  trim_left_lem zero xs (suc n) v h = absurd (omega arith)
  trim_left_lem (suc fuel) xs zero v h = (v, refl)
  trim_left_lem (suc fuel) [] (suc n) v h = absurd (omega arith)
  trim_left_lem (suc fuel) (x ∷ xs) (suc n) v h = elim (Bool-cases (isspace x)) [
    | inl e ↦
        rw (cut_left_one x xs n, pos n, e) (trim_left_lem fuel xs n (omega arith) (omega arith))
    | inr e ↦ rw (pos n, e) (v, refl)
  ]

  take-snoc :
      (n : ℕ) (xs : Bytes) → n < length xs → take (suc n) xs ≡ take n xs ++ (get_or xs n 0 ∷ [])
  take-snoc n [] h = absurd (omega arith)
  take-snoc zero (x ∷ xs) h = refl
  take-snoc (suc n) (x ∷ xs) h = ap (◌∷◌ x) (take-snoc n xs (omega arith))

  skip_end-space : (ys : Bytes) (z : ℕ) → isspace z ≡ true → skip_end (ys ++ (z ∷ [])) ≡ skip_end ys
  skip_end-space [] z e = rw e refl
  skip_end-space (y ∷ ys) z e = rw (skip_end-space ys z e) refl

  skip_end-other :
      (ys : Bytes) (z : ℕ) → isspace z ≡ false → skip_end (ys ++ (z ∷ [])) ≡ ys ++ (z ∷ [])
  skip_end-other [] z e = rw e refl
  skip_end-other (y ∷ []) z e = rw e refl
  skip_end-other (y ∷ y' ∷ ys) z e = rw (skip_end-other (y' ∷ ys) z e) refl

  trim_right_lem :
      (fuel : ℕ) (xs : Bytes) (n : ℕ)
      → n ≤ length xs
      → n ≤ fuel
      → let sv' = trim_right isspace fuel (record { str = xs; str_len = n }) in
        IsValid sv' × (contents sv' ≡ skip_end (take n xs))
  unfolding trim_right
  trim_right_lem zero xs zero v h = (v, refl)
  trim_right_lem zero xs (suc n) v h = absurd (omega arith)
  trim_right_lem (suc fuel) xs zero v h = (v, refl)
  trim_right_lem (suc fuel) xs (suc n) v h = elim (Bool-cases (isspace (get_or xs n 0))) [
    | inl e ↦
        rw
          (
            pos n,
            sub_one n,
            cut_right_one xs n,
            e,
            take-snoc n xs (omega arith),
            skip_end-space (take n xs) (get_or xs n 0) e,
          )
          (trim_right_lem fuel xs n (omega arith) (omega arith))
    | inr e ↦
        rw
          (
            pos n,
            sub_one n,
            cut_right_one xs n,
            e,
            take-snoc n xs (omega arith),
            skip_end-other (take n xs) (get_or xs n 0) e,
          )
          (v, refl)
  ]

-- `ek_str_view_trim` of a view that ends within its text leaves the text less the spaces at its
-- start and at its end, in a view that ends within its text.
pub trim_lem :
    (isspace : ℕ → Bool) (sv : View)
    → IsValid sv
    → (sv' : View) × (trim isspace (some sv) ≡ (ok, some sv'))
      × IsValid sv'
      × (contents sv' ≡ skip_end isspace (skip isspace (contents sv)))
unfolding trim
trim_lem isspace sv v =
    let left = trim_left isspace sv.str_len sv in
    let l = trim_left_lem isspace sv.str_len sv.str sv.str_len v (omega arith) in
    let r = trim_right_lem isspace left.str_len left.str left.str_len l.0 (omega arith) in
    (_, refl, r.0, r.1 ∙ ap (skip_end isspace) l.1)
