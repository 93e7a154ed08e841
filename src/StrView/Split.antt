-- ===== src/StrView/Split.antt =====
-- What `ek_str_view_split` takes off a view.
use ek_utils.Base.{
  ℕ, zero, suc, ◌+◌, ◌-◌, ◌≤◌, ◌≡◌, refl, sym, ap, ◌∙◌, arith, inl, inr, ◌⊎◌, ◌++◌, Bool-cases,
  false, [], ◌∷◌, ◌==◌, ltb, if◌then◌else◌, get_or, take, drop, length, Bytes,
}
use ek_utils.StrView.{View, cut_left, find, split}
use ek_utils.StrView.Trim.{IsValid, contents}

module _ (c : ℕ) where
  -- The bytes before the first separator, all of them if there is none, and those behind it.
  abbrev pub until : Bytes → Bytes
  until [] = []
  until (x ∷ xs) = if x == c then [] else x ∷ until xs

  abbrev pub behind : Bytes → Bytes
  behind [] = []
  behind (x ∷ xs) = if x == c then xs else behind xs

  find-suc : (x : ℕ) (xs : Bytes) (n i : ℕ) → find c (x ∷ xs) n (suc i) ≡ suc (find c xs n i)
  unfolding find
  find-suc x xs zero i = refl
  find-suc x xs (suc n) i = elim (Bool-cases (get_or xs i 0 == c)) [
    | inl e ↦ rw e refl
    | inr e ↦
        let step : suc i + 1 ≡ suc (i + 1) = omega arith in
        rw (e, step, find-suc x xs n (i + 1)) refl
  ]

  find-zero : (xs : Bytes) → find c xs 0 0 ≡ 0
  unfolding find
  find-zero xs = refl

  find-cons :
      (x : ℕ) (xs : Bytes) (n : ℕ)
      → find c (x ∷ xs) (suc n) 0 ≡ (if x == c then 0 else suc (find c xs n 0))
  unfolding find
  find-cons x xs n = rw (find-suc x xs n 0) refl

  -- Where the search ends, and what stands there.
  find_lem :
      (xs : Bytes) (n : ℕ)
      → n ≤ length xs
      → let i = find c xs n 0 in
        (i ≤ n)
        × (take i xs ≡ until (take n xs))
        × (take (n - (i + 1)) (drop (i + 1) xs) ≡ behind (take n xs))
  find_lem xs zero v =
      let none_left : find c xs 0 0 ≡ 0 = find-zero xs in
      let stops : 0 - 1 ≡ 0 = omega arith in rw (none_left, stops) (omega arith, refl, refl)
  find_lem [] (suc n) v = absurd (omega arith)
  find_lem (x ∷ xs) (suc n) v = elim (Bool-cases (x == c)) [
    | inl e ↦ rw (find-cons x xs n, e) (omega arith, refl, ap (λ k. take k xs) (omega arith))
    | inr e ↦
        let (le, before, after) = find_lem xs n (omega arith) in
        let i = find c xs n 0 in
        let width : suc n - (suc i + 1) ≡ n - (i + 1) = omega arith in
        let start : suc i + 1 ≡ suc (i + 1) = omega arith in
        rw (find-cons x xs n, e, width, start) (omega arith, ap (◌∷◌ x) before, after)
  ]

  -- A cut within the view takes off as many bytes as it says.
  cut_left_within :
      (n : ℕ) (sv : View)
      → n ≤ sv.str_len
      → cut_left n sv ≡ record { str = drop n sv.str; str_len = sv.str_len - n }
  unfolding cut_left
  cut_left_within n sv h = let no : ltb sv.str_len n ≡ false = ground arith in rw no refl

  nothing : (n : ℕ) (xs : Bytes) → n ≡ 0 → take n xs ≡ []
  nothing n xs e = rw e refl

-- `ek_str_view_split` of a view that ends within its text takes off the bytes before the first
-- separator and leaves those behind it. Without a separator it takes off everything.
pub split_lem :
    (c : ℕ) (sv : View)
    → IsValid sv
    → (contents (split sv c).0 ≡ until c (contents sv))
      × (contents (split sv c).1 ≡ behind c (contents sv))
unfolding split
split_lem c sv v =
    let (le, before, after) = find_lem c sv.str sv.str_len v in
    let i = find c sv.str sv.str_len 0 in
    elim (Bool-cases (ltb i sv.str_len)) [
      | inl e ↦ rw (e, cut_left_within c (i + 1) sv (ground arith)) (before, after)
      | inr e ↦
          let all : i ≡ sv.str_len = ground arith in
          let none_behind : behind c (contents sv) ≡ [] =
            sym after ∙ nothing c (sv.str_len - (i + 1)) (drop (i + 1) sv.str) (omega arith) in
          rw (e, cut_left_within c i sv le, none_behind)
            (
              ap (λ k. take k sv.str) (sym all) ∙ before,
              nothing c (sv.str_len - i) (drop i sv.str) (omega arith),
            )
    ]

-- Where the text has no separator, the view is the text before the first separator; else it is that
-- text, a separator, and the text behind it.
until-behind : (c : ℕ) (xs : Bytes) → (xs ≡ until c xs) ⊎ (xs ≡ until c xs ++ (c ∷ behind c xs))
until-behind c [] = inl refl
until-behind c (x ∷ xs) = elim (Bool-cases (x == c)) [
  | inl e ↦ let at : x ≡ c = ground arith in rw e (inr (ap (λ d. d ∷ xs) at))
  | inr e ↦ elim (until-behind c xs) [
    | inl all ↦ rw e (inl (ap (◌∷◌ x) all))
    | inr two ↦ rw e (inr (ap (◌∷◌ x) two))
  ]
]

-- `ek_str_view_split` loses nothing but the separator: the text of a view that ends within its text
-- is the part taken off, or that part, the separator and the text left.
pub split-joins :
    (c : ℕ) (sv : View)
    → IsValid sv
    → (contents sv ≡ contents (split sv c).0)
      ⊎ (contents sv ≡ contents (split sv c).0 ++ (c ∷ contents (split sv c).1))
split-joins c sv v =
    let (part, left) = split_lem c sv v in rw (part, left) (until-behind c (contents sv))
