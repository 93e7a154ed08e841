-- ===== src/Sorting.antt =====
-- Lists kept in order by insertion: what an insertion into a sorted list gives.
use ek_utils.Base.{
  ℕ, ◌≡◌, refl, ap, ◌∙◌, arith, inl, inr, Bool-cases, Bool, true, false, not, List, [], ◌∷◌, ◌++◌,
  ◌==◌, has, ◌∈◌, ◌∉◌, if◌then◌else◌,
}
use ek_utils.Dlist.Chain.{Distinct}

-- The members of a list that pass a test, in their order.
abbrev pub keep : (ℕ → Bool) → List ℕ → List ℕ
keep f [] = []
keep f (x ∷ xs) = if f x then x ∷ keep f xs else keep f xs

pub keep_all : (f : ℕ → Bool) (xs : List ℕ) → ((c : ℕ) → c ∈ xs → f c ≡ true) → keep f xs ≡ xs
keep_all f [] h = refl
keep_all f (x ∷ xs) h =
    rw (h x (ground arith)) (ap (◌∷◌ x) (keep_all f xs (λ c i. h c (ground arith))))

pub keep_none : (f : ℕ → Bool) (xs : List ℕ) → ((c : ℕ) → c ∈ xs → f c ≡ false) → keep f xs ≡ []
keep_none f [] h = refl
keep_none f (x ∷ xs) h = rw (h x (ground arith)) (keep_none f xs (λ c i. h c (ground arith)))

module _ (before : ℕ → ℕ → Bool) where
  -- No thread comes before one that stands in front of it.
  abbrev pub Sorted : List ℕ → Type 0
  Sorted [] = Unit {0}
  Sorted (x ∷ xs) = ((c : ℕ) → c ∈ xs → before c x ≡ false) × Sorted xs

  abbrev pub insert_by : ℕ → List ℕ → List ℕ
  insert_by i [] = i ∷ []
  insert_by i (x ∷ xs) = if before i x then i ∷ x ∷ xs else x ∷ insert_by i xs

  pub has-insert_by : (c i : ℕ) (xs : List ℕ) → has c (insert_by i xs) ≡ has c (i ∷ xs)
  has-insert_by c i [] = refl
  has-insert_by c i (x ∷ xs) = ground (arith, has-insert_by c i xs)

  pub Distinct-insert_by : (i : ℕ) (xs : List ℕ) → Distinct xs → i ∉ xs → Distinct (insert_by i xs)
  Distinct-insert_by i [] d n = (refl, tt)
  Distinct-insert_by i (x ∷ xs) d n = elim (Bool-cases (before i x)) [
    | inl b ↦ rw b (n, d)
    | inr b ↦
        rw b (
          has-insert_by x i xs ∙ ground (arith, d.0, n),
          Distinct-insert_by i xs d.1 (ground arith),
        )
  ]

  -- A strict order whose negation is transitive.
  abbrev pub IsOrder : Type 0
  IsOrder =
      ((i : ℕ) → before i i ≡ false)
      × ((i x c : ℕ)
          → before i x ≡ true
          → before c x ≡ false
          → (before i c ≡ true) × (before c i ≡ false))

  front :
      IsOrder
      → (i x : ℕ) (xs : List ℕ) → Sorted (x ∷ xs)
      → before i x ≡ true
      → (c : ℕ) → c ∈ (x ∷ xs)
      → (before i c ≡ true) × (before c i ≡ false)
  front o i x xs s b c h = elim (Bool-cases (c == x)) [
    | inl q ↦ let e : c ≡ x = ground arith in o.1 i x c b (ap (λ d. before d x) e ∙ o.0 x)
    | inr q ↦ o.1 i x c b (s.0 c (ground arith))
  ]

  pub insert_by-Sorted : IsOrder → (i : ℕ) (xs : List ℕ) → Sorted xs → Sorted (insert_by i xs)
  insert_by-Sorted o i [] s = ((λ c h. ground (arith, h)), tt)
  insert_by-Sorted o i (x ∷ xs) s = elim (Bool-cases (before i x)) [
    | inl b ↦ rw b ((λ c h. (front o i x xs s b c h).1), s)
    | inr b ↦ rw b (
      (λ c h. elim (Bool-cases (c == i)) [
        | inl q ↦ let e : c ≡ i = ground arith in ap (λ d. before d x) e ∙ b
        | inr q ↦ s.0 c (ground (arith, has-insert_by c i xs))
      ]),
      insert_by-Sorted o i xs s.1,
    )
  ]

  pub insert_by-keep :
      IsOrder
      → (i : ℕ) (xs : List ℕ) → Sorted xs
      → insert_by i xs ≡ keep (λ x. not (before i x)) xs ++ (i ∷ keep (before i) xs)
  insert_by-keep o i [] s = refl
  insert_by-keep o i (x ∷ xs) s = elim (Bool-cases (before i x)) [
    | inl b ↦
        let all : (c : ℕ) → c ∈ xs → before i c ≡ true =
          λ c h. (front o i x xs s b c (ground arith)).0 in
        rw
          (
            b,
            keep_all (before i) xs all,
            keep_none (λ x. not (before i x)) xs (λ c h. ap not (all c h)),
          )
          refl
    | inr b ↦ rw b (ap (◌∷◌ x) (insert_by-keep o i xs s.1))
  ]
