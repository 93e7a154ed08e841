-- ===== src/Dlist/Chain.antt =====
-- When the links from a head through some nodes and back make a list.
use ek_utils.Base.{
  has, ◌∈◌, ◌∉◌, ◌≡◌, ◌≢◌, refl, ap, ◌∙◌, arith, ◌||◌, ◌&&◌, not, false, inl, inr, Bool-cases, List,
  [], ◌∷◌, ◌++◌, ◌==◌, erase,
}
use ek_utils.Dlist.{Ptr, null, Links}

abbrev pub Distinct : List Ptr → Type 0
Distinct [] = Unit {0}
Distinct (x ∷ xs) = (x ∉ xs) × Distinct xs

-- From `a` the links lead through `xs` to `b`, and back.
abbrev pub Chain : Links → Ptr → List Ptr → Ptr → Type 0
Chain h a [] b = (h.next a ≡ b) × (h.prev b ≡ a)
Chain h a (x ∷ xs) b = (h.next a ≡ x) × (h.prev x ≡ a) × Chain h x xs b

-- `head` is the head of a list of the nodes `xs`, all different, none of them `NULL`.
pub record IsList (h : Links) (head : Ptr) (xs : List Ptr) : Type 0 where
  pub chain : Chain h head xs head
  pub distinct : Distinct (head ∷ xs)
  pub not_null : null ∉ (head ∷ xs)

-- The node before `xs` in a chain from `a`, and the one behind `ys` in a chain to `b`.
abbrev pub last : Ptr → List Ptr → Ptr
last a [] = a
last a (x ∷ xs) = last x xs

abbrev pub first : List Ptr → Ptr → Ptr
first [] b = b
first (y ∷ ys) b = y

pub has-append :
    (c : Ptr) (front back : List Ptr) → has c (front ++ back) ≡ (has c front || has c back)
has-append c [] back = refl
has-append c (x ∷ front) back = ground (arith, has-append c front back)

-- A chain stands as long as the links on it do.
pub Chain-frame :
    (h g : Links) (a : Ptr) (xs : List Ptr) (b : Ptr)
    → Chain h a xs b
    → ((c : Ptr) → c ∈ (a ∷ xs) → g.next c ≡ h.next c)
    → ((c : Ptr) → c ∈ (b ∷ xs) → g.prev c ≡ h.prev c)
    → Chain g a xs b
Chain-frame h g a [] b ch n p = ground (arith, n a, p b)
Chain-frame h g a (x ∷ xs) b ch n p = (
  ground (arith, n a),
  ground (arith, p x),
  Chain-frame h g x xs b ch.2 (λ c i. n c (ground arith)) (λ c i. p c (ground arith)),
)

-- Along a chain, the node behind `xs` is reached from the last of `xs`, and the other way round.
pub links_at :
    (h : Links) (a : Ptr) (xs ys : List Ptr) (b : Ptr)
    → Chain h a (xs ++ ys) b
    → (h.next (last a xs) ≡ first ys b) × (h.prev (first ys b) ≡ last a xs)
links_at h a [] [] b ch = ch
links_at h a [] (y ∷ ys) b ch = (ch.0, ch.1)
links_at h a (x ∷ xs) ys b ch = links_at h x xs ys b ch.2

pub has-last : (a : Ptr) (xs : List Ptr) → last a xs ∈ (a ∷ xs)
has-last a [] = ground arith
has-last a (x ∷ xs) = ground (arith, has-last x xs)

pub has-first : (ys : List Ptr) (b : Ptr) → first ys b ∈ (b ∷ ys)
has-first [] b = ground arith
has-first (y ∷ ys) b = ground arith

-- Another node in the middle changes nothing for those that differ from it.
pub has-insert :
    (c n : Ptr) (xs ys : List Ptr) → has c (xs ++ (n ∷ ys)) ≡ (c == n || has c (xs ++ ys))
has-insert c n [] ys = refl
has-insert c n (x ∷ xs) ys = ground (arith, has-insert c n xs ys)

pub Distinct-insert :
    (n : Ptr) (xs ys : List Ptr) → Distinct (xs ++ ys) → n ∉ (xs ++ ys) → Distinct (xs ++ (n ∷ ys))
Distinct-insert n [] ys d out = (out, d)
Distinct-insert n (x ∷ xs) ys d out =
    (ground (arith, has-insert x n xs ys), Distinct-insert n xs ys d.1 (ground arith))

pub Distinct-remove :
    (n : Ptr) (xs ys : List Ptr)
    → Distinct (xs ++ (n ∷ ys))
    → Distinct (xs ++ ys) × (n ∉ (xs ++ ys))
Distinct-remove n [] ys d = (d.1, d.0)
Distinct-remove n (x ∷ xs) ys d =
    let (d', out) = Distinct-remove n xs ys d.1 in
    ((ground (arith, has-insert x n xs ys), d'), ground (arith, has-insert x n xs ys))

-- A node of a list differs from one that is not in it.
pub mem_ne : (a c : Ptr) (xs : List Ptr) → a ∉ xs → c ∈ xs → a ≢ c
mem_ne a c xs out i e = cc

pub last-snoc : (a n : Ptr) (xs : List Ptr) → last a (xs ++ (n ∷ [])) ≡ n
last-snoc a n [] = refl
last-snoc a n (x ∷ xs) = last-snoc x n xs

pub Distinct-snoc : (xs : List Ptr) (i : Ptr) → Distinct xs → i ∉ xs → Distinct (xs ++ (i ∷ []))
Distinct-snoc [] i d n = (refl, tt)
Distinct-snoc (x ∷ xs) i d n =
    (has-append x xs (i ∷ []) ∙ ground (arith, d.0, n), Distinct-snoc xs i d.1 (ground arith))

-- In a list without repetition, an erasure leaves all but the node erased.
pub has-erase_all :
    (c i : Ptr) (xs : List Ptr) → Distinct xs → has c (erase i xs) ≡ (not (c == i) && has c xs)
has-erase_all c i [] d = ground arith
has-erase_all c i (x ∷ xs) d = elim (Bool-cases (i == x)) [
  | inl e ↦
      let q : i ≡ x = ground arith in
      elim (Bool-cases (c == i)) [
        | inl at ↦ let w : c ≡ x = ground arith in rw (e, at) (ap (λ z. has z xs) w ∙ d.0)
        | inr at ↦ let w : (c == x) ≡ false = ground arith in rw (e, at, w) refl
      ]
  | inr e ↦ rw e (ground (arith, has-erase_all c i xs d.1))
]

pub Distinct-erase : (i : Ptr) (xs : List Ptr) → Distinct xs → Distinct (erase i xs)
Distinct-erase i [] d = tt
Distinct-erase i (x ∷ xs) d = elim (Bool-cases (i == x)) [
  | inl e ↦ rw e d.1
  | inr e ↦ rw e (ground (arith, has-erase_all x i xs d.1, d.0), Distinct-erase i xs d.1)
]
