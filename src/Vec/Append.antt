-- ===== src/Vec/Append.antt =====
-- inc/ek_vec.h: `ek_vec_append` and `ek_vec_shrink`.
use native.Mathlib.Nat.{mod-eq_of_lt, mul-le-mul_right}
use mathlib.Core.List.{append_assoc}
use ek_utils.Base.{
  leb→le, ℕ, ◌+◌, ◌*◌, ◌≤◌, ◌<◌, ◌≡◌, refl, sym, ap, arith, inl, inr, ◌⊎◌, Bool-cases, Option-cases,
  Option, none, some, List, [], ◌∷◌, ◌++◌, leb, length, length-append, word, add32, mul32,
}
use ek_utils.Vec.{Vec, new_cap, block_of, store, put, append}
use ek_utils.Vec.Holds.{Holds, store-middle}

-- The capacity that is asked for is larger, and at most twice the old one, or 8.
new_cap_bounds : (cap : ℕ) → 2 * cap + 8 < word → (cap < new_cap cap) × (new_cap cap ≤ 2 * cap + 8)
new_cap_bounds cap h = ground arith

-- A full vector has a capacity for which a request of the next one does not wrap.
full_fits :
    (cap amount n size : ℕ)
    → cap ≤ amount
    → amount ≡ n
    → 0 < size
    → (2 * n + 8) * size < word
    → (2 * cap + 8 < word) × (new_cap cap * size < word)
full_fits cap amount n size full counted pos fits =
    let below : 2 * n + 8 ≤ (2 * n + 8) * size = grind arith in
    let small : 2 * cap + 8 < word = omega (arith, below, fits, full, counted) in
    let (_, bound) = new_cap_bounds cap small in
    let more : new_cap cap * size ≤ (2 * n + 8) * size =
      mul-le-mul_right size (omega (arith, bound, full, counted)) in
    (small, omega (arith, more, fits))

module _ {A : Type 0} (size : ℕ) where
  -- What `ek_realloc` gives, if it does not refuse: a block of the size asked for that begins with as
  -- many of the old elements as it has room for.
  abbrev pub Reallocates : (Option (List A) → ℕ → Option (List A)) → Type 0
  Reallocates realloc =
      (old : Option (List A)) (n : ℕ) (b : List A)
      → realloc old n ≡ some b
      → ((m : ℕ) → m * size ≤ n → m ≤ length b)
        × ((kept lost : List A)
            → block_of old ≡ kept ++ lost
            → length kept * size ≤ n
            → (spare : List A) × (b ≡ kept ++ spare))

  put_at :
      (x : A) (v : Vec A) (l spare : List A)
      → block_of v.items ≡ l ++ spare
      → v.amount ≡ length l
      → v.amount < v.cap
      → v.cap ≤ length (block_of v.items)
      → v.cap < word
      → (v' : Vec A) × (put x v ≡ some v') × Holds v' (l ++ (x ∷ []))
  unfolding put
  put_at x v l [] held counted free backed small =
      absurd (omega (arith, ap length held, length-append l [], free, backed, counted))
  put_at x v l (y ∷ spare) held counted free backed small =
      let stored : store (block_of v.items) v.amount x ≡ some (l ++ (x ∷ spare)) =
        rw (held, counted) (store-middle l spare y x) in
      let next : add32 v.amount 1 ≡ v.amount + 1 = mod-eq_of_lt (omega (arith, free, small)) in
      rw stored (
        _,
        refl,
        record {
          spare = spare;
          held = sym (append_assoc l (x ∷ []) spare);
          counted = omega (arith, next, counted, length-append l (x ∷ []));
          room = omega (arith, next, free);
          backed = omega (
            arith,
            ap length held,
            length-append l (x ∷ spare),
            length-append l (y ∷ spare),
            backed,
          );
        },
      )

  put-Holds :
      (x : A) (v : Vec A) (l : List A)
      → Holds v l
      → v.amount < v.cap
      → v.cap < word
      → (v' : Vec A) × (put x v ≡ some v') × Holds v' (l ++ (x ∷ []))
  put-Holds x v l h free small = put_at x v l h.spare h.held h.counted free h.backed small

  -- A block that `ek_realloc` gave holds the elements as before.
  grown-Holds :
      (realloc : Option (List A) → ℕ → Option (List A)) (v : Vec A) (l b : List A) (cap : ℕ)
      → Reallocates realloc
      → Holds v l
      → cap * size < word
      → v.amount ≤ cap
      → realloc v.items (mul32 cap size) ≡ some b
      → Holds (record v { items = some b; cap = cap }) l
  grown-Holds realloc v l b cap law h fits more e =
      let request : mul32 cap size ≡ cap * size = mod-eq_of_lt fits in
      let (long, keeps) = law v.items (mul32 cap size) b e in
      let (spare, same) =
        keeps l h.spare h.held
          (rw request (mul-le-mul_right size (omega (arith, h.counted, more)))) in
      record {
        spare = spare;
        held = same;
        counted = h.counted;
        room = more;
        backed = long cap (rw request (omega arith));
      }

  -- Let a vector hold `l`, with elements of at least one byte and room in 2^32 bytes for twice as
  -- many and eight more, and let `ek_realloc` keep its promise. Then `ek_vec_append` stays inside the
  -- block. The vector holds the new element behind the others, unless it was full and `ek_realloc`
  -- refuses: then the vector is as before, and the element is dropped.
  pub append-Holds :
      (realloc : Option (List A) → ℕ → Option (List A)) (x : A) (v : Vec A) (l : List A)
      → Reallocates realloc
      → 0 < size
      → (2 * length l + 8) * size < word
      → v.cap < word
      → Holds v l
      → (v' : Vec A) × (append size realloc x v ≡ some v')
        × (Holds v' (l ++ (x ∷ []))
            ⊎ (v' ≡ v) × (v.amount ≡ v.cap) × (realloc v.items (mul32 (new_cap v.cap) size) ≡ none))
  unfolding append
  append-Holds realloc x v l law pos fits small h = elim (Bool-cases (leb v.cap v.amount)) [
    | inr free ↦
        let (v', runs, holds) = put-Holds x v l h (ground (arith, free)) small in
        rw free (v', runs, inl holds)
    | inl full ↦ elim (Option-cases (realloc v.items (mul32 (new_cap v.cap) size))) [
      | inl e ↦ rw (full, e) (v, refl, inr (refl, ground (arith, full, h.room), refl))
      | inr (b, e) ↦
          let (narrow, words) =
            full_fits v.cap v.amount (length l) size (leb→le v.cap v.amount full) h.counted pos
              fits in
          let (more, bound) = new_cap_bounds v.cap narrow in
          let holds =
            grown-Holds realloc v l b (new_cap v.cap) law h words (omega (arith, more, h.room)) e in
          let (v', runs, holds') =
            put-Holds x _ l holds (omega (arith, more, h.room)) (omega (arith, bound, narrow)) in
          rw (full, e) (v', runs, inl holds')
    ]
  ]
