-- ===== src/Vec/Holds.antt =====
-- inc/ek_vec.h: which elements a vector holds.
use ek_utils.Base.{
  ◌≤◌, ◌≡◌, refl, ap, arith, some, true, List, [], ◌∷◌, ◌++◌, ltb, length, length-append, get_elem?,
  set,
}
use ek_utils.Vec.{Vec, block_of, store}

module _ {A : Type 0} where
  -- The vector holds the elements `l`: they stand at the start of its block, which is at least as
  -- long as the capacity.
  pub record Holds (v : Vec A) (l : List A) : Type 0 where
    pub spare : List A
    pub held : block_of v.items ≡ l ++ spare
    pub counted : v.amount ≡ length l
    pub room : v.amount ≤ v.cap
    pub backed : v.cap ≤ length (block_of v.items)

  pub get-middle : (pre post : List A) (x : A) → get_elem? (pre ++ (x ∷ post)) (length pre) ≡ some x
  get-middle [] post x = refl
  get-middle (y ∷ pre) post x = get-middle pre post x

  pub set-middle :
      (pre post : List A) (x y : A) → set (pre ++ (x ∷ post)) (length pre) y ≡ pre ++ (y ∷ post)
  set-middle [] post x y = refl
  set-middle (z ∷ pre) post x y = ap (◌∷◌ z) (set-middle pre post x y)

  -- A write to an element that is there.
  pub store-middle :
      (pre post : List A) (x y : A)
      → store (pre ++ (x ∷ post)) (length pre) y ≡ some (pre ++ (y ∷ post))
  store-middle pre post x y =
      let inside : ltb (length pre) (length (pre ++ (x ∷ post))) ≡ true =
        ground (arith, length-append pre (x ∷ post)) in
      rw inside (ap some (set-middle pre post x y))
