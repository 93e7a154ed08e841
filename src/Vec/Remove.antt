-- ===== src/Vec/Remove.antt =====
-- inc/ek_vec.h: `ek_vec_remove` and `ek_vec_remove_unorder`.
use mathlib.Core.List.{append_assoc}
use ek_utils.Base.{
  ◌+◌, ◌-◌, ◌≡◌, refl, sym, ap, ◌∙◌, arith, true, some, List, [], ◌∷◌, ◌++◌, ltb, length,
  length-append, get_elem?,
}
use ek_utils.Vec.{Vec, block_of, store, shift, remove, remove_unorder}
use ek_utils.Vec.Holds.{Holds, get-middle, store-middle}

module _ {A : Type 0} where
  abbrev last_of : A → List A → A
  last_of x [] = x
  last_of x (y ∷ post) = last_of y post

  length-snoc : (l : List A) (x : A) → length (l ++ (x ∷ [])) ≡ length l + 1
  length-snoc l x = length-append l (x ∷ [])

  snoc-append : (pre l : List A) (y : A) → (pre ++ (y ∷ [])) ++ l ≡ pre ++ (y ∷ l)
  snoc-append pre l y = append_assoc pre (y ∷ []) l

  -- The loop moves what follows down by one; the last element stays behind it.
  shift_lem :
      (pre post spare : List A) (x : A)
      → shift (length post) (length pre) (pre ++ (x ∷ (post ++ spare)))
        ≡ some (pre ++ (post ++ (last_of x post ∷ spare)))
  unfolding shift
  shift_lem pre [] spare x = refl
  shift_lem pre (y ∷ post) spare x =
      let rest = post ++ spare in
      let found : get_elem? (pre ++ (x ∷ (y ∷ rest))) (length pre + 1) ≡ some y =
        ap (λ l. get_elem? l (length pre + 1)) (sym (snoc-append pre (y ∷ rest) x))
        ∙ ap (get_elem? ((pre ++ (x ∷ [])) ++ (y ∷ rest))) (sym (length-snoc pre x))
        ∙ get-middle (pre ++ (x ∷ [])) rest y in
      rw (found, store-middle pre (y ∷ rest) x y)
        (ap (shift (length post) (length pre + 1)) (sym (snoc-append pre (y ∷ rest) y))
          ∙ ap (λ n. shift (length post) n ((pre ++ (y ∷ [])) ++ (y ∷ rest)))
              (sym (length-snoc pre y))
          ∙ shift_lem (pre ++ (y ∷ [])) post spare y
          ∙ ap some (snoc-append pre (post ++ (last_of y post ∷ spare)) y))

  -- In a vector that holds `pre`, `x` and `post`, `ek_vec_remove` of the position of `x` stays inside
  -- the block and leaves `pre` and `post`, in their order.
  pub remove-Holds :
      (pre post : List A) (x : A) (v : Vec A)
      → Holds v (pre ++ (x ∷ post))
      → (v' : Vec A) × (remove (length pre) v ≡ some v') × Holds v' (pre ++ post)
  unfolding remove
  remove-Holds pre post x v h =
      let there : ltb (length pre) v.amount ≡ true =
        ground (arith, h.counted, length-append pre (x ∷ post)) in
      let rounds : v.amount - 1 - length pre ≡ length post =
        omega (arith, h.counted, length-append pre (x ∷ post)) in
      let block : block_of v.items ≡ pre ++ (x ∷ (post ++ h.spare)) =
        h.held ∙ append_assoc pre (x ∷ post) h.spare in
      let moved : shift (v.amount - 1 - length pre) (length pre) (block_of v.items)
          ≡ some (pre ++ (post ++ (last_of x post ∷ h.spare))) =
        rw (rounds, block) (shift_lem pre post h.spare x) in
      rw (there, moved)
        (
          _,
          refl,
          record {
            spare = last_of x post ∷ h.spare;
            held = sym (append_assoc pre post (last_of x post ∷ h.spare));
            counted =
                omega (arith, h.counted, length-append pre (x ∷ post), length-append pre post);
            room = omega (arith, h.room);
            backed = omega (
              arith,
              h.backed,
              ap length block,
              length-append pre (x ∷ (post ++ h.spare)),
              length-append post h.spare,
              length-append pre (post ++ (last_of x post ∷ h.spare)),
              length-append post (last_of x post ∷ h.spare),
            );
          },
        )

  -- In a vector that holds `pre`, `x`, `mid` and `z`, `ek_vec_remove_unorder` of the position of `x`
  -- stays inside the block and leaves `pre`, `z` and `mid`: the last element takes the place of `x`.
  pub remove_unorder-Holds :
      (pre mid : List A) (x z : A) (v : Vec A)
      → Holds v (pre ++ (x ∷ (mid ++ (z ∷ []))))
      → (v' : Vec A) × (remove_unorder (length pre) v ≡ some v') × Holds v' (pre ++ (z ∷ mid))
  unfolding remove_unorder
  remove_unorder-Holds pre mid x z v h =
      let size : v.amount ≡ length pre + length mid + 2 =
        omega (
          arith,
          h.counted,
          length-append pre (x ∷ (mid ++ (z ∷ []))),
          length-append mid (z ∷ []),
        ) in
      let there : ltb (length pre) v.amount ≡ true = ground (arith, size) in
      let block : block_of v.items ≡ pre ++ (x ∷ (mid ++ (z ∷ h.spare))) =
        h.held
        ∙ append_assoc pre (x ∷ (mid ++ (z ∷ []))) h.spare
        ∙ ap (λ l. pre ++ (x ∷ l)) (append_assoc mid (z ∷ []) h.spare) in
      let front : length (pre ++ (x ∷ mid)) ≡ v.amount - 1 =
        omega (arith, size, length-append pre (x ∷ mid)) in
      let last : get_elem? (block_of v.items) (v.amount - 1) ≡ some z =
        ap (λ b. get_elem? b (v.amount - 1))
          (block ∙ sym (append_assoc pre (x ∷ mid) (z ∷ h.spare)))
        ∙ ap (get_elem? ((pre ++ (x ∷ mid)) ++ (z ∷ h.spare))) (sym front)
        ∙ get-middle (pre ++ (x ∷ mid)) h.spare z in
      let stored : store (block_of v.items) (length pre) z
          ≡ some (pre ++ (z ∷ (mid ++ (z ∷ h.spare)))) =
        rw block (store-middle pre (mid ++ (z ∷ h.spare)) x z) in
      rw (there, last, stored)
        (
          _,
          refl,
          record {
            spare = z ∷ h.spare;
            held = sym (append_assoc pre (z ∷ mid) (z ∷ h.spare));
            counted = omega (arith, size, length-append pre (z ∷ mid));
            room = omega (arith, h.room);
            backed = omega (
              arith,
              h.backed,
              ap length block,
              length-append pre (x ∷ (mid ++ (z ∷ h.spare))),
              length-append pre (z ∷ (mid ++ (z ∷ h.spare))),
            );
          },
        )
