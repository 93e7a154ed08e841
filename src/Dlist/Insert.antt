-- ===== src/Dlist/Insert.antt =====
-- Inserting a node that is in no list puts it where the function says and moves no other node.
use ek_utils.Base.{◌∉◌, ◌≡◌, ◌≢◌, refl, sym, arith, false, Option, some, List, [], ◌∷◌, ◌++◌, ◌==◌}
use mathlib.Core.Path.{subst}
use mathlib.Core.List.{append-nil}
use ek_utils.Dlist.{Ptr, null, Links, put, insert, insert_head, insert_tail, insert_before}
use ek_utils.Dlist.Chain.{
  Distinct, Chain, IsList, last, first, has-append, Chain-frame, has-insert, mem_ne,
  Distinct-insert, links_at, has-last, has-first,
}

-- The links after `_ek_list_insert`.
abbrev pub linked : Ptr → Ptr → Ptr → Links → Links
linked n p q h = record { next = put (put h.next p n) n q; prev = put (put h.prev n p) q n }

insert-linked :
    (n p q : Ptr) (h : Links)
    → n ≢ null
    → p ≢ null
    → q ≢ null
    → insert n p q h ≡ some (linked n p q h)
unfolding insert
insert-linked n p q h hn hp hq =
    let tn : (n == null) ≡ false = ground arith in
    let tp : (p == null) ≡ false = ground arith in
    let tq : (q == null) ≡ false = ground arith in rw (tp, tn, tq) refl

module _ (h : Links) (n : Ptr) where
  -- The chain behind the new node,
  tail_part :
      (a : Ptr) (ys : List Ptr) (b : Ptr)
      → Chain h a ys b
      → Distinct (a ∷ ys)
      → Distinct (b ∷ ys)
      → n ∉ (a ∷ b ∷ ys)
      → Chain (linked n a (first ys b) h) n ys b
  tail_part a [] b ch da db out = ground arith
  tail_part a (y ∷ ys) b ch da db out = (
    ground arith,
    ground arith,
    Chain-frame h (linked n a y h) y ys b ch.2 (λ c i. ground arith) (λ c i. ground arith),
  )

  -- and the whole chain with the new node between `xs` and `ys`.
  pub Chain-insert :
      (a : Ptr) (xs ys : List Ptr) (b : Ptr)
      → Chain h a (xs ++ ys) b
      → Distinct (a ∷ (xs ++ ys))
      → Distinct (b ∷ (xs ++ ys))
      → n ∉ (a ∷ b ∷ (xs ++ ys))
      → Chain (linked n (last a xs) (first ys b) h) a (xs ++ (n ∷ ys)) b
  Chain-insert a [] ys b ch da db out = (
    ground arith,
    ground (arith, has-first ys b, mem_ne n (first ys b) (b ∷ ys)),
    tail_part a ys b ch da db out,
  )
  Chain-insert a (x ∷ xs) ys b ch da db out = (
    ground (arith, has-last x xs, mem_ne a (last x xs) (x ∷ xs), has-append a xs ys),
    ground (arith, has-first ys b, has-append x xs ys, mem_ne x (first ys b) (b ∷ ys)),
    Chain-insert x xs ys b ch.2 da.1 (ground arith, da.1.1) (ground arith),
  )

-- Where two parts of a list meet, the code finds the nodes between which it inserts.
module _ {h : Links} {head : Ptr} (n : Ptr) (xs ys : List Ptr) (is : IsList h head (xs ++ ys))
    (new : n ∉ (head ∷ (xs ++ ys))) (real : n ≢ null) where
  IsList-linked : IsList (linked n (last head xs) (first ys head) h) head (xs ++ (n ∷ ys))
  IsList-linked = record {
    chain = Chain-insert h n head xs ys head is.chain is.distinct is.distinct (ground arith);
    distinct = (
      ground (arith, has-insert head n xs ys),
      Distinct-insert n xs ys is.distinct.1 (ground arith),
    );
    not_null = ground (arith, is.not_null, has-insert null n xs ys);
  }

  -- `_ek_list_insert` between the last of `xs` and the first of `ys`.
  insert-IsList :
      (insert n (last head xs) (first ys head) h ≡ some (linked n (last head xs) (first ys head) h))
      × IsList (linked n (last head xs) (first ys head) h) head (xs ++ (n ∷ ys))
  insert-IsList = (
    insert-linked n (last head xs) (first ys head) h real
        (ground (
          arith,
          is.not_null,
          has-last head xs,
          mem_ne null (last head xs) (head ∷ xs),
          has-append null xs ys,
        ))
        (ground (
          arith,
          is.not_null,
          has-first ys head,
          mem_ne null (first ys head) (head ∷ ys),
          has-append null xs ys,
        )),
    IsList-linked,
  )

-- What is in the list after a call that succeeds.
abbrev pub Leaves : Option Links → Ptr → List Ptr → Type 0
Leaves r head xs = (g : Links) × (r ≡ some g) × IsList g head xs

module _ {h : Links} {head : Ptr} (n : Ptr) (real : n ≢ null) where
  -- `ek_list_insert_head` puts a node that is not in the list in front.
  pub insert_head-cons :
      (xs : List Ptr)
      → IsList h head xs
      → n ∉ (head ∷ xs)
      → Leaves (insert_head head n h) head (n ∷ xs)
  unfolding insert_head
  insert_head-cons xs is new =
      let (run, list) = insert-IsList n [] xs is new real in
      let ok : (head == null) ≡ false = ground (arith, is.not_null) in
      (linked n head (first xs head) h, rw (ok, (links_at h head [] xs head is.chain).0) run, list)

  pub insert_tail-linked :
      (xs : List Ptr)
      → IsList h head xs
      → n ∉ (head ∷ xs)
      → (insert_tail head n h ≡ some (linked n (last head xs) head h))
        × IsList (linked n (last head xs) head h) head (xs ++ (n ∷ []))
  unfolding insert_tail
  insert_tail-linked xs is new =
      let whole : xs ++ [] ≡ xs = append-nil xs in
      let (run, list) =
        insert-IsList n xs [] (subst (IsList h head) (sym whole) is) (rw whole new) real in
      let ok : (head == null) ≡ false = ground (arith, is.not_null) in
      (
        rw
            (
              ok,
              (links_at h head xs [] head
                  (subst (λ l. Chain h head l head) (sym whole) is.chain)).1,
            )
            run,
        list,
      )

  -- `ek_list_insert_tail` puts it behind the others.
  pub insert_tail-snoc :
      (xs : List Ptr)
      → IsList h head xs
      → n ∉ (head ∷ xs)
      → Leaves (insert_tail head n h) head (xs ++ (n ∷ []))
  insert_tail-snoc xs is new =
      let (run, list) = insert_tail-linked xs is new in (linked n (last head xs) head h, run, list)

  -- `ek_list_insert_before` puts it in front of a node of the list.
  pub insert_before_lem :
      (xs ys : List Ptr) (y : Ptr)
      → IsList h head (xs ++ (y ∷ ys))
      → n ∉ (head ∷ (xs ++ (y ∷ ys)))
      → Leaves (insert_before y n h) head (xs ++ (n ∷ y ∷ ys))
  unfolding insert_before
  insert_before_lem xs ys y is new =
      let (run, list) = insert-IsList n xs (y ∷ ys) is new real in
      let ok : (y == null) ≡ false = ground (arith, is.not_null, has-insert null y xs ys) in
      (
        linked n (last head xs) y h,
        rw (ok, (links_at h head xs (y ∷ ys) head is.chain).1) run,
        list,
      )
