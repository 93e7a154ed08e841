-- ===== src/Dlist/Remove.antt =====
-- Removing a node takes it out of its list and moves no other node; what goes wrong otherwise.
use ek_utils.Base.{
  ◌∉◌, ◌>>=◌, ◌≡◌, ◌≢◌, refl, sym, ap, ◌∙◌, arith, false, none, some, List, [], ◌∷◌, ◌++◌, ◌==◌,
}
use mathlib.Core.Path.{subst, subst₂}
use mathlib.Core.List.{append_assoc}
use ek_utils.Dlist.{Ptr, null, Links, put, remove, unlink}
use ek_utils.Dlist.Chain.{
  Distinct, Chain, IsList, last, first, has-append, has-insert, Distinct-remove, Chain-frame,
  links_at, has-last, has-first, mem_ne, last-snoc,
}

-- The links after `ek_list_remove`.
abbrev pub unlinked : Ptr → Ptr → Ptr → Links → Links
unlinked n p q h = record { prev = put (put h.prev q p) n null; next = put (put h.next p q) n null }

module _ (h : Links) (n : Ptr) where
  joined :
      (a : Ptr) (ys : List Ptr) (b : Ptr)
      → Chain h n ys b
      → Distinct (a ∷ ys)
      → Distinct (b ∷ ys)
      → n ∉ (a ∷ b ∷ ys)
      → Chain (unlinked n a (first ys b) h) a ys b
  joined a [] b ch da db out = ground arith
  joined a (y ∷ ys) b ch da db out = (
    ground arith,
    ground arith,
    Chain-frame h (unlinked n a y h) y ys b ch.2 (λ c i. ground arith) (λ c i. ground arith),
  )

  -- The chain without the node between `xs` and `ys`.
  pub Chain-remove :
      (a : Ptr) (xs ys : List Ptr) (b : Ptr)
      → Chain h a (xs ++ (n ∷ ys)) b
      → Distinct (a ∷ (xs ++ ys))
      → Distinct (b ∷ (xs ++ ys))
      → n ∉ (a ∷ b ∷ (xs ++ ys))
      → Chain (unlinked n (last a xs) (first ys b) h) a (xs ++ ys) b
  Chain-remove a [] ys b ch da db out = joined a ys b ch.2 da db out
  Chain-remove a (x ∷ xs) ys b ch da db out = (
    ground (arith, has-last x xs, mem_ne a (last x xs) (x ∷ xs), has-append a xs ys),
    ground (arith, has-first ys b, has-append x xs ys, mem_ne x (first ys b) (b ∷ ys)),
    Chain-remove x xs ys b ch.2 da.1 (ground arith, da.1.1) (ground arith),
  )

remove-unlinked :
    (n : Ptr) (h : Links)
    → n ≢ null
    → h.prev n ≢ null
    → h.next n ≢ null
    → remove n h ≡ some (unlinked n (h.prev n) (h.next n) h)
unfolding remove unlink
remove-unlinked n h hn hp hq =
    let tn : (n == null) ≡ false = ground arith in
    let tp : (h.prev n == null) ≡ false = ground arith in
    let tq : (h.next n == null) ≡ false = ground arith in rw (tn, tp, tq) refl

pub remove-unlinked_at :
    {h : Links} {head : Ptr} (n : Ptr) (xs ys : List Ptr)
    → IsList h head (xs ++ (n ∷ ys))
    → (remove n h ≡ some (unlinked n (last head xs) (first ys head) h))
      × IsList (unlinked n (last head xs) (first ys head) h) head (xs ++ ys)
remove-unlinked_at {h} {head} n xs ys is =
    let (d, out) = Distinct-remove n xs ys is.distinct.1 in
    let at = links_at h head xs (n ∷ ys) head is.chain in
    let at' =
      links_at h head (xs ++ (n ∷ [])) ys head
        (subst (λ l. Chain h head l head) (sym (append_assoc xs (n ∷ []) ys)) is.chain) in
    let p : h.prev n ≡ last head xs = at.1 in
    let q : h.next n ≡ first ys head = ap h.next (sym (last-snoc head n xs)) ∙ at'.0 in
    (
      subst₂ (λ a b. remove n h ≡ some (unlinked n a b h)) p q
          (remove-unlinked n h (ground (arith, is.not_null, has-insert null n xs ys))
            (rw p (
              ground (
                arith,
                is.not_null,
                has-last head xs,
                mem_ne null (last head xs) (head ∷ xs),
                has-insert null n xs ys,
                has-append null xs ys,
              )))
            (rw q (
              ground (
                arith,
                is.not_null,
                has-first ys head,
                mem_ne null (first ys head) (head ∷ ys),
                has-insert null n xs ys,
                has-append null xs ys,
              )))),
      record {
        chain =
            Chain-remove h n head xs ys head is.chain (ground (arith, has-insert head n xs ys), d)
              (ground (arith, has-insert head n xs ys), d)
              (ground (arith, is.distinct.0, has-insert head n xs ys));
        distinct = (ground (arith, is.distinct.0, has-insert head n xs ys), d);
        not_null = ground (arith, is.not_null, has-insert null n xs ys);
      },
    )

-- `ek_list_remove` of a node of a list leaves the list of the other nodes, in their order, and the
-- node with both links `NULL`.
pub remove-erase :
    {h : Links} {head : Ptr} (n : Ptr) (xs ys : List Ptr)
    → IsList h head (xs ++ (n ∷ ys))
    → (g : Links) × (remove n h ≡ some g)
      × IsList g head (xs ++ ys)
      × (g.next n ≡ null)
      × (g.prev n ≡ null)
remove-erase {h} {head} n xs ys is =
    let (run, list) = remove-unlinked_at n xs ys is in
    (unlinked n (last head xs) (first ys head) h, run, list, ground arith, ground arith)

-- `ek_list_remove` of a node whose links are `NULL`, as it leaves them, reads through `NULL`.
pub remove_unlinked-none :
    (n : Ptr) (h : Links) → h.prev n ≡ null → h.next n ≡ null → remove n h ≡ none
unfolding remove unlink
remove_unlinked-none n h p q = rw (p, q) (ground arith)

-- So a second `ek_list_remove` of the same node always faults.
pub remove_twice :
    {h : Links} {head : Ptr} (n : Ptr) (xs ys : List Ptr)
    → IsList h head (xs ++ (n ∷ ys))
    → (remove n h >>= remove n) ≡ none
remove_twice n xs ys is =
    let (g, run, _, next, prev) = remove-erase n xs ys is in
    rw run (remove_unlinked-none n g prev next)
