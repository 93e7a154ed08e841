-- ===== src/Dlist/Frame.antt =====
-- Changes to one list leave every other list alone.
use mathlib.Core.Option.{some-injective}
use mathlib.Core.Path.{subst}
use ek_utils.Base.{◌∈◌, ◌∉◌, ◌≡◌, ◌≢◌, sym, ◌∙◌, arith, some, List, ◌∷◌, ◌++◌}
use ek_utils.Dlist.{Ptr, null, Links, insert_tail, remove}
use ek_utils.Dlist.Chain.{
  IsList, last, first, Chain-frame, has-last, has-first, has-append, has-insert,
}
use ek_utils.Dlist.Insert.{linked, insert_tail-linked}
use ek_utils.Dlist.Remove.{unlinked, remove-unlinked_at}

-- No node of one list is a node of the other, heads included.
abbrev pub Apart : List Ptr → List Ptr → Type 0
Apart xs zs = (c : Ptr) → c ∈ xs → c ∉ zs

IsList-linked_apart :
    {h : Links} {head : Ptr} {zs : List Ptr} (n p q : Ptr)
    → IsList h head zs
    → n ∉ (head ∷ zs)
    → p ∉ (head ∷ zs)
    → q ∉ (head ∷ zs)
    → IsList (linked n p q h) head zs
IsList-linked_apart {h} {head} {zs} n p q is hn hp hq = record {
  chain =
      Chain-frame h (linked n p q h) head zs head is.chain (λ c i. ground arith)
        (λ c i. ground arith);
  distinct = is.distinct;
  not_null = is.not_null;
}

IsList-unlinked_apart :
    {h : Links} {head : Ptr} {zs : List Ptr} (n p q : Ptr)
    → IsList h head zs
    → n ∉ (head ∷ zs)
    → p ∉ (head ∷ zs)
    → q ∉ (head ∷ zs)
    → IsList (unlinked n p q h) head zs
IsList-unlinked_apart {h} {head} {zs} n p q is hn hp hq = record {
  chain =
      Chain-frame h (unlinked n p q h) head zs head is.chain (λ c i. ground arith)
        (λ c i. ground arith);
  distinct = is.distinct;
  not_null = is.not_null;
}

-- `ek_list_insert_tail` into one list leaves a list that shares no node with it, nor holds the new
-- node, as it is.
pub insert_tail_elsewhere :
    {h g : Links} {head head' : Ptr} {zs : List Ptr} (n : Ptr) (xs : List Ptr)
    → IsList h head xs
    → IsList h head' zs
    → Apart (head ∷ xs) (head' ∷ zs)
    → n ≢ null
    → n ∉ (head ∷ xs)
    → n ∉ (head' ∷ zs)
    → insert_tail head n h ≡ some g
    → IsList g head' zs
insert_tail_elsewhere {h} {g} {head} {head'} {zs} n xs is other apart real out out' run =
    let (run', _) = insert_tail-linked n real xs is out in
    subst (λ k. IsList k head' zs) (some-injective _ _ (sym run' ∙ run))
      (IsList-linked_apart n (last head xs) head other out'
        (apart (last head xs) (has-last head xs)) (apart head (ground arith)))

-- `ek_list_remove` of a node of one list leaves a list that shares no node with it as it is.
pub remove_elsewhere :
    {h g : Links} {head head' : Ptr} {zs : List Ptr} (n : Ptr) (xs ys : List Ptr)
    → IsList h head (xs ++ (n ∷ ys))
    → IsList h head' zs
    → Apart (head ∷ (xs ++ (n ∷ ys))) (head' ∷ zs)
    → remove n h ≡ some g
    → IsList g head' zs
remove_elsewhere {h} {g} {head} {head'} {zs} n xs ys is other apart run =
    let (run', _) = remove-unlinked_at n xs ys is in
    subst (λ k. IsList k head' zs) (some-injective _ _ (sym run' ∙ run))
      (IsList-unlinked_apart n (last head xs) (first ys head) other
        (apart n (ground (arith, has-insert n n xs ys)))
        (apart (last head xs) (
          ground (
            arith,
            has-last head xs,
            has-insert (last head xs) n xs ys,
            has-append (last head xs) xs ys,
          )))
        (apart (first ys head) (
          ground (
            arith,
            has-first ys head,
            has-insert (first ys head) n xs ys,
            has-append (first ys head) xs ys,
          ))))
