-- ===== src/Dlist/Tests.antt =====
-- A small list on a concrete heap, and the theorems about lists applied to it.
use ek_utils.Base.{◌>>=◌, ℕ, ◌≡◌, refl, arith, true, false, some, [], ◌∷◌, ◌==◌, if◌then◌else◌}
use ek_utils.Dlist.{
  Ptr, null, Links, init, insert, insert_head, insert_tail, insert_before, insert_after, unlink,
  remove, is_empty, is_last, get_first, get_last, foreach, foreach_from,
}
use ek_utils.Dlist.Chain.{IsList}
use ek_utils.Dlist.Insert.{Leaves, insert_before_lem}
use ek_utils.Dlist.Remove.{unlinked, remove-unlinked_at, remove-erase}
use ek_utils.Dlist.Foreach.{foreach_lem, ends_lem}
use ek_utils.Dlist.Frame.{remove_elsewhere}

abbrev at : ℕ → ℕ → ℕ → ℕ → Ptr → Ptr
at a b c d p =
    if p == 10 then a else if p == 11 then b else if p == 12 then c else if p == 20 then d else 0

-- Head 10 with the nodes 11 and 12; head 20 with none.
abbrev two_lists : Links
two_lists = record { next = at 11 12 10 20; prev = at 12 10 11 20 }

two-IsList : IsList two_lists 10 (11 ∷ 12 ∷ [])
two-IsList = record { chain = omega arith; distinct = (refl, (refl, (refl, tt))); not_null = refl }

none-IsList : IsList two_lists 20 []
none-IsList = record { chain = omega arith; distinct = (refl, tt); not_null = refl }

-- Builds a list from empty links, walks along it, and takes a node out.
visits :
    (do
      h ← init 10 (record { next = λ p. 0; prev = λ p. 0 })
      h ← insert_tail 10 12 h
      h ← insert_head 10 11 h
      h ← insert_before 12 13 h
      h ← insert_after 12 14 h
      h ← remove 13 h
      foreach 5 10 h)
    ≡ some (11 ∷ 12 ∷ 14 ∷ [])
unfolding init insert insert_head insert_tail insert_before insert_after unlink remove foreach
    foreach_from
visits = refl

last_of_two : (is_last 12 10 two_lists ≡ some true) × (is_last 11 10 two_lists ≡ some false)
unfolding is_last
last_of_two = (refl, refl)

insert_before_lem_example : Leaves (insert_before 12 13 two_lists) 10 (11 ∷ 13 ∷ 12 ∷ [])
insert_before_lem_example = insert_before_lem 13 (omega arith) (11 ∷ []) [] 12 two-IsList refl

remove-erase_example :
    (g : Links) × (remove 11 two_lists ≡ some g)
    × IsList g 10 (12 ∷ [])
    × (g.next 11 ≡ null)
    × (g.prev 11 ≡ null)
remove-erase_example = remove-erase 11 [] (12 ∷ []) two-IsList

foreach_lem_example : foreach 3 10 two_lists ≡ some (11 ∷ 12 ∷ [])
foreach_lem_example = foreach_lem 3 (11 ∷ 12 ∷ []) two-IsList (omega arith)

ends_lem_example :
    (is_empty 10 two_lists ≡ some false)
    × (get_first 10 two_lists ≡ some 11)
    × (get_last 10 two_lists ≡ some 12)
ends_lem_example = ends_lem (11 ∷ 12 ∷ []) two-IsList

remove_elsewhere_example : IsList (unlinked 11 10 12 two_lists) 20 []
remove_elsewhere_example =
    remove_elsewhere 11 [] (12 ∷ []) two-IsList none-IsList (λ c i. ground arith)
      (remove-unlinked_at 11 [] (12 ∷ []) two-IsList).0
