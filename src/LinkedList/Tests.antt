-- ===== src/LinkedList/Tests.antt =====
-- The lists of ptr_linked_list.rs on concrete nodes.
use methylenix.Base.{◌≡◌, refl, none, some, [], ◌∷◌, ◌==◌, if◌then◌else◌, Returns, arith}
use methylenix.LinkedList.{node, Store, LinkedList, linked_list, insert_before, remove, iter_from}
use methylenix.LinkedList.Chain.{IsList}
use methylenix.LinkedList.Insert.{Holds}
use methylenix.LinkedList.Remove.{Removed, remove-Removed}
use methylenix.LinkedList.Between.{insert_before-Holds}
use methylenix.LinkedList.Iter.{iter_from-map}

-- The nodes 16 and 32 are in the list, 48 is not.
abbrev two_nodes : Store
two_nodes p =
    if p == 16 then node none (some 32) else if p == 32 then node (some 16) none else node none none

abbrev two_list : LinkedList
two_list = linked_list (some 16) (some 32)

two_list-IsList : IsList two_nodes two_list (16 ∷ 32 ∷ [])
two_list-IsList = record {
  head = refl;
  tail = refl;
  chain = (refl, (refl, tt));
  distinct = (refl, (refl, tt));
}

insert_before-Holds_example :
    Returns (Holds two_nodes (16 ∷ 48 ∷ 32 ∷ [])) (insert_before two_list 32 48 two_nodes)
insert_before-Holds_example =
    insert_before-Holds two_list two_nodes (16 ∷ []) 32 [] 48 two_list-IsList refl

remove-Removed_example : Returns (Removed two_nodes (16 ∷ []) 32 []) (remove two_list 32 two_nodes)
remove-Removed_example = remove-Removed two_list two_nodes (16 ∷ []) 32 [] two_list-IsList

iter_from-map_example : iter_from 2 8 (some 16) two_nodes ≡ some (8 ∷ 24 ∷ [])
iter_from-map_example =
    iter_from-map two_list two_nodes (16 ∷ 32 ∷ []) 8 2 two_list-IsList (omega arith)
