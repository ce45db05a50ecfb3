-- ===== src/Bst/Tests.antt =====
-- The theorems on the search tree at a concrete tree, and runs of it.
use becoming_an_elite_engine.Base.{
  nat_order, ℕ, ◌≡◌, refl, none, some, arith, insert_sorted, remove_sorted, if◌then◌else◌, ◌==◌,
}
use becoming_an_elite_engine.Bst.{
  Tree, null, node, traverse_in_order, recurse_insertion, recurse_search, recurse_remove,
  remove_target, take_min,
}
use becoming_an_elite_engine.Bst.Laws.{
  value, IsOrdered, traverse-insertion, traverse-remove, search-insertion, search-remove,
}

-- 20 with children 10 and 40, and 30 and 50 under 40
abbrev tree : Tree ℕ
tree = node (node null 10 null) 20 (node (node null 30 null) 40 (node null 50 null))

tree-IsOrdered : IsOrdered tree
unfolding traverse_in_order
tree-IsOrdered = ground arith

remove_root :
    recurse_remove tree 20 ≡ node (node null 10 null) 30 (node null 40 (node null 50 null))
unfolding recurse_remove remove_target take_min
remove_root = refl

traverse-insertion_example :
    traverse_in_order (recurse_insertion tree 25) ≡ insert_sorted 25 (traverse_in_order tree)
traverse-insertion_example = traverse-insertion tree 25 tree-IsOrdered

traverse-remove_example :
    traverse_in_order (recurse_remove tree 20) ≡ remove_sorted 20 (traverse_in_order tree)
traverse-remove_example = traverse-remove tree 20 tree-IsOrdered

search-insertion_example :
    IsOrdered (recurse_insertion tree 25)
    × (value (recurse_search (recurse_insertion tree 25) 25)
        ≡ (if 25 == 25 then some 25 else value (recurse_search tree 25)))
search-insertion_example = search-insertion tree 25 25 tree-IsOrdered

search-remove_example :
    IsOrdered (recurse_remove tree 20)
    × (value (recurse_search (recurse_remove tree 20) 40)
        ≡ (if 40 == 20 then none else value (recurse_search tree 40)))
search-remove_example = search-remove tree 20 40 tree-IsOrdered
