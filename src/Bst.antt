-- ===== src/Bst.antt =====
-- searchengine/internal/kernal/core/datastructures/bstree.hpp: the tree of the words that the
-- parser has met. A `TreeNode*&` is a slot of the tree, so a function that writes through one
-- returns the tree with that slot filled anew. The word type is any ordered type.
pub mod Laws
mod Tests
use becoming_an_elite_engine.Base.{
  Bool, true, false, List, [], ◌∷◌, ◌++◌, Option, none, some, Order,
}

-- `TreeNode*`: null, or a node with its left child, its value and its right child
pub data Tree {ℓ} (K : Type ℓ) : Type ℓ where
  null : Tree K
  node : Tree K → K → Tree K → Tree K

module _ {ℓ} {K : Type ℓ} where
  -- The values in the order in which `traverseInOrder` logs them.
  unfoldable pub traverse_in_order : Tree K → List K
  traverse_in_order null = []
  traverse_in_order (node l x r) = traverse_in_order l ++ (x ∷ traverse_in_order r)

  -- `findMin` of a node with these fields, and the removal of what it finds: the least value, and
  -- the tree in which the right child of its node has taken that node's slot.
  pub take_min : Tree K → K → Tree K → K × Tree K
  take_min null x r = (x, r)
  take_min (node ll lx lr) x r = let (least, l') = take_min ll lx lr in (least, node l' x r)

  -- What `recurseRemove` does at the slot that holds the value.
  pub remove_target : Tree K → Tree K → Tree K
  remove_target null null = null
  remove_target null r = r
  remove_target l null = l
  remove_target l (node rl rx rr) = let (least, r') = take_min rl rx rr in node l least r'

module _ {ℓ} {K : Type ℓ} ⦃o : Order K⦄ where
  unfoldable pub recurse_insertion : Tree K → K → Tree K
  recurse_insertion null v = node null v null
  recurse_insertion (node l x r) v = elim (o.lt v x) [
    | true ↦ node (recurse_insertion l v) x r
    | false ↦ elim (o.lt x v) [ true ↦ node l x (recurse_insertion r v) | false ↦ node l x r ]
  ]

  -- The node that is found, with all below it, or null.
  unfoldable pub recurse_search : Tree K → K → Tree K
  recurse_search null v = null
  recurse_search (node l x r) v = elim (o.eq x v) [
    | true ↦ node l x r
    | false ↦ elim (o.lt v x) [ true ↦ recurse_search l v | false ↦ recurse_search r v ]
  ]

  -- `getNodeRef` leads to the slot, and `recurseRemove` rewrites it; a null slot is left alone.
  pub recurse_remove : Tree K → K → Tree K
  recurse_remove null v = null
  recurse_remove (node l x r) v = elim (o.eq x v) [
    | true ↦ remove_target l r
    | false ↦ elim (o.lt v x) [
      | true ↦ node (recurse_remove l v) x r
      | false ↦ node l x (recurse_remove r v)
    ]
  ]
