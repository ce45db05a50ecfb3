-- ===== src/BTree/Linked.antt =====
-- `ValidateLeafChain` on the leaves of a tree, and `Validate` on a whole tree.
use becoming_an_elite_engine.Base.{ℕ, ◌^◌, ◌≤◌, ◌≡◌, ◌∙◌, none, some, List, ◌∷◌, arith, Order}
use becoming_an_elite_engine.BTree.Heap.{Ptr, null, Leaf, leaf, State}
use becoming_an_elite_engine.BTree.Shape.{
  LeafTree, Tree, ptr, leaves, keys, values, IsChain, IsTree, Represents,
}
use becoming_an_elite_engine.BTree.Window.{IsValid, InWindow-IsOrdered}
use becoming_an_elite_engine.BTree.Validate.{first_leaf}

module _ {K : Type 0} where
  -- the node of a leaf
  abbrev node_of : LeafTree K → Ptr → Leaf K
  node_of l owner = record {
    keys = keys l.entries;
    values = values l.entries;
    next = l.next;
    previous = l.previous;
    parent = owner;
  }

  -- the first of the leaves, where the walk down ends
  record Leftmost (s : State K) (n : ℕ) (t : Tree K n) (fuel : ℕ) : Type 0 where
    target : LeafTree K
    others : List (LeafTree K)
    split : leaves K n t ≡ target ∷ others
    owner : Ptr
    stored : s.cell target.ptr ≡ some (leaf (node_of target owner))
    reached : first_leaf fuel s (ptr K n t) ≡ some (target.ptr, node_of target owner)

module _ {K : Type 0} ⦃o : Order K⦄ where
  -- with the links between the leaves, a valid tree is a well-formed one
  pub IsValid-IsTree :
      (s : State K) (n : ℕ) (t : Tree K n)
      → IsValid s n t
      → s.order ≤ 2 ^ 31
      → Represents K n s.cell null t
      → IsChain null (leaves K n t)
      → IsTree s n t
  IsValid-IsTree s n t v small h chain = record {
    root = v.root;
    not_null = λ e. v.not_null (v.root ∙ e);
    represented = h;
    ordered = InWindow-IsOrdered K n s none none t (omega arith) v.window v.filled;
    chain = chain;
  }
