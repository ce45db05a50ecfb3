-- ===== src/Bst/Laws.antt =====
-- The tree implements the set of its values.
use becoming_an_elite_engine.Base.{
  ◌≡◌, refl, ap, ◌∙◌, sym, ◌∷◌, ◌++◌, Option, none, some, arith, Order, IsSorted, IsSorted-IsSplit,
  insert_sorted, remove_sorted, contains, if◌then◌else◌, insert_sorted_left, insert_sorted_here,
  insert_sorted_right, remove_sorted_left, remove_sorted_here, remove_sorted_right, contains_left,
  contains_here, contains_right, insert_sorted-IsSorted, remove_sorted-IsSorted,
  contains-insert_sorted, contains-remove_sorted, append-nil, subst,
}
use becoming_an_elite_engine.Bst.{
  Tree, null, node, traverse_in_order, take_min, remove_target, recurse_insertion, recurse_search,
  recurse_remove,
}

module _ {ℓ} {K : Type ℓ} where
  -- the value at the root
  abbrev pub value : Tree K → Option K
  value null = none
  value (node l x r) = some x

  traverse-take_min :
      (l : Tree K) (x : K) (r : Tree K)
      → (take_min l x r).0 ∷ traverse_in_order (take_min l x r).1
        ≡ traverse_in_order l ++ (x ∷ traverse_in_order r)
  unfolding take_min traverse_in_order
  traverse-take_min null x r = refl
  traverse-take_min (node ll lx lr) x r =
      ap (λ t. t ++ (x ∷ traverse_in_order r)) (traverse-take_min ll lx lr)

  traverse-remove_target :
      (l r : Tree K)
      → traverse_in_order (remove_target l r) ≡ traverse_in_order l ++ traverse_in_order r
  unfolding remove_target traverse_in_order
  traverse-remove_target null null = refl
  traverse-remove_target null (node rl rx rr) = refl
  traverse-remove_target (node ll lx lr) null = sym (append-nil _)
  traverse-remove_target (node ll lx lr) (node rl rx rr) =
      ap (λ t. traverse_in_order (node ll lx lr) ++ t) (traverse-take_min rl rx rr)

module _ {ℓ} {K : Type ℓ} ⦃o : Order K⦄ where
  -- The search-tree invariant: in order, the values ascend strictly.
  abbrev pub IsOrdered : Tree K → Type 0
  IsOrdered t = IsSorted (traverse_in_order t)

  -- On an ordered tree `insert` is insertion into the sorted list of its values.
  pub traverse-insertion :
      (t : Tree K) (v : K)
      → IsOrdered t
      → traverse_in_order (recurse_insertion t v) ≡ insert_sorted v (traverse_in_order t)
  unfolding recurse_insertion traverse_in_order insert_sorted
  traverse-insertion null v h = refl
  traverse-insertion (node l x r) v h =
      let split = IsSorted-IsSplit (traverse_in_order l) x (traverse_in_order r) h in
      ground (
        arith,
        traverse-insertion l v split.left,
        traverse-insertion r v split.right,
        o.eq_of_not_lt v x,
        insert_sorted_left v x (traverse_in_order r) (traverse_in_order l),
        insert_sorted_here v x (traverse_in_order r) (traverse_in_order l) split.below,
        insert_sorted_right v x (traverse_in_order r) (traverse_in_order l) split.below,
      )

  -- On an ordered tree `remove` is removal from the sorted list of its values.
  pub traverse-remove :
      (t : Tree K) (v : K)
      → IsOrdered t
      → traverse_in_order (recurse_remove t v) ≡ remove_sorted v (traverse_in_order t)
  unfolding recurse_remove traverse_in_order remove_sorted
  traverse-remove null v h = refl
  traverse-remove (node l x r) v h =
      let split = IsSorted-IsSplit (traverse_in_order l) x (traverse_in_order r) h in
      ground (
        arith,
        traverse-remove l v split.left,
        traverse-remove r v split.right,
        traverse-remove_target l r,
        o.eq_of_not_lt v x,
        o.eq_iff x v,
        remove_sorted_left v x (traverse_in_order r) (traverse_in_order l) split.above,
        remove_sorted_here v x (traverse_in_order r) (traverse_in_order l) split.below,
        remove_sorted_right v x (traverse_in_order r) (traverse_in_order l) split.below,
      )

  -- On an ordered tree `search` finds the node of a value exactly if the tree has the value.
  pub value-search :
      (t : Tree K) (v : K)
      → IsOrdered t
      → value (recurse_search t v) ≡ (if contains v (traverse_in_order t) then some v else none)
  unfolding recurse_search traverse_in_order contains
  value-search null v h = refl
  value-search (node l x r) v h =
      let split = IsSorted-IsSplit (traverse_in_order l) x (traverse_in_order r) h in
      ground (
        arith,
        value-search l v split.left,
        value-search r v split.right,
        o.eq_of_not_lt v x,
        o.eq_iff x v,
        contains_left v x (traverse_in_order r) (traverse_in_order l) split.above,
        contains_here v x (traverse_in_order r) (traverse_in_order l),
        contains_right v x (traverse_in_order r) (traverse_in_order l) split.below,
      )

  -- `insert` keeps the tree ordered; afterwards `search` finds the new value, and of the others
  -- those that it found before.
  pub search-insertion :
      (t : Tree K) (v w : K)
      → IsOrdered t
      → IsOrdered (recurse_insertion t v)
        × (value (recurse_search (recurse_insertion t v) w)
            ≡ (if o.eq w v then some w else value (recurse_search t w)))
  search-insertion t v w h =
      let inserted = traverse-insertion t v h in
      let ordered : IsOrdered (recurse_insertion t v) =
        subst IsSorted (sym inserted) (insert_sorted-IsSorted v _ h) in
      (
        ordered,
        value-search _ w ordered
            ∙ rw (inserted, contains-insert_sorted v w, value-search t w h) (ground arith),
      )

  -- `remove` keeps the tree ordered; afterwards `search` does not find the value, and of the others
  -- those that it found before.
  pub search-remove :
      (t : Tree K) (v w : K)
      → IsOrdered t
      → IsOrdered (recurse_remove t v)
        × (value (recurse_search (recurse_remove t v) w)
            ≡ (if o.eq w v then none else value (recurse_search t w)))
  search-remove t v w h =
      let removed = traverse-remove t v h in
      let ordered : IsOrdered (recurse_remove t v) =
        subst IsSorted (sym removed) (remove_sorted-IsSorted v _ h) in
      (
        ordered,
        value-search _ w ordered
            ∙ rw (removed, contains-remove_sorted v w _ h, value-search t w h) (ground arith),
      )
