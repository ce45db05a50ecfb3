-- ===== src/BTree/Insert.antt =====
-- The insertion side of BPlusTree.hpp. `SplitInternal` and `InsertIntoParent` call one another up
-- the tree: `fuel` bounds the levels, and `split_internal` is given the call that it makes.
use becoming_an_elite_engine.Base.{
  ℕ, zero, suc, ◌+◌, ◌/◌, Bool, false, not, none, List, [], ◌∷◌, ◌++◌, length, take, drop, set,
  insert_at, ltb, ◌==◌, if◌then◌else◌, Order,
}
use becoming_an_elite_engine.BTree.Bound.{lower_bound_index}
use becoming_an_elite_engine.BTree.Heap.{
  Ptr, null, RecordId, leaf, internal, M, pure, ◌>>=◌, ◌>>◌, lift, index, load, store, alloc,
  load_leaf, load_internal, parent_of, set_parent, get, set_root, grow, for_each,
}
use becoming_an_elite_engine.BTree.Find.{max_keys, find_leaf}

-- `ChildIndex`: the position of a child, or the number of children
unfoldable pub child_index : List Ptr → Ptr → ℕ
child_index [] child = 0
child_index (c ∷ children) child = if c == child then 0 else suc (child_index children child)

module _ {K : Type 0} where
  unfoldable pub split_internal : (Ptr → K → Ptr → M K (Unit {0})) → Ptr → M K (Unit {0})
  split_internal insert_into_parent node = do
    n ← load_internal node
    let mid = length n.keys / 2
    separator ← index n.keys mid
    let moved = drop (mid + 1) n.children
    new ←
        alloc (internal (record { keys = drop (mid + 1) n.keys; children = moved; parent = null }))
    for_each moved (λ child. set_parent child new)
    rest ← load_internal node
    store node (
        internal
          (record rest { keys = take mid rest.keys; children = take (mid + 1) rest.children }))
    insert_into_parent node separator new

  unfoldable pub insert_into_parent : ℕ → Ptr → K → Ptr → M K (Unit {0})
  insert_into_parent zero left key right = λ _. none
  insert_into_parent (suc fuel) left key right = do
    s ← get
    if left == s.root
        then (do
          root ←
              alloc
                (internal (record { keys = key ∷ []; children = left ∷ right ∷ []; parent = null }))
          set_parent left root
          set_parent right root
          set_root root)
        else (do
          l ← load left
          let parent = parent_of l
          p ← load_internal parent
          let i = child_index p.children left
          store parent (
              internal (record p {
                keys = insert_at p.keys i key;
                children = insert_at p.children (i + 1) right;
              }))
          set_parent right parent
          p' ← load_internal parent
          if ltb (max_keys s) (length p'.keys)
              then split_internal (insert_into_parent fuel) parent
              else pure tt)

  -- `leaf->next->previous = newLeaf`, if there is a next leaf
  unfoldable pub link_back : Ptr → Ptr → M K (Unit {0})
  link_back next new =
      if next == null
      then pure tt
      else (do n ← load_leaf next; store next (leaf (record n { previous = new })))

  unfoldable pub split_leaf : ℕ → Ptr → M K (Unit {0})
  unfolding link_back
  split_leaf fuel p = do
    l ← load_leaf p
    let middle = (length l.keys + 1) / 2
    new ← alloc (
        leaf (record {
          keys = drop middle l.keys;
          values = drop middle l.values;
          next = l.next;
          previous = p;
          parent = null;
        }))
    store p (leaf (record l { keys = take middle l.keys; values = take middle l.values }))
    link_back l.next new
    l' ← load_leaf p
    store p (leaf (record l' { next = new }))
    n ← load_leaf new
    key ← index n.keys 0
    insert_into_parent fuel p key new

module _ {K : Type 0} ⦃o : Order K⦄ where
  -- `index < keys.size() && !(key < keys[index])`
  unfoldable pub present : List K → ℕ → K → M K Bool
  present keys i key =
      if ltb i (length keys) then (do k ← index keys i; pure (not (o.lt key k))) else pure false

  unfoldable pub insert_into_leaf : ℕ → Ptr → K → RecordId → M K (Unit {0})
  insert_into_leaf fuel p key id = do
    l ← load_leaf p
    i ← lift (lower_bound_index l.keys key)
    here ← present l.keys i key
    if here
        then (do
          postings ← index l.values i
          store p (leaf (record l { values = set l.values i (postings ++ (id ∷ [])) })))
        else (do
          store p (
              leaf (record l {
                keys = insert_at l.keys i key;
                values = insert_at l.values i (id ∷ []);
              }))
          grow
          s ← get
          l' ← load_leaf p
          if ltb (max_keys s) (length l'.keys) then split_leaf fuel p else pure tt)

  unfoldable pub insert : ℕ → K → RecordId → M K (Unit {0})
  insert fuel key id = do
    s ← get
    if s.root == null
        then (do
          root ← alloc (
              leaf (record {
                keys = key ∷ [];
                values = (id ∷ []) ∷ [];
                next = null;
                previous = null;
                parent = null;
              }))
          set_root root
          grow)
        else (do p ← find_leaf fuel key; insert_into_leaf fuel p key id)
