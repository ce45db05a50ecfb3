-- ===== src/BTree/Remove.antt =====
-- The removal side of BPlusTree.hpp. `fuel` bounds the levels that `FixUnderflow` climbs.
use becoming_an_elite_engine.Base.{
  ℕ, zero, suc, ◌+◌, ◌-◌, Bool, true, false, Option, none, some, List, [], ◌∷◌, ◌++◌, length, set,
  erase_at, ltb, leb, ◌==◌, if◌then◌else◌, Order,
}
use becoming_an_elite_engine.BTree.Bound.{lower_bound_index}
use becoming_an_elite_engine.BTree.Heap.{
  Ptr, null, RecordId, Node, leaf, internal, State, M, pure, ◌>>=◌, ◌>>◌, lift, index, load, store,
  free, load_leaf, load_internal, keys_of, parent_of, set_parent, get, set_root, shrink, for_each,
}
use becoming_an_elite_engine.BTree.Find.{
  min_leaf_keys, min_internal_keys, find_leaf, absent, contains,
}
use becoming_an_elite_engine.BTree.Insert.{child_index, insert}

module _ {ℓ} {A : Type ℓ} where
  -- `back()`, undefined on an empty vector, and `pop_back()`
  abbrev pub get_last? : List A → Option A
  get_last? [] = none
  get_last? (a ∷ []) = some a
  get_last? (a ∷ b ∷ as') = get_last? (b ∷ as')

  abbrev pub drop_last : List A → List A
  drop_last [] = []
  drop_last (a ∷ []) = []
  drop_last (a ∷ b ∷ as') = a ∷ drop_last (b ∷ as')

module _ {K : Type 0} where
  unfoldable pub borrow_from_left : Ptr → M K (Unit {0})
  borrow_from_left node = do
    n ← load node
    let parent = parent_of n
    p ← load_internal parent
    let i = child_index p.children node
    sibling ← index p.children (i - 1)
    elim n [
      | leaf target ↦ (do
        source ← load_leaf sibling
        key ← lift (get_last? source.keys)
        value ← lift (get_last? source.values)
        store node
            (leaf (record target { keys = key ∷ target.keys; values = value ∷ target.values }))
        store sibling (
            leaf (record source { keys = drop_last source.keys; values = drop_last source.values }))
        store parent (internal (record p { keys = set p.keys (i - 1) key })))
      | internal target ↦ (do
        source ← load_internal sibling
        separator ← index p.keys (i - 1)
        child ← lift (get_last? source.children)
        store node (
            internal (record target {
              keys = separator ∷ target.keys;
              children = child ∷ target.children;
            }))
        set_parent child node
        key ← lift (get_last? source.keys)
        store parent (internal (record p { keys = set p.keys (i - 1) key }))
        store sibling (
            internal (record source {
              keys = drop_last source.keys;
              children = drop_last source.children;
            })))
    ]

  unfoldable pub borrow_from_right : Ptr → M K (Unit {0})
  borrow_from_right node = do
    n ← load node
    let parent = parent_of n
    p ← load_internal parent
    let i = child_index p.children node
    sibling ← index p.children (i + 1)
    elim n [
      | leaf target ↦ (do
        source ← load_leaf sibling
        key ← index source.keys 0
        value ← index source.values 0
        store node (
            leaf (record target {
              keys = target.keys ++ (key ∷ []);
              values = target.values ++ (value ∷ []);
            }))
        store sibling (
            leaf
              (record source { keys = erase_at source.keys 0; values = erase_at source.values 0 }))
        least ← index (erase_at source.keys 0) 0
        store parent (internal (record p { keys = set p.keys i least })))
      | internal target ↦ (do
        source ← load_internal sibling
        separator ← index p.keys i
        child ← index source.children 0
        store node (
            internal (record target {
              keys = target.keys ++ (separator ∷ []);
              children = target.children ++ (child ∷ []);
            }))
        set_parent child node
        key ← index source.keys 0
        store parent (internal (record p { keys = set p.keys i key }))
        store sibling (
            internal (record source {
              keys = erase_at source.keys 0;
              children = erase_at source.children 0;
            })))
    ]

  -- `rightLeaf->next->previous = leftLeaf`, if there is a next leaf
  unfoldable pub relink : Ptr → Ptr → M K (Unit {0})
  relink next left =
      if next == null
      then pure tt
      else (do n ← load_leaf next; store next (leaf (record n { previous = left })))

  unfoldable pub merge_nodes : Ptr → Ptr → M K (Unit {0})
  unfolding relink
  merge_nodes left right = do
    n ← load left
    let parent = parent_of n
    p ← load_internal parent
    let i = child_index p.children right
    elim n [
      | leaf l ↦ (do
        r ← load_leaf right
        store left (
            leaf
              (record l { keys = l.keys ++ r.keys; values = l.values ++ r.values; next = r.next }))
        relink r.next left)
      | internal l ↦ (do
        r ← load_internal right
        separator ← index p.keys (i - 1)
        store left (
            internal (record l {
              keys = (l.keys ++ (separator ∷ [])) ++ r.keys;
              children = l.children ++ r.children;
            }))
        for_each r.children (λ child. set_parent child left))
    ]
    p' ← load_internal parent
    store parent (
        internal (record p' { keys = erase_at p'.keys (i - 1); children = erase_at p'.children i }))
    free right

  unfoldable pub shrink_root : M K (Unit {0})
  shrink_root = do
    s ← get
    if s.root == null then pure tt else (do
      n ← load s.root
      if ltb 0 (length (keys_of n)) then pure tt else elim n [
        | leaf l ↦ (do free s.root; set_root null)
        | internal old ↦ (do
          child ← index old.children 0
          set_root child
          set_parent child null
          free s.root)
      ])

  -- `sibling != nullptr && sibling->keys.size() > minimum`
  unfoldable pub can_spare : Ptr → ℕ → M K Bool
  can_spare sibling minimum =
      if sibling == null
      then pure false
      else (do n ← load sibling; pure (ltb minimum (length (keys_of n))))

  abbrev pub minimum_of : State K → Node K → ℕ
  minimum_of s (leaf l) = min_leaf_keys s
  minimum_of s (internal n) = min_internal_keys s

  unfoldable pub fix_underflow : ℕ → Ptr → M K (Unit {0})
  unfolding borrow_from_left borrow_from_right merge_nodes shrink_root can_spare
  fix_underflow zero node = λ _. none
  fix_underflow (suc fuel) node = do
    s ← get
    if node == s.root then shrink_root else (do
      n ← load node
      let minimum = minimum_of s n
      if leb minimum (length (keys_of n)) then pure tt else (do
        let parent = parent_of n
        p ← load_internal parent
        let i = child_index p.children node
        left ← (if ltb 0 i then index p.children (i - 1) else pure null)
        right ← (if ltb (i + 1) (length p.children) then index p.children (i + 1) else pure null)
        from_left ← can_spare left minimum
        if from_left then borrow_from_left node else (do
          from_right ← can_spare right minimum
          if from_right then borrow_from_right node else (do
            (if left == null then merge_nodes node right else merge_nodes left node)
            fix_underflow fuel parent))))

  -- `Clear`, by `DestroyTree`: the children first
  unfoldable pub destroy_tree : ℕ → Ptr → M K (Unit {0})
  destroy_tree zero node = λ _. none
  destroy_tree (suc fuel) node = if node == null then pure tt else (do
    n ← load node
    elim n [
      | leaf l ↦ free node
      | internal i ↦ (do for_each i.children (destroy_tree fuel); free node)
    ])

  unfoldable pub clear : ℕ → M K (Unit {0})
  unfolding destroy_tree
  clear fuel = do
    s ← get
    destroy_tree fuel s.root
    set_root null
    λ s'. some (tt, record s' { size = 0 })

-- erases the first record that equals the one given
unfoldable pub erase_record : List RecordId → RecordId → List RecordId
erase_record [] id = []
erase_record (r ∷ postings) id = if r == id then postings else r ∷ erase_record postings id

module _ {K : Type 0} ⦃o : Order K⦄ where
  unfoldable pub remove : ℕ → K → RecordId → M K (Unit {0})
  remove fuel key id = do
    p ← find_leaf fuel key
    if p == null then pure tt else (do
      l ← load_leaf p
      i ← lift (lower_bound_index l.keys key)
      missing ← absent l.keys i key
      if missing then pure tt else (do
        postings ← index l.values i
        let left = erase_record postings id
        store p (leaf (record l { values = set l.values i left }))
        if ltb 0 (length left) then pure tt else (do
          store p (leaf (record l { keys = erase_at l.keys i; values = erase_at l.values i }))
          shrink
          fix_underflow fuel p)))

  unfoldable pub update : ℕ → K → K → RecordId → M K Bool
  update fuel old new id = do
    there ← contains fuel old
    if there then (do remove fuel old id; insert fuel new id; pure true) else pure false
