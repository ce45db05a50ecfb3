-- ===== src/BTree/Find.antt =====
-- The search side of BPlusTree.hpp, and its constructor. `fuel` bounds the rounds of the loops that
-- follow pointers.
use becoming_an_elite_engine.Base.{
  ℕ, zero, suc, ◌+◌, ◌-◌, ◌/◌, Bool, true, false, not, Option, none, some, List, [], ◌∷◌, ◌++◌,
  length, drop, ltb, ◌==◌, if◌then◌else◌, Order,
}
use becoming_an_elite_engine.BTree.Bound.{upper_bound_index, lower_bound_index}
use becoming_an_elite_engine.BTree.Heap.{
  Ptr, null, RecordId, leaf, internal, State, M, pure, ◌>>=◌, lift, index, load, load_leaf, get,
}

-- `BPlusTree(order)`; `none` is the exception
unfoldable pub construct : {K : Type 0} → ℕ → Option (State K)
construct order =
    if ltb order 3
    then none
    else some (record { cell = λ _. none; fresh = 1; order = order; size = 0; root = null })

module _ {K : Type 0} where
  -- The constructor refuses an order below 3, so nothing here falls below 0, where a `size_t` wraps.
  abbrev pub max_keys : State K → ℕ
  max_keys s = s.order - 1

  abbrev pub min_leaf_keys : State K → ℕ
  min_leaf_keys s = s.order / 2

  abbrev pub min_internal_keys : State K → ℕ
  min_internal_keys s = (s.order + 1) / 2 - 1

  unfoldable pub empty : M K Bool
  empty = do s ← get; pure (s.root == null)

  unfoldable pub height_loop : ℕ → Ptr → ℕ → M K ℕ
  height_loop zero p height = λ _. none
  height_loop (suc fuel) p height = do
    n ← load p
    elim n [
      | leaf l ↦ pure height
      | internal i ↦ (do child ← index i.children 0; height_loop fuel child (height + 1))
    ]

  unfoldable pub height : ℕ → M K ℕ
  unfolding height_loop
  height fuel = do s ← get; if s.root == null then pure 0 else height_loop fuel s.root 1

module _ {K : Type 0} ⦃o : Order K⦄ where
  unfoldable pub find_leaf_loop : ℕ → K → Ptr → M K Ptr
  find_leaf_loop zero key p = λ _. none
  find_leaf_loop (suc fuel) key p = do
    n ← load p
    elim n [
      | leaf l ↦ pure p
      | internal i ↦ (do
        j ← lift (upper_bound_index i.keys key)
        child ← index i.children j
        find_leaf_loop fuel key child)
    ]

  -- `FindLeaf`
  unfoldable pub find_leaf : ℕ → K → M K Ptr
  find_leaf fuel key = do
    s ← get
    if s.root == null then pure null else find_leaf_loop fuel key s.root

  -- `index == keys.size() || key < keys[index]`
  unfoldable pub absent : List K → ℕ → K → M K Bool
  absent keys i key =
      if i == length keys then pure true else (do k ← index keys i; pure (o.lt key k))

  unfoldable pub contains : ℕ → K → M K Bool
  contains fuel key = do
    p ← find_leaf fuel key
    if p == null then pure false else (do
      l ← load_leaf p
      i ← lift (lower_bound_index l.keys key)
      missing ← absent l.keys i key
      pure (not missing))

  unfoldable pub search : ℕ → K → M K (List RecordId)
  search fuel key = do
    p ← find_leaf fuel key
    if p == null then pure [] else (do
      l ← load_leaf p
      i ← lift (lower_bound_index l.keys key)
      missing ← absent l.keys i key
      if missing then pure [] else index l.values i)

  -- The inner loop of `RangeSearch`, on the keys and values that are left of a leaf: whether it
  -- returns, and the result so far.
  unfoldable pub range_leaf :
      K → List K → List (List RecordId) → List RecordId → Option (Bool × List RecordId)
  range_leaf upper [] values result = some (false, result)
  range_leaf upper (k ∷ keys) [] result = if o.lt upper k then some (true, result) else none
  range_leaf upper (k ∷ keys) (postings ∷ values) result = elim (o.lt upper k) [
    | true ↦ some (true, result)
    | false ↦ range_leaf upper keys values (result ++ postings)
  ]

  unfoldable pub range_walk : ℕ → K → Ptr → ℕ → List RecordId → M K (List RecordId)
  range_walk zero upper p i result = λ _. none
  range_walk (suc fuel) upper p i result = if p == null then pure result else (do
    l ← load_leaf p
    (done, result') ← lift (range_leaf upper (drop i l.keys) (drop i l.values) result)
    if done then pure result' else range_walk fuel upper l.next 0 result')

  unfoldable pub range_search : ℕ → K → K → M K (List RecordId)
  range_search fuel lower upper = do
    s ← get
    if s.root == null then pure [] else if o.lt upper lower then pure [] else (do
      p ← find_leaf fuel lower
      l ← load_leaf p
      i ← lift (lower_bound_index l.keys lower)
      range_walk fuel upper p i [])
