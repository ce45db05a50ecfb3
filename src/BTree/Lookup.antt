-- ===== src/BTree/Lookup.antt =====
-- `Contains` and `Search`: they answer for the entries of the whole tree.
use becoming_an_elite_engine.Base.{
  ◌≢◌, ℕ, suc, ◌<◌, ◌≡◌, refl, ap, ◌∙◌, sym, subst, true, false, not, some, List, [], ◌∷◌, ◌++◌,
  arith, Order, ◌≺◌, All, IsSorted, Bool-cases, inl, inr, lt_of_not_lt_of_lt,
}
use becoming_an_elite_engine.BTree.Bound.{
  lower_bound_index, partition_point, bound_index-partition_point,
}
use becoming_an_elite_engine.BTree.Splits.{less, less-IsPartitioned}
use becoming_an_elite_engine.BTree.Heap.{Ptr, null, State, leaf, index}
use becoming_an_elite_engine.BTree.Find.{find_leaf, find_leaf_loop, absent, contains, search}
use becoming_an_elite_engine.BTree.Shape.{
  Entry, LeafTree, Tree, entries, leaves, keys, values, IsSmall, IsChain, same, postings, has,
  IsTree, Holds, nothing, tree,
}
use becoming_an_elite_engine.BTree.Descent.{join-append, flat, flat-leaves, find_leaf_loop-Reached}

module _ {K : Type 0} ⦃o : Order K⦄ (key : K) where
  same_lt : (k : K) → k ≺ key → same k key ≡ false
  same_lt k h = ground arith

  same_gt : (k : K) → key ≺ k → same k key ≡ false
  same_gt k h = ground arith

  -- entries below the key, or above it, do not count
  skip :
      (xs ys : List (Entry K))
      → All (λ e. e.0 ≺ key) xs
      → (postings key (xs ++ ys) ≡ postings key ys) × (has key (xs ++ ys) ≡ has key ys)
  skip [] ys h = (refl, refl)
  skip ((k, v) ∷ xs) ys h = ground (arith, skip xs ys h.1)

  none_above :
      (ys : List (Entry K))
      → All (λ e. key ≺ e.0) ys
      → (postings key ys ≡ []) × (has key ys ≡ false)
  none_above [] h = (refl, refl)
  none_above ((k, v) ∷ ys) h = ground (arith, none_above ys h.1)

  stop_above :
      (xs ys : List (Entry K))
      → All (λ e. key ≺ e.0) ys
      → (postings key (xs ++ ys) ≡ postings key xs) × (has key (xs ++ ys) ≡ has key xs)
  stop_above [] ys h = none_above ys h
  stop_above ((k, v) ∷ xs) ys h = ground (arith, stop_above xs ys h)

  All-above :
      (k : K) (es : List (Entry K))
      → All (λ y. k ≺ y) (keys es)
      → o.lt k key ≡ false
      → All (λ e. key ≺ e.0) es
  All-above k [] h q = tt
  All-above k ((j, v) ∷ es) h q = (lt_of_not_lt_of_lt key k j q h.0, All-above k es h.1 q)

  absent-cons :
      (k : K) (ks : List K) (i : ℕ) (s : State K)
      → absent (k ∷ ks) (suc i) key s ≡ absent ks i key s
  unfolding absent
  absent-cons k ks i s = ground arith

  absent_here : (k : K) (ks : List K) (s : State K) → absent (k ∷ ks) 0 key s ≡ some (o.lt key k, s)
  unfolding absent
  absent_here k ks s = ground arith

  -- What the lower bound of the key finds in the vectors of an ascending leaf.
  at_lower_bound :
      (es : List (Entry K)) (s : State K)
      → IsSorted (keys es)
      → let i = partition_point (less key) (keys es) in
        (absent (keys es) i key s ≡ some (not (has key es), s))
        × (has key es ≡ true → index (values es) i s ≡ some (postings key es, s))
        × (has key es ≡ false → postings key es ≡ [])
  unfolding absent
  at_lower_bound [] s h = (refl, λ q. cc, λ q. refl)
  at_lower_bound ((k, v) ∷ es) s h = elim (Bool-cases (o.lt k key)) [
    | inl below ↦
        let rest = at_lower_bound es s h.1 in
        ground (arith, rest, absent-cons k (keys es) (partition_point (less key) (keys es)) s)
    | inr other ↦
        let none = none_above es (All-above k es h.0 other) in
        ground (arith, none, absent_here k (keys es) s)
  ]

  chain-ptr :
      (previous : Ptr) (before : List (LeafTree K)) (l : LeafTree K) (after : List (LeafTree K))
      → IsChain previous (before ++ (l ∷ after))
      → l.ptr ≢ null
  chain-ptr previous [] l after h = h.2
  chain-ptr previous (b ∷ before) l after h = chain-ptr b.ptr before l after h.3

  find_leaf_root :
      (s : State K) (fuel : ℕ)
      → s.root ≢ null
      → find_leaf fuel key s ≡ find_leaf_loop fuel key s.root s
  unfolding find_leaf
  find_leaf_root s fuel h = ground arith

  -- What `FindLeaf` returns, as far as the callers need it.
  pub record Found (s : State K) (n : ℕ) (t : Tree K n) (fuel : ℕ) : Type 0 where
    pub target : LeafTree K
    pub owner : Ptr
    pub not_null : target.ptr ≢ null
    pub found : find_leaf fuel key s ≡ some (target.ptr, s)
    pub stored :
        s.cell target.ptr
        ≡ some (
            leaf (record {
              keys = keys target.entries;
              values = values target.entries;
              next = target.next;
              previous = target.previous;
              parent = owner;
            }))
    pub sorted : IsSorted (keys target.entries)
    pub small : IsSmall (keys target.entries)
    pub before : List (LeafTree K)
    pub after : List (LeafTree K)
    pub chain : IsChain null (before ++ (target ∷ after))
    pub split : leaves K n t ≡ before ++ (target ∷ after)
    pub all : entries K n t ≡ flat before ++ (target.entries ++ flat after)
    pub low : All (λ e. e.0 ≺ key) (flat before)
    pub high : All (λ e. key ≺ e.0) (flat after)

  pub find_leaf-Found :
      (s : State K) (n fuel : ℕ) (t : Tree K n) → n < fuel → IsTree s n t → Found s n t fuel
  find_leaf-Found s n fuel t enough h =
      let (r, reached) =
        find_leaf_loop-Reached key s n fuel null t enough h.represented h.ordered in
      let chain' = subst (IsChain null) r.split h.chain in
      record {
        target = r.target;
        owner = r.owner;
        not_null = chain-ptr null r.before r.target r.after chain';
        found =
            find_leaf_root s fuel (λ e. h.not_null (sym h.root ∙ e))
            ∙ ap (λ p. find_leaf_loop fuel key p s) h.root
            ∙ reached;
        stored = r.stored;
        sorted = r.sorted;
        small = r.small;
        before = r.before;
        after = r.after;
        chain = chain';
        split = r.split;
        all = sym (flat-leaves n t) ∙ ap flat r.split ∙ join-append _ r.before (r.target ∷ r.after);
        low = r.low;
        high = r.high;
      }

  pub lower_bound_index-partition_point :
      (ks : List K)
      → IsSmall ks
      → IsSorted ks
      → lower_bound_index ks key ≡ some (partition_point (less key) ks)
  unfolding lower_bound_index
  lower_bound_index-partition_point ks small sorted =
      bound_index-partition_point (less key) ks small (less-IsPartitioned key ks sorted)

  Found-answers :
      {s : State K} (n : ℕ) (t : Tree K n) {fuel : ℕ} (f : Found s n t fuel)
      → (postings key (entries K n t) ≡ postings key f.target.entries)
        × (has key (entries K n t) ≡ has key f.target.entries)
  Found-answers n t f =
      let (p, h) = skip (flat f.before) (f.target.entries ++ flat f.after) f.low in
      let (p', h') = stop_above f.target.entries (flat f.after) f.high in
      (ap (postings key) f.all ∙ p ∙ p', ap (has key) f.all ∙ h ∙ h')

  contains-null : (s : State K) (fuel : ℕ) → s.root ≡ null → contains fuel key s ≡ some (false, s)
  unfolding contains find_leaf
  contains-null s fuel h = ground arith

  search-null : (s : State K) (fuel : ℕ) → s.root ≡ null → search fuel key s ≡ some ([], s)
  unfolding search find_leaf
  search-null s fuel h = ground arith

  contains-Found :
      {s : State K} (n : ℕ) (t : Tree K n) (fuel : ℕ) (f : Found s n t fuel)
      → contains fuel key s ≡ some (has key (entries K n t), s)
  unfolding contains
  contains-Found {s} n t fuel f = ground (
    arith,
    f.found,
    f.stored,
    lower_bound_index-partition_point (keys f.target.entries) f.small f.sorted,
    (at_lower_bound f.target.entries s f.sorted).0,
    Found-answers n t f,
  )

  search-Found :
      {s : State K} (n : ℕ) (t : Tree K n) (fuel : ℕ) (f : Found s n t fuel)
      → search fuel key s ≡ some (postings key (entries K n t), s)
  unfolding search
  search-Found {s} n t fuel f = ground (
    arith,
    f.found,
    f.stored,
    lower_bound_index-partition_point (keys f.target.entries) f.small f.sorted,
    at_lower_bound f.target.entries s f.sorted,
    Found-answers n t f,
  )

  -- On a well-formed tree of a height below the fuel `Search` returns the posting list of the key,
  -- `Contains` says whether the key has one, and neither changes anything.
  pub search-contains_lem :
      (s : State K) (n fuel : ℕ) (es : List (Entry K))
      → Holds s n es
      → n < fuel
      → (search fuel key s ≡ some (postings key es, s))
        × (contains fuel key s ≡ some (has key es, s))
  search-contains_lem s n fuel es (nothing root none) enough =
      (rw none (search-null s fuel root), rw none (contains-null s fuel root))
  search-contains_lem s n fuel es (tree t h all) enough =
      let f = find_leaf-Found s n fuel t enough h in
      rw all (search-Found n t fuel f, contains-Found n t fuel f)
