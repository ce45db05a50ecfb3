-- ===== src/BTree/Descent.antt =====
-- `FindLeaf`: it reaches the one leaf that can hold the key.
use becoming_an_elite_engine.Base.{
  ℕ, zero, suc, ◌<◌, ◌≡◌, refl, ap, ap₂, ◌∙◌, sym, subst, some, List, [], ◌∷◌, ◌++◌, append_assoc,
  append-nil, get_elem?, arith, Order, ◌≺◌, All, All-imp, All-append, IsSorted, lt_of_lt_of_not_lt,
  Bool-cases, inl, inr, All-get_elem?, get_elem?-map,
}
use becoming_an_elite_engine.BTree.Bound.{
  upper_bound_index, partition_point, bound_index-partition_point,
}
use becoming_an_elite_engine.BTree.Splits.{at_most, at_most-IsPartitioned}
use becoming_an_elite_engine.BTree.Heap.{Ptr, Leaf, Internal, leaf, internal, State}
use becoming_an_elite_engine.BTree.Find.{find_leaf_loop}
use becoming_an_elite_engine.BTree.Shape.{
  Entry, LeafTree, Tree, ptr, join, entries, leaves, keys, values, Represents, IsSmall, IsSeparated,
  IsOrdered,
}

pub join-append :
    {A B : Type 0} (f : A → List B) (xs ys : List A) → join f (xs ++ ys) ≡ join f xs ++ join f ys
join-append f [] ys = refl
join-append f (x ∷ xs) ys =
    ap (λ l. f x ++ l) (join-append f xs ys) ∙ sym (append_assoc (f x) (join f xs) (join f ys))

-- the entries of a chain of leaves
abbrev pub flat : {K : Type 0} → List (LeafTree K) → List (Entry K)
flat = join (λ l. l.entries)

module _ {K : Type 0} where
  flat_forest :
      (n : ℕ)
      → ((t : Tree K n) → flat (leaves K n t) ≡ entries K n t)
      → (ts : List (Tree K n)) → flat (join (leaves K n) ts) ≡ join (entries K n) ts
  flat_forest n one [] = refl
  flat_forest n one (t ∷ ts) =
      join-append _ (leaves K n t) (join (leaves K n) ts) ∙ ap₂ ◌++◌ (one t) (flat_forest n one ts)

  pub flat-leaves : (n : ℕ) (t : Tree K n) → flat (leaves K n t) ≡ entries K n t
  flat-leaves zero t = append-nil t.entries
  flat-leaves (suc n) t = flat_forest n (flat-leaves n) t.children

module _ {K : Type 0} ⦃o : Order K⦄ (key : K) where
  -- the child below which the key belongs
  record Child (n : ℕ) (P : Tree K n → Type 0) (ts : List (Tree K n)) (i : ℕ) : Type 0 where
    child : Tree K n
    left : List (Tree K n)
    right : List (Tree K n)
    read : get_elem? ts i ≡ some child
    split : ts ≡ left ++ (child ∷ right)
    holds : P child
    low : All (λ e. e.0 ≺ key) (join (entries K n) left)
    high : All (λ e. key ≺ e.0) (join (entries K n) right)

  find-Child :
      (n : ℕ) (P : Tree K n → Type 0) (ks : List K) (ts : List (Tree K n))
      → IsSeparated K n P ks ts
      → Child n P ts (partition_point (at_most key) ks)
  find-Child n P [] [] h = elim h [ ]
  find-Child n P [] (t ∷ []) h = record {
    child = t;
    left = [];
    right = [];
    read = refl;
    split = refl;
    holds = h;
    low = tt;
    high = tt;
  }
  find-Child n P [] (t ∷ u ∷ ts) h = elim h [ ]
  find-Child n P (k ∷ ks) [] h = elim h [ ]
  find-Child n P (k ∷ ks) (t ∷ ts) h = elim (Bool-cases (o.lt key k)) [
    | inl below ↦ rw below (record {
      child = t;
      left = [];
      right = ts;
      read = refl;
      split = refl;
      holds = h.0;
      low = tt;
      high = All-imp (λ e q. lt_of_lt_of_not_lt key k e.0 below q) _ h.2;
    })
    | inr above ↦
        let rest = find-Child n P ks ts h.3 in
        rw above (record {
          child = rest.child;
          left = t ∷ rest.left;
          right = rest.right;
          read = rest.read;
          split = ap (λ l. t ∷ l) rest.split;
          holds = rest.holds;
          low =
              All-append _ (entries K n t) _
                (All-imp (λ e q. lt_of_lt_of_not_lt e.0 k key q above) _ h.1) rest.low;
          high = rest.high;
        })
  ]

  -- The leaf that the descent reaches, and how it stands in the tree: every entry of the leaves
  -- before it is below the key, and every entry of those behind it above.
  pub record Reached (s : State K) (n : ℕ) (t : Tree K n) : Type 0 where
    pub target : LeafTree K
    pub owner : Ptr
    pub stored :
        s.cell target.ptr
        ≡ some (
            leaf (record {
              keys = keys target.entries;
              values = values target.entries;
              next = target.next;
              previous = target.previous;
              parent = owner;
            }))
    pub sorted : IsSorted (keys target.entries)
    pub small : IsSmall (keys target.entries)
    pub before : List (LeafTree K)
    pub after : List (LeafTree K)
    pub split : leaves K n t ≡ before ++ (target ∷ after)
    pub low : All (λ e. e.0 ≺ key) (flat before)
    pub high : All (λ e. key ≺ e.0) (flat after)

  -- From the leaf reached below a child to the same leaf below the node.
  Reached_up :
      {s : State K} (n : ℕ) (t : Tree K (suc n)) {P : Tree K n → Type 0} {i : ℕ}
      → (c : Child n P t.children i) → Reached s n c.child
      → Reached s (suc n) t
  Reached_up n t c r = record {
    target = r.target;
    owner = r.owner;
    stored = r.stored;
    sorted = r.sorted;
    small = r.small;
    before = join (leaves K n) c.left ++ r.before;
    after = r.after ++ join (leaves K n) c.right;
    split =
        ap (join (leaves K n)) c.split
        ∙ join-append (leaves K n) c.left (c.child ∷ c.right)
        ∙ ap (λ l. join (leaves K n) c.left ++ (l ++ join (leaves K n) c.right)) r.split
        ∙ simp append_assoc;
    low = subst (All (λ e. e.0 ≺ key)) (sym (join-append _ (join (leaves K n) c.left) r.before)) (
        All-append _ _ (flat r.before)
          (subst (All (λ e. e.0 ≺ key)) (sym (flat_forest n (flat-leaves n) c.left)) c.low) r.low);
    high = subst (All (λ e. key ≺ e.0)) (sym (join-append _ r.after (join (leaves K n) c.right))) (
        All-append _ (flat r.after) _ r.high
          (subst (All (λ e. key ≺ e.0)) (sym (flat_forest n (flat-leaves n) c.right)) c.high));
  }

  find_leaf_loop-leaf :
      (s : State K) (fuel : ℕ) (p : Ptr) {l : Leaf K}
      → s.cell p ≡ some (leaf l)
      → find_leaf_loop (suc fuel) key p s ≡ some (p, s)
  unfolding find_leaf_loop
  find_leaf_loop-leaf s fuel p e = ground arith

  find_leaf_loop-internal :
      (s : State K) (fuel : ℕ) (p : Ptr) {i : Internal K} {j : ℕ} {q : Ptr}
      → s.cell p ≡ some (internal i)
      → upper_bound_index i.keys key ≡ some j
      → get_elem? i.children j ≡ some q
      → find_leaf_loop (suc fuel) key p s ≡ find_leaf_loop fuel key q s
  unfolding find_leaf_loop
  find_leaf_loop-internal s fuel p e f g = ground arith

  upper_bound_index-partition_point :
      (ks : List K)
      → IsSmall ks
      → IsSorted ks
      → upper_bound_index ks key ≡ some (partition_point (at_most key) ks)
  unfolding upper_bound_index
  upper_bound_index-partition_point ks small sorted =
      bound_index-partition_point (at_most key) ks small (at_most-IsPartitioned key ks sorted)

  pub find_leaf_loop-Reached :
      (s : State K) (n fuel : ℕ) (owner : Ptr) (t : Tree K n)
      → n < fuel
      → Represents K n s.cell owner t
      → IsOrdered K n t
      → (r : Reached s n t) × (find_leaf_loop fuel key (ptr K n t) s ≡ some (r.target.ptr, s))
  unfolding Reached_up
  find_leaf_loop-Reached s n zero owner t enough rep ord = absurd (omega arith)
  find_leaf_loop-Reached s zero (suc fuel) owner t enough rep ord = (
    record {
      target = t;
      owner = owner;
      stored = rep;
      sorted = ord.0;
      small = ord.1;
      before = [];
      after = [];
      split = refl;
      low = tt;
      high = tt;
    },
    find_leaf_loop-leaf s fuel t.ptr rep,
  )
  find_leaf_loop-Reached s (suc n) (suc fuel) owner t enough rep ord =
      let c = find-Child n (IsOrdered K n) t.keys t.children ord.2 in
      let (r, found) =
        find_leaf_loop-Reached s n fuel t.ptr c.child (omega arith)
          (All-get_elem? (Represents K n s.cell t.ptr) t.children _ rep.1 c.read) c.holds in
      (
        Reached_up n t c r,
        find_leaf_loop-internal s fuel t.ptr rep.0
              (upper_bound_index-partition_point t.keys ord.1 ord.0)
              (get_elem?-map (ptr K n) t.children _ c.read)
            ∙ found,
      )
