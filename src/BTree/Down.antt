-- ===== src/BTree/Down.antt =====
-- The way of `FindLeaf` down to a leaf, with what surrounds each node on it.
use becoming_an_elite_engine.Base.{
  ℕ, zero, suc, ◌+◌, ◌^◌, ◌<◌, ◌≤◌, ◌≡◌, refl, ap, ap₂, ◌∙◌, subst, Option, some, List, [], ◌∷◌,
  ◌++◌, map, length, length-map, arith, Order, ◌≺◌, All, All-append, All-imp, All-left, All-right,
  IsSorted, Bool-cases, inl, inr, ◌⊎◌, get_elem?, lt_of_lt_of_not_lt,
}
use becoming_an_elite_engine.BTree.Bound.{
  upper_bound_index, partition_point, bound_index-partition_point,
}
use becoming_an_elite_engine.BTree.Splits.{at_most, at_most-IsPartitioned}
use becoming_an_elite_engine.BTree.Heap.{Ptr, null, Internal, internal, State}
use becoming_an_elite_engine.BTree.Find.{find_leaf_loop}
use becoming_an_elite_engine.BTree.Shape.{
  Entry, LeafTree, Tree, ptr, entries, join, IsSeparated, IsOrdered,
}
use becoming_an_elite_engine.BTree.Descent.{join-append}
use becoming_an_elite_engine.BTree.Stored.{total, total-append, occ, Stored}
use becoming_an_elite_engine.BTree.Window.{AtLeast, Below, Within, InWindow, Windows}
use becoming_an_elite_engine.BTree.Context.{least_of, IsApart, IsPlaced, Context}
use becoming_an_elite_engine.BTree.Around.{low, high, Cut, length-LeftWindows}
use becoming_an_elite_engine.BTree.Positions.{get_middle, map-append}
use becoming_an_elite_engine.BTree.Extend.{IsAround, beside}
use becoming_an_elite_engine.BTree.Step.{regroup, Context-child}

module _ {K : Type 0} ⦃o : Order K⦄ (key : K) where
  -- the child that `UpperBoundIndex` leads to
  record Way (n : ℕ) (lower upper : Option K) (ks : List K) (ts : List (Tree K n)) : Type 0 where
    lk : List K
    rk : List K
    all : ks ≡ lk ++ rk
    cut : Cut K n (InWindow K n) lower upper lk rk ts
    target_ordered : IsOrdered K n cut.target
    index : partition_point (at_most key) ks ≡ length lk
    from : AtLeast (low lower lk) key
    to : Below (high rk upper) key
    left_low : All (λ e. e.0 ≺ key) (join (entries K n) cut.left)
    right_high : All (λ e. key ≺ e.0) (join (entries K n) cut.right)

  Windows-Way :
      (n : ℕ) (lower upper : Option K) (ks : List K) (ts : List (Tree K n))
      → Windows K n (InWindow K n) lower upper ks ts
      → IsSeparated K n (IsOrdered K n) ks ts
      → AtLeast lower key
      → Below upper key
      → Way n lower upper ks ts
  Windows-Way n lower upper [] [] w h from to = absurd w
  Windows-Way n lower upper [] (t ∷ u ∷ ts) w h from to = absurd w
  Windows-Way n lower upper (k ∷ ks) [] w h from to = absurd w
  Windows-Way n lower upper [] (t ∷ []) w h from to = record {
    lk = [];
    rk = [];
    all = refl;
    cut = record {
      left = [];
      target = t;
      right = [];
      all = refl;
      before = tt;
      here = w;
      after = tt;
    };
    target_ordered = h;
    index = refl;
    from = from;
    to = to;
    left_low = tt;
    right_high = tt;
  }
  Windows-Way n lower upper (k ∷ ks) (t ∷ ts) w h from to = elim (Bool-cases (o.lt key k)) [
    | inl under ↦ record {
      lk = [];
      rk = k ∷ ks;
      all = refl;
      cut = record {
        left = [];
        target = t;
        right = ts;
        all = refl;
        before = tt;
        here = w.0;
        after = w.1;
      };
      target_ordered = h.0;
      index = ground (arith, under);
      from = from;
      to = under;
      left_low = tt;
      right_high =
          All-imp (λ e q. lt_of_lt_of_not_lt key k e.0 under q) (join (entries K n) ts) h.2;
    }
    | inr over ↦
        let rest = Windows-Way n (some k) upper ks ts w.1 h.3 over to in
        record {
          lk = k ∷ rest.lk;
          rk = rest.rk;
          all = ap (λ l. k ∷ l) rest.all;
          cut = record {
            left = t ∷ rest.cut.left;
            target = rest.cut.target;
            right = rest.cut.right;
            all = ap (λ l. t ∷ l) rest.cut.all;
            before = (w.0, rest.cut.before);
            here = rest.cut.here;
            after = rest.cut.after;
          };
          target_ordered = rest.target_ordered;
          index = ground (arith, over, rest.index);
          from = rest.from;
          to = rest.to;
          left_low =
              All-append _ (entries K n t) _
                (All-imp (λ e q. lt_of_lt_of_not_lt e.0 k key q over) (entries K n t) h.1)
                rest.left_low;
          right_high = rest.right_high;
        }
  ]

  down_step :
      (s : State K) (fuel : ℕ) (p child : Ptr) (n : Internal K) (i : ℕ)
      → s.cell p ≡ some (internal n)
      → upper_bound_index n.keys key ≡ some i
      → get_elem? n.children i ≡ some child
      → find_leaf_loop (suc fuel) key p s ≡ find_leaf_loop fuel key child s
  unfolding find_leaf_loop
  down_step s fuel p child n i here index read = ground (arith, here, index, read)

  down_end :
      (s : State K) (fuel : ℕ) (t : LeafTree K) (parent : Ptr)
      → Stored K 0 s.cell parent t
      → find_leaf_loop (suc fuel) key t.ptr s ≡ some (t.ptr, s)
  unfolding find_leaf_loop
  down_end s fuel t parent h = ground (arith, h.2)

  -- the leaf where the key belongs, in what surrounds it
  pub record Spot (s : State K) (fuel level : ℕ) (from : Ptr) (es : List (Entry K)) : Type 0 where
    pub target : LeafTree K
    pub owner : Ptr
    pub lower : Option K
    pub upper : Option K
    pub least : ℕ
    pub out : Ptr → ℕ
    pub pre : List (Entry K)
    pub post : List (Entry K)
    pub depth : ℕ
    pub shallow : depth ≤ level
    pub found : find_leaf_loop fuel key from s ≡ some (target.ptr, s)
    pub context : Context s 0 depth target.ptr owner lower upper least out pre post
    pub placed : IsPlaced s 0 owner lower upper least target
    pub apart : IsApart s (λ a. out a + occ K 0 a target)
    pub from_key : AtLeast lower key
    pub to_key : Below upper key
    pub pre_low : All (λ e. e.0 ≺ key) pre
    pub post_high : All (λ e. key ≺ e.0) post
    pub all : es ≡ pre ++ (target.entries ++ post)

  upper_index :
      (ks : List K)
      → length ks < 2 ^ 31
      → IsSorted ks
      → upper_bound_index ks key ≡ some (partition_point (at_most key) ks)
  unfolding upper_bound_index
  upper_index ks small sorted =
      bound_index-partition_point (at_most key) ks small (at_most-IsPartitioned key ks sorted)

  Way-IsAround :
      (s : State K) (n : ℕ) (parent : Ptr) (t : Tree K (suc n)) (lower upper : Option K) (least : ℕ)
      → IsPlaced s (suc n) parent lower upper least t
      → (w : Way n lower upper t.keys t.children)
      → IsAround s n t.ptr parent
          (ptr K n w.cut.target)
          lower
          upper
          w.lk
          w.rk
          w.cut.left
          w.cut.right
  Way-IsAround s n parent t lower upper least placed w = record {
    cell =
        placed.stored.0
        ∙ ap₂ (λ ks cs. some (internal (record { keys = ks; children = cs; parent = parent })))
            w.all
            (ap (map (ptr K n)) w.cut.all
              ∙ map-append (ptr K n) w.cut.left (w.cut.target ∷ w.cut.right));
    left_stored = All-left _ w.cut.left _ (subst (All _) w.cut.all placed.stored.1);
    right_stored = (All-right _ w.cut.left _ (subst (All _) w.cut.all placed.stored.1)).1;
    left_full = All-left _ w.cut.left _ (subst (All _) w.cut.all placed.full.2);
    right_full = (All-right _ w.cut.left _ (subst (All _) w.cut.all placed.full.2)).1;
    sorted = subst IsSorted w.all placed.window.0;
    within = subst (All (Within lower upper)) w.all placed.window.1;
    before = w.cut.before;
    after = w.cut.after;
    balanced = length-LeftWindows K n (InWindow K n) lower w.lk w.cut.left w.cut.before;
  }

  pub Context-Spot :
      (s : State K) (n fuel level : ℕ) (parent : Ptr) (t : Tree K n) (lower upper : Option K)
      (least : ℕ) (out : Ptr → ℕ) (pre post : List (Entry K))
      → n < fuel
      → 3 ≤ s.order
      → s.order ≤ 2 ^ 31
      → (0 < out s.root) ⊎ (ptr K n t ≡ s.root)
      → Context s n level (ptr K n t) parent lower upper least out pre post
      → IsPlaced s n parent lower upper least t
      → IsOrdered K n t
      → IsApart s (λ a. out a + occ K n a t)
      → AtLeast lower key
      → Below upper key
      → All (λ e. e.0 ≺ key) pre
      → All (λ e. key ≺ e.0) post
      → Spot s fuel (level + n) (ptr K n t) (pre ++ (entries K n t ++ post))
  Context-Spot s n zero level parent t lower upper least out pre post enough big small root c placed
        ordered apart from to pre_low post_high =
      absurd (omega arith)
  Context-Spot s zero (suc fuel) level parent t lower upper least out pre post enough big small root
        c placed ordered apart from to pre_low post_high =
      record {
        target = t;
        owner = parent;
        lower = lower;
        upper = upper;
        least = least;
        out = out;
        pre = pre;
        post = post;
        depth = level;
        shallow = omega arith;
        found = down_end s fuel t parent placed.stored;
        context = c;
        placed = placed;
        apart = apart;
        from_key = from;
        to_key = to;
        pre_low = pre_low;
        post_high = post_high;
        all = refl;
      }
  Context-Spot s (suc n) (suc fuel) level parent t lower upper least out pre post enough big small
        root c placed ordered apart from to pre_low post_high =
      let w = Windows-Way n lower upper t.keys t.children placed.window.2 ordered.2 from to in
      let around = Way-IsAround s n parent t lower upper least placed w in
      let many : length t.keys ≡ length (w.lk ++ w.rk) = ap length w.all in
      let root_out : 0 < out s.root + beside K n t.ptr w.cut.left w.cut.right s.root = elim root [
        | inl h ↦ omega (arith, h)
        | inr h ↦ ground (arith, h)
      ] in
      let child =
        Context-child s n level t.ptr parent (ptr K n w.cut.target) lower upper least out pre post
          w.lk w.rk w.cut.left w.cut.right c around (omega (arith, many, placed.full.0))
          (omega (arith, many, placed.full.1)) big root_out in
      let uses : (a : Ptr)
          → total (λ u. occ K n a u) t.children
            ≡ total (λ u. occ K n a u) w.cut.left
              + (occ K n a w.cut.target + total (λ u. occ K n a u) w.cut.right) =
        λ a.
          ap (total (λ u. occ K n a u)) w.cut.all
          ∙ total-append (λ u. occ K n a u) w.cut.left (w.cut.target ∷ w.cut.right) in
      let r =
        Context-Spot s n fuel (suc level) t.ptr w.cut.target (low lower w.lk) (high w.rk upper)
          (least_of s.order n) (λ a. out a + beside K n t.ptr w.cut.left w.cut.right a)
          (pre ++ join (entries K n) w.cut.left) (join (entries K n) w.cut.right ++ post)
          (omega (arith, enough)) big small (inl root_out) child
          (record {
            stored = (All-right _ w.cut.left _ (subst (All _) w.cut.all placed.stored.1)).0;
            window = w.cut.here;
            full = (All-right _ w.cut.left _ (subst (All _) w.cut.all placed.full.2)).0;
          })
          w.target_ordered
          (record {
            once = λ a. omega (arith, apart.once a, uses a);
            inside = λ a h. apart.inside a (omega (arith, h, uses a));
            nonnull = omega (arith, apart.nonnull, uses null);
          })
          w.from w.to (All-append _ pre _ pre_low w.left_low)
          (All-append _ (join (entries K n) w.cut.right) post w.right_high post_high) in
      record {
        target = r.target;
        owner = r.owner;
        lower = r.lower;
        upper = r.upper;
        least = r.least;
        out = r.out;
        pre = r.pre;
        post = r.post;
        depth = r.depth;
        shallow = omega (arith, r.shallow);
        found =
            down_step s fuel t.ptr (ptr K n w.cut.target) _ (length w.lk) placed.stored.0
              (upper_index t.keys (omega (arith, placed.full.1, small, big)) placed.window.0
                ∙ ap some w.index)
              (ap (λ cs. get_elem? cs (length w.lk))
                  (ap (map (ptr K n)) w.cut.all
                    ∙ map-append (ptr K n) w.cut.left (w.cut.target ∷ w.cut.right))
                ∙ get_middle (map (ptr K n) w.cut.left) (map (ptr K n) w.cut.right)
                    (ptr K n w.cut.target) (length w.lk)
                    (length-map (ptr K n) w.cut.left
                      ∙ length-LeftWindows K n (InWindow K n) lower w.lk w.cut.left w.cut.before))
            ∙ r.found;
        context = r.context;
        placed = r.placed;
        apart = r.apart;
        from_key = r.from_key;
        to_key = r.to_key;
        pre_low = r.pre_low;
        post_high = r.post_high;
        all =
            ap (λ l. pre ++ (l ++ post))
              (ap (join (entries K n)) w.cut.all
                ∙ join-append (entries K n) w.cut.left (w.cut.target ∷ w.cut.right))
            ∙ regroup pre (join (entries K n) w.cut.left) (entries K n w.cut.target)
                (join (entries K n) w.cut.right) post
            ∙ r.all;
      }
