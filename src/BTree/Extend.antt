-- ===== src/BTree/Extend.antt =====
-- A child of an internal node in its place, and the node with one child more.
use becoming_an_elite_engine.Base.{
  ℕ, suc, ◌+◌, ◌-◌, ◌<◌, ◌≡◌, ◌≢◌, ap, ◌∙◌, sym, subst, Option, some, List, ◌∷◌, ◌++◌, map, length,
  length-map, ltb, if◌then◌else◌, arith, Order, All, All-append, IsSorted,
}
use becoming_an_elite_engine.BTree.Heap.{Ptr, Internal, internal, Node, State, update}
use becoming_an_elite_engine.BTree.Insert.{insert_into_parent, split_internal, child_index}
use becoming_an_elite_engine.BTree.Shape.{Tree, ptr}
use becoming_an_elite_engine.BTree.Stored.{
  view, view-internal, links_of, links-with_parent, links_internal, total, one_if, occ, occ-ptr,
  Stored, Stored-agree, All-Stored-agree, Stored-node, Stored-with_parent, update-other,
  update_here,
}
use becoming_an_elite_engine.BTree.Window.{Below, Within, InWindow, Windows}
use becoming_an_elite_engine.BTree.Context.{
  least_of, StrictlyAbove, IsFull, IsBlank, Keeps, IsApart, IsPlaced,
}
use becoming_an_elite_engine.BTree.Around.{
  low, high, LeftWindows, RightWindows, Windows-left, Windows-right, IsSorted-insert, Within-insert,
}
use becoming_an_elite_engine.BTree.Positions.{insert_at-append, insert_behind, child_index-length}
use becoming_an_elite_engine.BTree.Runs.{extended, stored_in, adopted, inner_run}

-- an internal node at `p` around the child at `q`
pub record IsAround {K : Type 0} ⦃o : Order K⦄ (s : State K) (n : ℕ) (p parent q : Ptr)
    (lower upper : Option K) (lk rk : List K) (left right : List (Tree K n)) : Type 0 where
  pub cell :
      s.cell p
      ≡ some (
          internal (record {
            keys = lk ++ rk;
            children = map (ptr K n) left ++ (q ∷ map (ptr K n) right);
            parent = parent;
          }))
  pub left_stored : All (Stored K n s.cell p) left
  pub right_stored : All (Stored K n s.cell p) right
  pub left_full : All (IsFull K s.order (least_of s.order n) n) left
  pub right_full : All (IsFull K s.order (least_of s.order n) n) right
  pub sorted : IsSorted (lk ++ rk)
  pub within : All (Within lower upper) (lk ++ rk)
  pub before : LeftWindows K n (InWindow K n) lower lk left
  pub after : RightWindows K n (InWindow K n) upper rk right
  pub balanced : length left ≡ length lk

module _ (K : Type 0) where
  -- how often the node and the other children use an address
  abbrev pub beside : (n : ℕ) → Ptr → List (Tree K n) → List (Tree K n) → Ptr → ℕ
  beside n p left right a =
      one_if p a + (total (λ t. occ K n a t) left + total (λ t. occ K n a t) right)

module _ {K : Type 0} ⦃o : Order K⦄ where
  pub IsAround-Keeps :
      (s s' : State K) (n : ℕ) (p parent q : Ptr) (lower upper : Option K) (lk rk : List K)
      (left right : List (Tree K n)) (out : Ptr → ℕ)
      → Keeps (λ a. out a + beside K n p left right a) s s'
      → IsAround s n p parent q lower upper lk rk left right
      → IsAround s' n p parent q lower upper lk rk left right
  IsAround-Keeps s s' n p parent q lower upper lk rk left right out k w = record {
    cell = view-internal (s'.cell p) _ (k.cells p (ground arith) ∙ ap view w.cell);
    left_stored =
        All-Stored-agree K n s.cell s'.cell p left (λ a h. k.cells a (omega (arith, h)))
          w.left_stored;
    right_stored =
        All-Stored-agree K n s.cell s'.cell p right (λ a h. k.cells a (omega (arith, h)))
          w.right_stored;
    left_full = rw k.order w.left_full;
    right_full = rw k.order w.right_full;
    sorted = w.sorted;
    within = w.within;
    before = w.before;
    after = w.after;
    balanced = w.balanced;
  }

  -- the node with a new child to the right of `t`, and their separator
  module _ (s : State K) (n : ℕ) (p parent : Ptr) (lower upper : Option K) (lk rk : List K)
      (left right : List (Tree K n)) (t r : Tree K n) (k : K) (other : Ptr) (out : Ptr → ℕ)
      (w : IsAround s n p parent (ptr K n t) lower upper lk rk left right) (blank : IsBlank s)
      (apart : IsApart s (λ a. (out a + beside K n p left right a) + (occ K n a t + occ K n a r)))
      (above : StrictlyAbove (low lower lk) k) (below : Below (high rk upper) k)
      (pt : IsPlaced s n p (low lower lk) (some k) (least_of s.order n) t)
      (pr : IsPlaced s n other (some k) (high rk upper) (least_of s.order n) r) where
    abbrev pub grown_node : Internal K
    grown_node = record {
      keys = lk ++ (k ∷ rk);
      children = map (ptr K n) left ++ (ptr K n t ∷ ptr K n r ∷ map (ptr K n) right);
      parent = parent;
    }

    abbrev child_node : Node K
    child_node = (Stored-node K n s.cell other r pr.stored).0

    abbrev pub extended_state : State K
    extended_state = adopted (stored_in s p grown_node) p (ptr K n r) child_node

    r_apart : ptr K n r ≢ p
    r_apart e =
        absurd (ground (arith, e, apart.once p, subst (λ a. 0 < occ K n a r) e (occ-ptr K n r)))

    pub spared : (a : Ptr) → one_if p a ≡ 0 → occ K n a r ≡ 0 → extended_state.cell a ≡ s.cell a
    spared a h q =
        update-other (update s.cell p (some (internal grown_node))) (ptr K n r) a _
          (λ e. absurd (omega (arith, q, subst (λ z. 0 < occ K n z r) (sym e) (occ-ptr K n r))))
        ∙ update-other s.cell p a _ (λ e. absurd (ground (arith, h, e)))

    Stored-right : Stored K n extended_state.cell p r
    Stored-right =
        let (x, here, owner) = Stored-node K n s.cell other r pr.stored in
        Stored-with_parent K n (update s.cell p (some (internal grown_node))) other p r x
          (update-other s.cell p (ptr K n r) _ r_apart ∙ here)
          (omega (arith, apart.once (ptr K n r)))
          (Stored-agree K n s.cell (update s.cell p (some (internal grown_node))) other r
            (λ a h.
              ap view
                (update-other s.cell p a _ (λ e. absurd (ground (arith, h, e, apart.once a)))))
            pr.stored)

    pub node_cell : extended_state.cell p ≡ some (internal grown_node)
    node_cell =
        update-other (update s.cell p (some (internal grown_node))) (ptr K n r) p _
          (λ e. r_apart (sym e))
        ∙ update_here s.cell p _

    pub Stored-children : All (Stored K n extended_state.cell p) (left ++ (t ∷ r ∷ right))
    Stored-children =
        All-append _ left (t ∷ r ∷ right)
          (All-Stored-agree K n s.cell extended_state.cell p left
            (λ a h.
              ap view (spared a (omega (arith, h, apart.once a)) (omega (arith, h, apart.once a))))
            w.left_stored)
          (
            Stored-agree K n s.cell extended_state.cell p t
                (λ a h.
                  ap view
                    (spared a (omega (arith, h, apart.once a)) (omega (arith, h, apart.once a))))
                pt.stored,
            (
              Stored-right,
              All-Stored-agree K n s.cell extended_state.cell p right
                  (λ a h.
                    ap view
                      (spared a (omega (arith, h, apart.once a)) (omega (arith, h, apart.once a))))
                  w.right_stored,
            ),
          )

    pub extended_links : (a : Ptr) → links_of (extended_state.cell a) ≡ links_of (s.cell a)
    extended_links a =
        let (x, here, owner) = Stored-node K n s.cell other r pr.stored in
        links-with_parent (update s.cell p (some (internal grown_node))) (ptr K n r) p a x
          (update-other s.cell p (ptr K n r) _ r_apart ∙ here)
        ∙ links_internal s.cell p a _ grown_node w.cell

    pub extended-IsBlank : IsBlank extended_state
    extended-IsBlank = record {
      proper = blank.proper;
      beyond = λ a h.
          spared a (ground (arith, h, apart.inside a)) (ground (arith, h, apart.inside a))
          ∙ blank.beyond a h;
    }

    pub extended_windows :
        IsSorted (lk ++ (k ∷ rk))
        × All (Within lower upper) (lk ++ (k ∷ rk))
        × Windows K n (InWindow K n) lower upper (lk ++ (k ∷ rk)) (left ++ (t ∷ r ∷ right))
    extended_windows = (
      IsSorted-insert lower upper lk rk k w.sorted above below,
      Within-insert lower upper lk rk k w.sorted w.within above below,
      Windows-left K n (InWindow K n) lower upper lk (k ∷ rk) left (t ∷ r ∷ right) w.before
          (pt.window, Windows-right K n (InWindow K n) (some k) upper rk r right pr.window w.after),
    )

    pub extended_runs :
        (fuel : ℕ)
        → ptr K n t ≢ s.root
        → insert_into_parent (suc fuel) (ptr K n t) k (ptr K n r) s ≡ (
            if ltb (s.order - 1) (length (lk ++ (k ∷ rk)))
            then split_internal (insert_into_parent fuel) p extended_state
            else some (tt, extended_state))
    extended_runs fuel not_root =
        let (x, here, owner) = Stored-node K n s.cell p t pt.stored in
        let (y, there, owner') = Stored-node K n s.cell other r pr.stored in
        let place : child_index (map (ptr K n) left ++ (ptr K n t ∷ map (ptr K n) right))
              (ptr K n t)
            ≡ length left =
          child_index-length K n left (ptr K n t) (map (ptr K n) right)
            (omega (arith, apart.once (ptr K n t), occ-ptr K n t)) in
        let around : Internal K = record {
          keys = lk ++ rk;
          children = map (ptr K n) left ++ (ptr K n t ∷ map (ptr K n) right);
          parent = parent;
        } in
        let node_is : extended around (child_index around.children (ptr K n t)) k (ptr K n r)
            ≡ grown_node =
          ground (
            arith,
            insert_at-append lk rk (child_index around.children (ptr K n t)) k (place ∙ w.balanced),
            insert_behind (map (ptr K n) left) (map (ptr K n) right)
                (child_index around.children (ptr K n t)) (ptr K n t) (ptr K n r)
                (place ∙ sym (length-map (ptr K n) left)),
          ) in
        subst
          (λ m. insert_into_parent (suc fuel) (ptr K n t) k (ptr K n r) s ≡ (
            if ltb (s.order - 1) (length m.keys)
            then split_internal (insert_into_parent fuel) p
                (adopted (stored_in s p m) p (ptr K n r) y)
            else some (tt, adopted (stored_in s p m) p (ptr K n r) y)))
          node_is
          (inner_run fuel s (ptr K n t) (ptr K n r) p k x y around not_root here owner w.cell
            r_apart there)
