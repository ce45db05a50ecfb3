-- ===== src/BTree/Step.antt =====
-- What surrounds a node surrounds each of its children, together with the node itself.
use becoming_an_elite_engine.Base.{
  ℕ, zero, suc, ◌+◌, ◌-◌, ◌/◌, ◌<◌, ◌≤◌, ◌≡◌, ◌≢◌, refl, ap, ap₂, ◌∙◌, sym, subst, Option, some,
  List, ◌∷◌, ◌++◌, append_assoc, map, length, length-append, ltb, if◌then◌else◌, arith, Order, All,
  All-append, All-left, All-right, IsSorted, Bool-cases, ltb→lt, inl, inr,
}
use becoming_an_elite_engine.BTree.Heap.{Ptr, null, internal, State}
use becoming_an_elite_engine.BTree.Insert.{insert_into_parent, split_internal}
use becoming_an_elite_engine.BTree.Shape.{Entry, Tree, ptr, entries, join}
use becoming_an_elite_engine.BTree.Descent.{join-append}
use becoming_an_elite_engine.BTree.Stored.{view, total, total-append, one_if, occ, occ-ptr, Stored}
use becoming_an_elite_engine.BTree.Window.{Below, Within, InWindow, Windows}
use becoming_an_elite_engine.BTree.Context.{
  least_of, StrictlyAbove, IsFull, IsBlank, Keeps, IsApart, IsPlaced, IsWhole, Same, Grown, Context,
}
use becoming_an_elite_engine.BTree.Around.{
  low, high, Halves, Windows-Halves, Windows-left, Windows-right,
}
use becoming_an_elite_engine.BTree.Positions.{element_at, map-append}
use becoming_an_elite_engine.BTree.Extend.{
  IsAround, beside, IsAround-Keeps, extended_state, node_cell, Stored-children, extended_links,
  extended-IsBlank, extended_windows, extended_runs, spared,
}
use becoming_an_elite_engine.BTree.Split.{split_internal-Grown}

module _ {K : Type 0} where
  pub regroup :
      (pre a e b post : List (Entry K))
      → pre ++ ((a ++ (e ++ b)) ++ post) ≡ (pre ++ a) ++ (e ++ (b ++ post))
  regroup pre a e b post =
      ap (λ l. pre ++ l) (append_assoc a (e ++ b) post ∙ ap (λ l. a ++ l) (append_assoc e b post))
      ∙ sym (append_assoc pre a (e ++ (b ++ post)))

  regroup_two :
      (pre a e f b post : List (Entry K))
      → pre ++ ((a ++ (e ++ (f ++ b))) ++ post) ≡ (pre ++ a) ++ (e ++ (f ++ (b ++ post)))
  regroup_two pre a e f b post =
      regroup pre a e (f ++ b) post ∙ ap (λ l. (pre ++ a) ++ (e ++ l)) (append_assoc f b post)

module _ {K : Type 0} ⦃o : Order K⦄ where
  module _ (s0 : State K) (n level : ℕ) (p parent q : Ptr) (lower upper : Option K) (least : ℕ)
      (out : Ptr → ℕ) (pre post : List (Entry K)) (lk rk : List K) (left right : List (Tree K n))
      (c : Context s0 (suc n) level p parent lower upper least out pre post)
      (w0 : IsAround s0 n p parent q lower upper lk rk left right)
      (enough : least ≤ length (lk ++ rk)) (few : length (lk ++ rk) ≤ s0.order - 1)
      (big : 3 ≤ s0.order) (root_out : 0 < out s0.root + beside K n p left right s0.root) where
    close_child :
        (s : State K) (t : Tree K n)
        → ptr K n t ≡ q
        → Keeps (λ a. out a + beside K n p left right a) s0 s
        → IsBlank s
        → IsApart s (λ a. (out a + beside K n p left right a) + occ K n a t)
        → IsPlaced s n p (low lower lk) (high rk upper) (least_of s0.order n) t
        → IsWhole s (
            (pre ++ join (entries K n) left)
            ++ (entries K n t ++ (join (entries K n) right ++ post)))
    close_child s t e keeps blank apart pt =
        let w = IsAround-Keeps s0 s n p parent q lower upper lk rk left right out keeps w0 in
        let node : Tree K (suc n) = record {
          ptr = p;
          keys = lk ++ rk;
          children = left ++ (t ∷ right);
        } in
        let uses : (a : Ptr) → occ K (suc n) a node ≡ beside K n p left right a + occ K n a t =
          λ a. omega (arith, total-append (λ u. occ K n a u) left (t ∷ right)) in
        subst (IsWhole s)
          (ap (λ l. pre ++ (l ++ post)) (join-append (entries K n) left (t ∷ right))
            ∙ regroup pre (join (entries K n) left) (entries K n t) (join (entries K n) right) post)
          (c.close s node refl
            (record {
              order = keeps.order;
              root = keeps.root;
              cells = λ a h. keeps.cells a (omega (arith, h));
            })
            blank
            (record {
              once = λ a. omega (arith, uses a, apart.once a);
              inside = λ a h. apart.inside a (omega (arith, h, uses a));
              nonnull = omega (arith, uses null, apart.nonnull);
            })
            (record {
              stored = (
                w.cell
                    ∙ ap
                        (λ cs.
                          some
                            (internal (record { keys = lk ++ rk; children = cs; parent = parent })))
                        (ap (λ z. map (ptr K n) left ++ (z ∷ map (ptr K n) right)) (sym e)
                          ∙ sym (map-append (ptr K n) left (t ∷ right))),
                All-append _ left (t ∷ right) w.left_stored (pt.stored, w.right_stored),
              );
              window = (
                w.sorted,
                w.within,
                Windows-left K n (InWindow K n) lower upper lk rk left (t ∷ right) w.before (
                    Windows-right K n (InWindow K n) (low lower lk) upper rk t right pt.window
                      w.after),
              );
              full = (
                enough,
                omega (arith, few, keeps.order),
                All-append _ left (t ∷ right) w.left_full (
                  subst (λ m. IsFull K s.order (least_of m n) n t) (sym keeps.order) pt.full,
                  w.right_full,
                ),
              );
            }))

    module _ (s : State K) (t r : Tree K n) (k : K) (other : Ptr) (e : ptr K n t ≡ q)
        (keeps : Keeps (λ a. out a + beside K n p left right a) s0 s) (blank : IsBlank s)
        (apart : IsApart s (λ a. (out a + beside K n p left right a) + (occ K n a t + occ K n a r)))
        (above : StrictlyAbove (low lower lk) k) (below : Below (high rk upper) k)
        (pt : IsPlaced s n p (low lower lk) (some k) (least_of s.order n) t)
        (pr : IsPlaced s n other (some k) (high rk upper) (least_of s.order n) r) where
      around : IsAround s n p parent (ptr K n t) lower upper lk rk left right
      around =
          subst (λ z. IsAround s n p parent z lower upper lk rk left right) (sym e)
            (IsAround-Keeps s0 s n p parent q lower upper lk rk left right out keeps w0)

      abbrev after : State K
      after =
          extended_state s n p parent lower upper lk rk left right t r k other out around blank
            apart above below pt pr

      abbrev node_keys : List K
      node_keys = lk ++ (k ∷ rk)

      abbrev node_children : List (Tree K n)
      node_children = left ++ (t ∷ r ∷ right)

      after-Keeps : Keeps out s0 after
      after-Keeps = record {
        order = keeps.order;
        root = keeps.root;
        cells = λ a h.
            ap view (
              spared s n p parent lower upper lk rk left right t r k other out around blank apart
                above below pt pr a (omega (arith, h, apart.once a))
                (omega (arith, h, apart.once a)))
            ∙ keeps.cells a (omega (arith, h));
      }

      children_full : All (IsFull K s.order (least_of s.order n) n) node_children
      children_full =
          All-append _ left (t ∷ r ∷ right) around.left_full (pt.full, (pr.full, around.right_full))

      cell_after :
          after.cell p
          ≡ some (
              internal (record {
                keys = node_keys;
                children = map (ptr K n) node_children;
                parent = parent;
              }))
      cell_after =
          node_cell s n p parent lower upper lk rk left right t r k other out around blank apart
            above below pt pr
          ∙ ap (λ cs. some (internal (record { keys = node_keys; children = cs; parent = parent })))
              (sym (map-append (ptr K n) left (t ∷ r ∷ right)))

      uses :
          (a : Ptr)
          → one_if p a + total (λ u. occ K n a u) node_children
            ≡ beside K n p left right a + (occ K n a t + occ K n a r)
      uses a = omega (arith, total-append (λ u. occ K n a u) left (t ∷ r ∷ right))

      windows :
          IsSorted node_keys
          × All (Within lower upper) node_keys
          × Windows K n (InWindow K n) lower upper node_keys node_children
      windows =
          extended_windows s n p parent lower upper lk rk left right t r k other out around blank
            apart above below pt pr

      Stored-after : All (Stored K n after.cell p) node_children
      Stored-after =
          Stored-children s n p parent lower upper lk rk left right t r k other out around blank
            apart above below pt pr

      blank_after : IsBlank after
      blank_after =
          extended-IsBlank s n p parent lower upper lk rk left right t r k other out around blank
            apart above below pt pr

      longer : length node_keys ≡ length (lk ++ rk) + 1
      longer = omega (arith, length-append lk (k ∷ rk), length-append lk rk)

      abbrev result : List (Entry K)
      result = pre ++ (join (entries K n) node_children ++ post)

      -- there is room for one more key
      fits : length node_keys ≤ s.order - 1 → IsWhole after result
      fits room =
          c.close after (record { ptr = p; keys = node_keys; children = node_children }) refl
            after-Keeps blank_after
            (record {
              once = λ a. omega (arith, uses a, apart.once a);
              inside = λ a h. apart.inside a (omega (arith, h, uses a));
              nonnull = omega (arith, uses null, apart.nonnull);
            })
            (record {
              stored = (cell_after, Stored-after);
              window = windows;
              full = (omega (arith, longer, enough), room, children_full);
            })

      -- there is none
      splits :
          (fuel : ℕ)
          → level < fuel
          → s.order - 1 < length node_keys
          → (s' : State K) × (split_internal (insert_into_parent fuel) p after ≡ some (tt, s'))
            × Same after s'
            × IsWhole s' result
      splits fuel deep over =
          let full : length node_keys ≡ s.order =
            omega (arith, over, longer, few, big, keeps.order) in
          let (ka, m, kb, cut, at) =
            element_at node_keys (length node_keys / 2) (omega (arith, full, big, keeps.order)) in
          let h : Halves K n (InWindow K n) lower upper ka m kb node_children =
            Windows-Halves K n (InWindow K n) lower upper ka m kb node_children (
              subst (λ ks. Windows K n (InWindow K n) lower upper ks node_children) cut
                windows.2) in
          let (s', returns, same, whole) =
            split_internal-Grown s0 after n level fuel p parent lower upper least out pre post ka m
              kb h.first h.second c deep after-Keeps
              (record {
                cell =
                    cell_after
                    ∙ ap₂
                        (λ ks ts. some (
                          internal
                            (record { keys = ks; children = map (ptr K n) ts; parent = parent })))
                        cut h.all;
                first_stored = All-left _ h.first h.second (subst (All _) h.all Stored-after);
                second_stored = All-right _ h.first h.second (subst (All _) h.all Stored-after);
                sorted = subst IsSorted cut windows.0;
                within = subst (All (Within lower upper)) cut windows.1;
                before = h.before;
                after = h.after;
                first_full = All-left _ h.first h.second (subst (All _) h.all children_full);
                second_full = All-right _ h.first h.second (subst (All _) h.all children_full);
                middle = omega (arith, at, ap length cut);
                many = omega (arith, full, ap length cut);
                count = omega (arith, h.count);
                big = omega (arith, big, keeps.order);
                blank = blank_after;
                apart = record {
                  once = λ a. omega (
                    arith,
                    uses a,
                    apart.once a,
                    total-append (λ u. occ K n a u) h.first h.second,
                    ap (total (λ u. occ K n a u)) h.all,
                  );
                  inside = λ a q. apart.inside a (
                      omega (
                        arith,
                        q,
                        uses a,
                        total-append (λ u. occ K n a u) h.first h.second,
                        ap (total (λ u. occ K n a u)) h.all,
                      ));
                  nonnull = omega (
                    arith,
                    uses null,
                    apart.nonnull,
                    total-append (λ u. occ K n null u) h.first h.second,
                    ap (total (λ u. occ K n null u)) h.all,
                  );
                };
              }) in
          (
            s',
            returns,
            same,
            subst (λ ts. IsWhole s' (pre ++ (join (entries K n) ts ++ post))) (sym h.all) whole,
          )

      result-is :
          result
          ≡ (pre ++ join (entries K n) left)
            ++ (entries K n t ++ (entries K n r ++ (join (entries K n) right ++ post)))
      result-is =
          ap (λ l. pre ++ (l ++ post)) (join-append (entries K n) left (t ∷ r ∷ right))
          ∙ regroup_two pre (join (entries K n) left) (entries K n t) (entries K n r)
              (join (entries K n) right) post

      after-Same : (s' : State K) → Same after s' → Same s s'
      after-Same s' h = record {
        order = h.order;
        size = h.size;
        links = λ a.
            h.links a
            ∙ extended_links s n p parent lower upper lk rk left right t r k other out around blank
                apart above below pt pr a;
      }

      -- the child is not the root, which is outside of it
      child_below : ptr K n t ≢ s.root
      child_below h = absurd (
          omega (
            arith,
            apart.once s.root,
            subst (λ a. 0 < occ K n a t) h (occ-ptr K n t),
            subst (λ a. 0 < out a + beside K n p left right a) (sym keeps.root) root_out,
          ))

      runs :
          (fuel : ℕ)
          → insert_into_parent (suc fuel) (ptr K n t) k (ptr K n r) s ≡ (
              if ltb (s.order - 1) (length node_keys)
              then split_internal (insert_into_parent fuel) p after
              else some (tt, after))
      runs fuel =
          extended_runs s n p parent lower upper lk rk left right t r k other out around blank apart
            above below pt pr fuel child_below

      grow_child :
          (fuel : ℕ)
          → suc level < fuel
          → Grown fuel s q k (ptr K n r) (
              (pre ++ join (entries K n) left)
              ++ (entries K n t ++ (entries K n r ++ (join (entries K n) right ++ post))))
      grow_child zero deep = absurd (omega arith)
      grow_child (suc fuel) deep = elim (Bool-cases (ltb (s.order - 1) (length node_keys))) [
        | inl over ↦
            let (s', returns, same, whole) = splits fuel (omega (arith, deep)) (ltb→lt _ _ over) in
            record {
              after = s';
              returns =
                  ap (λ z. insert_into_parent (suc fuel) z k (ptr K n r) s) (sym e)
                  ∙ runs fuel
                  ∙ rw over returns;
              same = after-Same s' same;
              whole = subst (IsWhole s') result-is whole;
            }
        | inr room ↦ record {
          after = after;
          returns =
              ap (λ z. insert_into_parent (suc fuel) z k (ptr K n r) s) (sym e)
              ∙ runs fuel
              ∙ rw room refl;
          same = after-Same after (record { order = refl; size = refl; links = λ a. refl });
          whole = subst (IsWhole after) result-is (fits (ground (arith, room)));
        }
      ]

    pub Context-child :
        Context s0 n
          (suc level)
          q
          p
          (low lower lk)
          (high rk upper)
          (least_of s0.order n)
          (λ a. out a + beside K n p left right a)
          (pre ++ join (entries K n) left)
          (join (entries K n) right ++ post)
    Context-child = record {
      close = close_child;
      grow = λ s fuel t r k other deep e keeps blank apart above below pt pr.
          grow_child s t r k other e keeps blank apart above below pt pr fuel deep;
    }
