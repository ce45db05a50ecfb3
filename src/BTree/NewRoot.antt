-- ===== src/BTree/NewRoot.antt =====
-- `InsertIntoParent` at the root: the tree gets a new root over its two halves.
use becoming_an_elite_engine.Base.{
  ℕ, zero, suc, ◌+◌, ◌<◌, ◌≤◌, ◌≡◌, refl, ap, ◌∙◌, sym, Option, none, some, [], ◌∷◌, ◌++◌,
  append-nil, arith, Order,
}
use becoming_an_elite_engine.BTree.Heap.{
  Ptr, null, internal, Node, State, update, set_parent, for_each,
}
use becoming_an_elite_engine.BTree.Insert.{insert_into_parent}
use becoming_an_elite_engine.BTree.Shape.{Tree, ptr, entries}
use becoming_an_elite_engine.BTree.Stored.{
  view, links_of, occ, Stored-agree, update-other, update_here,
}
use becoming_an_elite_engine.BTree.Reparent.{for_each-Reparented}
use becoming_an_elite_engine.BTree.Context.{
  least_of, least_root, IsBlank, IsApart, IsPlaced, Grown, Context,
}

module _ {K : Type 0} ⦃o : Order K⦄ where
  -- the object once the new root is allocated
  abbrev with_root : State K → Ptr → K → Ptr → State K
  with_root s left key right = record s {
    cell =
        update s.cell s.fresh (
          some
            (internal (record { keys = key ∷ []; children = left ∷ right ∷ []; parent = null })));
    fresh = s.fresh + 1;
  }

  root_run :
      (fuel : ℕ) (s s' : State K) (left right : Ptr) (key : K)
      → left ≡ s.root
      → for_each
          (left ∷ right ∷ [])
          (λ child. set_parent child s.fresh)
          (with_root s left key right)
        ≡ some (tt, s')
      → insert_into_parent (suc fuel) left key right s ≡ some (tt, record s' { root = s.fresh })
  unfolding insert_into_parent for_each
  root_run fuel s s' left right key h run = ground (arith, h, run)

  pub fresh-links :
      (s : State K) (a : Ptr) (x : Option (Node K))
      → IsBlank s
      → links_of x ≡ none
      → links_of (update s.cell s.fresh x a) ≡ links_of (s.cell a)
  unfolding update
  fresh-links s a x blank h = ground (arith, blank.beyond a, h)

  root_grow :
      (s' : State K) (n fuel : ℕ) (t r : Tree K n) (k : K) (other : Ptr)
      → 0 < fuel
      → ptr K n t ≡ s'.root
      → IsBlank s'
      → IsApart s' (λ a. 0 + (occ K n a t + occ K n a r))
      → IsPlaced s' n null none (some k) (least_of s'.order n) t
      → IsPlaced s' n other (some k) none (least_of s'.order n) r
      → 3 ≤ s'.order
      → Grown fuel s' (ptr K n t) k (ptr K n r) (entries K n t ++ (entries K n r ++ []))
  root_grow s' n zero t r k other positive here blank apart pt pr big = absurd (omega arith)
  root_grow s' n (suc fuel) t r k other positive here blank apart pt pr big =
      let s1 = with_root s' (ptr K n t) k (ptr K n r) in
      let clear : (a : Ptr) → s'.fresh ≤ a → occ K n a t + occ K n a r ≡ 0 =
        λ a h. ground (arith, h, apart.inside a) in
      let kept : (a : Ptr) → 0 < occ K n a t + occ K n a r → view (s1.cell a) ≡ view (s'.cell a) =
        λ a h. ap view (
          update-other s'.cell s'.fresh a _
            (λ e. absurd (omega (arith, e, apart.inside a (omega (arith, h)))))) in
      let w =
        for_each-Reparented n s1 s'.fresh (t ∷ r ∷ []) (λ a. omega (arith, apart.once a))
          (
            (null, Stored-agree K n s'.cell s1.cell null t (λ a h. kept a (omega arith)) pt.stored),
            (
              (
                other,
                Stored-agree K n s'.cell s1.cell other r (λ a h. kept a (omega arith)) pr.stored,
              ),
              tt,
            ),
          ) in
      record {
        after = record s1 { cell = w.cell; root = s'.fresh };
        returns =
            root_run fuel s' (record s1 { cell = w.cell }) (ptr K n t) (ptr K n r) k here w.returns;
        same = record {
          order = refl;
          size = refl;
          links = λ a. w.links a ∙ fresh-links s' a _ blank refl;
        };
        whole = record {
          height = suc n;
          tree = record { ptr = s'.fresh; keys = k ∷ []; children = t ∷ r ∷ [] };
          root = refl;
          placed = record {
            stored = (
              w.other s'.fresh (omega (arith, clear s'.fresh (omega arith)))
                  ∙ update_here s'.cell s'.fresh _,
              w.stored,
            );
            window = ((tt, tt), ((tt, tt), tt), (pt.window, pr.window));
            full = (omega arith, omega (arith, big), (pt.full, (pr.full, tt)));
          };
          apart = record {
            once = λ a. ground (arith, apart.once a, clear a);
            inside = λ a h. ground (arith, h, apart.inside a);
            nonnull = ground (arith, apart.nonnull, blank.proper);
          };
          blank = record {
            proper = omega arith;
            beyond = λ a h. w.blank a (
                update-other s'.cell s'.fresh a _ (λ e. absurd (omega (arith, e, h)))
                ∙ blank.beyond a (omega (arith, h)));
          };
          all = refl;
        };
      }

  -- Nothing surrounds the root.
  pub Context-root :
      (s : State K) (n : ℕ) (q : Ptr)
      → s.root ≡ q
      → 3 ≤ s.order
      → Context s n 0 q null none none (least_root n) (λ a. 0) [] []
  Context-root s n q root big = record {
    close = λ s' t here keeps blank apart placed. record {
      height = n;
      tree = t;
      root = keeps.root ∙ root ∙ sym here;
      placed = placed;
      apart = record {
        once = λ a. omega (arith, apart.once a);
        inside = λ a h. apart.inside a (omega (arith, h));
        nonnull = omega (arith, apart.nonnull);
      };
      blank = blank;
      all = sym (append-nil (entries K n t));
    };
    grow = λ s' fuel t r k other deep here keeps blank apart above below pt pr.
        let g =
          root_grow s' n fuel t r k other deep (here ∙ sym root ∙ sym keeps.root) blank apart pt pr
            (omega (arith, big, keeps.order)) in
        record {
          after = g.after;
          returns = ap (λ z. insert_into_parent fuel z k (ptr K n r) s') (sym here) ∙ g.returns;
          same = g.same;
          whole = g.whole;
        };
  }
