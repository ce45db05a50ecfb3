-- ===== src/BTree/Reparent.antt =====
-- `child->parent = ...` for a list of children, as `SplitInternal` does it.
use becoming_an_elite_engine.Base.{
  ℕ, ◌<◌, ◌≤◌, ◌≡◌, refl, ap, ◌∙◌, sym, subst, Option, none, some, List, [], ◌∷◌, map, arith, All,
}
use becoming_an_elite_engine.BTree.Heap.{
  Ptr, Node, State, update, with_parent, set_parent, for_each,
}
use becoming_an_elite_engine.BTree.Shape.{Tree, ptr}
use becoming_an_elite_engine.BTree.Stored.{
  total, view, links_of, occ, occ-ptr, Stored, Stored-agree, Stored-node, Stored-with_parent,
  links-with_parent, update-other,
}

module _ {K : Type 0} where
  pub set_parent_at :
      (s : State K) (p q : Ptr) (x : Node K)
      → s.cell p ≡ some x
      → set_parent p q s ≡ some (tt, record s { cell = update s.cell p (some (with_parent x q)) })
  set_parent_at s p q x here = ground (arith, here)

  loop_step :
      (s s' : State K) (c : Ptr) (cs : List Ptr) (q : Ptr)
      → set_parent c q s ≡ some (tt, s')
      → for_each (c ∷ cs) (λ child. set_parent child q) s
        ≡ for_each cs (λ child. set_parent child q) s'
  unfolding for_each
  loop_step s s' c cs q h = ground (arith, h)

  loop_end : (s : State K) (q : Ptr) → for_each [] (λ child. set_parent child q) s ≡ some (tt, s)
  unfolding for_each
  loop_end s q = refl

-- the heap after the children `ts` of a node have got the parent `q`
pub record Reparented {K : Type 0} (s : State K) (n : ℕ) (q : Ptr) (ts : List (Tree K n))
    : Type 0 where
  pub cell : Ptr → Option (Node K)
  pub returns :
      for_each (map (ptr K n) ts) (λ child. set_parent child q) s
      ≡ some (tt, record s { cell = cell })
  pub stored : All (Stored K n cell q) ts
  pub other : (a : Ptr) → total (λ t. occ K n a t) ts ≡ 0 → cell a ≡ s.cell a
  pub links : (a : Ptr) → links_of (cell a) ≡ links_of (s.cell a)
  pub blank : (a : Ptr) → s.cell a ≡ none → cell a ≡ none

module _ {K : Type 0} where
  owned-agree :
      (n : ℕ) (cell cell' : Ptr → Option (Node K)) (ts : List (Tree K n))
      → ((a : Ptr) → 0 < total (λ t. occ K n a t) ts → view (cell' a) ≡ view (cell a))
      → All (λ t. (parent : Ptr) × Stored K n cell parent t) ts
      → All (λ t. (parent : Ptr) × Stored K n cell' parent t) ts
  owned-agree n cell cell' [] same h = tt
  owned-agree n cell cell' (t ∷ ts) same h = (
    (h.0.0, Stored-agree K n cell cell' h.0.0 t (λ a q. same a (omega arith)) h.0.1),
    owned-agree n cell cell' ts (λ a q. same a (omega arith)) h.1,
  )

  pub for_each-Reparented :
      (n : ℕ) (s : State K) (q : Ptr) (ts : List (Tree K n))
      → ((a : Ptr) → total (λ t. occ K n a t) ts ≤ 1)
      → All (λ t. (parent : Ptr) × Stored K n s.cell parent t) ts
      → Reparented s n q ts
  for_each-Reparented n s q [] once stored = record {
    cell = s.cell;
    returns = loop_end s q;
    stored = tt;
    other = λ a h. refl;
    links = λ a. refl;
    blank = λ a h. h;
  }
  for_each-Reparented n s q (t ∷ ts) once stored =
      let (x, here, owner) = Stored-node K n s.cell stored.0.0 t stored.0.1 in
      let p = ptr K n t in
      let positive : (a : Ptr) → a ≡ p → 0 < occ K n a t =
        λ a e. subst (λ z. 0 < occ K n z t) (sym e) (occ-ptr K n t) in
      let cell1 = update s.cell p (some (with_parent x q)) in
      let s1 : State K = record s { cell = cell1 } in
      let rest =
        for_each-Reparented n s1 q ts (λ a. omega (arith, once a))
          (owned-agree n s.cell cell1 ts
            (λ a h.
              ap view
                (update-other s.cell p a _ (λ e. absurd (omega (arith, positive a e, once a, h)))))
            stored.1) in
      record {
        cell = rest.cell;
        returns = loop_step s s1 p (map (ptr K n) ts) q (set_parent_at s p q x here) ∙ rest.returns;
        stored = (
          Stored-agree K n cell1 rest.cell q t
              (λ a h. ap view (rest.other a (omega (arith, once a))))
              (Stored-with_parent K n s.cell stored.0.0 q t x here (omega (arith, once p))
                stored.0.1),
          rest.stored,
        );
        other = λ a h.
            rest.other a (omega (arith, h))
            ∙ update-other s.cell p a _ (λ e. absurd (omega (arith, positive a e, h)));
        links = λ a. rest.links a ∙ links-with_parent s.cell p q a x here;
        blank = λ a h. rest.blank a (update-other s.cell p a _ (λ e. absurd (cc)) ∙ h);
      }
