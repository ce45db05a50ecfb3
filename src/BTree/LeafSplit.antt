-- ===== src/BTree/LeafSplit.antt =====
-- `SplitLeaf`: a leaf with one entry too many becomes two.
use becoming_an_elite_engine.Base.{
  ℕ, zero, suc, ◌+◌, ◌/◌, ◌<◌, ◌≤◌, ◌≡◌, ◌≢◌, refl, ap, ap₂, ◌∙◌, sym, subst, Option, none, some,
  List, [], ◌∷◌, ◌++◌, append_assoc, map, length, take, drop, take-append-drop, length-take,
  length-drop, get_elem?, ◌==◌, arith, Order, All, All-imp, All-left, All-right, IsSorted,
  Bool-cases, ◌⊎◌, inl, inr,
}
use becoming_an_elite_engine.BTree.Heap.{Ptr, null, Leaf, leaf, internal, Node, State, update}
use becoming_an_elite_engine.BTree.Insert.{insert_into_parent, split_leaf, link_back}
use becoming_an_elite_engine.BTree.Shape.{Entry, LeafTree, keys, values}
use becoming_an_elite_engine.BTree.Stored.{view, view-leaf, one_if, update-other, update_here}
use becoming_an_elite_engine.BTree.Window.{Within, length-keys}
use becoming_an_elite_engine.BTree.Records.{keys-append}
use becoming_an_elite_engine.BTree.Context.{IsBlank, Keeps, IsApart, IsPlaced, IsWhole}
use becoming_an_elite_engine.BTree.Around.{IsSorted-prefix, IsSorted-suffix}
use becoming_an_elite_engine.BTree.Split.{strictly_above, below_middle, above_middle}
use becoming_an_elite_engine.BTree.Down.{Spot}
use becoming_an_elite_engine.BTree.LeafRuns.{
  leaf_in, second_leaf, first_leaf_of, leaf_opened, split_leaf_run,
}

-- the link to a next leaf is null or leads to a leaf
abbrev pub LinksToLeaf : {K : Type 0} → (Ptr → Option (Node K)) → Ptr → Type 0
LinksToLeaf {K} cell next = (next ≡ null) ⊎ ((m : Leaf K) × (cell next ≡ some (leaf m)))

module _ {A B : Type 0} (f : A → B) where
  map-take : (i : ℕ) (xs : List A) → take i (map f xs) ≡ map f (take i xs)
  map-take zero xs = refl
  map-take (suc i) [] = refl
  map-take (suc i) (x ∷ xs) = ap (λ l. f x ∷ l) (map-take i xs)

  map-drop : (i : ℕ) (xs : List A) → drop i (map f xs) ≡ map f (drop i xs)
  map-drop zero xs = refl
  map-drop (suc i) [] = refl
  map-drop (suc i) (x ∷ xs) = map-drop i xs

module _ {K : Type 0} where
  view-previous :
      (cell : Ptr → Option (Node K)) (p new : Ptr) (m : Leaf K)
      → cell p ≡ some (leaf m)
      → (a : Ptr)
      → view (update cell p (some (leaf (record m { previous = new }))) a) ≡ view (cell a)
  unfolding update
  view-previous cell p new m here a = ground (arith, here)

  link_back_run :
      (s : State K) (next new : Ptr)
      → LinksToLeaf s.cell next
      → (cell : Ptr → Option (Node K)) × (link_back next new s
          ≡ some (tt, record s { cell = cell }))
        × ((a : Ptr) → view (cell a) ≡ view (s.cell a))
  unfolding link_back
  link_back_run s next new (inl h) = (s.cell, ground (arith, h), λ a. refl)
  link_back_run s next new (inr (m, here)) = elim (Bool-cases (next == null)) [
    | inl h ↦ (s.cell, ground (arith, h), λ a. refl)
    | inr h ↦ (
      update s.cell next (some (leaf (record m { previous = new }))),
      ground (arith, h, here),
      view-previous s.cell next new m here,
    )
  ]

  view-none : (x : Option (Node K)) → view x ≡ none → x ≡ none
  view-none none h = refl
  view-none (some (leaf l)) h = absurd (ground (arith, h))
  view-none (some (internal n)) h = absurd (ground (arith, h))

  cut_entries :
      (es : List (Entry K)) (i : ℕ)
      → i < length es
      → (e : Entry K) × (es' : List (Entry K)) × (drop i es ≡ e ∷ es')
  cut_entries [] i h = absurd (omega (arith, h))
  cut_entries (x ∷ es) zero h = (x, es, refl)
  cut_entries (x ∷ es) (suc i) h = cut_entries es i (omega (arith, h))

module _ {K : Type 0} ⦃o : Order K⦄ (key : K) where
  -- `s1` is `s` but for the leaf at the spot, which has one entry too many
  module _ (s s1 : State K) (f level : ℕ) (from : Ptr) (es0 : List (Entry K))
      (sp : Spot key s f level from es0) (blank : IsBlank s) (next : Ptr) (previous : Ptr)
      (es : List (Entry K)) (other : (a : Ptr) → a ≢ sp.target.ptr → s1.cell a ≡ s.cell a)
      (order : s1.order ≡ s.order) (root : s1.root ≡ s.root) (fresh : s1.fresh ≡ s.fresh)
      (here : s1.cell sp.target.ptr
        ≡ some (
            leaf (record {
              keys = keys es;
              values = values es;
              next = next;
              previous = previous;
              parent = sp.owner;
            })))
      (linked : LinksToLeaf s1.cell next) (sorted : IsSorted (keys es))
      (within : All (Within sp.lower sp.upper) (keys es)) (full : All (λ e. e.1 ≢ []) es)
      (over : length es ≡ s.order) (big : 3 ≤ s.order) where
    abbrev p : Ptr
    p = sp.target.ptr

    abbrev wide : Leaf K
    wide = record {
      keys = keys es;
      values = values es;
      next = next;
      previous = previous;
      parent = sp.owner;
    }

    abbrev half : ℕ
    half = (length (keys es) + 1) / 2

    abbrev two : State K
    two = leaf_in (leaf_opened s1 p wide) p (first_leaf_of wide)

    p-fresh : p < s1.fresh
    p-fresh = omega (arith, fresh, sp.apart.inside p (ground arith))

    two-other : (a : Ptr) → a ≢ p → a ≢ s1.fresh → two.cell a ≡ s.cell a
    two-other a h q =
        update-other (leaf_opened s1 p wide).cell p a _ h
        ∙ update-other s1.cell s1.fresh a _ q
        ∙ other a h

    two-fresh : two.cell s1.fresh ≡ some (leaf (second_leaf p wide))
    two-fresh =
        update-other (leaf_opened s1 p wide).cell p s1.fresh _
          (λ e. absurd (omega (arith, e, p-fresh)))
        ∙ update_here s1.cell s1.fresh _

    blank-fresh : s1.cell s1.fresh ≡ none
    blank-fresh =
        other s1.fresh (λ e. absurd (omega (arith, e, p-fresh)))
        ∙ blank.beyond s1.fresh (omega (arith, fresh))

    two-linked : LinksToLeaf two.cell next
    two-linked = elim linked [
      | inl h ↦ inl h
      | inr g ↦ elim (Bool-cases (next == p)) [
        | inl e ↦ inr (
          first_leaf_of wide,
          ap two.cell (ground (arith, e)) ∙ update_here (leaf_opened s1 p wide).cell p _,
        )
        | inr e ↦ inr (
          g.0,
          update-other (leaf_opened s1 p wide).cell p next _ (ground (arith, e))
              ∙ update-other s1.cell s1.fresh next _
                  (λ q. absurd (ground (arith, ap s1.cell (sym q) ∙ g.1, blank-fresh)))
              ∙ g.1,
        )
      ]
    ]

    back :
        (cell : Ptr → Option (Node K)) × (link_back next s1.fresh two
          ≡ some (tt, record two { cell = cell }))
        × ((a : Ptr) → view (cell a) ≡ view (two.cell a))
    back = link_back_run two next s1.fresh two-linked

    -- the two leaves after the links are set
    left_leaf :
        (n : Ptr) × (q : Ptr) × (back.0 p
          ≡ some (leaf (record (first_leaf_of wide) { next = n; previous = q })))
    left_leaf =
        view-leaf (back.0 p) (first_leaf_of wide)
          (back.2 p ∙ ap view (update_here (leaf_opened s1 p wide).cell p _))

    right_leaf :
        (n : Ptr) × (q : Ptr) × (back.0 s1.fresh
          ≡ some (leaf (record (second_leaf p wide) { next = n; previous = q })))
    right_leaf =
        view-leaf (back.0 s1.fresh) (second_leaf p wide) (back.2 s1.fresh ∙ ap view two-fresh)

    abbrev ended : State K
    ended =
        leaf_in (record two { cell = back.0 }) p
          (record (first_leaf_of wide) { next = s1.fresh; previous = left_leaf.1 })

    abbrev left_tree : LeafTree K
    left_tree = record { ptr = p; entries = take half es; next = s1.fresh; previous = left_leaf.1 }

    abbrev right_tree : LeafTree K
    right_tree = record {
      ptr = s1.fresh;
      entries = drop half es;
      next = right_leaf.0;
      previous = right_leaf.1;
    }

    separator : (e : Entry K) × (es' : List (Entry K)) × (drop half es ≡ e ∷ es')
    separator = cut_entries es half (omega (arith, over, big, length-keys K es))

    ended-keys : keys es ≡ keys (take half es) ++ (separator.0.0 ∷ keys separator.1)
    ended-keys =
        ap keys (sym (take-append-drop half es) ∙ ap (λ l. take half es ++ l) separator.2)
        ∙ keys-append (take half es) (separator.0 ∷ separator.1)

    runs :
        (fuel : ℕ) → split_leaf fuel p s1 ≡ insert_into_parent fuel p separator.0.0 s1.fresh ended
    runs fuel =
        split_leaf_run fuel s1 p wide
          (record (first_leaf_of wide) { next = left_leaf.0; previous = left_leaf.1 })
          (record (second_leaf p wide) { next = right_leaf.0; previous = right_leaf.1 })
          separator.0.0 back.0 here back.1 left_leaf.2 right_leaf.2
          (λ e. absurd (omega (arith, e, p-fresh)))
          (ap (λ l. get_elem? l 0) (map-drop (λ e. e.0) half es ∙ ap keys separator.2))

    ended-view : (a : Ptr) → a ≢ p → view (ended.cell a) ≡ view (two.cell a)
    ended-view a h = ap view (update-other back.0 p a _ h) ∙ back.2 a

    left-IsPlaced : IsPlaced ended 0 sp.owner sp.lower (some separator.0.0) (s1.order / 2) left_tree
    left-IsPlaced = record {
      stored = (
        s1.fresh,
        left_leaf.1,
        update_here back.0 p _
            ∙ ap₂
                (λ x y. some (
                  leaf (record wide {
                    keys = x;
                    values = y;
                    next = s1.fresh;
                    previous = left_leaf.1;
                  })))
                (map-take (λ e. e.0) half es)
                (ap (λ m. take ((m + 1) / 2) (values es)) refl ∙ map-take (λ e. e.1) half es),
      );
      window = (
        IsSorted-prefix (keys (take half es)) _ (subst IsSorted ended-keys sorted),
        below_middle sp.lower sp.upper (keys (take half es)) separator.0.0 (keys separator.1)
            (subst IsSorted ended-keys sorted) (subst (All _) ended-keys within),
      );
      full = (
        ground (arith, length-take half es, over, length-keys K es, big, order),
        ground (arith, length-take half es, over, length-keys K es, big, order),
        All-left _ (take half es) (drop half es)
            (subst (All _) (sym (take-append-drop half es)) full),
      );
    }

    right-IsPlaced : IsPlaced ended 0 null (some separator.0.0) sp.upper (s1.order / 2) right_tree
    right-IsPlaced = record {
      stored = (
        right_leaf.0,
        right_leaf.1,
        update-other back.0 p s1.fresh _ (λ e. absurd (omega (arith, e, p-fresh)))
            ∙ right_leaf.2
            ∙ ap₂
                (λ x y. some (
                  leaf (record {
                    keys = x;
                    values = y;
                    next = right_leaf.0;
                    previous = right_leaf.1;
                    parent = null;
                  })))
                (map-drop (λ e. e.0) half es) (map-drop (λ e. e.1) half es),
      );
      window =
          (let k = separator.0.0 in
            let kb = keys separator.1 in
            let suffix =
              IsSorted-suffix (keys (take half es)) (k ∷ kb) (subst IsSorted ended-keys sorted) in
            let wr = All-right _ (keys (take half es)) (k ∷ kb) (subst (All _) ended-keys within) in
            subst (λ l. IsSorted l × All (Within (some k) sp.upper) l) (sym (ap keys separator.2))
              (
                suffix,
                (
                  (o.lt_irrefl k, wr.0.1),
                  above_middle sp.upper k kb suffix.0 (All-imp (λ j q. q.1) kb wr.1),
                ),
              ));
      full = (
        ground (arith, length-drop half es, over, length-keys K es, big, order),
        ground (arith, length-drop half es, over, length-keys K es, big, order),
        All-right _ (take half es) (drop half es)
            (subst (All _) (sym (take-append-drop half es)) full),
      );
    }

    ended-IsBlank : IsBlank ended
    ended-IsBlank = record {
      proper = omega arith;
      beyond = λ a h. view-none (ended.cell a) (
          ended-view a (λ e. absurd (omega (arith, h, e, p-fresh)))
          ∙ ap view (
              two-other a (λ e. absurd (omega (arith, h, e, p-fresh)))
                (λ e. absurd (omega (arith, h, e)))
              ∙ blank.beyond a (omega (arith, h, fresh))));
    }

    ended-Keeps : Keeps sp.out s ended
    ended-Keeps = record {
      order = order;
      root = root;
      cells = λ a h.
          let apart : a ≢ p = λ e. absurd (ground (arith, h, e, sp.apart.once a)) in
          ended-view a apart
          ∙ ap view (
              two-other a apart
                (λ e. absurd (omega (arith, h, e, fresh, sp.apart.inside a (omega (arith, h))))));
    }

    ended-IsApart : IsApart ended (λ a. sp.out a + (one_if p a + one_if s1.fresh a))
    ended-IsApart = record {
      once = λ a. ground (arith, fresh, sp.apart.once a, sp.apart.inside a, p-fresh);
      inside = λ a h. ground (arith, h, fresh, sp.apart.inside a, p-fresh);
      nonnull = ground (arith, sp.apart.nonnull, blank.proper, fresh);
    }

    pub split_leaf-IsWhole :
        (fuel : ℕ)
        → level < fuel
        → (s' : State K) × (split_leaf fuel p s1 ≡ some (tt, s'))
          × (s'.order ≡ s1.order)
          × (s'.size ≡ s1.size)
          × IsWhole s' (sp.pre ++ (es ++ sp.post))
    split_leaf-IsWhole fuel deep =
        let k = separator.0.0 in
        let wr =
          All-right _ (keys (take half es)) (k ∷ keys separator.1)
            (subst (All _) ended-keys within) in
        let g =
          sp.context.grow ended fuel left_tree right_tree k null (omega (arith, deep, sp.shallow))
            refl ended-Keeps ended-IsBlank ended-IsApart
            (strictly_above sp.lower sp.upper (keys (take half es)) k (keys separator.1)
              (ground (
                arith,
                length-take half es,
                over,
                length-keys K es,
                length-keys K (take half es),
                big,
              ))
              (subst IsSorted ended-keys sorted) (subst (All _) ended-keys within))
            wr.0.1 left-IsPlaced right-IsPlaced in
        (
          g.after,
          runs fuel ∙ g.returns,
          g.same.order,
          g.same.size,
          subst (IsWhole g.after)
              (ap (λ l. sp.pre ++ l)
                (sym (append_assoc (take half es) (drop half es) sp.post)
                  ∙ ap (λ l. l ++ sp.post) (take-append-drop half es)))
              g.whole,
        )
