-- ===== src/BTree/LeafInsert.antt =====
-- `InsertIntoLeaf` where the leaf does not overflow: the whole tree afterwards.
use becoming_an_elite_engine.Base.{
  ℕ, zero, suc, ◌+◌, ◌-◌, ◌^◌, ◌≤◌, ◌≡◌, ◌≢◌, refl, ap, ap₂, ◌∙◌, sym, subst, some, List, [], ◌∷◌,
  ◌++◌, length, length-append, length-map, set, insert_at, get_elem?, get_elem?_exists, ltb, true,
  false, arith, Order, ◌≺◌, All, All-append, All-left, All-right, IsSorted, if◌then◌else◌,
}
use becoming_an_elite_engine.BTree.Bound.{lower_bound_index, partition_point}
use becoming_an_elite_engine.BTree.Splits.{less}
use becoming_an_elite_engine.BTree.Heap.{Ptr, RecordId, Leaf, leaf, State}
use becoming_an_elite_engine.BTree.Insert.{insert_into_leaf, split_leaf, present}
use becoming_an_elite_engine.BTree.Shape.{Entry, keys, values}
use becoming_an_elite_engine.BTree.Lookup.{lower_bound_index-partition_point}
use becoming_an_elite_engine.BTree.Stored.{view, update-other, update_here}
use becoming_an_elite_engine.BTree.Window.{Within, length-keys}
use becoming_an_elite_engine.BTree.Context.{IsBlank, IsWhole}
use becoming_an_elite_engine.BTree.Positions.{insert_at-append, get_middle, map-append}
use becoming_an_elite_engine.BTree.Down.{Spot}
use becoming_an_elite_engine.BTree.Slot.{HeadAbove, All-keys-insert, IsSorted-missing}
use becoming_an_elite_engine.BTree.LeafRuns.{
  leaf_in, run_there, with_entry, run_missing, present_there, present_missing,
}

module _ {A : Type 0} where
  set-append :
      (xs ys : List A) (x v : A) (i : ℕ) → i ≡ length xs → set (xs ++ (x ∷ ys)) i v ≡ xs ++ (v ∷ ys)
  set-append [] ys x v zero h = refl
  set-append [] ys x v (suc i) h = absurd (omega (arith, h))
  set-append (z ∷ xs) ys x v zero h = absurd (omega (arith, h))
  set-append (z ∷ xs) ys x v (suc i) h = ap (λ l. z ∷ l) (set-append xs ys x v i (omega (arith, h)))

  snoc-nonempty : (xs : List A) (x : A) → xs ++ (x ∷ []) ≢ []
  snoc-nonempty [] x = λ e. absurd (ground (arith, e))
  snoc-nonempty (y ∷ xs) x = λ e. absurd (ground (arith, e))

module _ {K : Type 0} ⦃o : Order K⦄ (key : K) (id : RecordId) where
  head_at :
      (a b : List (Entry K)) (i : ℕ) (k : K)
      → HeadAbove key b
      → i ≡ length a
      → get_elem? (keys (a ++ b)) i ≡ some k
      → o.lt key k ≡ true
  head_at [] [] i k head h e = absurd (cc)
  head_at [] ((j, v) ∷ b) zero k head h e = ground (arith, e, head)
  head_at [] ((j, v) ∷ b) (suc i) k head h e = absurd (omega (arith, h))
  head_at (x ∷ a) b zero k head h e = absurd (omega (arith, h))
  head_at (x ∷ a) b (suc i) k head h e = head_at a b i k head (omega (arith, h)) e

  module _ {s : State K} {f level : ℕ} {from : Ptr} {es0 : List (Entry K)}
      (sp : Spot key s f level from es0) (blank : IsBlank s) where
    abbrev pub spot_leaf : Leaf K
    spot_leaf = record {
      keys = keys sp.target.entries;
      values = values sp.target.entries;
      next = sp.placed.stored.0;
      previous = sp.placed.stored.1;
      parent = sp.owner;
    }

    pub lower_index :
        s.order ≤ 2 ^ 31
        → 3 ≤ s.order
        → lower_bound_index (keys sp.target.entries) key
          ≡ some (partition_point (less key) (keys sp.target.entries))
    lower_index small big =
        lower_bound_index-partition_point key (keys sp.target.entries)
          (omega (arith, small, big, length-keys K sp.target.entries, sp.placed.full.1))
          sp.placed.window.0

    -- another leaf in the place of the one that the way leads to
    leaf_close :
        (s' : State K) (es : List (Entry K))
        → ((a : Ptr) → a ≢ sp.target.ptr → s'.cell a ≡ s.cell a)
        → s'.order ≡ s.order
        → s'.root ≡ s.root
        → s'.fresh ≡ s.fresh
        → (s'.cell sp.target.ptr
            ≡ some (leaf (record spot_leaf { keys = keys es; values = values es })))
        → IsSorted (keys es)
        → All (Within sp.lower sp.upper) (keys es)
        → sp.least ≤ length es
        → length es ≤ s.order - 1
        → All (λ e. e.1 ≢ []) es
        → IsWhole s' (sp.pre ++ (es ++ sp.post))
    leaf_close s' es other order root fresh cell sorted within least few full =
        sp.context.close s' (record sp.target { entries = es }) refl
          (record {
            order = order;
            root = root;
            cells = λ a h. ap view (other a (λ e. absurd (ground (arith, h, e, sp.apart.once a))));
          })
          (record {
            proper = omega (arith, fresh, blank.proper);
            beyond = λ a h.
                other a (λ e. absurd (ground (arith, h, e, fresh, sp.apart.inside a)))
                ∙ blank.beyond a (omega (arith, h, fresh));
          })
          (record {
            once = sp.apart.once;
            inside = λ a h. omega (arith, fresh, sp.apart.inside a h);
            nonnull = sp.apart.nonnull;
          })
          (record {
            stored = (spot_leaf.next, spot_leaf.previous, cell);
            window = (sorted, within);
            full = (least, omega (arith, order, few), full);
          })

    -- the key is there
    pub insert-there :
        (fuel : ℕ) (a b : List (Entry K)) (k : K) (v : List RecordId)
        → sp.target.entries ≡ a ++ ((k, v) ∷ b)
        → o.lt key k ≡ false
        → partition_point (less key) (keys sp.target.entries) ≡ length a
        → s.order ≤ 2 ^ 31
        → 3 ≤ s.order
        → let s' = leaf_in s sp.target.ptr (record spot_leaf {
          values =
              set
                (values sp.target.entries)
                (partition_point (less key) (keys sp.target.entries))
                (v ++ (id ∷ []));
        }) in
          (insert_into_leaf fuel sp.target.ptr key id s ≡ some (tt, s'))
          × IsWhole s' (sp.pre ++ ((a ++ ((k, v ++ (id ∷ [])) ∷ b)) ++ sp.post))
    insert-there fuel a b k v all g index small big =
        let i = partition_point (less key) (keys sp.target.entries) in
        let es' = a ++ ((k, v ++ (id ∷ [])) ∷ b) in
        let ks : keys sp.target.entries ≡ keys a ++ (k ∷ keys b) =
          ap keys all ∙ map-append _ a ((k, v) ∷ b) in
        let ks' : keys es' ≡ keys sp.target.entries =
          map-append _ a ((k, v ++ (id ∷ [])) ∷ b) ∙ sym ks in
        let vs : values sp.target.entries ≡ values a ++ (v ∷ values b) =
          ap values all ∙ map-append _ a ((k, v) ∷ b) in
        let vs' : values es' ≡ values a ++ ((v ++ (id ∷ [])) ∷ values b) =
          map-append _ a ((k, v ++ (id ∷ [])) ∷ b) in
        let at_values : i ≡ length (values a) = index ∙ sym (length-map _ a) in
        let value : get_elem? (values sp.target.entries) i ≡ some v =
          ap (λ l. get_elem? l i) vs ∙ get_middle (values a) (values b) v i (sym at_values) in
        let key_at : get_elem? (keys sp.target.entries) i ≡ some k =
          ap (λ l. get_elem? l i) ks
          ∙ get_middle (keys a) (keys b) k i (sym (index ∙ sym (length-map _ a))) in
        let many : length es' ≡ length sp.target.entries = omega (
          arith,
          length-append a ((k, v ++ (id ∷ [])) ∷ b),
          length-append a ((k, v) ∷ b),
          ap length all,
        ) in
        let is : present (keys sp.target.entries) i key s ≡ some (true, s) =
          present_there s (keys sp.target.entries) i key k key_at
            (omega (
              arith,
              index,
              ap length all,
              length-append a ((k, v) ∷ b),
              length-keys K sp.target.entries,
            ))
            g in
        (
          run_there fuel s sp.target.ptr key k id spot_leaf i v sp.placed.stored.2
              (lower_index small big) is value,
          leaf_close _ es' (λ a' h. update-other s.cell sp.target.ptr a' _ h) refl refl refl
              (update_here s.cell sp.target.ptr _
                ∙ ap₂ (λ x y. some (leaf (record spot_leaf { keys = x; values = y }))) (sym ks')
                    (ap (λ l. set l i (v ++ (id ∷ []))) vs
                      ∙ set-append (values a) (values b) v (v ++ (id ∷ [])) i at_values
                      ∙ sym vs'))
              (rw ks' sp.placed.window.0) (rw ks' sp.placed.window.1)
              (omega (arith, many, sp.placed.full.0)) (omega (arith, many, sp.placed.full.1))
              (let full = subst (All _) all sp.placed.full.2 in
                All-append _ a ((k, v ++ (id ∷ [])) ∷ b) (All-left _ a _ full)
                  (snoc-nonempty v id, (All-right _ a _ full).1)),
        )

    -- the key is missing: the leaf with its new entry, in the heap
    module _ (a b : List (Entry K)) (all : sp.target.entries ≡ a ++ b)
        (low : All (λ e. e.0 ≺ key) a) (head : HeadAbove key b)
        (index : partition_point (less key) (keys sp.target.entries) ≡ length a)
        (small : s.order ≤ 2 ^ 31) (big : 3 ≤ s.order) where
      abbrev pub new_entries : List (Entry K)
      new_entries = a ++ ((key, id ∷ []) ∷ b)

      abbrev pub position : ℕ
      position = partition_point (less key) (keys sp.target.entries)

      abbrev pub with_new : State K
      with_new = with_entry s sp.target.ptr spot_leaf position key id

      pub new-keys : insert_at (keys sp.target.entries) position key ≡ keys new_entries
      new-keys =
          ap (λ l. insert_at l position key) (ap keys all ∙ map-append _ a b)
          ∙ insert_at-append (keys a) (keys b) position key (index ∙ sym (length-map _ a))
          ∙ sym (map-append _ a ((key, id ∷ []) ∷ b))

      new-values : insert_at (values sp.target.entries) position (id ∷ []) ≡ values new_entries
      new-values =
          ap (λ l. insert_at l position (id ∷ [])) (ap values all ∙ map-append _ a b)
          ∙ insert_at-append (values a) (values b) position (id ∷ []) (index ∙ sym (length-map _ a))
          ∙ sym (map-append _ a ((key, id ∷ []) ∷ b))

      pub new-cell :
          with_new.cell sp.target.ptr
          ≡ some (leaf (record spot_leaf { keys = keys new_entries; values = values new_entries }))
      new-cell =
          update_here s.cell sp.target.ptr _
          ∙ ap₂ (λ x y. some (leaf (record spot_leaf { keys = x; values = y }))) new-keys new-values

      pub new-IsSorted : IsSorted (keys new_entries)
      new-IsSorted =
          IsSorted-missing key id a b (id ∷ [])
            (subst (λ z. IsSorted (keys z)) all sp.placed.window.0) low head

      pub new-Within : All (Within sp.lower sp.upper) (keys new_entries)
      new-Within =
          All-keys-insert key id (Within sp.lower sp.upper) a b (id ∷ []) (sp.from_key, sp.to_key)
            (subst (λ z. All (Within sp.lower sp.upper) (keys z)) all sp.placed.window.1)

      pub new-full : All (λ e. e.1 ≢ []) new_entries
      new-full =
          let full = subst (All _) all sp.placed.full.2 in
          All-append _ a ((key, id ∷ []) ∷ b) (All-left _ a _ full)
            ((λ e. absurd (ground (arith, e))), All-right _ a _ full)

      pub length-new : length new_entries ≡ length sp.target.entries + 1
      length-new =
          omega (arith, length-append a ((key, id ∷ []) ∷ b), length-append a b, ap length all)

      missing_at :
          (k : K) → get_elem? (keys sp.target.entries) position ≡ some k → o.lt key k ≡ true
      missing_at k e =
          head_at a b position k head index (ap (λ z. get_elem? (keys z) position) (sym all) ∙ e)

      pub runs-missing :
          (fuel : ℕ)
          → insert_into_leaf fuel sp.target.ptr key id s ≡ (
              if ltb (s.order - 1) (length new_entries)
              then split_leaf fuel sp.target.ptr with_new
              else some (tt, with_new))
      runs-missing fuel =
          run_missing fuel s sp.target.ptr key id spot_leaf position sp.placed.stored.2
            (lower_index small big)
            (present_missing s (keys sp.target.entries) position key missing_at
              (get_elem?_exists _ _))
          ∙ rw (new-keys, length-keys K new_entries) refl

      pub insert-room :
          (fuel : ℕ)
          → length new_entries ≤ s.order - 1
          → (insert_into_leaf fuel sp.target.ptr key id s ≡ some (tt, with_new))
            × IsWhole with_new (sp.pre ++ (new_entries ++ sp.post))
      insert-room fuel room =
          let test : ltb (s.order - 1) (length new_entries) ≡ false = ground (arith, room) in
          (
            runs-missing fuel ∙ rw test refl,
            leaf_close with_new new_entries (λ a' h. update-other s.cell sp.target.ptr a' _ h) refl
                refl refl new-cell new-IsSorted new-Within
                (omega (arith, length-new, sp.placed.full.0)) room new-full,
          )
