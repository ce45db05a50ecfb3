-- ===== src/BTree/Range.antt =====
-- `RangeSearch`: the records between two keys, along the chain of leaves.
use becoming_an_elite_engine.Base.{
  ◌≢◌, ℕ, zero, suc, ◌<◌, ◌≡◌, refl, ap, ◌∙◌, sym, subst, false, Option, some, List, [], ◌∷◌, ◌++◌,
  append_assoc, append-nil, length, length-append, drop, arith, Order, ◌≺◌, All, All-append,
  All-right, Bool-cases, inl, inr, if◌then◌else◌,
}
use becoming_an_elite_engine.BTree.Bound.{partition_point}
use becoming_an_elite_engine.BTree.Splits.{less}
use becoming_an_elite_engine.BTree.Heap.{Ptr, null, RecordId, Node, State, leaf}
use becoming_an_elite_engine.BTree.Find.{range_leaf, range_walk, range_search}
use becoming_an_elite_engine.BTree.Shape.{
  Entry, LeafTree, Tree, entries, leaves, keys, values, Represents, IsChain, IsTree, first, join,
}
use becoming_an_elite_engine.BTree.Descent.{flat}
use becoming_an_elite_engine.BTree.Records.{
  upto, stops, upto-append, keys-drop, values-drop, entries-IsSorted, records, records-split,
  records_empty,
}
use becoming_an_elite_engine.BTree.Lookup.{
  Found, find_leaf-Found, lower_bound_index-partition_point,
}

module _ {K : Type 0} where
  abbrev pub IsStored : (Ptr → Option (Node K)) → LeafTree K → Type 0
  IsStored cell l =
      (owner : Ptr) × (cell l.ptr
        ≡ some (
            leaf (record {
              keys = keys l.entries;
              values = values l.entries;
              next = l.next;
              previous = l.previous;
              parent = owner;
            })))

  IsStored-forest :
      (n : ℕ) (cell : Ptr → Option (Node K)) (parent : Ptr)
      → ((t : Tree K n) → Represents K n cell parent t → All (IsStored cell) (leaves K n t))
      → (ts : List (Tree K n)) → All (Represents K n cell parent) ts
      → All (IsStored cell) (join (leaves K n) ts)
  IsStored-forest n cell parent one [] h = tt
  IsStored-forest n cell parent one (t ∷ ts) h =
      All-append _ (leaves K n t) _ (one t h.0) (IsStored-forest n cell parent one ts h.1)

  pub IsStored-leaves :
      (n : ℕ) (cell : Ptr → Option (Node K)) (parent : Ptr) (t : Tree K n)
      → Represents K n cell parent t
      → All (IsStored cell) (leaves K n t)
  IsStored-leaves zero cell parent t h = ((parent, h), tt)
  IsStored-leaves (suc n) cell parent t h =
      IsStored-forest n cell t.ptr (IsStored-leaves n cell t.ptr) t.children h.1

module _ {K : Type 0} ⦃o : Order K⦄ (upper : K) where
  range_leaf-upto :
      (es : List (Entry K)) (result : List RecordId)
      → range_leaf upper (keys es) (values es) result
        ≡ some (stops upper es, result ++ upto upper es)
  unfolding range_leaf
  range_leaf-upto [] result = ground (arith, append-nil result)
  range_leaf-upto ((k, v) ∷ es) result = ground (
    arith,
    range_leaf-upto es (result ++ v),
    append-nil result,
    append_assoc result v (upto upper es),
  )

  walk_nil :
      (s : State K) (fuel : ℕ) (i : ℕ) (result : List RecordId)
      → range_walk (suc fuel) upper null i result s ≡ some (result, s)
  unfolding range_walk
  walk_nil s fuel i result = refl

  walk_cons :
      (s : State K) (fuel : ℕ) (l : LeafTree K) (i : ℕ) (result : List RecordId)
      → l.ptr ≢ null
      → IsStored s.cell l
      → range_walk (suc fuel) upper l.ptr i result s ≡ (
          if stops upper (drop i l.entries)
          then some (result ++ upto upper (drop i l.entries), s)
          else range_walk fuel upper l.next 0 (result ++ upto upper (drop i l.entries)) s)
  unfolding range_walk
  walk_cons s fuel l i result not_null stored = ground (
    arith,
    stored.1,
    keys-drop i l.entries,
    values-drop i l.entries,
    range_leaf-upto (drop i l.entries) result,
  )

  range_walk-upto :
      (s : State K) (fuel : ℕ) (previous : Ptr) (ls : List (LeafTree K)) (result : List RecordId)
      → length ls < fuel
      → IsChain previous ls
      → All (IsStored s.cell) ls
      → range_walk fuel upper (first ls) 0 result s ≡ some (result ++ upto upper (flat ls), s)
  range_walk-upto s zero previous ls result enough chain stored = absurd (omega arith)
  range_walk-upto s (suc fuel) previous [] result enough chain stored =
      ground (arith, walk_nil s fuel 0 result, append-nil result)
  range_walk-upto s (suc fuel) previous (l ∷ ls) result enough chain stored = ground (
    arith,
    walk_cons s fuel l 0 result chain.2 stored.0,
    chain.1,
    upto-append upper l.entries (flat ls),
    append_assoc result (upto upper l.entries) (upto upper (flat ls)),
    range_walk-upto s fuel l.ptr ls (result ++ upto upper l.entries) (omega arith) chain.3 stored.1,
  )

IsChain-tail :
    {K : Type 0} (previous : Ptr) (before : List (LeafTree K)) (l : LeafTree K)
    (after : List (LeafTree K))
    → IsChain previous (before ++ (l ∷ after))
    → (l.next ≡ first after) × IsChain l.ptr after
IsChain-tail previous [] l after h = (h.1, h.3)
IsChain-tail previous (b ∷ before) l after h = IsChain-tail b.ptr before l after h.3

module _ {K : Type 0} ⦃o : Order K⦄ (lower upper : K) where
  range_search-Found :
      (s : State K) (n fuel : ℕ) (t : Tree K n) (f : Found lower s n t fuel)
      → s.root ≢ null
      → length (leaves K n t) < fuel
      → o.lt upper lower ≡ false
      → All (IsStored s.cell) (leaves K n t)
      → range_search fuel lower upper s
        ≡ some (
          upto upper (
              drop (partition_point (less lower) (keys f.target.entries)) f.target.entries
              ++ flat f.after),
          s,
        )
  unfolding range_search
  range_search-Found s n zero t f root enough proper stored = absurd (omega arith)
  range_search-Found s n (suc fuel) t f root enough proper stored =
      let i = partition_point (less lower) (keys f.target.entries) in
      let (link, chain) = IsChain-tail null f.before f.target f.after f.chain in
      let behind : All (IsStored s.cell) (f.target ∷ f.after) =
        All-right _ f.before _ (subst (All _) f.split stored) in
      let few : length f.after < fuel =
        omega (arith, ap length f.split, length-append f.before (f.target ∷ f.after)) in
      ground (
        arith,
        f.found,
        f.stored,
        lower_bound_index-partition_point lower (keys f.target.entries) f.small f.sorted,
        walk_cons upper s fuel f.target i [] f.not_null behind.0,
        link,
        range_walk-upto upper s fuel f.target.ptr f.after (upto upper (drop i f.target.entries)) few
            chain behind.1,
        upto-append upper (drop i f.target.entries) (flat f.after),
      )

  range_search-null :
      (s : State K) (fuel : ℕ) → s.root ≡ null → range_search fuel lower upper s ≡ some ([], s)
  unfolding range_search
  range_search-null s fuel h = ground arith

  range_search-improper :
      (s : State K) (fuel : ℕ) → upper ≺ lower → range_search fuel lower upper s ≡ some ([], s)
  unfolding range_search
  range_search-improper s fuel h = ground arith

  -- On a well-formed tree, with more fuel than it has levels below the root and leaves,
  -- `RangeSearch` returns the records of the entries from the lower key to the upper key, both
  -- included, in the order of the keys, and changes nothing.
  pub range_search-records :
      (s : State K) (n fuel : ℕ) (t : Tree K n)
      → IsTree s n t
      → n < fuel
      → length (leaves K n t) < fuel
      → range_search fuel lower upper s ≡ some (records lower upper (entries K n t), s)
  range_search-records s n fuel t h enough many = elim (Bool-cases (o.lt upper lower)) [
    | inl improper ↦
        range_search-improper s fuel improper
        ∙ ap (λ l. some (l, s)) (sym (records_empty lower upper (entries K n t) improper))
    | inr proper ↦
        let f = find_leaf-Found lower s n fuel t enough h in
        range_search-Found s n fuel t f (λ e. h.not_null (sym h.root ∙ e)) many proper
          (IsStored-leaves n s.cell null t h.represented)
        ∙ ap (λ l. some (l, s))
            (sym (
              records-split lower upper (flat f.before) f.target.entries (flat f.after) f.all
                (entries-IsSorted K n t h.ordered) f.low f.sorted f.high))
  ]
