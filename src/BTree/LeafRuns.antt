-- ===== src/BTree/LeafRuns.antt =====
-- `InsertIntoLeaf` and `SplitLeaf`, as equations between runs.
use becoming_an_elite_engine.Base.{
  ℕ, ◌+◌, ◌-◌, ◌/◌, ◌%◌, ◌<◌, ◌≡◌, ◌≢◌, ◌∙◌, Option, some, List, [], ◌∷◌, ◌++◌, length, take, drop,
  set, insert_at, get_elem?, ltb, true, false, arith, if◌then◌else◌, Order, Bool-cases, inl, inr,
  ltb→lt,
}
use becoming_an_elite_engine.BTree.Bound.{lower_bound_index}
use becoming_an_elite_engine.BTree.Heap.{
  Ptr, null, RecordId, Leaf, leaf, Node, State, M, word, update, load_leaf, index, store, ◌>>=◌,
  ◌>>◌,
}
use becoming_an_elite_engine.BTree.Insert.{
  insert_into_parent, insert_into_leaf, split_leaf, link_back, present,
}
use becoming_an_elite_engine.BTree.Stored.{update-other, update_here}
use becoming_an_elite_engine.BTree.Runs.{bind_at}

module _ {K : Type 0} where
  abbrev pub leaf_in : State K → Ptr → Leaf K → State K
  leaf_in s p l = record s { cell = update s.cell p (some (leaf l)) }

  -- the new leaf of `SplitLeaf`
  abbrev pub second_leaf : Ptr → Leaf K → Leaf K
  second_leaf p l = record {
    keys = drop ((length l.keys + 1) / 2) l.keys;
    values = drop ((length l.keys + 1) / 2) l.values;
    next = l.next;
    previous = p;
    parent = null;
  }

  abbrev pub first_leaf_of : Leaf K → Leaf K
  first_leaf_of l = record l {
    keys = take ((length l.keys + 1) / 2) l.keys;
    values = take ((length l.keys + 1) / 2) l.values;
  }

  abbrev pub leaf_opened : State K → Ptr → Leaf K → State K
  leaf_opened s p l = record s {
    cell = update s.cell s.fresh (some (leaf (second_leaf p l)));
    fresh = s.fresh + 1;
  }

  -- the rest of `SplitLeaf`, from two of its statements on
  abbrev last_steps : ℕ → Ptr → Ptr → M K (Unit {0})
  last_steps fuel p new = do
    n ← load_leaf new
    key ← index n.keys 0
    insert_into_parent fuel p key new

  abbrev finish : ℕ → Ptr → Ptr → M K (Unit {0})
  finish fuel p new = do
    l' ← load_leaf p
    store p (leaf (record l' { next = new }))
    last_steps fuel p new

  pub split_leaf_run :
      (fuel : ℕ) (s : State K) (p : Ptr) (l l' n : Leaf K) (key : K) (cell : Ptr → Option (Node K))
      → s.cell p ≡ some (leaf l)
      → let s2 = leaf_in (leaf_opened s p l) p (first_leaf_of l) in
        link_back l.next s.fresh s2 ≡ some (tt, record s2 { cell = cell })
        → cell p ≡ some (leaf l')
        → cell s.fresh ≡ some (leaf n)
        → s.fresh ≢ p
        → get_elem? n.keys 0 ≡ some key
        → split_leaf fuel p s
          ≡ insert_into_parent fuel p key s.fresh
              (leaf_in (record s2 { cell = cell }) p (record l' { next = s.fresh }))
  unfolding split_leaf
  split_leaf_run fuel s p l l' n key cell here back still there apart first =
      let s1 = leaf_opened s p l in
      let s2 = leaf_in s1 p (first_leaf_of l) in
      let s3 = record s2 { cell = cell } in
      let s4 = leaf_in s3 p (record l' { next = s.fresh }) in
      let there' : s4.cell s.fresh ≡ some (leaf n) = update-other cell p s.fresh _ apart ∙ there in
      bind_at (load_leaf p) _ s s l (ground (arith, here))
      ∙ bind_at (link_back l.next s.fresh) (λ done. finish fuel p s.fresh) s2 s3 tt back
      ∙ bind_at (load_leaf p)
          (λ rest. (store p (leaf (record rest { next = s.fresh })) >> last_steps fuel p s.fresh))
          s3 s3 l' (ground (arith, still))
      ∙ bind_at (load_leaf s.fresh)
          (λ rest. (index rest.keys 0 >>= (λ k. insert_into_parent fuel p k s.fresh))) s4 s4 n
          (ground (arith, there'))
      ∙ bind_at (index n.keys 0) (λ k. insert_into_parent fuel p k s.fresh) s4 s4 key
          (ground (arith, first))

module _ {K : Type 0} ⦃o : Order K⦄ where
  pub run_there :
      (fuel : ℕ) (s : State K) (p : Ptr) (key k : K) (id : RecordId) (l : Leaf K) (i : ℕ)
      (v : List RecordId)
      → s.cell p ≡ some (leaf l)
      → lower_bound_index l.keys key ≡ some i
      → present l.keys i key s ≡ some (true, s)
      → get_elem? l.values i ≡ some v
      → insert_into_leaf fuel p key id s
        ≡ some (tt, leaf_in s p (record l { values = set l.values i (v ++ (id ∷ [])) }))
  unfolding insert_into_leaf
  run_there fuel s p key k id l i v here bound is value =
      bind_at (load_leaf p) _ s s l (ground (arith, here)) ∙ ground (arith, bound, is, value)

  abbrev pub with_entry : State K → Ptr → Leaf K → ℕ → K → RecordId → State K
  with_entry s p l i key id = record s {
    cell = update s.cell p (
        some (
          leaf
            (record l { keys = insert_at l.keys i key; values = insert_at l.values i (id ∷ []) })));
    size = (s.size + 1) % word;
  }

  pub run_missing :
      (fuel : ℕ) (s : State K) (p : Ptr) (key : K) (id : RecordId) (l : Leaf K) (i : ℕ)
      → s.cell p ≡ some (leaf l)
      → lower_bound_index l.keys key ≡ some i
      → present l.keys i key s ≡ some (false, s)
      → insert_into_leaf fuel p key id s ≡ (
          if ltb (s.order - 1) (length (insert_at l.keys i key))
          then split_leaf fuel p (with_entry s p l i key id)
          else some (tt, with_entry s p l i key id))
  unfolding insert_into_leaf
  run_missing fuel s p key id l i here bound is =
      let again : (with_entry s p l i key id).cell p ≡ _ = update_here s.cell p _ in
      bind_at (load_leaf p) _ s s l (ground (arith, here)) ∙ ground (arith, bound, is, again)

  pub present_there :
      (s : State K) (ks : List K) (i : ℕ) (key k : K)
      → get_elem? ks i ≡ some k
      → i < length ks
      → o.lt key k ≡ false
      → present ks i key s ≡ some (true, s)
  unfolding present
  present_there s ks i key k read small h = ground (arith, read, small, h)

  pub present_missing :
      (s : State K) (ks : List K) (i : ℕ) (key : K)
      → ((k : K) → get_elem? ks i ≡ some k → o.lt key k ≡ true)
      → (i < length ks → (k : K) × (get_elem? ks i ≡ some k))
      → present ks i key s ≡ some (false, s)
  unfolding present
  present_missing s ks i key h read = elim (Bool-cases (ltb i (length ks))) [
    | inl inside ↦
        let (k, e) = read (ltb→lt i (length ks) inside) in ground (arith, inside, e, h k e)
    | inr outside ↦ ground (arith, outside)
  ]
