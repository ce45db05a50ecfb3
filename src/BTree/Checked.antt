-- ===== src/BTree/Checked.antt =====
-- What it means that `Validate` returns true.
use becoming_an_elite_engine.Base.{
  ℕ, suc, ◌+◌, ◌%◌, ◌≤◌, ◌≡◌, ◌≢◌, ap, refl, inl, inr, true, false, Option, none, some, List, [],
  ◌∷◌, map, length, arith, Order, ◌≺◌, All, IsSorted, Option-cases, All-imp,
}
use becoming_an_elite_engine.BTree.Heap.{
  Ptr, null, RecordId, Leaf, leaf, Node, State, word, parent_of,
}
use becoming_an_elite_engine.BTree.Find.{max_keys, min_leaf_keys}
use becoming_an_elite_engine.BTree.Shape.{Entry, Tree, ptr, entries, keys, values, join}
use becoming_an_elite_engine.BTree.Stored.{Stored}
use becoming_an_elite_engine.BTree.Window.{Within, InWindow, Windows, IsFilled}
use becoming_an_elite_engine.BTree.Validate.{
  Scan, Verdict, any_empty, too_few, count_leaf, validate_leaf, validate_child, ascending, too_low,
  too_high, inside,
}

module _ {K : Type 0} ⦃o : Order K⦄ where
  -- what is found below the address `p` when the scan goes from `seen` to `seen'`
  pub record Checked (s : State K) (n : ℕ) (parent p : Ptr) (lower upper : Option K) (depth : ℕ)
      (seen seen' : Scan) : Type 0 where
    pub tree : Tree K n
    pub here : ptr K n tree ≡ p
    pub stored : Stored K n s.cell parent tree
    pub window : InWindow K n lower upper tree
    pub filled : IsFilled K n s tree
    pub counted : seen'.key_count ≡ (seen.key_count + length (entries K n tree)) % word
    pub known : seen'.leaf_depth_set ≡ true
    pub level : seen'.leaf_depth ≡ depth + n
    pub same_level : seen.leaf_depth_set ≡ true → seen.leaf_depth ≡ depth + n

  pub record CheckedAll (s : State K) (n : ℕ) (parent : Ptr) (children : List Ptr)
      (lower upper : Option K) (ks : List K) (depth : ℕ) (seen seen' : Scan) : Type 0 where
    pub trees : List (Tree K n)
    pub here : map (ptr K n) trees ≡ children
    pub stored : All (Stored K n s.cell parent) trees
    pub window : Windows K n (InWindow K n) lower upper ks trees
    pub filled : All (IsFilled K n s) trees
    pub proper : All (λ u. ptr K n u ≢ null) trees
    pub counted : seen'.key_count ≡ (seen.key_count + length (join (entries K n) trees)) % word
    pub known : seen'.leaf_depth_set ≡ true
    pub level : seen'.leaf_depth ≡ depth + n
    pub same_level : seen.leaf_depth_set ≡ true → seen.leaf_depth ≡ depth + n

  pub ascending-IsSorted : (ks : List K) → ascending ks ≡ true → IsSorted ks
  unfolding ascending
  ascending-IsSorted [] h = tt
  ascending-IsSorted (k ∷ []) h = (tt, tt)
  ascending-IsSorted (k ∷ l ∷ ks) h =
      let first : k ≺ l = ground arith in
      let rest = ascending-IsSorted (l ∷ ks) (ground arith) in
      ((first, All-imp (λ j q. o.lt_trans k l j first q) ks rest.0), rest)

  pub inside-Within :
      (lower upper : Option K) (ks : List K)
      → inside lower upper ks ≡ true
      → All (Within lower upper) ks
  unfolding inside too_low too_high
  inside-Within lower upper [] h = tt
  inside-Within none none (k ∷ ks) h = ground (arith, inside-Within none none ks)
  inside-Within none (some u) (k ∷ ks) h = ground (arith, inside-Within none (some u) ks)
  inside-Within (some l) none (k ∷ ks) h = ground (arith, inside-Within (some l) none ks)
  inside-Within (some l) (some u) (k ∷ ks) h = ground (arith, inside-Within (some l) (some u) ks)

-- the entries of a leaf from its two vectors
abbrev zip : {K : Type 0} → List K → List (List RecordId) → List (Entry K)
zip [] vs = []
zip (k ∷ ks) [] = []
zip (k ∷ ks) (v ∷ vs) = (k, v) ∷ zip ks vs

module _ {K : Type 0} where
  keys-zip :
      (ks : List K) (vs : List (List RecordId)) → length ks ≡ length vs → keys (zip ks vs) ≡ ks
  keys-zip [] vs h = refl
  keys-zip (k ∷ ks) [] h = absurd (omega (arith, h))
  keys-zip (k ∷ ks) (v ∷ vs) h = ap (λ l. k ∷ l) (keys-zip ks vs (omega (arith, h)))

  values-zip :
      (ks : List K) (vs : List (List RecordId)) → length ks ≡ length vs → values (zip ks vs) ≡ vs
  values-zip [] [] h = refl
  values-zip [] (v ∷ vs) h = absurd (omega (arith, h))
  values-zip (k ∷ ks) [] h = absurd (omega (arith, h))
  values-zip (k ∷ ks) (v ∷ vs) h = ap (λ l. v ∷ l) (values-zip ks vs (omega (arith, h)))

  length-zip :
      (ks : List K) (vs : List (List RecordId))
      → length ks ≡ length vs
      → length (zip ks vs) ≡ length ks
  length-zip [] vs h = refl
  length-zip (k ∷ ks) [] h = absurd (omega (arith, h))
  length-zip (k ∷ ks) (v ∷ vs) h = ap suc (length-zip ks vs (omega (arith, h)))

  zip-full :
      (ks : List K) (vs : List (List RecordId))
      → any_empty vs ≡ false
      → All (λ e. e.1 ≢ []) (zip ks vs)
  unfolding any_empty
  zip-full [] vs h = tt
  zip-full (k ∷ ks) [] h = tt
  zip-full (k ∷ ks) ([] ∷ vs) h = absurd (ground arith)
  zip-full (k ∷ ks) ((i ∷ is) ∷ vs) h = (λ e. absurd (ground arith), zip-full ks vs h)

  pub too_few-false :
      (s : State K) (p : Ptr) (count minimum : ℕ)
      → too_few s p count minimum ≡ false
      → p ≢ s.root
      → minimum ≤ count
  unfolding too_few
  too_few-false s p count minimum h q = ground (arith, q)

count_leaf-true :
    (depth count : ℕ) (seen seen' : Scan)
    → count_leaf depth count seen ≡ some (some seen')
    → (seen'.key_count ≡ (seen.key_count + count) % word)
      × (seen'.leaf_depth_set ≡ true)
      × (seen'.leaf_depth ≡ depth)
      × (seen.leaf_depth_set ≡ true → seen.leaf_depth ≡ depth)
unfolding count_leaf
count_leaf-true depth count seen seen' h = ground arith

module _ {K : Type 0} ⦃o : Order K⦄ where
  validate_leaf-true :
      (s : State K) (p : Ptr) (l : Leaf K) (depth : ℕ) (seen seen' : Scan)
      → validate_leaf s p l depth seen ≡ some (some seen')
      → (length l.keys ≡ length l.values)
        × (any_empty l.values ≡ false)
        × (too_few s p (length l.keys) (min_leaf_keys s) ≡ false)
        × (count_leaf depth (length l.keys) seen ≡ some (some seen'))
  unfolding validate_leaf
  validate_leaf-true s p l depth seen seen' h = ground arith

  pub Checked-leaf :
      (s : State K) (p parent : Ptr) (l : Leaf K) (lower upper : Option K) (depth : ℕ)
      (seen seen' : Scan)
      → s.cell p ≡ some (leaf l)
      → l.parent ≡ parent
      → ascending l.keys ≡ true
      → inside lower upper l.keys ≡ true
      → length l.keys ≤ max_keys s
      → validate_leaf s p l depth seen ≡ some (some seen')
      → Checked s 0 parent p lower upper depth seen seen'
  Checked-leaf s p parent l lower upper depth seen seen' here owner sorted within few h =
      let (same, full, enough, counts) = validate_leaf-true s p l depth seen seen' h in
      let (count, known, level, same_level) =
        count_leaf-true depth (length l.keys) seen seen' counts in
      let ks = keys-zip l.keys l.values same in
      let many = length-zip l.keys l.values same in
      record {
        tree = record {
          ptr = p;
          entries = zip l.keys l.values;
          next = l.next;
          previous = l.previous;
        };
        here = refl;
        stored =
            (l.next, l.previous, ground (arith, here, owner, ks, values-zip l.keys l.values same));
        window = rw ks (ascending-IsSorted l.keys sorted, inside-Within lower upper l.keys within);
        filled = rw many (few, too_few-false s p _ _ enough, zip-full l.keys l.values full);
        counted = rw many count;
        known = known;
        level = omega (arith, level);
        same_level = λ q. omega (arith, same_level q);
      }

  pub validate_child-true :
      (visit : Ptr → Option K → Option K → Scan → Option Verdict) (s : State K) (node child : Ptr)
      (lower upper : Option K) (seen seen' : Scan)
      → validate_child visit s node child lower upper seen ≡ some (some seen')
      → (child ≢ null)
        × ((x : Node K) × (s.cell child ≡ some x) × (parent_of x ≡ node))
        × (visit child lower upper seen ≡ some (some seen'))
  unfolding validate_child
  validate_child-true visit s node child lower upper seen seen' h =
      elim (Option-cases (s.cell child)) [
        | inl e ↦ absurd (ground (arith, e, h))
        | inr (x, e) ↦ (ground (arith, e, h), (x, e, ground (arith, e, h)), ground (arith, e, h))
      ]
