-- ===== src/BTree/Records.antt =====
-- The entries between two keys: the specification of `RangeSearch`, and what a walk collects.
use becoming_an_elite_engine.Base.{
  ℕ, zero, suc, ◌≡◌, refl, ap, ◌∙◌, sym, subst, Bool, true, false, List, [], ◌∷◌, ◌++◌,
  append_assoc, append-nil, take, drop, take-append-drop, arith, Order, ◌≺◌, All, All-imp,
  All-append, IsSorted, IsSorted-append, if◌then◌else◌, lt_of_lt_of_not_lt,
}
use becoming_an_elite_engine.BTree.Bound.{partition_point}
use becoming_an_elite_engine.BTree.Splits.{
  less, less-IsPartitioned, take-partition_point, drop-partition_point,
}
use becoming_an_elite_engine.BTree.Heap.{RecordId}
use becoming_an_elite_engine.BTree.Shape.{
  Entry, Tree, entries, keys, values, IsSeparated, IsOrdered, join,
}

module _ {K : Type 0} where
  pub keys-append : (xs ys : List (Entry K)) → keys (xs ++ ys) ≡ keys xs ++ keys ys
  keys-append [] ys = refl
  keys-append (x ∷ xs) ys = ap (λ l. x.0 ∷ l) (keys-append xs ys)

  pub keys-drop : (i : ℕ) (xs : List (Entry K)) → drop i (keys xs) ≡ keys (drop i xs)
  keys-drop zero xs = refl
  keys-drop (suc i) [] = refl
  keys-drop (suc i) (x ∷ xs) = keys-drop i xs

  pub values-drop : (i : ℕ) (xs : List (Entry K)) → drop i (values xs) ≡ values (drop i xs)
  values-drop zero xs = refl
  values-drop (suc i) [] = refl
  values-drop (suc i) (x ∷ xs) = values-drop i xs

  All-keys : (P : K → Type 0) (es : List (Entry K)) → All P (keys es) → All (λ e. P e.0) es
  All-keys P [] h = tt
  All-keys P (e ∷ es) h = (h.0, All-keys P es h.1)

  keys-All : (P : K → Type 0) (es : List (Entry K)) → All (λ e. P e.0) es → All P (keys es)
  keys-All P [] h = tt
  keys-All P (e ∷ es) h = (h.0, keys-All P es h.1)

module _ (K : Type 0) ⦃o : Order K⦄ where
  -- The entries of an ordered tree ascend.
  IsSorted-forest :
      (n : ℕ)
      → ((t : Tree K n) → IsOrdered K n t → IsSorted (keys (entries K n t)))
      → (ks : List K) (ts : List (Tree K n)) → IsSeparated K n (IsOrdered K n) ks ts
      → IsSorted (keys (join (entries K n) ts))
  IsSorted-forest n one [] [] h = tt
  IsSorted-forest n one [] (t ∷ []) h =
      subst (λ l. IsSorted (keys l)) (sym (append-nil _)) (one t h)
  IsSorted-forest n one [] (t ∷ u ∷ ts) h = elim h [ ]
  IsSorted-forest n one (k ∷ ks) [] h = elim h [ ]
  IsSorted-forest n one (k ∷ ks) (t ∷ ts) h = subst IsSorted (sym (keys-append (entries K n t) _)) (
      IsSorted-append _ _ (one t h.0) (IsSorted-forest n one ks ts h.3) (
        keys-All _ (entries K n t) (
          All-imp (λ x q. keys-All _ _ (All-imp (λ y r. lt_of_lt_of_not_lt x.0 k y.0 q r) _ h.2)) _
            h.1)))

  pub entries-IsSorted : (n : ℕ) (t : Tree K n) → IsOrdered K n t → IsSorted (keys (entries K n t))
  entries-IsSorted zero t h = h.0
  entries-IsSorted (suc n) t h = IsSorted-forest n (entries-IsSorted n) t.keys t.children h.2

module _ {K : Type 0} ⦃o : Order K⦄ where
  pub IsSorted-right : (xs ys : List (Entry K)) → IsSorted (keys (xs ++ ys)) → IsSorted (keys ys)
  IsSorted-right [] ys h = h
  IsSorted-right (x ∷ xs) ys h = IsSorted-right xs ys h.1

module _ {K : Type 0} ⦃o : Order K⦄ (lower upper : K) where
  -- the records whose keys lie between the two, both included
  unfoldable pub records : List (Entry K) → List RecordId
  records [] = []
  records ((k, v) ∷ es) =
      if o.lt k lower then records es else if o.lt upper k then records es else v ++ records es

module _ {K : Type 0} ⦃o : Order K⦄ (upper : K) where
  -- what the walk collects, and whether it stops
  abbrev pub upto : List (Entry K) → List RecordId
  upto [] = []
  upto ((k, v) ∷ es) = if o.lt upper k then [] else v ++ upto es

  abbrev pub stops : List (Entry K) → Bool
  stops [] = false
  stops ((k, v) ∷ es) = if o.lt upper k then true else stops es

  pub upto-append :
      (xs ys : List (Entry K))
      → upto (xs ++ ys) ≡ (if stops xs then upto xs else upto xs ++ upto ys)
  upto-append [] ys = refl
  upto-append ((k, v) ∷ xs) ys =
      ground (arith, upto-append xs ys, append_assoc v (upto xs) (upto ys))

module _ {K : Type 0} ⦃o : Order K⦄ (lower upper : K) where
  records_skip :
      (xs ys : List (Entry K))
      → All (λ e. e.0 ≺ lower) xs
      → records lower upper (xs ++ ys) ≡ records lower upper ys
  unfolding records
  records_skip [] ys h = refl
  records_skip ((k, v) ∷ xs) ys h = ground (arith, records_skip xs ys h.1)

  records_above :
      (k : K) (es : List (Entry K))
      → upper ≺ k
      → All (λ y. k ≺ y) (keys es)
      → records lower upper es ≡ []
  unfolding records
  records_above k [] h q = refl
  records_above k ((j, v) ∷ es) h q =
      ground (arith, records_above k es h q.1, o.lt_trans upper k j h q.0)

  -- From the lower end on, the walk collects what lies below the upper end.
  records-upto :
      (es : List (Entry K))
      → IsSorted (keys es)
      → All (λ e. o.lt e.0 lower ≡ false) es
      → records lower upper es ≡ upto upper es
  unfolding records
  records-upto [] h q = refl
  records-upto ((k, v) ∷ es) h q =
      ground (arith, records-upto es h.1 q.1, records_above k es, h.0, q.0)

  keys-take : (i : ℕ) (xs : List (Entry K)) → take i (keys xs) ≡ keys (take i xs)
  keys-take zero xs = refl
  keys-take (suc i) [] = refl
  keys-take (suc i) (x ∷ xs) = ap (λ l. x.0 ∷ l) (keys-take i xs)

  -- What lies before the lower bound of the target leaf does not count, and what lies from it on
  -- is collected.
  pub records-split :
      (before target after : List (Entry K)) {es : List (Entry K)}
      → es ≡ before ++ (target ++ after)
      → IsSorted (keys es)
      → All (λ e. e.0 ≺ lower) before
      → IsSorted (keys target)
      → All (λ e. lower ≺ e.0) after
      → let i = partition_point (less lower) (keys target) in
        records lower upper es ≡ upto upper (drop i target ++ after)
  records-split before target after all sorted low ascending high =
      let i = partition_point (less lower) (keys target) in
      let left : All (λ e. e.0 ≺ lower) (take i target) =
        All-keys _ _
          (subst (All _) (keys-take i target) (take-partition_point (less lower) (keys target))) in
      let right : All (λ e. o.lt e.0 lower ≡ false) (drop i target) = All-keys _ _ (
        subst (All _) (keys-drop i target) (
          drop-partition_point (less lower) (keys target)
            (less-IsPartitioned lower (keys target) ascending))) in
      let cut : before ++ (target ++ after)
          ≡ (before ++ take i target) ++ (drop i target ++ after) =
        ap (λ l. before ++ (l ++ after)) (sym (take-append-drop i target)) ∙ simp append_assoc in
      ap (records lower upper) (all ∙ cut)
      ∙ records_skip (before ++ take i target) (drop i target ++ after)
          (All-append _ before (take i target) low left)
      ∙ records-upto (drop i target ++ after)
          (IsSorted-right (before ++ take i target) _
            (subst (λ l. IsSorted (keys l)) (all ∙ cut) sorted))
          (All-append _ (drop i target) after right (
            All-imp (λ e q. ground (arith, o.lt_trans lower e.0 lower q, o.lt_irrefl lower)) after
              high))

  -- Between an upper end and a lower end above it there is nothing.
  pub records_empty : (es : List (Entry K)) → upper ≺ lower → records lower upper es ≡ []
  unfolding records
  records_empty [] h = refl
  records_empty ((k, v) ∷ es) h =
      ground (arith, records_empty es h, lt_of_lt_of_not_lt upper lower k h)
