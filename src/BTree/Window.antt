-- ===== src/BTree/Window.antt =====
-- What `Validate` asks of a tree, apart from the chain of its leaves: every key in the window that
-- the separators above it leave, and the number of keys of a node.
use becoming_an_elite_engine.Base.{
  ℕ, zero, suc, ◌%◌, ◌^◌, ◌<◌, ◌≤◌, ◌≡◌, ◌≢◌, false, refl, subst, sym, ap, Option, none, some, List,
  [], ◌∷◌, length, arith, Order, ◌≺◌, All, All-imp, All-append, IsSorted, lt_of_lt_of_not_lt,
  not_lt_of_lt, append-nil,
}
use becoming_an_elite_engine.BTree.Heap.{null, State, word}
use becoming_an_elite_engine.BTree.Find.{max_keys, min_leaf_keys, min_internal_keys}
use becoming_an_elite_engine.BTree.Shape.{
  Entry, Tree, ptr, entries, keys, join, IsSeparated, IsOrdered,
}
use becoming_an_elite_engine.BTree.Stored.{Stored}

module _ {K : Type 0} ⦃o : Order K⦄ where
  -- the lower bound belongs to the window, the upper one does not
  abbrev pub AtLeast : Option K → K → Type 0
  AtLeast none k = Unit
  AtLeast (some lower) k = o.lt k lower ≡ false

  abbrev pub Below : Option K → K → Type 0
  Below none k = Unit
  Below (some upper) k = k ≺ upper

  abbrev pub Within : Option K → Option K → K → Type 0
  Within lower upper k = AtLeast lower k × Below upper k

module _ (K : Type 0) ⦃o : Order K⦄ where
  -- a tree for every window between two neighbouring separators
  abbrev pub Windows :
      (n : ℕ)
      → (Option K → Option K → Tree K n → Type 0)
      → Option K
      → Option K
      → List K
      → List (Tree K n)
      → Type 0
  Windows n P lower upper [] [] = ⊥
  Windows n P lower upper [] (t ∷ []) = P lower upper t
  Windows n P lower upper [] (t ∷ u ∷ ts) = ⊥
  Windows n P lower upper (k ∷ ks) [] = ⊥
  Windows n P lower upper (k ∷ ks) (t ∷ ts) = P lower (some k) t × Windows n P (some k) upper ks ts

  abbrev pub InWindow : (n : ℕ) → Option K → Option K → Tree K n → Type 0
  InWindow zero lower upper t =
      IsSorted (keys t.entries) × All (Within lower upper) (keys t.entries)
  InWindow (suc n) lower upper t =
      IsSorted t.keys
      × All (Within lower upper) t.keys
      × Windows n (InWindow n) lower upper t.keys t.children

module _ (K : Type 0) where
  -- Every node has as many keys as the order allows, where the root may have fewer, and a root with
  -- children has two. No key is without records, and no child lies at the null address.
  abbrev pub IsFilled : (n : ℕ) → State K → Tree K n → Type 0
  IsFilled zero s t =
      (length t.entries ≤ max_keys s)
      × (t.ptr ≢ s.root → min_leaf_keys s ≤ length t.entries)
      × All (λ e. e.1 ≢ []) t.entries
  IsFilled (suc n) s t =
      (length t.keys ≤ max_keys s)
      × (t.ptr ≢ s.root → min_internal_keys s ≤ length t.keys)
      × (t.ptr ≡ s.root → 2 ≤ length t.children)
      × All (λ u. ptr K n u ≢ null) t.children
      × All (IsFilled n s) t.children

-- what `Validate` finds true of an object with the tree `t`
pub record IsValid {K : Type 0} ⦃o : Order K⦄ (s : State K) (n : ℕ) (t : Tree K n) : Type 0 where
  pub root : s.root ≡ ptr K n t
  pub not_null : s.root ≢ null
  pub stored : Stored K n s.cell null t
  pub window : InWindow K n none none t
  pub filled : IsFilled K n s t
  pub counted : s.size ≡ length (entries K n t) % word

module _ (K : Type 0) ⦃o : Order K⦄ where
  abbrev Spans : (n : ℕ) → Option K → Option K → Tree K n → Type 0
  Spans n lower upper t = All (λ e. Within lower upper e.0) (entries K n t)

  widen :
      (lower : Option K) (k : K) (upper : Option K) (es : List (Entry K))
      → Within lower upper k
      → All (λ e. Within lower (some k) e.0) es
      → All (λ e. Within lower upper e.0) es
  widen lower k none es w h = All-imp (λ e q. (q.0, tt)) es h
  widen lower k (some u) es w h = All-imp (λ e q. (q.0, o.lt_trans e.0 k u q.1 w.1)) es h

  at_least : (l k j : K) → o.lt k l ≡ false → o.lt j k ≡ false → o.lt j l ≡ false
  at_least l k j h q = ground (arith, lt_of_lt_of_not_lt j l k)

  raise :
      (lower : Option K) (k : K) (upper : Option K) (es : List (Entry K))
      → Within lower upper k
      → All (λ e. Within (some k) upper e.0) es
      → All (λ e. Within lower upper e.0) es
  raise none k upper es w h = All-imp (λ e q. (tt, q.1)) es h
  raise (some l) k upper es w h = All-imp (λ e q. (at_least l k e.0 w.0 q.0, q.1)) es h

  -- what lies behind a separator, in the window that begins with it
  narrow :
      (lower : Option K) (k : K) (upper : Option K) (ks : List K)
      → All (Within lower upper) ks
      → All (λ j. k ≺ j) ks
      → All (Within (some k) upper) ks
  narrow lower k upper [] h q = tt
  narrow lower k upper (j ∷ ks) h q =
      ((not_lt_of_lt k j q.0, h.0.1), narrow lower k upper ks h.1 q.1)

  Spans-forest :
      (n : ℕ)
      → ((lower upper : Option K) (t : Tree K n)
          → InWindow K n lower upper t
          → Spans n lower upper t)
      → (lower upper : Option K) (ks : List K) (ts : List (Tree K n)) → All (Within lower upper) ks
      → IsSorted ks
      → Windows K n (InWindow K n) lower upper ks ts
      → All (λ e. Within lower upper e.0) (join (entries K n) ts)
  Spans-forest n one lower upper [] [] within sorted h = elim h [ ]
  Spans-forest n one lower upper [] (t ∷ []) within sorted h =
      subst (All _) (sym (append-nil (entries K n t))) (one lower upper t h)
  Spans-forest n one lower upper [] (t ∷ u ∷ ts) within sorted h = elim h [ ]
  Spans-forest n one lower upper (k ∷ ks) [] within sorted h = elim h [ ]
  Spans-forest n one lower upper (k ∷ ks) (t ∷ ts) within sorted h =
      All-append _ (entries K n t) _
        (widen lower k upper (entries K n t) within.0 (one lower (some k) t h.0))
        (raise lower k upper _ within.0 (
          Spans-forest n one (some k) upper ks ts (narrow lower k upper ks within.1 sorted.0)
            sorted.1 h.1))

  All-keys : (P : K → Type 0) (es : List (Entry K)) → All P (keys es) → All (λ e. P e.0) es
  All-keys P [] h = tt
  All-keys P (e ∷ es) h = (h.0, All-keys P es h.1)

  InWindow-Spans :
      (n : ℕ) (lower upper : Option K) (t : Tree K n)
      → InWindow K n lower upper t
      → Spans n lower upper t
  InWindow-Spans zero lower upper t h = All-keys _ t.entries h.1
  InWindow-Spans (suc n) lower upper t h =
      Spans-forest n (InWindow-Spans n) lower upper t.keys t.children h.1 h.0 h.2

  -- The keys of a tree that fills its windows are in order.
  IsOrdered-forest :
      (n : ℕ) (s : State K)
      → ((lower upper : Option K) (t : Tree K n)
          → InWindow K n lower upper t
          → IsFilled K n s t
          → IsOrdered K n t)
      → (lower upper : Option K) (ks : List K) (ts : List (Tree K n)) → All (Within lower upper) ks
      → IsSorted ks
      → Windows K n (InWindow K n) lower upper ks ts
      → All (IsFilled K n s) ts
      → IsSeparated K n (IsOrdered K n) ks ts
  IsOrdered-forest n s one lower upper [] [] within sorted h f = h
  IsOrdered-forest n s one lower upper [] (t ∷ []) within sorted h f = one lower upper t h f.0
  IsOrdered-forest n s one lower upper [] (t ∷ u ∷ ts) within sorted h f = h
  IsOrdered-forest n s one lower upper (k ∷ ks) [] within sorted h f = h
  IsOrdered-forest n s one lower upper (k ∷ ks) (t ∷ ts) within sorted h f =
      let rest = narrow lower k upper ks within.1 sorted.0 in
      (
        one lower (some k) t h.0 f.0,
        All-imp (λ e q. q.1) (entries K n t) (InWindow-Spans n lower (some k) t h.0),
        All-imp (λ e q. q.0) (join (entries K n) ts)
            (Spans-forest n (InWindow-Spans n) (some k) upper ks ts rest sorted.1 h.1),
        IsOrdered-forest n s one (some k) upper ks ts rest sorted.1 h.1 f.1,
      )

  pub length-keys : (es : List (Entry K)) → length (keys es) ≡ length es
  length-keys [] = refl
  length-keys (e ∷ es) = ap suc (length-keys es)

  pub InWindow-IsOrdered :
      (n : ℕ) (s : State K) (lower upper : Option K) (t : Tree K n)
      → max_keys s < 2 ^ 31
      → InWindow K n lower upper t
      → IsFilled K n s t
      → IsOrdered K n t
  InWindow-IsOrdered zero s lower upper t small h f =
      (h.0, omega (arith, length-keys t.entries, f.0))
  InWindow-IsOrdered (suc n) s lower upper t small h f = (
    h.0,
    omega (arith, f.0),
    IsOrdered-forest n s (λ l u t'. InWindow-IsOrdered n s l u t' small) lower upper t.keys
        t.children h.1 h.0 h.2 f.4,
  )
