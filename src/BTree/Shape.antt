-- ===== src/BTree/Shape.antt =====
-- The tree that a `BPlusTree` object stands for: a tree of uniform height whose nodes remember
-- their addresses, the relation between it and the heap, and the order that its keys are in.
use becoming_an_elite_engine.Base.{
  ℕ, zero, suc, ◌<◌, ◌^◌, ◌≡◌, ◌≢◌, Bool, true, false, Option, some, List, [], ◌∷◌, ◌++◌, map,
  length, Order, ◌≺◌, All, IsSorted, if◌then◌else◌,
}
use becoming_an_elite_engine.BTree.Heap.{Ptr, null, RecordId, Node, leaf, internal, State}

-- a key with its posting list
abbrev pub Entry : Type 0 → Type 0
Entry K = K × List RecordId

pub record LeafTree (K : Type 0) : Type 0 where
  pub ptr : Ptr
  pub entries : List (Entry K)
  pub next : Ptr
  pub previous : Ptr

pub record Inner (K A : Type 0) : Type 0 where
  pub ptr : Ptr
  pub keys : List K
  pub children : List A

-- a tree whose leaves all lie `n` levels below its root
abbrev pub Tree : Type 0 → ℕ → Type 0
Tree K zero = LeafTree K
Tree K (suc n) = Inner K (Tree K n)

-- the lists of a forest, one behind the other
abbrev pub join : {A B : Type 0} → (A → List B) → List A → List B
join f [] = []
join f (t ∷ ts) = f t ++ join f ts

module _ {K : Type 0} where
  abbrev pub keys : List (Entry K) → List K
  keys = map (λ e. e.0)

  abbrev pub values : List (Entry K) → List (List RecordId)
  values = map (λ e. e.1)

module _ (K : Type 0) where
  abbrev pub ptr : (n : ℕ) → Tree K n → Ptr
  ptr zero t = t.ptr
  ptr (suc n) t = t.ptr

  -- the entries of the leaves, from left to right
  abbrev pub entries : (n : ℕ) → Tree K n → List (Entry K)
  entries zero t = t.entries
  entries (suc n) t = join (entries n) t.children

  abbrev pub leaves : (n : ℕ) → Tree K n → List (LeafTree K)
  leaves zero t = t ∷ []
  leaves (suc n) t = join (leaves n) t.children

  -- Below `parent` the heap holds the tree: each node its keys, its children in order, its parent.
  abbrev pub Represents : (n : ℕ) → (Ptr → Option (Node K)) → Ptr → Tree K n → Type 0
  Represents zero cell parent t =
      cell t.ptr
      ≡ some (
          leaf (record {
            keys = keys t.entries;
            values = values t.entries;
            next = t.next;
            previous = t.previous;
            parent = parent;
          }))
  Represents (suc n) cell parent t =
      (cell t.ptr
        ≡ some (
            internal
              (record { keys = t.keys; children = map (ptr n) t.children; parent = parent })))
      × All (Represents n cell t.ptr) t.children

module _ {K : Type 0} where
  -- the address of the first leaf of a chain
  abbrev pub first : List (LeafTree K) → Ptr
  first [] = null
  first (l ∷ ls) = l.ptr

  -- The leaves are linked in both directions, and no leaf lies at the null address.
  abbrev pub IsChain : Ptr → List (LeafTree K) → Type 0
  IsChain previous [] = Unit
  IsChain previous (l ∷ ls) =
      (l.previous ≡ previous) × (l.next ≡ first ls) × (l.ptr ≢ null) × IsChain l.ptr ls

-- `int` holds the number of keys.
abbrev pub IsSmall : {A : Type 0} → List A → Type 0
IsSmall xs = length xs < 2 ^ 31

module _ (K : Type 0) ⦃o : Order K⦄ where
  -- `n` keys separate `n + 1` children: what lies left of a separator is below it, and what lies
  -- right of it is not.
  abbrev pub IsSeparated : (n : ℕ) → (Tree K n → Type 0) → List K → List (Tree K n) → Type 0
  IsSeparated n P [] [] = ⊥
  IsSeparated n P [] (t ∷ []) = P t
  IsSeparated n P [] (t ∷ u ∷ ts) = ⊥
  IsSeparated n P (k ∷ ks) [] = ⊥
  IsSeparated n P (k ∷ ks) (t ∷ ts) =
      P t
      × All (λ e. e.0 ≺ k) (entries K n t)
      × All (λ e. o.lt e.0 k ≡ false) (join (entries K n) ts)
      × IsSeparated n P ks ts

  -- Keys ascend in every node, separators separate, and no node has more keys than `int` holds.
  abbrev pub IsOrdered : (n : ℕ) → Tree K n → Type 0
  IsOrdered zero t = IsSorted (keys t.entries) × IsSmall (keys t.entries)
  IsOrdered (suc n) t =
      IsSorted t.keys × IsSmall t.keys × IsSeparated n (IsOrdered n) t.keys t.children

module _ {K : Type 0} ⦃o : Order K⦄ where
  -- neither key is below the other
  abbrev pub same : K → K → Bool
  same a b = if o.lt a b then false else if o.lt b a then false else true

  -- the posting list of a key, empty if there is none
  abbrev pub postings : K → List (Entry K) → List RecordId
  postings key [] = []
  postings key ((k, v) ∷ es) = if same k key then v else postings key es

  abbrev pub has : K → List (Entry K) → Bool
  has key [] = false
  has key ((k, v) ∷ es) = if same k key then true else has key es

-- Below the root of the object lies the tree `t`.
pub record IsTree {K : Type 0} ⦃o : Order K⦄ (s : State K) (n : ℕ) (t : Tree K n) : Type 0 where
  pub root : s.root ≡ ptr K n t
  pub not_null : ptr K n t ≢ null
  pub represented : Represents K n s.cell null t
  pub ordered : IsOrdered K n t
  pub chain : IsChain null (leaves K n t)

-- The object has the entries `es`: in a tree of height `n`, or none, with the null root.
pub data Holds {K : Type 0} ⦃o : Order K⦄ (s : State K) (n : ℕ) (es : List (Entry K)) : Type 0 where
  nothing : s.root ≡ null → es ≡ [] → Holds s n es
  tree : (t : Tree K n) → IsTree s n t → es ≡ entries K n t → Holds s n es
