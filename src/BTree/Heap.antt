-- ===== src/BTree/Heap.antt =====
-- BPlusTreeNode.hpp, InternalNode.hpp, LeafNode.hpp, RecordID.hpp, and the data members of
-- BPlusTree.hpp: nodes at addresses, the object that owns them, and commands on both. A command
-- without a result (`none`) reads through null or through a node of the other class, reads a vector
-- out of range, or has run out of the rounds that its loop was given.
use becoming_an_elite_engine.Base.{
  ℕ, ◌+◌, ◌-◌, ◌%◌, ◌^◌, Option, none, some, List, [], ◌∷◌, ◌==◌, get_elem?, if◌then◌else◌,
}

abbrev pub Ptr : Type 0
Ptr = ℕ

abbrev pub null : Ptr
null = 0

-- `RecordID`, by its one field `documentID`
abbrev pub RecordId : Type 0
RecordId = ℕ

pub record Leaf (K : Type 0) : Type 0 where
  pub keys : List K
  pub values : List (List RecordId)
  pub next : Ptr
  pub previous : Ptr
  pub parent : Ptr

pub record Internal (K : Type 0) : Type 0 where
  pub keys : List K
  pub children : List Ptr
  pub parent : Ptr

-- the two classes below `BPlusTreeNode`; the constructor is `isLeaf`
pub data Node (K : Type 0) : Type 0 where
  leaf : Leaf K → Node K
  internal : Internal K → Node K

-- `new` returns `fresh`, an address that no node has had.
pub record State (K : Type 0) : Type 0 where
  pub cell : Ptr → Option (Node K)
  pub fresh : Ptr
  pub order : ℕ
  pub size : ℕ
  pub root : Ptr

abbrev pub word : ℕ
word = 2 ^ 64

abbrev pub M : Type 0 → Type 0 → Type 0
M K A = State K → Option (A × State K)

module _ {K : Type 0} where
  abbrev pub pure : {A : Type 0} → A → M K A
  pure a s = some (a, s)

  infixl 5 ◌>>=◌ ◌>>◌
  abbrev pub ◌>>=◌ : {A B : Type 0} → M K A → (A → M K B) → M K B
  ◌>>=◌ m f s = elim (m s) [ none ↦ none | some (a, s') ↦ f a s' ]

  abbrev pub ◌>>◌ : {B : Type 0} → M K (Unit {0}) → M K B → M K B
  m >> k = m >>= λ _. k

  -- a value that the code takes from a vector or from a search in one
  abbrev pub lift : {A : Type 0} → Option A → M K A
  lift none s = none
  lift (some a) s = some (a, s)

  abbrev pub index : {A : Type 0} → List A → ℕ → M K A
  index xs i = lift (get_elem? xs i)

  unfoldable pub update : (Ptr → Option (Node K)) → Ptr → Option (Node K) → Ptr → Option (Node K)
  update f p n q = if q == p then n else f q

  abbrev pub load : Ptr → M K (Node K)
  load p s = lift (s.cell p) s

  abbrev pub store : Ptr → Node K → M K (Unit {0})
  store p n s = some (tt, record s { cell = update s.cell p (some n) })

  -- `delete p`
  abbrev pub free : Ptr → M K (Unit {0})
  free p s = some (tt, record s { cell = update s.cell p none })

  -- `new`
  abbrev pub alloc : Node K → M K Ptr
  alloc n s =
      some (s.fresh, record s { cell = update s.cell s.fresh (some n); fresh = s.fresh + 1 })

  -- `static_cast` to a class below; the object has to be of that class
  abbrev pub as_leaf : Node K → Option (Leaf K)
  as_leaf (leaf l) = some l
  as_leaf (internal n) = none

  abbrev pub as_internal : Node K → Option (Internal K)
  as_internal (leaf l) = none
  as_internal (internal n) = some n

  abbrev pub load_leaf : Ptr → M K (Leaf K)
  load_leaf p = do n ← load p; lift (as_leaf n)

  abbrev pub load_internal : Ptr → M K (Internal K)
  load_internal p = do n ← load p; lift (as_internal n)

  abbrev pub keys_of : Node K → List K
  keys_of (leaf l) = l.keys
  keys_of (internal n) = n.keys

  abbrev pub parent_of : Node K → Ptr
  parent_of (leaf l) = l.parent
  parent_of (internal n) = n.parent

  abbrev pub with_parent : Node K → Ptr → Node K
  with_parent (leaf l) q = leaf (record l { parent = q })
  with_parent (internal n) q = internal (record n { parent = q })

  -- `p->parent = q`
  abbrev pub set_parent : Ptr → Ptr → M K (Unit {0})
  set_parent p q = do n ← load p; store p (with_parent n q)

  abbrev pub get : M K (State K)
  get s = some (s, s)

  abbrev pub set_root : Ptr → M K (Unit {0})
  set_root p s = some (tt, record s { root = p })

  -- `m_Size++` and `m_Size--`
  abbrev pub grow : M K (Unit {0})
  grow s = some (tt, record s { size = (s.size + 1) % word })

  abbrev pub shrink : M K (Unit {0})
  shrink s = some (tt, record s { size = (s.size + word - 1) % word })

  unfoldable pub for_each : {A : Type 0} → List A → (A → M K (Unit {0})) → M K (Unit {0})
  for_each [] body = pure tt
  for_each (a ∷ as') body = do body a; for_each as' body
