-- ===== src/BTree/Stored.antt =====
-- A tree in the heap without the links between its leaves, and how often it uses an address.
use becoming_an_elite_engine.Base.{
  ℕ, zero, suc, ◌+◌, ◌<◌, ◌≤◌, ◌≡◌, ◌≢◌, refl, ap, ◌∙◌, Option, none, some, List, [], ◌∷◌, ◌++◌,
  map, arith, ◌==◌, if◌then◌else◌, All,
}
use becoming_an_elite_engine.BTree.Heap.{
  Ptr, null, Leaf, leaf, Internal, internal, Node, update, parent_of, with_parent,
}
use becoming_an_elite_engine.BTree.Shape.{Tree, ptr, keys, values}

abbrev pub one_if : Ptr → Ptr → ℕ
one_if p q = if p == q then 1 else 0

abbrev pub total : {A : Type 0} → (A → ℕ) → List A → ℕ
total f [] = 0
total f (x ∷ xs) = f x + total f xs

pub total-append :
    {A : Type 0} (f : A → ℕ) (xs ys : List A) → total f (xs ++ ys) ≡ total f xs + total f ys
total-append f [] ys = omega arith
total-append f (x ∷ xs) ys = omega (arith, total-append f xs ys)

module _ {K : Type 0} where
  -- a cell without the links of a leaf, and those links
  abbrev pub view : Option (Node K) → Option (Node K)
  view none = none
  view (some (leaf l)) = some (leaf (record l { next = null; previous = null }))
  view (some (internal n)) = some (internal n)

  abbrev pub links_of : Option (Node K) → Option (Ptr × Ptr)
  links_of none = none
  links_of (some (leaf l)) = some (l.next, l.previous)
  links_of (some (internal n)) = none

  pub view-leaf :
      (x : Option (Node K)) (l : Leaf K)
      → view x ≡ view (some (leaf l))
      → (next : Ptr) × (previous : Ptr) × (x
          ≡ some (leaf (record l { next = next; previous = previous })))
  view-leaf none l h = absurd (ground arith)
  view-leaf (some (internal n)) l h = absurd (ground arith)
  view-leaf (some (leaf m)) l h = (m.next, m.previous, ground arith)

  pub view-internal :
      (x : Option (Node K)) (n : Internal K) → view x ≡ some (internal n) → x ≡ some (internal n)
  view-internal none n h = absurd (ground arith)
  view-internal (some (leaf l)) n h = absurd (ground arith)
  view-internal (some (internal m)) n h = h

module _ (K : Type 0) where
  -- how many nodes of a tree lie at an address
  abbrev pub occ : (n : ℕ) → Ptr → Tree K n → ℕ
  occ zero p t = one_if t.ptr p
  occ (suc n) p t = one_if t.ptr p + total (occ n p) t.children

  -- Below `parent` the heap holds the tree, its leaves with any links.
  abbrev pub Stored : (n : ℕ) → (Ptr → Option (Node K)) → Ptr → Tree K n → Type 0
  Stored zero cell parent t =
      (next : Ptr) × (previous : Ptr) × (cell t.ptr
        ≡ some (
            leaf (record {
              keys = keys t.entries;
              values = values t.entries;
              next = next;
              previous = previous;
              parent = parent;
            })))
  Stored (suc n) cell parent t =
      (cell t.ptr
        ≡ some (
            internal
              (record { keys = t.keys; children = map (ptr K n) t.children; parent = parent })))
      × All (Stored n cell t.ptr) t.children

  -- A tree stays stored where its own nodes stay as they are, but for links.
  Stored-forest :
      (n : ℕ) (cell cell' : Ptr → Option (Node K)) (parent : Ptr)
      → ((t : Tree K n)
          → ((a : Ptr) → 0 < occ n a t → view (cell' a) ≡ view (cell a))
          → Stored n cell parent t
          → Stored n cell' parent t)
      → (ts : List (Tree K n))
      → ((a : Ptr) → 0 < total (occ n a) ts → view (cell' a) ≡ view (cell a))
      → All (Stored n cell parent) ts
      → All (Stored n cell' parent) ts
  Stored-forest n cell cell' parent one [] same all = tt
  Stored-forest n cell cell' parent one (t ∷ ts) same all = (
    one t (λ a h. same a (omega arith)) all.0,
    Stored-forest n cell cell' parent one ts (λ a h. same a (omega arith)) all.1,
  )

  pub Stored-agree :
      (n : ℕ) (cell cell' : Ptr → Option (Node K)) (parent : Ptr) (t : Tree K n)
      → ((a : Ptr) → 0 < occ n a t → view (cell' a) ≡ view (cell a))
      → Stored n cell parent t
      → Stored n cell' parent t
  Stored-agree zero cell cell' parent t same (next, previous, e) =
      view-leaf (cell' t.ptr)
        (record {
          keys = keys t.entries;
          values = values t.entries;
          next = null;
          previous = null;
          parent = parent;
        })
        (same t.ptr (ground arith) ∙ ap view e)
  Stored-agree (suc n) cell cell' parent t same (e, all) = (
    view-internal (cell' t.ptr) _ (same t.ptr (ground arith) ∙ ap view e),
    Stored-forest n cell cell' t.ptr (Stored-agree n cell cell' t.ptr) t.children
        (λ a h. same a (omega arith)) all,
  )

  pub All-Stored-agree :
      (n : ℕ) (cell cell' : Ptr → Option (Node K)) (parent : Ptr) (ts : List (Tree K n))
      → ((a : Ptr) → 0 < total (occ n a) ts → view (cell' a) ≡ view (cell a))
      → All (Stored n cell parent) ts
      → All (Stored n cell' parent) ts
  All-Stored-agree n cell cell' parent ts same all =
      Stored-forest n cell cell' parent (Stored-agree n cell cell' parent) ts same all

  pub occ-ptr : (n : ℕ) (t : Tree K n) → 0 < occ n (ptr K n t) t
  occ-ptr zero t = ground arith
  occ-ptr (suc n) t = ground arith

  -- the node at the root of a stored tree
  pub Stored-node :
      (n : ℕ) (cell : Ptr → Option (Node K)) (parent : Ptr) (t : Tree K n)
      → Stored n cell parent t
      → (x : Node K) × (cell (ptr K n t) ≡ some x) × (parent_of x ≡ parent)
  Stored-node zero cell parent t (next, previous, e) = (_, e, refl)
  Stored-node (suc n) cell parent t (e, all) = (_, e, refl)

  -- `t->parent = parent'`
  pub Stored-with_parent :
      (n : ℕ) (cell : Ptr → Option (Node K)) (parent parent' : Ptr) (t : Tree K n) (x : Node K)
      → cell (ptr K n t) ≡ some x
      → occ n (ptr K n t) t ≤ 1
      → Stored n cell parent t
      → Stored n (update cell (ptr K n t) (some (with_parent x parent'))) parent' t
  unfolding update
  Stored-with_parent zero cell parent parent' t x here once (next, previous, e) =
      (next, previous, ground (arith, e, here))
  Stored-with_parent (suc n) cell parent parent' t x here once (e, all) = (
    ground (arith, e, here),
    All-Stored-agree n cell _ t.ptr t.children (λ a h. ground (arith, h)) all,
  )

module _ {K : Type 0} where
  pub links-with_parent :
      (cell : Ptr → Option (Node K)) (p q a : Ptr) (x : Node K)
      → cell p ≡ some x
      → links_of (update cell p (some (with_parent x q)) a) ≡ links_of (cell a)
  unfolding update
  links-with_parent cell p q a (leaf l) here = ground (arith, here)
  links-with_parent cell p q a (internal n) here = ground (arith, here)

  pub update-other :
      (cell : Ptr → Option (Node K)) (p a : Ptr) (y : Option (Node K))
      → a ≢ p
      → update cell p y a ≡ cell a
  unfolding update
  update-other cell p a y h = ground (arith, h)

  pub update_here :
      (cell : Ptr → Option (Node K)) (p : Ptr) (y : Option (Node K)) → update cell p y p ≡ y
  unfolding update
  update_here cell p y = ground arith

  pub links_internal :
      (cell : Ptr → Option (Node K)) (p a : Ptr) (n n' : Internal K)
      → cell p ≡ some (internal n)
      → links_of (update cell p (some (internal n')) a) ≡ links_of (cell a)
  unfolding update
  links_internal cell p a n n' here = ground (arith, here)
