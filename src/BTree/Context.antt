-- ===== src/BTree/Context.antt =====
-- What surrounds a node of the B+ tree while `InsertIntoParent` changes it: the outside of a
-- subtree, with what it takes to put another subtree, or two of them, in its place.
use becoming_an_elite_engine.Base.{
  ℕ, zero, suc, ◌+◌, ◌-◌, ◌/◌, ◌<◌, ◌≤◌, ◌≡◌, ◌≢◌, Option, none, some, List, [], ◌++◌, length,
  Order, ◌≺◌, All,
}
use becoming_an_elite_engine.BTree.Heap.{Ptr, null, State}
use becoming_an_elite_engine.BTree.Insert.{insert_into_parent}
use becoming_an_elite_engine.BTree.Shape.{Entry, Tree, ptr, entries}
use becoming_an_elite_engine.BTree.Stored.{view, links_of, occ, Stored}
use becoming_an_elite_engine.BTree.Window.{Below, InWindow}

-- the least number of keys of a node that is not the root, and of the root
abbrev pub least_of : ℕ → ℕ → ℕ
least_of order zero = order / 2
least_of order (suc n) = (order + 1) / 2 - 1

abbrev pub least_root : ℕ → ℕ
least_root zero = 0
least_root (suc n) = 1

module _ (K : Type 0) where
  -- a node with at least `least` keys, over nodes with as many as the order asks for
  abbrev pub IsFull : ℕ → ℕ → (n : ℕ) → Tree K n → Type 0
  IsFull order least zero t =
      (least ≤ length t.entries) × (length t.entries ≤ order - 1) × All (λ e. e.1 ≢ []) t.entries
  IsFull order least (suc n) t =
      (least ≤ length t.keys)
      × (length t.keys ≤ order - 1)
      × All (IsFull order (least_of order n) n) t.children

module _ {K : Type 0} ⦃o : Order K⦄ where
  abbrev pub StrictlyAbove : Option K → K → Type 0
  StrictlyAbove none k = Unit
  StrictlyAbove (some lower) k = lower ≺ k

  -- no cell from `fresh` on, and `fresh` is an address
  pub record IsBlank (s : State K) : Type 0 where
    pub proper : null < s.fresh
    pub beyond : (a : Ptr) → s.fresh ≤ a → s.cell a ≡ none

  -- what the outside keeps while the inside changes
  pub record Keeps (out : Ptr → ℕ) (s s' : State K) : Type 0 where
    pub order : s'.order ≡ s.order
    pub root : s'.root ≡ s.root
    pub cells : (a : Ptr) → 0 < out a → view (s'.cell a) ≡ view (s.cell a)

  -- addresses that the outside and the inside use: each of them once, and in the heap
  pub record IsApart (s : State K) (used : Ptr → ℕ) : Type 0 where
    pub once : (a : Ptr) → used a ≤ 1
    pub inside : (a : Ptr) → 0 < used a → a < s.fresh
    pub nonnull : used null ≡ 0

  -- a subtree in its place
  pub record IsPlaced (s : State K) (n : ℕ) (parent : Ptr) (lower upper : Option K) (least : ℕ)
      (t : Tree K n) : Type 0 where
    pub stored : Stored K n s.cell parent t
    pub window : InWindow K n lower upper t
    pub full : IsFull K s.order least n t

  -- the whole tree of an object, with the entries `es`
  pub record IsWhole (s : State K) (es : List (Entry K)) : Type 0 where
    pub height : ℕ
    pub tree : Tree K height
    pub root : s.root ≡ ptr K height tree
    pub placed : IsPlaced s height null none none (least_root height) tree
    pub apart : IsApart s (λ a. occ K height a tree)
    pub blank : IsBlank s
    pub all : entries K height tree ≡ es

  -- what `InsertIntoParent` leaves as it is
  pub record Same (s s' : State K) : Type 0 where
    pub order : s'.order ≡ s.order
    pub size : s'.size ≡ s.size
    pub links : (a : Ptr) → links_of (s'.cell a) ≡ links_of (s.cell a)

  pub record Grown (fuel : ℕ) (s : State K) (q : Ptr) (k : K) (r : Ptr) (es : List (Entry K))
      : Type 0 where
    pub after : State K
    pub returns : insert_into_parent fuel q k r s ≡ some (tt, after)
    pub same : Same s after
    pub whole : IsWhole after es

  -- The outside of the subtree at `q`, `level` levels below the root: `out` counts its nodes, `pre`
  -- and `post` are its entries.
  pub record Context (s : State K) (n level : ℕ) (q parent : Ptr) (lower upper : Option K)
      (least : ℕ) (out : Ptr → ℕ) (pre post : List (Entry K)) : Type 0 where
    pub close :
        (s' : State K) (t : Tree K n)
        → ptr K n t ≡ q
        → Keeps out s s'
        → IsBlank s'
        → IsApart s' (λ a. out a + occ K n a t)
        → IsPlaced s' n parent lower upper least t
        → IsWhole s' (pre ++ (entries K n t ++ post))
    pub grow :
        (s' : State K) (fuel : ℕ) (t r : Tree K n) (k : K) (other : Ptr)
        → level < fuel
        → ptr K n t ≡ q
        → Keeps out s s'
        → IsBlank s'
        → IsApart s' (λ a. out a + (occ K n a t + occ K n a r))
        → StrictlyAbove lower k
        → Below upper k
        → IsPlaced s' n parent lower (some k) (least_of s'.order n) t
        → IsPlaced s' n other (some k) upper (least_of s'.order n) r
        → Grown fuel s' q k (ptr K n r) (pre ++ (entries K n t ++ (entries K n r ++ post)))
