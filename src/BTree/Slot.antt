-- ===== src/BTree/Slot.antt =====
-- Where a key belongs in the entries of a leaf, and insertion into a list of entries.
use becoming_an_elite_engine.Base.{
  ◌≡◌, refl, ap, List, [], ◌∷◌, ◌++◌, length, arith, Order, ◌≺◌, All, All-imp, IsSorted, Bool-cases,
  inl, inr, true, false, not_lt_of_lt,
}
use becoming_an_elite_engine.BTree.Bound.{partition_point}
use becoming_an_elite_engine.BTree.Splits.{less}
use becoming_an_elite_engine.BTree.Heap.{RecordId}
use becoming_an_elite_engine.BTree.Shape.{Entry, keys}

module _ {K : Type 0} ⦃o : Order K⦄ (key : K) (id : RecordId) where
  -- a record under a key: at the end of its posting list, or in a new entry at its place
  unfoldable pub insert_entry : List (Entry K) → List (Entry K)
  insert_entry [] = (key, id ∷ []) ∷ []
  insert_entry ((k, v) ∷ es) = elim (o.lt k key) [
    | true ↦ (k, v) ∷ insert_entry es
    | false ↦ elim (o.lt key k) [
      | true ↦ (key, id ∷ []) ∷ (k, v) ∷ es
      | false ↦ (k, v ++ (id ∷ [])) ∷ es
    ]
  ]

module _ {K : Type 0} ⦃o : Order K⦄ (key : K) where
  abbrev pub HeadAbove : List (Entry K) → Type 0
  HeadAbove [] = Unit
  HeadAbove ((k, v) ∷ es) = key ≺ k

  -- the position that `LowerBoundIndex` finds: in front of it the keys are below, and at it the key
  -- is missing or there
  pub data Slot (es : List (Entry K)) : Type 0 where
    missing :
        (a b : List (Entry K))
        → es ≡ a ++ b
        → All (λ e. e.0 ≺ key) a
        → HeadAbove b
        → partition_point (less key) (keys es) ≡ length a
        → Slot es
    there :
        (a b : List (Entry K)) (k : K) (v : List RecordId)
        → es ≡ a ++ ((k, v) ∷ b)
        → All (λ e. e.0 ≺ key) a
        → o.lt k key ≡ false
        → o.lt key k ≡ false
        → partition_point (less key) (keys es) ≡ length a
        → Slot es

  Slot-cons : (e : Entry K) (es : List (Entry K)) → e.0 ≺ key → Slot es → Slot (e ∷ es)
  Slot-cons e es h (missing a b all low head index) =
      missing (e ∷ a) b (ap (λ l. e ∷ l) all) (h, low) head (ground (arith, h, index))
  Slot-cons e es h (there a b k v all low f g index) =
      there (e ∷ a) b k v (ap (λ l. e ∷ l) all) (h, low) f g (ground (arith, h, index))

  pub Slot-exists : (es : List (Entry K)) → Slot es
  Slot-exists [] = missing [] [] refl tt tt refl
  Slot-exists ((k, v) ∷ es) = elim (Bool-cases (o.lt k key)) [
    | inl below ↦ Slot-cons (k, v) es below (Slot-exists es)
    | inr f ↦ elim (Bool-cases (o.lt key k)) [
      | inl above ↦ missing [] ((k, v) ∷ es) refl tt above (ground (arith, f))
      | inr g ↦ there [] es k v refl tt f g (ground (arith, f))
    ]
  ]

module _ {K : Type 0} ⦃o : Order K⦄ (key : K) (id : RecordId) where
  pub insert_entry-missing :
      (a b : List (Entry K))
      → All (λ e. e.0 ≺ key) a
      → HeadAbove key b
      → insert_entry key id (a ++ b) ≡ a ++ ((key, id ∷ []) ∷ b)
  unfolding insert_entry
  insert_entry-missing [] [] low head = refl
  insert_entry-missing [] ((k, v) ∷ b) low head = ground (arith, head, not_lt_of_lt key k head)
  insert_entry-missing ((k, v) ∷ a) b low head =
      ground (arith, low.0, insert_entry-missing a b low.1 head)

  pub insert_entry_there :
      (a b : List (Entry K)) (k : K) (v : List RecordId)
      → All (λ e. e.0 ≺ key) a
      → o.lt k key ≡ false
      → o.lt key k ≡ false
      → insert_entry key id (a ++ ((k, v) ∷ b)) ≡ a ++ ((k, v ++ (id ∷ [])) ∷ b)
  unfolding insert_entry
  insert_entry_there [] b k v low f g = ground (arith, f, g)
  insert_entry_there ((j, w) ∷ a) b k v low f g =
      ground (arith, low.0, insert_entry_there a b k v low.1 f g)

  -- entries below the key, and entries above it, stay as they are
  pub insert_entry_inside :
      (pre es post : List (Entry K))
      → All (λ e. e.0 ≺ key) pre
      → All (λ e. key ≺ e.0) post
      → insert_entry key id (pre ++ (es ++ post)) ≡ pre ++ (insert_entry key id es ++ post)
  unfolding insert_entry
  insert_entry_inside [] [] [] low high = refl
  insert_entry_inside [] [] ((k, v) ∷ post) low high =
      ground (arith, high.0, not_lt_of_lt key k high.0)
  insert_entry_inside [] ((k, v) ∷ es) post low high =
      ground (arith, insert_entry_inside [] es post tt high)
  insert_entry_inside ((k, v) ∷ pre) es post low high =
      ground (arith, low.0, insert_entry_inside pre es post low.1 high)

  pub All-keys-insert :
      (P : K → Type 0) (a b : List (Entry K)) (v : List RecordId)
      → P key
      → All P (keys (a ++ b))
      → All P (keys (a ++ ((key, v) ∷ b)))
  All-keys-insert P [] b v p h = (p, h)
  All-keys-insert P (e ∷ a) b v p h = (h.0, All-keys-insert P a b v p h.1)

  head-above :
      (b : List (Entry K)) → IsSorted (keys b) → HeadAbove key b → All (λ k. key ≺ k) (keys b)
  head-above [] sorted h = tt
  head-above ((k, v) ∷ b) sorted h = (h, All-imp (λ j q. o.lt_trans key k j h q) (keys b) sorted.0)

  pub IsSorted-missing :
      (a b : List (Entry K)) (v : List RecordId)
      → IsSorted (keys (a ++ b))
      → All (λ e. e.0 ≺ key) a
      → HeadAbove key b
      → IsSorted (keys (a ++ ((key, v) ∷ b)))
  IsSorted-missing [] b v sorted low head = (head-above b sorted head, sorted)
  IsSorted-missing (e ∷ a) b v sorted low head = (
    All-keys-insert (λ k. e.0 ≺ k) a b v low.0 sorted.0,
    IsSorted-missing a b v sorted.1 low.1 head,
  )
