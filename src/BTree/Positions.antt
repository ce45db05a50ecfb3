-- ===== src/BTree/Positions.antt =====
-- Positions in the vectors of an internal node: insertion next to a child, and the cut in halves.
use becoming_an_elite_engine.Base.{
  ℕ, zero, suc, ◌+◌, ◌<◌, ◌≡◌, ◌≢◌, refl, ap, ◌∙◌, sym, some, List, [], ◌∷◌, ◌++◌, map, length,
  take, drop, insert_at, get_elem?, append_assoc, length-append, subst, arith,
}
use becoming_an_elite_engine.BTree.Heap.{Ptr}
use becoming_an_elite_engine.BTree.Insert.{child_index}
use becoming_an_elite_engine.BTree.Shape.{Tree, ptr}
use becoming_an_elite_engine.BTree.Stored.{total, occ, occ-ptr}

module _ {A : Type 0} where
  pub insert_at-append :
      (xs ys : List A) (i : ℕ) (v : A) → i ≡ length xs → insert_at (xs ++ ys) i v ≡ xs ++ (v ∷ ys)
  insert_at-append [] [] zero v h = refl
  insert_at-append [] (y ∷ ys) zero v h = refl
  insert_at-append [] ys (suc i) v h = absurd (omega (arith, h))
  insert_at-append (x ∷ xs) ys zero v h = absurd (omega (arith, h))
  insert_at-append (x ∷ xs) ys (suc i) v h =
      ap (λ l. x ∷ l) (insert_at-append xs ys i v (omega (arith, h)))

  pub insert_behind :
      (xs ys : List A) (i : ℕ) (x v : A)
      → i ≡ length xs
      → insert_at (xs ++ (x ∷ ys)) (i + 1) v ≡ xs ++ (x ∷ v ∷ ys)
  insert_behind xs ys i x v h =
      ap (λ l. insert_at l (i + 1) v) (sym (append_assoc xs (x ∷ []) ys))
      ∙ insert_at-append (xs ++ (x ∷ [])) ys (i + 1) v (omega (arith, h, length-append xs (x ∷ [])))
      ∙ append_assoc xs (x ∷ []) (v ∷ ys)

  pub take_first : (xs ys : List A) (i : ℕ) → i ≡ length xs → take i (xs ++ ys) ≡ xs
  take_first [] ys zero h = refl
  take_first [] ys (suc i) h = absurd (omega (arith, h))
  take_first (x ∷ xs) ys zero h = absurd (omega (arith, h))
  take_first (x ∷ xs) ys (suc i) h = ap (λ l. x ∷ l) (take_first xs ys i (omega (arith, h)))

  pub drop_first : (xs ys : List A) (i : ℕ) → i ≡ length xs → drop i (xs ++ ys) ≡ ys
  drop_first [] ys zero h = refl
  drop_first [] ys (suc i) h = absurd (omega (arith, h))
  drop_first (x ∷ xs) ys zero h = absurd (omega (arith, h))
  drop_first (x ∷ xs) ys (suc i) h = drop_first xs ys i (omega (arith, h))

  -- the element at a position, with what lies to both sides
  pub element_at :
      (xs : List A) (i : ℕ)
      → i < length xs
      → (ys : List A) × (x : A) × (zs : List A) × (xs ≡ ys ++ (x ∷ zs)) × (length ys ≡ i)
  element_at [] i h = absurd (omega (arith, h))
  element_at (x ∷ xs) zero h = ([], x, xs, refl, refl)
  element_at (x ∷ xs) (suc i) h =
      let (ys, y, zs, e, n) = element_at xs i (omega (arith, h)) in
      (x ∷ ys, y, zs, ap (λ l. x ∷ l) e, ap suc n)

  pub get_middle :
      (xs ys : List A) (x : A) (i : ℕ) → length xs ≡ i → get_elem? (xs ++ (x ∷ ys)) i ≡ some x
  get_middle [] ys x zero h = refl
  get_middle [] ys x (suc i) h = absurd (omega (arith, h))
  get_middle (z ∷ xs) ys x zero h = absurd (omega (arith, h))
  get_middle (z ∷ xs) ys x (suc i) h = get_middle xs ys x i (omega (arith, h))

  pub drop_behind :
      (xs ys : List A) (x : A) (i : ℕ) → length xs ≡ i → drop (i + 1) (xs ++ (x ∷ ys)) ≡ ys
  drop_behind xs ys x i h =
      ap (drop (i + 1)) (sym (append_assoc xs (x ∷ []) ys))
      ∙ drop_first (xs ++ (x ∷ [])) ys (i + 1) (omega (arith, h, length-append xs (x ∷ [])))

pub map-append :
    {A B : Type 0} (f : A → B) (xs ys : List A) → map f (xs ++ ys) ≡ map f xs ++ map f ys
map-append f [] ys = refl
map-append f (x ∷ xs) ys = ap (λ l. f x ∷ l) (map-append f xs ys)

module _ (K : Type 0) where
  pub child_index-length :
      (n : ℕ) (left : List (Tree K n)) (q : Ptr) (cs : List Ptr)
      → total (λ t. occ K n q t) left ≡ 0
      → child_index (map (ptr K n) left ++ (q ∷ cs)) q ≡ length left
  unfolding child_index
  child_index-length n [] q cs h = ground arith
  child_index-length n (t ∷ left) q cs h =
      let rest = child_index-length n left q cs (omega (arith, h)) in
      let differs : ptr K n t ≢ q =
        λ e. absurd (omega (arith, h, subst (λ a. 0 < occ K n a t) e (occ-ptr K n t))) in
      ground (arith, rest, differs)
