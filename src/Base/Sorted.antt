-- ===== src/Base/Sorted.antt =====
-- Strictly ascending lists as sets of keys.
use mathlib.Core.Path.{◌≡◌, refl}
use mathlib.Core.Bool.{Bool, true, false}
use mathlib.Core.List.{List, [], ◌∷◌, ◌++◌}
use native.Mathlib.Omega.{arith}
use becoming_an_elite_engine.Base.Tests.{if◌then◌else◌}
use becoming_an_elite_engine.Base.Lists.{All, All-imp, All-append, All-left, All-right}
use becoming_an_elite_engine.Base.Keys.{Order, ◌≺◌, not_lt_of_lt}

module _ {ℓ} {K : Type ℓ} ⦃o : Order K⦄ where
  abbrev pub IsSorted : List K → Type 0
  IsSorted [] = Unit
  IsSorted (x ∷ xs) = All (λ y. x ≺ y) xs × IsSorted xs

  unfoldable pub insert_sorted : K → List K → List K
  insert_sorted v [] = v ∷ []
  insert_sorted v (x ∷ xs) = elim (o.lt v x) [
    | true ↦ v ∷ x ∷ xs
    | false ↦ elim (o.lt x v) [ true ↦ x ∷ insert_sorted v xs | false ↦ x ∷ xs ]
  ]

  unfoldable pub remove_sorted : K → List K → List K
  remove_sorted v [] = []
  remove_sorted v (x ∷ xs) = elim (o.lt v x) [
    | true ↦ x ∷ xs
    | false ↦ elim (o.lt x v) [ true ↦ x ∷ remove_sorted v xs | false ↦ xs ]
  ]

  unfoldable pub contains : K → List K → Bool
  contains v [] = false
  contains v (x ∷ xs) = if o.eq v x then true else contains v xs

  pub IsSorted-append :
      (xs ys : List K)
      → IsSorted xs
      → IsSorted ys
      → All (λ x. All (λ y. x ≺ y) ys) xs
      → IsSorted (xs ++ ys)
  IsSorted-append [] ys h k c = k
  IsSorted-append (x ∷ xs) ys h k c = (All-append _ xs ys h.0 c.0, IsSorted-append xs ys h.1 k c.1)

  -- what the order of a list says of an element in its middle
  pub record IsSplit (xs : List K) (x : K) (ys : List K) : Type 0 where
    pub below : All (λ y. y ≺ x) xs
    pub above : All (λ y. x ≺ y) ys
    pub left : IsSorted xs
    pub right : IsSorted ys

  pub IsSorted-IsSplit :
      (xs : List K) (x : K) (ys : List K) → IsSorted (xs ++ (x ∷ ys)) → IsSplit xs x ys
  IsSorted-IsSplit [] x ys h = record { below = tt; above = h.0; left = tt; right = h.1 }
  IsSorted-IsSplit (y ∷ xs) x ys h =
      let rest = IsSorted-IsSplit xs x ys h.1 in
      record {
        below = ((All-right _ xs (x ∷ ys) h.0).0, rest.below);
        above = rest.above;
        left = (All-left _ xs (x ∷ ys) h.0, rest.left);
        right = rest.right;
      }

  All-insert_sorted {κ} :
      (P : K → Type κ) (v : K) (xs : List K) → P v → All P xs → All P (insert_sorted v xs)
  unfolding insert_sorted
  All-insert_sorted P v [] p h = (p, tt)
  All-insert_sorted P v (x ∷ xs) p h = ground (arith, All-insert_sorted P v xs p h.1)

  All-trans : (v x : K) (xs : List K) → v ≺ x → All (λ y. x ≺ y) xs → All (λ y. v ≺ y) xs
  All-trans v x xs h = All-imp (λ y k. o.lt_trans v x y h k) xs

  pub insert_sorted-IsSorted : (v : K) (xs : List K) → IsSorted xs → IsSorted (insert_sorted v xs)
  unfolding insert_sorted
  insert_sorted-IsSorted v [] h = (tt, tt)
  insert_sorted-IsSorted v (x ∷ xs) h = ground (
    arith,
    insert_sorted-IsSorted v xs h.1,
    All-insert_sorted (λ y. x ≺ y) v xs,
    All-trans v x xs,
  )

  All-remove_sorted {κ} :
      (P : K → Type κ) (v : K) (xs : List K) → All P xs → All P (remove_sorted v xs)
  unfolding remove_sorted
  All-remove_sorted P v [] h = tt
  All-remove_sorted P v (x ∷ xs) h = ground (arith, All-remove_sorted P v xs h.1)

  pub remove_sorted-IsSorted : (v : K) (xs : List K) → IsSorted xs → IsSorted (remove_sorted v xs)
  unfolding remove_sorted
  remove_sorted-IsSorted v [] h = tt
  remove_sorted-IsSorted v (x ∷ xs) h =
      ground (arith, remove_sorted-IsSorted v xs h.1, All-remove_sorted (λ y. x ≺ y) v xs)

  pub not_contains_above : (v : K) (xs : List K) → All (λ y. v ≺ y) xs → contains v xs ≡ false
  unfolding contains
  not_contains_above v [] h = refl
  not_contains_above v (x ∷ xs) h =
      ground (arith, not_contains_above v xs h.1, o.eq_iff v x, o.lt_irrefl v)

  -- The two operations are insertion into a set and removal from it.
  pub contains-insert_sorted :
      (v w : K) (xs : List K)
      → contains w (insert_sorted v xs) ≡ (if o.eq w v then true else contains w xs)
  unfolding contains insert_sorted
  contains-insert_sorted v w [] = refl
  contains-insert_sorted v w (x ∷ xs) =
      ground (arith, contains-insert_sorted v w xs, o.eq_iff w v, o.eq_iff w x, o.eq_of_not_lt v x)

  pub contains-remove_sorted :
      (v w : K) (xs : List K)
      → IsSorted xs
      → contains w (remove_sorted v xs) ≡ (if o.eq w v then false else contains w xs)
  unfolding contains remove_sorted
  contains-remove_sorted v w [] h = ground arith
  contains-remove_sorted v w (x ∷ xs) h = ground (
    arith,
    contains-remove_sorted v w xs h.1,
    o.eq_iff w v,
    o.eq_iff w x,
    o.eq_of_not_lt v x,
    o.lt_irrefl v,
    not_contains_above v xs,
    All-trans v x xs,
  )

  -- An operation on a list with `x` in its middle goes to the side where the key belongs.
  module _ (v : K) (x : K) (ys : List K) where
    pub insert_sorted_left :
        (xs : List K) → v ≺ x → insert_sorted v (xs ++ (x ∷ ys)) ≡ insert_sorted v xs ++ (x ∷ ys)
    unfolding insert_sorted
    insert_sorted_left [] h = ground arith
    insert_sorted_left (z ∷ xs) h = ground (arith, insert_sorted_left xs h)

    pub insert_sorted_here :
        (xs : List K)
        → All (λ y. y ≺ x) xs
        → v ≡ x
        → insert_sorted v (xs ++ (x ∷ ys)) ≡ xs ++ (x ∷ ys)
    unfolding insert_sorted
    insert_sorted_here [] h e = ground (arith, o.lt_irrefl x)
    insert_sorted_here (z ∷ xs) h e = ground (arith, insert_sorted_here xs h.1 e, not_lt_of_lt z x)

    pub insert_sorted_right :
        (xs : List K)
        → All (λ y. y ≺ x) xs
        → x ≺ v
        → insert_sorted v (xs ++ (x ∷ ys)) ≡ xs ++ (x ∷ insert_sorted v ys)
    unfolding insert_sorted
    insert_sorted_right [] h k = ground (arith, not_lt_of_lt x v k)
    insert_sorted_right (z ∷ xs) h k =
        ground (arith, insert_sorted_right xs h.1 k, o.lt_trans z x v h.0 k, not_lt_of_lt z v)

    pub remove_sorted_left :
        (xs : List K)
        → All (λ y. x ≺ y) ys
        → v ≺ x
        → remove_sorted v (xs ++ (x ∷ ys)) ≡ remove_sorted v xs ++ (x ∷ ys)
    unfolding remove_sorted
    remove_sorted_left [] a h = ground arith
    remove_sorted_left (z ∷ xs) a h = ground (arith, remove_sorted_left xs a h)

    pub remove_sorted_here :
        (xs : List K) → All (λ y. y ≺ x) xs → v ≡ x → remove_sorted v (xs ++ (x ∷ ys)) ≡ xs ++ ys
    unfolding remove_sorted
    remove_sorted_here [] h e = ground (arith, o.lt_irrefl x)
    remove_sorted_here (z ∷ xs) h e = ground (arith, remove_sorted_here xs h.1 e, not_lt_of_lt z x)

    pub remove_sorted_right :
        (xs : List K)
        → All (λ y. y ≺ x) xs
        → x ≺ v
        → remove_sorted v (xs ++ (x ∷ ys)) ≡ xs ++ (x ∷ remove_sorted v ys)
    unfolding remove_sorted
    remove_sorted_right [] h k = ground (arith, not_lt_of_lt x v k)
    remove_sorted_right (z ∷ xs) h k =
        ground (arith, remove_sorted_right xs h.1 k, o.lt_trans z x v h.0 k, not_lt_of_lt z v)

    pub contains_left :
        (xs : List K) → All (λ y. x ≺ y) ys → v ≺ x → contains v (xs ++ (x ∷ ys)) ≡ contains v xs
    unfolding contains
    contains_left [] a h =
        ground (arith, o.eq_iff v x, o.lt_irrefl v, not_contains_above v ys (All-trans v x ys h a))
    contains_left (z ∷ xs) a h = ground (arith, contains_left xs a h)

    pub contains_here : (xs : List K) → v ≡ x → contains v (xs ++ (x ∷ ys)) ≡ true
    unfolding contains
    contains_here [] e = ground (arith, o.eq_iff v x)
    contains_here (z ∷ xs) e = ground (arith, contains_here xs e)

    pub contains_right :
        (xs : List K) → All (λ y. y ≺ x) xs → x ≺ v → contains v (xs ++ (x ∷ ys)) ≡ contains v ys
    unfolding contains
    contains_right [] a h = ground (arith, o.eq_iff v x, o.lt_irrefl x)
    contains_right (z ∷ xs) a h =
        ground (arith, contains_right xs a.1 h, o.eq_iff v z, o.lt_trans z x v a.0 h, o.lt_irrefl z)
