-- ===== src/BTree/Splits.antt =====
-- What the two binary searches find in ascending keys.
use becoming_an_elite_engine.Base.{
  ℕ, ◌^◌, ◌<◌, ◌≡◌, Bool, true, false, not, some, List, [], ◌∷◌, arith, length, take, drop, Order,
  ◌≺◌, All, IsSorted, All-imp,
}
use becoming_an_elite_engine.BTree.Bound.{
  upper_bound_index, lower_bound_index, partition_point, IsPartitioned, bound_index-partition_point,
}

module _ {ℓ} {K : Type ℓ} (p : K → Bool) where
  pub take-partition_point : (xs : List K) → All (λ x. p x ≡ true) (take (partition_point p xs) xs)
  take-partition_point [] = tt
  take-partition_point (x ∷ xs) = ground (arith, take-partition_point xs)

  pub drop-partition_point :
      (xs : List K) → IsPartitioned p xs → All (λ x. p x ≡ false) (drop (partition_point p xs) xs)
  drop-partition_point [] h = tt
  drop-partition_point (x ∷ xs) h = ground (arith, drop-partition_point xs h.1)

module _ {ℓ} {K : Type ℓ} ⦃o : Order K⦄ (key : K) where
  -- the tests of `UpperBoundIndex` and of `LowerBoundIndex`
  abbrev pub at_most : K → Bool
  at_most k = not (o.lt key k)

  abbrev pub less : K → Bool
  less k = o.lt k key

  above-All :
      (x : K) (xs : List K) → All (λ y. x ≺ y) xs → key ≺ x → All (λ y. at_most y ≡ false) xs
  above-All x [] h k = tt
  above-All x (y ∷ ys) h k = (ground (arith, o.lt_trans key x y k h.0), above-All x ys h.1 k)

  not_less-All :
      (x : K) (xs : List K) → All (λ y. x ≺ y) xs → less x ≡ false → All (λ y. less y ≡ false) xs
  not_less-All x [] h k = tt
  not_less-All x (y ∷ ys) h k = (ground (arith, o.lt_trans x y key h.0), not_less-All x ys h.1 k)

  pub at_most-IsPartitioned : (xs : List K) → IsSorted xs → IsPartitioned at_most xs
  at_most-IsPartitioned [] h = tt
  at_most-IsPartitioned (x ∷ xs) h =
      (λ f. above-All x xs h.0 (ground arith), at_most-IsPartitioned xs h.1)

  pub less-IsPartitioned : (xs : List K) → IsSorted xs → IsPartitioned less xs
  less-IsPartitioned [] h = tt
  less-IsPartitioned (x ∷ xs) h = (λ f. not_less-All x xs h.0 f, less-IsPartitioned xs h.1)

  -- In fewer than 2 ^ 31 ascending keys `UpperBoundIndex` returns an index: the keys before it are
  -- not above the key that is sought, and those from it on are.
  pub upper_bound_index_lem :
      (keys : List K)
      → length keys < 2 ^ 31
      → IsSorted keys
      → (r : ℕ) × (upper_bound_index keys key ≡ some r)
        × All (λ k. o.lt key k ≡ false) (take r keys)
        × All (λ k. key ≺ k) (drop r keys)
  unfolding upper_bound_index
  upper_bound_index_lem keys small sorted =
      let part = at_most-IsPartitioned keys sorted in
      (
        partition_point at_most keys,
        bound_index-partition_point at_most keys small part,
        All-imp (λ x h. ground arith) _ (take-partition_point at_most keys),
        All-imp (λ x h. ground arith) _ (drop-partition_point at_most keys part),
      )

  -- In fewer than 2 ^ 31 ascending keys `LowerBoundIndex` returns an index: the keys before it are
  -- below the key that is sought, and those from it on are not.
  pub lower_bound_index_lem :
      (keys : List K)
      → length keys < 2 ^ 31
      → IsSorted keys
      → (r : ℕ) × (lower_bound_index keys key ≡ some r)
        × All (λ k. k ≺ key) (take r keys)
        × All (λ k. o.lt k key ≡ false) (drop r keys)
  unfolding lower_bound_index
  lower_bound_index_lem keys small sorted =
      let part = less-IsPartitioned keys sorted in
      (
        partition_point less keys,
        bound_index-partition_point less keys small part,
        take-partition_point less keys,
        drop-partition_point less keys part,
      )
