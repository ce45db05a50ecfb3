-- ===== src/BTree/Bound.antt =====
-- `UpperBoundIndex` and `LowerBoundIndex` of BPlusTree.hpp: binary search with `int` bounds.
use becoming_an_elite_engine.Base.{
  ℕ, zero, suc, ◌+◌, ◌-◌, ◌/◌, ◌%◌, ◌^◌, ◌≤◌, ◌<◌, ◌≡◌, ap, Bool, true, false, not, inl, inr,
  Option, none, some, List, [], ◌∷◌, arith, length, get_elem?, get_elem?_exists, leb, ltb, ◌==◌,
  if◌then◌else◌, Order, All, Bool-cases,
}

-- A C++ `int`; `negsuc n` is -(n + 1).
pub data ℤ : Type 0 where
  pos : ℕ → ℤ
  negsuc : ℕ → ℤ

-- `static_cast<int>(n)` of a `size_t`: the low 32 bits, in two's complement
abbrev pub int_of_size : ℕ → ℤ
int_of_size n =
    if ltb (n % 2 ^ 32) (2 ^ 31) then pos (n % 2 ^ 32) else negsuc (2 ^ 32 - 1 - n % 2 ^ 32)

abbrev pub minus_one : ℤ → ℤ
minus_one (pos n) = if n == 0 then negsuc 0 else pos (n - 1)
minus_one (negsuc n) = negsuc (n + 1)

module _ {ℓ} {K : Type ℓ} where
  -- The `while (left <= right)` of both functions; they differ in the test that moves `left`.
  -- `left` starts at 0 and grows. `none` is a read outside the vector, or the end of the fuel.
  unfoldable pub bound_loop : (K → Bool) → List K → ℕ → ℕ → ℤ → Option ℕ
  bound_loop go_right keys zero left right = none
  bound_loop go_right keys (suc fuel) left (negsuc n) = some left
  bound_loop go_right keys (suc fuel) left (pos right) = elim (leb left right) [
    | false ↦ some left
    | true ↦
        let mid = left + (right - left) / 2 in
        elim (get_elem? keys mid) [
          | none ↦ none
          | some key ↦ elim (go_right key) [
            | true ↦ bound_loop go_right keys fuel (mid + 1) (pos right)
            | false ↦ bound_loop go_right keys fuel left (minus_one (pos mid))
          ]
        ]
  ]

  -- Each round drops at least one key, so one more round than there are keys is enough.
  unfoldable pub bound_index : (K → Bool) → List K → Option ℕ
  unfolding bound_loop
  bound_index go_right keys =
      bound_loop go_right keys (length keys + 1) 0 (minus_one (int_of_size (length keys)))

module _ {ℓ} {K : Type ℓ} ⦃o : Order K⦄ where
  unfoldable pub upper_bound_index : List K → K → Option ℕ
  unfolding bound_index
  upper_bound_index keys key = bound_index (λ k. not (o.lt key k)) keys

  unfoldable pub lower_bound_index : List K → K → Option ℕ
  unfolding bound_index
  lower_bound_index keys key = bound_index (λ k. o.lt k key) keys

module _ {ℓ} {K : Type ℓ} (p : K → Bool) where
  -- the length of the longest prefix that passes a test
  abbrev pub partition_point : List K → ℕ
  partition_point [] = 0
  partition_point (x ∷ xs) = if p x then suc (partition_point xs) else 0

  -- Once the test fails it fails for good.
  abbrev pub IsPartitioned : List K → Type 0
  IsPartitioned [] = Unit
  IsPartitioned (x ∷ xs) = (p x ≡ false → All (λ y. p y ≡ false) xs) × IsPartitioned xs

  partition_point-le : (xs : List K) → partition_point xs ≤ length xs
  partition_point-le [] = omega arith
  partition_point-le (x ∷ xs) = ground (arith, partition_point-le xs)

  All-get :
      (xs : List K) (i : ℕ) {a : K}
      → All (λ y. p y ≡ false) xs
      → get_elem? xs i ≡ some a
      → p a ≡ false
  All-get [] i h e = cc
  All-get (x ∷ xs) zero h e = ground arith
  All-get (x ∷ xs) (suc i) h e = All-get xs i h.1 e

  lt-partition_point :
      (xs : List K) (i : ℕ) {a : K}
      → IsPartitioned xs
      → get_elem? xs i ≡ some a
      → p a ≡ true
      → i < partition_point xs
  lt-partition_point [] i h e t = cc
  lt-partition_point (x ∷ xs) zero h e t = ground arith
  lt-partition_point (x ∷ xs) (suc i) h e t = elim (Bool-cases (p x)) [
    | inl go ↦ ground (arith, lt-partition_point xs i h.1 e t)
    | inr stays ↦ ground (arith, All-get xs i (h.0 stays) e)
  ]

  partition_point-le_of_false :
      (xs : List K) (i : ℕ) {a : K} → get_elem? xs i ≡ some a → p a ≡ false → partition_point xs ≤ i
  partition_point-le_of_false [] i e t = omega arith
  partition_point-le_of_false (x ∷ xs) zero e t = ground arith
  partition_point-le_of_false (x ∷ xs) (suc i) e t =
      ground (arith, partition_point-le_of_false xs i e t)

  -- one past the last index that the loop still looks at
  abbrev stop : ℤ → ℕ
  stop (pos n) = suc n
  stop (negsuc n) = 0

  stop-minus_one : (n : ℕ) → stop (minus_one (pos n)) ≡ n
  stop-minus_one n = ground arith

  bound_loop-partition_point :
      (xs : List K) (fuel left : ℕ) (right : ℤ)
      → IsPartitioned xs
      → left ≤ partition_point xs
      → partition_point xs ≤ stop right
      → stop right ≤ length xs
      → stop right - left < fuel
      → bound_loop p xs fuel left right ≡ some (partition_point xs)
  unfolding bound_loop
  bound_loop-partition_point xs zero left right part low high inside enough = absurd (omega arith)
  bound_loop-partition_point xs (suc fuel) left (negsuc n) part low high inside enough =
      ap some (omega arith)
  bound_loop-partition_point xs (suc fuel) left (pos right) part low high inside enough =
      elim (Bool-cases (leb left right)) [
        | inr done ↦ ground arith
        | inl more ↦
            let mid = left + (right - left) / 2 in
            let (a, read) = get_elem?_exists xs mid (ground arith) in
            ground (
              arith,
              lt-partition_point xs mid part read,
              partition_point-le_of_false xs mid read,
              bound_loop-partition_point xs fuel (mid + 1) (pos right) part,
              bound_loop-partition_point xs fuel left (minus_one (pos mid)) part,
            )
      ]

  stop-size : (n : ℕ) → n < 2 ^ 31 → stop (minus_one (int_of_size n)) ≡ n
  stop-size n h = ground arith

  -- Below 2 ^ 31 keys the search finds the partition point, and never reads outside.
  pub bound_index-partition_point :
      (xs : List K)
      → length xs < 2 ^ 31
      → IsPartitioned xs
      → bound_index p xs ≡ some (partition_point xs)
  unfolding bound_index
  bound_index-partition_point xs small part =
      let all = stop-size (length xs) small in
      bound_loop-partition_point xs (length xs + 1) 0 _ part (omega arith)
        (omega (arith, partition_point-le xs)) (omega arith) (omega arith)
