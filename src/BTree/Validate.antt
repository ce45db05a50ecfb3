-- ===== src/BTree/Validate.antt =====
-- `Validate` of BPlusTree.hpp, with `ValidateNode` and `ValidateLeafChain`. They only read; `none`
-- is a read that the code must not make, or the end of the fuel.
use becoming_an_elite_engine.Base.{
  ℕ, zero, suc, ◌+◌, ◌%◌, Bool, true, false, not, Option, none, some, List, [], ◌∷◌, length,
  get_elem?, ltb, ◌==◌, if◌then◌else◌, Order,
}
use becoming_an_elite_engine.BTree.Heap.{
  Ptr, null, RecordId, Leaf, leaf, Internal, internal, Node, State, word, keys_of, parent_of,
}
use becoming_an_elite_engine.BTree.Find.{max_keys, min_leaf_keys, min_internal_keys}

-- what `ValidateNode` is given by reference: `leafDepth`, `leafDepthSet`, `keyCount`
pub record Scan : Type 0 where
  pub leaf_depth : ℕ
  pub leaf_depth_set : Bool
  pub key_count : ℕ

-- What `ValidateNode` returns: `none` is false, after which nothing reads the scan.
abbrev pub Verdict : Type 0
Verdict = Option Scan

abbrev refuse : Option Verdict
refuse = some none

abbrev accept : Scan → Option Verdict
accept scan = some (some scan)

unfoldable pub any_empty : List (List RecordId) → Bool
any_empty [] = false
any_empty ([] ∷ values) = true
any_empty ((id ∷ postings) ∷ values) = any_empty values

-- the depth of the leaves: the first one sets it
unfoldable pub count_leaf : ℕ → ℕ → Scan → Option Verdict
count_leaf depth count scan =
    let scan' = record scan { key_count = (scan.key_count + count) % word } in
    if scan.leaf_depth_set
    then if depth == scan.leaf_depth then accept scan' else refuse
    else accept (record scan' { leaf_depth = depth; leaf_depth_set = true })

module _ {K : Type 0} where
  unfoldable pub last : List K → Option K
  last [] = none
  last (k ∷ []) = some k
  last (k ∷ l ∷ ks) = last (l ∷ ks)

  -- `node != m_Root`, and fewer keys than the minimum
  unfoldable pub too_few : State K → Ptr → ℕ → ℕ → Bool
  too_few s p count minimum = if p == s.root then false else ltb count minimum

  unfoldable pub validate_leaf : State K → Ptr → Leaf K → ℕ → Scan → Option Verdict
  validate_leaf s p l depth scan =
      if length l.keys == length l.values
      then if any_empty l.values
        then refuse
        else if too_few s p (length l.keys) (min_leaf_keys s)
        then refuse
        else count_leaf depth (length l.keys) scan
      else refuse

  -- the checks of a child, and the call that `visit` stands for
  unfoldable pub validate_child :
      (Ptr → Option K → Option K → Scan → Option Verdict)
      → State K
      → Ptr
      → Ptr
      → Option K
      → Option K
      → Scan
      → Option Verdict
  validate_child visit s node child lower upper scan =
      if child == null then refuse else elim (s.cell child) [
        | none ↦ none
        | some x ↦ if parent_of x == node then visit child lower upper scan else refuse
      ]

  -- The loop over the children: `lower` is the separator to the left of the first one, and the keys
  -- are the separators to the right. After a child that has no separator to the right, another one
  -- would read beyond the keys.
  unfoldable pub validate_children :
      (Ptr → Option K → Option K → Scan → Option Verdict)
      → State K
      → Ptr
      → Option K
      → Option K
      → List K
      → List Ptr
      → Scan
      → Option Verdict
  validate_children visit s node lower upper keys [] scan = accept scan
  validate_children visit s node lower upper [] (child ∷ children) scan =
      elim (validate_child visit s node child lower upper scan) [
        | none ↦ none
        | some none ↦ refuse
        | some (some scan') ↦ elim children [ [] ↦ accept scan' | next ∷ rest ↦ none ]
      ]
  validate_children visit s node lower upper (k ∷ keys) (child ∷ children) scan =
      elim (validate_child visit s node child lower (some k) scan) [
        | none ↦ none
        | some none ↦ refuse
        | some (some scan') ↦ validate_children visit s node (some k) upper keys children scan'
      ]

  unfoldable pub validate_internal :
      (Ptr → Option K → Option K → Scan → Option Verdict)
      → State K
      → Ptr
      → Internal K
      → Option K
      → Option K
      → Scan
      → Option Verdict
  validate_internal visit s p n lower upper scan =
      if length n.children == length n.keys + 1
      then if (if p == s.root then ltb (length n.children) 2 else false)
        then refuse
        else if too_few s p (length n.keys) (min_internal_keys s)
        then refuse
        else validate_children visit s p lower upper n.keys n.children scan
      else refuse

  -- `ValidateNode` after the checks that leaves and internal nodes share
  unfoldable pub validate_body :
      (Ptr → Option K → Option K → Scan → Option Verdict)
      → State K
      → Ptr
      → Option K
      → Option K
      → ℕ
      → Scan
      → Node K
      → Option Verdict
  validate_body visit s p lower upper depth scan (leaf l) = validate_leaf s p l depth scan
  validate_body visit s p lower upper depth scan (internal n) =
      validate_internal visit s p n lower upper scan

  -- the walk of `ValidateLeafChain` down to its first leaf
  unfoldable pub first_leaf : ℕ → State K → Ptr → Option (Ptr × Leaf K)
  first_leaf zero s p = none
  first_leaf (suc fuel) s p = elim (s.cell p) [
    | none ↦ none
    | some (leaf l) ↦ some (p, l)
    | some (internal n) ↦ elim (get_elem? n.children 0) [
      | none ↦ none
      | some child ↦ first_leaf fuel s child
    ]
  ]

module _ {K : Type 0} ⦃o : Order K⦄ where
  unfoldable pub ascending : List K → Bool
  ascending [] = true
  ascending (k ∷ []) = true
  ascending (k ∷ l ∷ ks) = if o.lt k l then ascending (l ∷ ks) else false

  -- `lowerBound != nullptr && key < *lowerBound`
  unfoldable pub too_low : Option K → K → Bool
  too_low none key = false
  too_low (some lower) key = o.lt key lower

  -- `upperBound != nullptr && !(key < *upperBound)`
  unfoldable pub too_high : Option K → K → Bool
  too_high none key = false
  too_high (some upper) key = not (o.lt key upper)

  unfoldable pub inside : Option K → Option K → List K → Bool
  inside lower upper [] = true
  inside lower upper (k ∷ ks) =
      if too_low lower k then false else if too_high upper k then false else inside lower upper ks

  unfoldable pub validate_node : ℕ → State K → Ptr → Option K → Option K → ℕ → Scan → Option Verdict
  validate_node zero s p lower upper depth scan = none
  validate_node (suc fuel) s p lower upper depth scan = elim (s.cell p) [
    | none ↦ none
    | some x ↦
        if ascending (keys_of x)
        then if inside lower upper (keys_of x)
          then if ltb (max_keys s) (length (keys_of x))
            then refuse
            else validate_body
                (λ child below above seen.
                  validate_node fuel s child below above ((depth + 1) % word) seen)
                s p lower upper depth scan x
          else refuse
        else refuse
  ]

  -- the loop of `ValidateLeafChain`, at a leaf
  unfoldable pub validate_links : ℕ → State K → Ptr → Leaf K → Option Bool
  validate_links zero s p l = none
  validate_links (suc fuel) s p l = if l.next == null then some true else elim (s.cell l.next) [
    | none ↦ none
    | some (internal n) ↦ none
    | some (leaf next) ↦
        if next.previous == p
        then elim (last l.keys) [
          | none ↦ some false
          | some back ↦ elim (get_elem? next.keys 0) [
            | none ↦ some false
            | some front ↦ elim (o.lt back front) [
              | true ↦ validate_links fuel s l.next next
              | false ↦ some false
            ]
          ]
        ]
        else some false
  ]

  unfoldable pub validate_leaf_chain : ℕ → State K → Option Bool
  validate_leaf_chain fuel s = elim (first_leaf fuel s s.root) [
    | none ↦ none
    | some (p, l) ↦ if l.previous == null then validate_links fuel s p l else some false
  ]

  unfoldable pub validate : ℕ → State K → Option Bool
  validate fuel s = if s.root == null then some (s.size == 0) else elim (s.cell s.root) [
    | none ↦ none
    | some x ↦
        if parent_of x == null
        then elim (validate_node fuel s s.root none none 1
            (record { leaf_depth = 0; leaf_depth_set = false; key_count = 0 })) [
              | none ↦ none
              | some none ↦ some false
              | some (some scan) ↦
                  if scan.key_count == s.size then validate_leaf_chain fuel s else some false
            ]
        else some false
  ]
