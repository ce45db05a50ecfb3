-- ===== src/BTree/Tests.antt =====
-- The theorems on the B+ tree at a concrete tree, which a run of `Insert` builds, and runs of
-- `Remove`.
use becoming_an_elite_engine.Base.{
  nat_order, ℕ, ◌≡◌, refl, ◌+◌, true, false, Option, none, some, List, [], ◌∷◌, arith, ◌==◌, All,
  take, drop, ◌≺◌, if◌then◌else◌, ltb,
}
use becoming_an_elite_engine.BTree.Bound.{
  upper_bound_index, lower_bound_index, bound_index, bound_loop,
}
use becoming_an_elite_engine.BTree.Heap.{leaf, internal, null, State, M, ◌>>◌, for_each, update}
use becoming_an_elite_engine.BTree.Find.{
  construct, empty, search, contains, range_search, find_leaf, find_leaf_loop, absent, range_walk,
  range_leaf,
}
use becoming_an_elite_engine.BTree.Insert.{
  insert, insert_into_leaf, present, split_leaf, link_back, insert_into_parent, split_internal,
  child_index,
}
use becoming_an_elite_engine.BTree.Remove.{
  remove, erase_record, fix_underflow, borrow_from_left, borrow_from_right, merge_nodes, relink,
  shrink_root, can_spare,
}
use becoming_an_elite_engine.BTree.Lookup.{search-contains_lem}
use becoming_an_elite_engine.BTree.Range.{range_search-records}
use becoming_an_elite_engine.BTree.Validate.{
  validate, validate_node, validate_body, validate_leaf, validate_internal, validate_children,
  validate_child, validate_leaf_chain, validate_links, first_leaf, count_leaf, too_few, any_empty,
  last, ascending, inside, too_low, too_high,
}
use becoming_an_elite_engine.BTree.Window.{IsValid}
use becoming_an_elite_engine.BTree.Context.{IsWhole}
use becoming_an_elite_engine.BTree.Records.{records}
use becoming_an_elite_engine.BTree.Splits.{upper_bound_index_lem, lower_bound_index_lem}
use becoming_an_elite_engine.BTree.Shape.{entries, LeafTree, Tree, IsTree, tree}

abbrev start : State ℕ
start = record { cell = λ p. none; fresh = 1; order = 3; size = 0; root = null }

construct_test : construct 3 ≡ some start
unfolding construct
construct_test = refl

abbrev filled : M ℕ (Unit {0})
filled = for_each (10 ∷ 20 ∷ 30 ∷ 40 ∷ 50 ∷ []) (λ key. insert 9 key (key + 1))

-- what a command returns, without the state
abbrev answer : {A : Type 0} → M ℕ A → Option A
answer m = elim (m start) [ none ↦ none | some (a, s) ↦ some a ]

search_test : answer (filled >> search 9 30) ≡ some (31 ∷ [])
unfolding for_each insert insert_into_leaf find_leaf find_leaf_loop present split_leaf link_back
    insert_into_parent split_internal child_index search absent update upper_bound_index
    lower_bound_index bound_index bound_loop
search_test = refl

range_test : answer (filled >> range_search 9 20 45) ≡ some (21 ∷ 31 ∷ 41 ∷ [])
unfolding for_each insert insert_into_leaf find_leaf find_leaf_loop present split_leaf link_back
    insert_into_parent split_internal child_index range_search range_walk range_leaf update
    upper_bound_index lower_bound_index bound_index bound_loop
range_test = refl

abbrev drained : M ℕ (Unit {0})
drained = for_each (50 ∷ 20 ∷ 10 ∷ 30 ∷ 40 ∷ []) (λ key. remove 9 key (key + 1))

drained_test : answer (filled >> drained >> empty) ≡ some true
unfolding for_each insert insert_into_leaf find_leaf find_leaf_loop present split_leaf link_back
    insert_into_parent split_internal child_index remove absent erase_record fix_underflow
    borrow_from_left borrow_from_right merge_nodes relink shrink_root can_spare empty update
    upper_bound_index lower_bound_index bound_index bound_loop
drained_test = refl

-- a root at 3 with the key 30, over the leaf at 1 with the keys 10 and 20, and the one at 2 with
-- the keys 30 and 40
abbrev sample : State ℕ
sample = record {
  cell = λ p.
      if p == 1
      then some (
          leaf (record {
            keys = 10 ∷ 20 ∷ [];
            values = (11 ∷ []) ∷ (21 ∷ 22 ∷ []) ∷ [];
            next = 2;
            previous = null;
            parent = 3;
          }))
      else if p == 2
      then some (
          leaf (record {
            keys = 30 ∷ 40 ∷ [];
            values = (31 ∷ []) ∷ (41 ∷ []) ∷ [];
            next = null;
            previous = 1;
            parent = 3;
          }))
      else if p == 3
      then some (internal (record { keys = 30 ∷ []; children = 1 ∷ 2 ∷ []; parent = null }))
      else none;
  fresh = 4;
  order = 3;
  size = 4;
  root = 3;
}

abbrev left_leaf : LeafTree ℕ
left_leaf = record {
  ptr = 1;
  entries = (10, 11 ∷ []) ∷ (20, 21 ∷ 22 ∷ []) ∷ [];
  next = 2;
  previous = null;
}

abbrev right_leaf : LeafTree ℕ
right_leaf = record {
  ptr = 2;
  entries = (30, 31 ∷ []) ∷ (40, 41 ∷ []) ∷ [];
  next = null;
  previous = 1;
}

abbrev sample_tree : Tree ℕ 1
sample_tree = record { ptr = 3; keys = 30 ∷ []; children = left_leaf ∷ right_leaf ∷ [] }

sample-IsTree : IsTree sample 1 sample_tree
sample-IsTree = record {
  root = refl;
  not_null = ground arith;
  represented = (refl, (refl, (refl, tt)));
  ordered = ground arith;
  chain = ground arith;
}

search-contains_lem_example :
    (search 2 20 sample ≡ some (21 ∷ 22 ∷ [], sample))
    × (contains 2 20 sample ≡ some (true, sample))
search-contains_lem_example =
    search-contains_lem 20 sample 1 2 (entries ℕ 1 sample_tree)
      (tree sample_tree sample-IsTree refl) (omega arith)

range_search-records_example : range_search 3 15 30 sample ≡ some (21 ∷ 22 ∷ 31 ∷ [], sample)
unfolding records
range_search-records_example =
    range_search-records 15 30 sample 1 3 sample_tree sample-IsTree (omega arith) (omega arith)

abbrev sorted_keys : List ℕ
sorted_keys = 10 ∷ 20 ∷ 40 ∷ []

upper_bound_index_lem_example :
    (r : ℕ) × (upper_bound_index sorted_keys 20 ≡ some r)
    × All (λ k. ltb 20 k ≡ false) (take r sorted_keys)
    × All (λ k. 20 ≺ k) (drop r sorted_keys)
upper_bound_index_lem_example = upper_bound_index_lem 20 sorted_keys (omega arith) (ground arith)

lower_bound_index_lem_example :
    (r : ℕ) × (lower_bound_index sorted_keys 20 ≡ some r)
    × All (λ k. k ≺ 20) (take r sorted_keys)
    × All (λ k. ltb k 20 ≡ false) (drop r sorted_keys)
lower_bound_index_lem_example = lower_bound_index_lem 20 sorted_keys (omega arith) (ground arith)

-- the sample with a leaf that the chain does not reach
abbrev cut : State ℕ
cut = record sample {
  cell = λ p.
      if p == 1
      then some (
          leaf (record {
            keys = 10 ∷ 20 ∷ [];
            values = (11 ∷ []) ∷ (21 ∷ 22 ∷ []) ∷ [];
            next = null;
            previous = null;
            parent = 3;
          }))
      else sample.cell p;
}

cut_test : validate 2 cut ≡ some true
unfolding validate validate_node validate_body validate_leaf validate_internal validate_children
    validate_child validate_leaf_chain validate_links first_leaf count_leaf too_few any_empty last
    ascending inside too_low too_high
cut_test = refl

filled_test : elim (filled start) [ none ↦ none | some (a, s) ↦ validate 9 s ] ≡ some true
unfolding for_each insert insert_into_leaf find_leaf find_leaf_loop present split_leaf link_back
    insert_into_parent split_internal child_index update upper_bound_index lower_bound_index
    bound_index bound_loop validate validate_node validate_body validate_leaf validate_internal
    validate_children validate_child validate_leaf_chain validate_links first_leaf count_leaf
    too_few any_empty last ascending inside too_low too_high
filled_test = refl

sample-IsValid : IsValid sample 1 sample_tree
sample-IsValid = record {
  root = refl;
  not_null = ground arith;
  stored = (refl, ((_, _, refl), ((_, _, refl), tt)));
  window = ground arith;
  filled = ground arith;
  counted = refl;
}

abbrev sample_whole : IsWhole sample (entries ℕ 1 sample_tree)
sample_whole = record {
  height = 1;
  tree = sample_tree;
  root = refl;
  placed = record {
    stored = sample-IsValid.stored;
    window = sample-IsValid.window;
    full = ground arith;
  };
  apart = record { once = λ a. ground arith; inside = λ a h. ground (arith, h); nonnull = refl };
  blank = record { proper = ground arith; beyond = λ a h. ground (arith, h) };
  all = refl;
}
