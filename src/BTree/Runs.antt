-- ===== src/BTree/Runs.antt =====
-- One round of `InsertIntoParent` below the root, and `SplitInternal`, as equations between runs.
use becoming_an_elite_engine.Base.{
  ℕ, suc, ◌+◌, ◌-◌, ◌/◌, ◌≡◌, ◌≢◌, refl, ap, ◌∙◌, sym, Option, some, length, take, drop, insert_at,
  get_elem?, ltb, Bool, true, false, ◌==◌, arith, if◌then◌else◌,
}
use becoming_an_elite_engine.BTree.Heap.{
  Ptr, null, Internal, internal, Node, State, M, update, parent_of, with_parent, set_parent,
  for_each, load, load_internal, store, alloc, index, pure, ◌>>=◌, ◌>>◌,
}
use becoming_an_elite_engine.BTree.Find.{max_keys}
use becoming_an_elite_engine.BTree.Insert.{insert_into_parent, split_internal, child_index}
use becoming_an_elite_engine.BTree.Stored.{update-other, update_here}
use becoming_an_elite_engine.BTree.Reparent.{set_parent_at}

module _ {K : Type 0} where
  pub bind_at :
      {A B : Type 0} (m : M K A) (f : A → M K B) (s s' : State K) (a : A)
      → m s ≡ some (a, s')
      → (m >>= f) s ≡ f a s'
  bind_at m f s s' a h = ground (arith, h)

  pub if_at :
      {A : Type 0} (b : Bool) (m m' : M K A) (s : State K)
      → (if b then m else m') s ≡ (if b then m s else m' s)
  if_at true m m' s = refl
  if_at false m m' s = refl

  -- the second branch of `InsertIntoParent`, from the parent on
  abbrev at_parent : ℕ → State K → Ptr → Ptr → K → Ptr → M K (Unit {0})
  at_parent fuel s left right key parent = do
    p ← load_internal parent
    let i = child_index p.children left
    store parent (
        internal (record p {
          keys = insert_at p.keys i key;
          children = insert_at p.children (i + 1) right;
        }))
    set_parent right parent
    p' ← load_internal parent
    if ltb (max_keys s) (length p'.keys)
        then split_internal (insert_into_parent fuel) parent
        else pure tt

  below_root :
      (fuel : ℕ) (s : State K) (left right : Ptr) (key : K)
      → left ≢ s.root
      → insert_into_parent (suc fuel) left key right s
        ≡ (load left >>= (λ l. at_parent fuel s left right key (parent_of l))) s
  unfolding insert_into_parent
  below_root fuel s left right key h =
      let test : (left == s.root) ≡ false = ground (arith, h) in rw test refl

  -- the parent with one more child
  abbrev pub extended : Internal K → ℕ → K → Ptr → Internal K
  extended n i key right = record {
    keys = insert_at n.keys i key;
    children = insert_at n.children (i + 1) right;
    parent = n.parent;
  }

  abbrev pub stored_in : State K → Ptr → Internal K → State K
  stored_in s p n = record s { cell = update s.cell p (some (internal n)) }

  abbrev pub adopted : State K → Ptr → Ptr → Node K → State K
  adopted s p right y = record s { cell = update s.cell right (some (with_parent y p)) }

  pub inner_run :
      (fuel : ℕ) (s : State K) (left right p : Ptr) (key : K) (x y : Node K) (n : Internal K)
      → left ≢ s.root
      → s.cell left ≡ some x
      → parent_of x ≡ p
      → s.cell p ≡ some (internal n)
      → right ≢ p
      → s.cell right ≡ some y
      → let n' = extended n (child_index n.children left) key right in
        let s2 = adopted (stored_in s p n') p right y in
        insert_into_parent (suc fuel) left key right s ≡ (
          if ltb (s.order - 1) (length n'.keys)
          then split_internal (insert_into_parent fuel) p s2
          else some (tt, s2))
  unfolding insert_into_parent
  inner_run fuel s left right p key x y n not_root here owner inner apart there =
      let n' = extended n (child_index n.children left) key right in
      let s1 = stored_in s p n' in
      let s2 = adopted s1 p right y in
      let set = set_parent_at s1 right p y (update-other s.cell p right _ apart ∙ there) in
      let again : s2.cell p ≡ some (internal n') =
        update-other s1.cell right p _ (λ e. apart (sym e)) ∙ update_here s.cell p _ in
      below_root fuel s left right key not_root
      ∙ bind_at (load left) _ s s x (ground (arith, here))
      ∙ ap (λ z. at_parent fuel s left right key z s) owner
      ∙ bind_at (load_internal p) _ s s n (ground (arith, inner))
      ∙ bind_at (set_parent right p) _ s1 s2 tt set
      ∙ bind_at (load_internal p) _ s2 s2 n' (ground (arith, again))
      ∙ if_at (ltb (max_keys s) (length n'.keys)) (split_internal (insert_into_parent fuel) p)
          (pure tt) s2

  -- the new node of `SplitInternal`
  abbrev pub opened : State K → Internal K → ℕ → State K
  opened s n mid = record s {
    cell = update s.cell s.fresh (
        some (
          internal (record {
            keys = drop (mid + 1) n.keys;
            children = drop (mid + 1) n.children;
            parent = null;
          })));
    fresh = s.fresh + 1;
  }

  abbrev pub cut_down : Internal K → ℕ → Internal K
  cut_down n mid = record n { keys = take mid n.keys; children = take (mid + 1) n.children }

  -- the rest of `SplitInternal`, from three of its statements on
  abbrev shorten :
      (Ptr → K → Ptr → M K (Unit {0})) → Ptr → ℕ → K → Ptr → Internal K → M K (Unit {0})
  shorten f node mid separator new rest = do
    store node (
        internal
          (record rest { keys = take mid rest.keys; children = take (mid + 1) rest.children }))
    f node separator new

  abbrev keep : (Ptr → K → Ptr → M K (Unit {0})) → Ptr → ℕ → K → Ptr → M K (Unit {0})
  keep f node mid separator new = do
    rest ← load_internal node
    shorten f node mid separator new rest

  abbrev give_away : (Ptr → K → Ptr → M K (Unit {0})) → Ptr → Internal K → K → Ptr → M K (Unit {0})
  give_away f node n separator new = do
    for_each (drop (length n.keys / 2 + 1) n.children) (λ child. set_parent child new)
    keep f node (length n.keys / 2) separator new

  pub split_run :
      (f : Ptr → K → Ptr → M K (Unit {0})) (s : State K) (node : Ptr) (n : Internal K)
      (separator : K) (cell : Ptr → Option (Node K))
      → s.cell node ≡ some (internal n)
      → get_elem? n.keys (length n.keys / 2) ≡ some separator
      → let mid = length n.keys / 2 in
        for_each (drop (mid + 1) n.children) (λ child. set_parent child s.fresh) (opened s n mid)
          ≡ some (tt, record (opened s n mid) { cell = cell })
        → cell node ≡ some (internal n)
        → split_internal f node s
          ≡ f node separator s.fresh
              (stored_in (record (opened s n mid) { cell = cell }) node (cut_down n mid))
  unfolding split_internal
  split_run f s node n separator cell here middle loop again =
      let mid = length n.keys / 2 in
      let s1 = opened s n mid in
      let s2 = record s1 { cell = cell } in
      bind_at (load_internal node) _ s s n (ground (arith, here))
      ∙ bind_at (index n.keys mid) _ s s separator (ground (arith, middle))
      ∙ bind_at (alloc _) (give_away f node n separator) s s1 s.fresh refl
      ∙ bind_at (for_each (drop (mid + 1) n.children) (λ child. set_parent child s.fresh))
          (λ done. keep f node mid separator s.fresh) s1 s2 tt loop
      ∙ bind_at (load_internal node) (λ rest. shorten f node mid separator s.fresh rest) s2 s2 n
          (ground (arith, again))
