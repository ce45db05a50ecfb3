-- ===== src/BTree/Sound.antt =====
-- `ValidateNode` on the children of a node, and `Validate`: what it means that they return true.
use becoming_an_elite_engine.Base.{
  ℕ, zero, suc, ◌+◌, ◌%◌, ◌<◌, ◌≤◌, ◌≡◌, ◌≢◌, ◌∙◌, sym, ap, subst, refl, inl, inr, true, false,
  Option, none, some, List, [], ◌∷◌, length, arith, Order, Option-cases, length-append, length-map,
  append-nil,
}
use becoming_an_elite_engine.BTree.Heap.{
  Ptr, null, Leaf, leaf, Internal, internal, Node, State, word, keys_of, parent_of,
}
use becoming_an_elite_engine.BTree.Find.{max_keys, min_internal_keys}
use becoming_an_elite_engine.BTree.Shape.{ptr, entries, join}
use becoming_an_elite_engine.BTree.Validate.{
  Scan, Verdict, too_few, validate_leaf, validate_child, validate_children, validate_internal,
  validate_body, ascending, inside, validate_node,
}
use becoming_an_elite_engine.BTree.Checked.{
  Checked, CheckedAll, Checked-leaf, validate_child-true, ascending-IsSorted, inside-Within,
  too_few-false,
}

abbrev pub start : Scan
start = record { leaf_depth = 0; leaf_depth_set = false; key_count = 0 }

pub next_depth : (depth fuel : ℕ) → depth + suc fuel < word → (depth + 1) % word ≡ depth + 1
next_depth depth fuel h = omega (arith, h)

module _ {K : Type 0} ⦃o : Order K⦄ where
  module _ (visit : Ptr → Option K → Option K → Scan → Option Verdict) (s : State K) (node : Ptr)
      (upper : Option K) where
    last_child :
        (lower : Option K) (child : Ptr) (children : List Ptr) (seen seen' : Scan)
        → validate_children visit s node lower upper [] (child ∷ children) seen ≡ some (some seen')
        → validate_child visit s node child lower upper seen ≡ some (some seen')
    unfolding validate_children
    last_child lower child [] seen seen' h = ground arith
    last_child lower child (c ∷ children) seen seen' h = ground arith

    next_child :
        (lower : Option K) (k : K) (ks : List K) (child : Ptr) (children : List Ptr)
        (seen seen' : Scan)
        → validate_children visit s node lower upper (k ∷ ks) (child ∷ children) seen
          ≡ some (some seen')
        → (mid : Scan) × (validate_child visit s node child lower (some k) seen ≡ some (some mid))
          × (validate_children visit s node (some k) upper ks children mid ≡ some (some seen'))
    unfolding validate_children
    next_child lower k ks child children seen seen' h =
        elim (Option-cases (validate_child visit s node child lower (some k) seen)) [
          | inl e ↦ absurd (ground (arith, e, h))
          | inr (none, e) ↦ absurd (ground (arith, e, h))
          | inr (some mid, e) ↦ (mid, e, ground (arith, e, h))
        ]

  one_child :
      (s : State K) (n : ℕ) (node child : Ptr) (lower upper : Option K) (depth : ℕ)
      (seen seen' : Scan)
      → child ≢ null
      → Checked s n node child lower upper depth seen seen'
      → CheckedAll s n node (child ∷ []) lower upper [] depth seen seen'
  one_child s n node child lower upper depth seen seen' proper c = record {
    trees = c.tree ∷ [];
    here = ap (λ p. p ∷ []) c.here;
    stored = (c.stored, tt);
    window = c.window;
    filled = (c.filled, tt);
    proper = (λ e. proper (sym c.here ∙ e), tt);
    counted = rw (append-nil (entries K n c.tree)) c.counted;
    known = c.known;
    level = c.level;
    same_level = c.same_level;
  }

  more_children :
      (s : State K) (n : ℕ) (node child : Ptr) (children : List Ptr) (lower upper : Option K)
      (k : K) (ks : List K) (depth : ℕ) (seen mid seen' : Scan)
      → child ≢ null
      → Checked s n node child lower (some k) depth seen mid
      → CheckedAll s n node children (some k) upper ks depth mid seen'
      → CheckedAll s n node (child ∷ children) lower upper (k ∷ ks) depth seen seen'
  more_children s n node child children lower upper k ks depth seen mid seen' proper c cs = record {
    trees = c.tree ∷ cs.trees;
    here = rw (c.here, cs.here) refl;
    stored = (c.stored, cs.stored);
    window = (c.window, cs.window);
    filled = (c.filled, cs.filled);
    proper = (λ e. proper (sym c.here ∙ e), cs.proper);
    counted = omega (
      arith,
      c.counted,
      cs.counted,
      length-append (entries K n c.tree) (join (entries K n) cs.trees),
    );
    known = cs.known;
    level = cs.level;
    same_level = c.same_level;
  }

  -- the levels of the trees below the children agree, since their leaves are at one depth
  children-CheckedAll :
      (visit : Ptr → Option K → Option K → Scan → Option Verdict) (s : State K) (node : Ptr)
      (depth : ℕ) (upper : Option K)
      → ((child : Ptr) (below above : Option K) (a b : Scan)
          → validate_child visit s node child below above a ≡ some (some b)
          → (n : ℕ) × Checked s n node child below above depth a b)
      → (ks : List K) (children : List Ptr) (lower : Option K) (seen seen' : Scan)
      → length children ≡ length ks + 1
      → validate_children visit s node lower upper ks children seen ≡ some (some seen')
      → (n : ℕ) × CheckedAll s n node children lower upper ks depth seen seen'
  children-CheckedAll visit s node depth upper one ks [] lower seen seen' many h =
      absurd (omega (arith, many))
  children-CheckedAll visit s node depth upper one [] (c ∷ d ∷ cs) lower seen seen' many h =
      absurd (omega (arith, many))
  children-CheckedAll visit s node depth upper one [] (c ∷ []) lower seen seen' many h =
      let v = last_child visit s node upper lower c [] seen seen' h in
      let (n, checked) = one c lower upper seen seen' v in
      let proper = (validate_child-true visit s node c lower upper seen seen' v).0 in
      (n, one_child s n node c lower upper depth seen seen' proper checked)
  children-CheckedAll visit s node depth upper one (k ∷ ks) (c ∷ cs) lower seen seen' many h =
      let (mid, v, w) = next_child visit s node upper lower k ks c cs seen seen' h in
      let (n, checked) = one c lower (some k) seen mid v in
      let proper = (validate_child-true visit s node c lower (some k) seen mid v).0 in
      let (m, others) =
        children-CheckedAll visit s node depth upper one ks cs (some k) mid seen'
          (omega (arith, many)) w in
      let level : m ≡ n = omega (arith, checked.level, others.same_level checked.known) in
      (
        n,
        more_children s n node c cs lower upper k ks depth seen mid seen' proper checked
            (subst (λ i. CheckedAll s i node cs (some k) upper ks depth mid seen') level others),
      )

  validate_internal-true :
      (visit : Ptr → Option K → Option K → Scan → Option Verdict) (s : State K) (p : Ptr)
      (n : Internal K) (lower upper : Option K) (seen seen' : Scan)
      → validate_internal visit s p n lower upper seen ≡ some (some seen')
      → (length n.children ≡ length n.keys + 1)
        × (p ≡ s.root → 2 ≤ length n.children)
        × (too_few s p (length n.keys) (min_internal_keys s) ≡ false)
        × (validate_children visit s p lower upper n.keys n.children seen ≡ some (some seen'))
  unfolding validate_internal
  validate_internal-true visit s p n lower upper seen seen' h = ground arith

  -- the call for a child
  abbrev visit_child : ℕ → State K → ℕ → Ptr → Option K → Option K → Scan → Option Verdict
  visit_child fuel s depth child below above scan =
      validate_node fuel s child below above ((depth + 1) % word) scan

  -- the checks that leaves and internal nodes share, of the node `x`
  record Entered (s : State K) (fuel : ℕ) (p : Ptr) (lower upper : Option K) (depth : ℕ)
      (seen seen' : Scan) (x : Node K) : Type 0 where
    here : s.cell p ≡ some x
    sorted : ascending (keys_of x) ≡ true
    within : inside lower upper (keys_of x) ≡ true
    few : length (keys_of x) ≤ max_keys s
    rest : validate_body (visit_child fuel s depth) s p lower upper depth seen x ≡ some (some seen')

  validate_node-true :
      (fuel : ℕ) (s : State K) (p : Ptr) (lower upper : Option K) (depth : ℕ) (seen seen' : Scan)
      → validate_node (suc fuel) s p lower upper depth seen ≡ some (some seen')
      → (x : Node K) × Entered s fuel p lower upper depth seen seen' x
  unfolding validate_node
  validate_node-true fuel s p lower upper depth seen seen' h = elim (Option-cases (s.cell p)) [
    | inl e ↦ absurd (ground (arith, e, h))
    | inr (x, e) ↦ (
      x,
      record {
        here = e;
        sorted = ground (arith, e, h);
        within = ground (arith, e, h);
        few = ground (arith, e, h);
        rest = ground (arith, e, h);
      },
    )
  ]

  body_leaf :
      (visit : Ptr → Option K → Option K → Scan → Option Verdict) (s : State K) (p : Ptr)
      (lower upper : Option K) (depth : ℕ) (seen : Scan) (l : Leaf K)
      → validate_body visit s p lower upper depth seen (leaf l) ≡ validate_leaf s p l depth seen
  unfolding validate_body
  body_leaf visit s p lower upper depth seen l = refl

  body_internal :
      (visit : Ptr → Option K → Option K → Scan → Option Verdict) (s : State K) (p : Ptr)
      (lower upper : Option K) (depth : ℕ) (seen : Scan) (n : Internal K)
      → validate_body visit s p lower upper depth seen (internal n)
        ≡ validate_internal visit s p n lower upper seen
  unfolding validate_body
  body_internal visit s p lower upper depth seen n = refl

  -- an internal node over the trees that are found below its children
  Checked-internal :
      (s : State K) (m : ℕ) (p parent : Ptr) (n : Internal K) (lower upper : Option K) (depth : ℕ)
      (seen seen' : Scan)
      → s.cell p ≡ some (internal n)
      → n.parent ≡ parent
      → ascending n.keys ≡ true
      → inside lower upper n.keys ≡ true
      → length n.keys ≤ max_keys s
      → (p ≡ s.root → 2 ≤ length n.children)
      → too_few s p (length n.keys) (min_internal_keys s) ≡ false
      → CheckedAll s m p n.children lower upper n.keys (depth + 1) seen seen'
      → Checked s (suc m) parent p lower upper depth seen seen'
  Checked-internal s m p parent n lower upper depth seen seen' here owner sorted within few two
        enough c =
      record {
        tree = record { ptr = p; keys = n.keys; children = c.trees };
        here = refl;
        stored = (ground (arith, here, owner, c.here), c.stored);
        window =
            (ascending-IsSorted n.keys sorted, inside-Within lower upper n.keys within, c.window);
        filled = (
          few,
          too_few-false s p _ _ enough,
          λ e. omega (arith, two e, length-map (ptr K m) c.trees, ap length c.here),
          c.proper,
          c.filled,
        );
        counted = c.counted;
        known = c.known;
        level = omega (arith, c.level);
        same_level = λ q. omega (arith, c.same_level q);
      }

  node-Checked :
      (fuel : ℕ) (s : State K) (p parent : Ptr) (lower upper : Option K) (depth : ℕ)
      (seen seen' : Scan) (x : Node K)
      → Entered s fuel p lower upper depth seen seen' x
      → parent_of x ≡ parent
      → ((child : Ptr) (below above : Option K) (a b : Scan)
          → validate_child (visit_child fuel s depth) s p child below above a ≡ some (some b)
          → (n : ℕ) × Checked s n p child below above (depth + 1) a b)
      → (n : ℕ) × Checked s n parent p lower upper depth seen seen'
  node-Checked fuel s p parent lower upper depth seen seen' (leaf l) e owner one = (
    0,
    Checked-leaf s p parent l lower upper depth seen seen' e.here owner e.sorted e.within e.few
        (sym (body_leaf _ s p lower upper depth seen l) ∙ e.rest),
  )
  node-Checked fuel s p parent lower upper depth seen seen' (internal n) e owner one =
      let (many, two, enough, go) =
        validate_internal-true (visit_child fuel s depth) s p n lower upper seen seen'
          (sym (body_internal _ s p lower upper depth seen n) ∙ e.rest) in
      let (m, c) =
        children-CheckedAll (visit_child fuel s depth) s p (depth + 1) upper one n.keys n.children
          lower seen seen' many go in
      (
        suc m,
        Checked-internal s m p parent n lower upper depth seen seen' e.here owner e.sorted e.within
            e.few two enough c,
      )

  children-Checked :
      (fuel : ℕ) (s : State K) (p : Ptr) (depth : ℕ)
      → ((child : Ptr) (below above : Option K) (a b : Scan)
          → ((x : Node K) → s.cell child ≡ some x → parent_of x ≡ p)
          → visit_child fuel s depth child below above a ≡ some (some b)
          → (n : ℕ) × Checked s n p child below above (depth + 1) a b)
      → (child : Ptr) (below above : Option K) (a b : Scan)
      → validate_child (visit_child fuel s depth) s p child below above a ≡ some (some b)
      → (n : ℕ) × Checked s n p child below above (depth + 1) a b
  children-Checked fuel s p depth one child below above a b h =
      let (proper, (x, here, owner), go) =
        validate_child-true (visit_child fuel s depth) s p child below above a b h in
      one child below above a b (λ y e. cc) go

  pub validate_node-Checked :
      (fuel : ℕ) (s : State K) (p parent : Ptr) (lower upper : Option K) (depth : ℕ)
      (seen seen' : Scan)
      → depth + fuel < word
      → ((x : Node K) → s.cell p ≡ some x → parent_of x ≡ parent)
      → validate_node fuel s p lower upper depth seen ≡ some (some seen')
      → (n : ℕ) × Checked s n parent p lower upper depth seen seen'
  unfolding validate_node
  validate_node-Checked zero s p parent lower upper depth seen seen' deep owner h =
      absurd (ground (arith, h))
  validate_node-Checked (suc fuel) s p parent lower upper depth seen seen' deep owner h =
      let (x, e) = validate_node-true fuel s p lower upper depth seen seen' h in
      node-Checked fuel s p parent lower upper depth seen seen' x e (owner x e.here) (
        children-Checked fuel s p depth (λ child below above a b belongs go.
          validate_node-Checked fuel s child p below above (depth + 1) a b (omega (arith, deep))
            belongs
            (subst (λ d. validate_node fuel s child below above d a ≡ some (some b))
              (next_depth depth fuel deep) go)))
