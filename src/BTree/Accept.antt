-- ===== src/BTree/Accept.antt =====
-- `ValidateNode` accepts a tree that is as `Validate` asks.
use becoming_an_elite_engine.Base.{
  ℕ, zero, suc, ◌+◌, ◌%◌, ◌<◌, ◌≤◌, ◌≡◌, ◌≢◌, ◌∙◌, sym, ap, refl, true, false, Option, none, some,
  List, [], ◌∷◌, map, length, length-map, length-append, append-nil, arith, Order, All, IsSorted,
  Bool-cases, inl, inr,
}
use becoming_an_elite_engine.BTree.Heap.{
  Ptr, null, Leaf, leaf, Internal, internal, Node, State, word, keys_of, parent_of,
}
use becoming_an_elite_engine.BTree.Find.{max_keys, min_leaf_keys, min_internal_keys}
use becoming_an_elite_engine.BTree.Shape.{Entry, Tree, ptr, entries, keys, values, join}
use becoming_an_elite_engine.BTree.Stored.{Stored, Stored-node}
use becoming_an_elite_engine.BTree.Window.{Within, InWindow, Windows, IsFilled, length-keys}
use becoming_an_elite_engine.BTree.Validate.{
  Scan, Verdict, any_empty, too_few, count_leaf, validate_leaf, validate_child, validate_children,
  validate_internal, validate_body, ascending, too_low, too_high, inside, validate_node,
}
use becoming_an_elite_engine.BTree.Sound.{next_depth}

-- a scan of `count` keys that ends well, with the leaves at the depth `level`
pub record Accepted (result : Option Verdict) (level : ℕ) (seen : Scan) (count : ℕ) : Type 0 where
  pub after : Scan
  pub returns : result ≡ some (some after)
  pub counted : after.key_count ≡ (seen.key_count + count) % word
  pub known : after.leaf_depth_set ≡ true
  pub level_is : after.leaf_depth ≡ level

count_leaf-Accepted :
    (depth count : ℕ) (seen : Scan)
    → (seen.leaf_depth_set ≡ true → seen.leaf_depth ≡ depth)
    → Accepted (count_leaf depth count seen) depth seen count
unfolding count_leaf
count_leaf-Accepted depth count seen same = elim (Bool-cases seen.leaf_depth_set) [
  | inl e ↦ record {
    after = record seen { key_count = (seen.key_count + count) % word };
    returns = ground (arith, e, same e);
    counted = refl;
    known = e;
    level_is = same e;
  }
  | inr e ↦ record {
    after = record {
      leaf_depth = depth;
      leaf_depth_set = true;
      key_count = (seen.key_count + count) % word;
    };
    returns = ground (arith, e);
    counted = refl;
    known = refl;
    level_is = refl;
  }
]

-- the same scan, under another description of what was called
renamed :
    {result result' : Option Verdict} {level level' : ℕ} {seen : Scan} {count count' : ℕ}
    → result ≡ result'
    → level ≡ level'
    → count ≡ count'
    → Accepted result' level' seen count'
    → Accepted result level seen count
renamed e f g a = record {
  after = a.after;
  returns = e ∙ a.returns;
  counted = rw g a.counted;
  known = a.known;
  level_is = a.level_is ∙ sym f;
}

any_empty-values :
    {K : Type 0} (es : List (Entry K)) → All (λ e. e.1 ≢ []) es → any_empty (values es) ≡ false
unfolding any_empty
any_empty-values [] h = refl
any_empty-values ((k, []) ∷ es) h = absurd (h.0 refl)
any_empty-values ((k, i ∷ is) ∷ es) h = any_empty-values es h.1

too_few-enough :
    {K : Type 0} (s : State K) (p : Ptr) (count minimum : ℕ)
    → (p ≢ s.root → minimum ≤ count)
    → too_few s p count minimum ≡ false
unfolding too_few
too_few-enough s p count minimum h = ground (arith, h)

module _ {K : Type 0} ⦃o : Order K⦄ where
  IsSorted-ascending : (ks : List K) → IsSorted ks → ascending ks ≡ true
  unfolding ascending
  IsSorted-ascending [] h = refl
  IsSorted-ascending (k ∷ []) h = refl
  IsSorted-ascending (k ∷ l ∷ ks) h = ground (arith, IsSorted-ascending (l ∷ ks) h.1, h.0.0)

  Within-inside :
      (lower upper : Option K) (ks : List K)
      → All (Within lower upper) ks
      → inside lower upper ks ≡ true
  unfolding inside too_low too_high
  Within-inside lower upper [] h = refl
  Within-inside none none (k ∷ ks) h = Within-inside none none ks h.1
  Within-inside none (some u) (k ∷ ks) h = ground (arith, Within-inside none (some u) ks h.1, h.0)
  Within-inside (some l) none (k ∷ ks) h = ground (arith, Within-inside (some l) none ks h.1, h.0)
  Within-inside (some l) (some u) (k ∷ ks) h =
      ground (arith, Within-inside (some l) (some u) ks h.1, h.0)

  enter :
      (fuel : ℕ) (s : State K) (p : Ptr) (x : Node K) (lower upper : Option K) (depth : ℕ)
      (seen : Scan)
      → s.cell p ≡ some x
      → IsSorted (keys_of x)
      → All (Within lower upper) (keys_of x)
      → length (keys_of x) ≤ max_keys s
      → validate_node (suc fuel) s p lower upper depth seen
        ≡ validate_body
            (λ child below above scan.
              validate_node fuel s child below above ((depth + 1) % word) scan)
            s
            p
            lower
            upper
            depth
            seen
            x
  unfolding validate_node
  enter fuel s p x lower upper depth seen here sorted within few = ground (
    arith,
    here,
    IsSorted-ascending (keys_of x) sorted,
    Within-inside lower upper (keys_of x) within,
    few,
  )

  leaf_body :
      (visit : Ptr → Option K → Option K → Scan → Option Verdict) (s : State K) (p : Ptr)
      (lower upper : Option K) (depth : ℕ) (seen : Scan) (l : Leaf K)
      → length l.keys ≡ length l.values
      → any_empty l.values ≡ false
      → too_few s p (length l.keys) (min_leaf_keys s) ≡ false
      → validate_body visit s p lower upper depth seen (leaf l)
        ≡ count_leaf depth (length l.keys) seen
  unfolding validate_body validate_leaf
  leaf_body visit s p lower upper depth seen l same full enough = ground (arith, same, full, enough)

  internal_body :
      (visit : Ptr → Option K → Option K → Scan → Option Verdict) (s : State K) (p : Ptr)
      (lower upper : Option K) (depth : ℕ) (seen : Scan) (n : Internal K)
      → length n.children ≡ length n.keys + 1
      → (p ≡ s.root → 2 ≤ length n.children)
      → too_few s p (length n.keys) (min_internal_keys s) ≡ false
      → validate_body visit s p lower upper depth seen (internal n)
        ≡ validate_children visit s p lower upper n.keys n.children seen
  unfolding validate_body validate_internal
  internal_body visit s p lower upper depth seen n many two enough =
      ground (arith, many, two, enough)

  visit_step :
      (visit : Ptr → Option K → Option K → Scan → Option Verdict) (s : State K) (node child : Ptr)
      (lower upper : Option K) (seen : Scan) (x : Node K)
      → child ≢ null
      → s.cell child ≡ some x
      → parent_of x ≡ node
      → validate_child visit s node child lower upper seen ≡ visit child lower upper seen
  unfolding validate_child
  visit_step visit s node child lower upper seen x proper here owner =
      ground (arith, proper, here, owner)

  last_step :
      (visit : Ptr → Option K → Option K → Scan → Option Verdict) (s : State K) (node child : Ptr)
      (lower upper : Option K) (seen after : Scan)
      → validate_child visit s node child lower upper seen ≡ some (some after)
      → validate_children visit s node lower upper [] (child ∷ []) seen ≡ some (some after)
  unfolding validate_children
  last_step visit s node child lower upper seen after h = ground (arith, h)

  next_step :
      (visit : Ptr → Option K → Option K → Scan → Option Verdict) (s : State K) (node child : Ptr)
      (lower upper : Option K) (k : K) (ks : List K) (children : List Ptr) (seen after : Scan)
      → validate_child visit s node child lower (some k) seen ≡ some (some after)
      → validate_children visit s node lower upper (k ∷ ks) (child ∷ children) seen
        ≡ validate_children visit s node (some k) upper ks children after
  unfolding validate_children
  next_step visit s node child lower upper k ks children seen after h = ground (arith, h)

  pub length-Windows :
      (n : ℕ) (lower upper : Option K) (ks : List K) (ts : List (Tree K n))
      → Windows K n (InWindow K n) lower upper ks ts
      → length ts ≡ length ks + 1
  length-Windows n lower upper [] [] h = elim h [ ]
  length-Windows n lower upper [] (t ∷ []) h = refl
  length-Windows n lower upper [] (t ∷ u ∷ ts) h = elim h [ ]
  length-Windows n lower upper (k ∷ ks) [] h = elim h [ ]
  length-Windows n lower upper (k ∷ ks) (t ∷ ts) h =
      omega (arith, length-Windows n (some k) upper ks ts h.1)

  children-Accepted :
      (n : ℕ) (visit : Ptr → Option K → Option K → Scan → Option Verdict) (s : State K) (node : Ptr)
      (level : ℕ) (upper : Option K)
      → ((t : Tree K n) (below above : Option K) (seen : Scan)
          → Stored K n s.cell node t
          → InWindow K n below above t
          → IsFilled K n s t
          → (seen.leaf_depth_set ≡ true → seen.leaf_depth ≡ level)
          → Accepted (visit (ptr K n t) below above seen) level seen (length (entries K n t)))
      → (ks : List K) (ts : List (Tree K n)) (lower : Option K) (seen : Scan)
      → All (Stored K n s.cell node) ts
      → All (λ u. ptr K n u ≢ null) ts
      → Windows K n (InWindow K n) lower upper ks ts
      → All (IsFilled K n s) ts
      → (seen.leaf_depth_set ≡ true → seen.leaf_depth ≡ level)
      → Accepted
          (validate_children visit s node lower upper ks (map (ptr K n) ts) seen)
          level
          seen
          (length (join (entries K n) ts))
  children-Accepted n visit s node level upper one [] [] lower seen st pr w f same = elim w [ ]
  children-Accepted n visit s node level upper one [] (t ∷ u ∷ ts) lower seen st pr w f same =
      elim w [ ]
  children-Accepted n visit s node level upper one (k ∷ ks) [] lower seen st pr w f same =
      elim w [ ]
  children-Accepted n visit s node level upper one [] (t ∷ []) lower seen st pr w f same =
      let (x, here, owner) = Stored-node K n s.cell node t st.0 in
      let a = one t lower upper seen st.0 w f.0 same in
      record {
        after = a.after;
        returns =
            last_step visit s node (ptr K n t) lower upper seen a.after
              (visit_step visit s node (ptr K n t) lower upper seen x pr.0 here owner ∙ a.returns);
        counted = rw (append-nil (entries K n t)) a.counted;
        known = a.known;
        level_is = a.level_is;
      }
  children-Accepted n visit s node level upper one (k ∷ ks) (t ∷ ts) lower seen st pr w f same =
      let (x, here, owner) = Stored-node K n s.cell node t st.0 in
      let a = one t lower (some k) seen st.0 w.0 f.0 same in
      let b =
        children-Accepted n visit s node level upper one ks ts (some k) a.after st.1 pr.1 w.1 f.1
          (λ q. a.level_is) in
      record {
        after = b.after;
        returns =
            next_step visit s node (ptr K n t) lower upper k ks (map (ptr K n) ts) seen a.after (
              visit_step visit s node (ptr K n t) lower (some k) seen x pr.0 here owner ∙ a.returns)
            ∙ b.returns;
        counted =
            omega
              (arith, a.counted, b.counted, length-append (entries K n t) (join (entries K n) ts));
        known = b.known;
        level_is = b.level_is;
      }

  pub validate_node-Accepted :
      (n fuel : ℕ) (s : State K) (parent : Ptr) (t : Tree K n) (lower upper : Option K) (depth : ℕ)
      (seen : Scan)
      → n < fuel
      → depth + fuel < word
      → Stored K n s.cell parent t
      → InWindow K n lower upper t
      → IsFilled K n s t
      → (seen.leaf_depth_set ≡ true → seen.leaf_depth ≡ depth + n)
      → Accepted
          (validate_node fuel s (ptr K n t) lower upper depth seen)
          (depth + n)
          seen
          (length (entries K n t))
  validate_node-Accepted n zero s parent t lower upper depth seen enough deep st w f same =
      absurd (omega arith)
  validate_node-Accepted zero (suc fuel) s parent t lower upper depth seen enough deep st w f same =
      let many = length-keys K t.entries in
      let l : Leaf K = record {
        keys = keys t.entries;
        values = values t.entries;
        next = st.0;
        previous = st.1;
        parent = parent;
      } in
      let at_least : t.ptr ≢ s.root → min_leaf_keys s ≤ length (keys t.entries) =
        λ q. omega (arith, many, f.1 q) in
      renamed
        (enter fuel s t.ptr (leaf l) lower upper depth seen st.2 w.0 w.1 (omega (arith, many, f.0))
          ∙ leaf_body _ s t.ptr lower upper depth seen l (many ∙ sym (length-map _ t.entries))
              (any_empty-values t.entries f.2) (too_few-enough s t.ptr _ _ at_least))
        (omega arith) (sym many)
        (count_leaf-Accepted depth (length (keys t.entries)) seen (λ q. omega (arith, same q)))
  validate_node-Accepted (suc n) (suc fuel) s parent t lower upper depth seen enough deep st w f
        same =
      let many : length (map (ptr K n) t.children) ≡ length t.keys + 1 =
        length-map (ptr K n) t.children ∙ length-Windows n lower upper t.keys t.children w.2 in
      let two : t.ptr ≡ s.root → 2 ≤ length (map (ptr K n) t.children) =
        λ q. omega (arith, length-map (ptr K n) t.children, f.2 q) in
      renamed
        (enter fuel s t.ptr
            (internal
              (record { keys = t.keys; children = map (ptr K n) t.children; parent = parent }))
            lower upper depth seen st.0 w.0 w.1 f.0
          ∙ internal_body _ s t.ptr lower upper depth seen _ many two
              (too_few-enough s t.ptr _ _ f.1))
        (omega arith) refl
        (children-Accepted n _ s t.ptr (depth + 1 + n) upper
          (λ u below above scan st' w' f' same'.
            renamed
              (ap (λ d. validate_node fuel s (ptr K n u) below above d scan)
                (next_depth depth fuel deep))
              refl refl
              (validate_node-Accepted n fuel s t.ptr u below above (depth + 1) scan (omega arith)
                (omega (arith, deep)) st' w' f' same'))
          t.keys t.children lower seen st.1 f.3 w.2 f.4 (λ q. omega (arith, same q)))
