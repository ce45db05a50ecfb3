-- ===== src/BTree/Split.antt =====
-- `SplitInternal`: a node with one key too many becomes two, and the key between them goes up.
use becoming_an_elite_engine.Base.{
  ℕ, suc, ◌+◌, ◌/◌, ◌<◌, ◌≤◌, ◌≡◌, refl, ap, ◌∙◌, sym, subst, Option, none, some, List, [], ◌∷◌,
  ◌++◌, append_assoc, map, length, length-append, length-map, take, drop, arith, Order, ◌≺◌, All,
  All-imp, All-right, IsSorted, not_lt_of_lt,
}
use becoming_an_elite_engine.BTree.Heap.{
  Ptr, null, Internal, internal, State, M, set_parent, for_each,
}
use becoming_an_elite_engine.BTree.Insert.{insert_into_parent, split_internal}
use becoming_an_elite_engine.BTree.Shape.{Entry, Tree, ptr, entries, join}
use becoming_an_elite_engine.BTree.Descent.{join-append}
use becoming_an_elite_engine.BTree.Stored.{
  view, links_of, total, one_if, occ, Stored, All-Stored-agree, update-other, update_here,
  links_internal,
}
use becoming_an_elite_engine.BTree.Window.{Below, Within, InWindow, Windows}
use becoming_an_elite_engine.BTree.Reparent.{Reparented, for_each-Reparented}
use becoming_an_elite_engine.BTree.Context.{
  least_of, StrictlyAbove, IsFull, IsBlank, Keeps, IsApart, IsPlaced, IsWhole, Same, Context,
}
use becoming_an_elite_engine.BTree.NewRoot.{fresh-links}
use becoming_an_elite_engine.BTree.Around.{IsSorted-prefix, IsSorted-suffix}
use becoming_an_elite_engine.BTree.Positions.{
  take_first, drop_first, get_middle, drop_behind, map-append,
}
use becoming_an_elite_engine.BTree.Runs.{opened, cut_down, stored_in, split_run}

module _ {K : Type 0} ⦃o : Order K⦄ where
  -- the separator is strictly above the lower bound, since a key lies below it
  pub strictly_above :
      (lower upper : Option K) (ka : List K) (k : K) (kb : List K)
      → 0 < length ka
      → IsSorted (ka ++ (k ∷ kb))
      → All (Within lower upper) (ka ++ (k ∷ kb))
      → StrictlyAbove lower k
  strictly_above none upper ka k kb h sorted within = tt
  strictly_above (some l) upper [] k kb h sorted within = absurd (omega arith)
  strictly_above (some l) upper (x ∷ ka) k kb h sorted within =
      let less = (All-right _ ka (k ∷ kb) sorted.0).0 in
      ground (
        arith,
        less,
        within.0.0,
        o.lt_trans x k l,
        o.eq_of_not_lt l x,
        o.eq_of_not_lt l k,
        o.lt_irrefl l,
      )

  pub below_middle :
      (lower upper : Option K) (ka : List K) (k : K) (kb : List K)
      → IsSorted (ka ++ (k ∷ kb))
      → All (Within lower upper) (ka ++ (k ∷ kb))
      → All (Within lower (some k)) ka
  below_middle lower upper [] k kb sorted within = tt
  below_middle lower upper (x ∷ ka) k kb sorted within = (
    (within.0.0, (All-right _ ka (k ∷ kb) sorted.0).0),
    below_middle lower upper ka k kb sorted.1 within.1,
  )

  pub above_middle :
      (upper : Option K) (k : K) (kb : List K)
      → All (λ j. k ≺ j) kb
      → All (Below upper) kb
      → All (Within (some k) upper) kb
  above_middle upper k [] h q = tt
  above_middle upper k (j ∷ kb) h q = ((not_lt_of_lt k j h.0, q.0), above_middle upper k kb h.1 q.1)

-- A node at `p` with `order` keys, as it is before `SplitInternal`: the keys to both sides of the
-- separator, and the children of the two halves.
pub record IsWide {K : Type 0} ⦃o : Order K⦄ (s : State K) (n : ℕ) (p parent : Ptr)
    (lower upper : Option K) (ka : List K) (k : K) (kb : List K) (first second : List (Tree K n))
    (out : Ptr → ℕ) : Type 0 where
  pub cell :
      s.cell p
      ≡ some (
          internal (record {
            keys = ka ++ (k ∷ kb);
            children = map (ptr K n) (first ++ second);
            parent = parent;
          }))
  pub first_stored : All (Stored K n s.cell p) first
  pub second_stored : All (Stored K n s.cell p) second
  pub sorted : IsSorted (ka ++ (k ∷ kb))
  pub within : All (Within lower upper) (ka ++ (k ∷ kb))
  pub before : Windows K n (InWindow K n) lower (some k) ka first
  pub after : Windows K n (InWindow K n) (some k) upper kb second
  pub first_full : All (IsFull K s.order (least_of s.order n) n) first
  pub second_full : All (IsFull K s.order (least_of s.order n) n) second
  pub middle : length ka ≡ length (ka ++ (k ∷ kb)) / 2
  pub many : length (ka ++ (k ∷ kb)) ≡ s.order
  pub count : length first ≡ length ka + 1
  pub big : 3 ≤ s.order
  pub blank : IsBlank s
  pub apart : IsApart s (λ a.
      out a + (one_if p a + (total (λ t. occ K n a t) first + total (λ t. occ K n a t) second)))

module _ {K : Type 0} ⦃o : Order K⦄ where
  module _ (s : State K) (n : ℕ) (p parent : Ptr) (lower upper : Option K) (out : Ptr → ℕ)
      (ka : List K) (k : K) (kb : List K) (first second : List (Tree K n))
      (w : IsWide s n p parent lower upper ka k kb first second out) where
    abbrev whole_node : Internal K
    whole_node = record {
      keys = ka ++ (k ∷ kb);
      children = map (ptr K n) (first ++ second);
      parent = parent;
    }

    abbrev mid : ℕ
    mid = length (ka ++ (k ∷ kb)) / 2

    abbrev left_half : Tree K (suc n)
    left_half = record { ptr = p; keys = ka; children = first }

    abbrev right_half : Tree K (suc n)
    right_half = record { ptr = s.fresh; keys = kb; children = second }

    given : drop (mid + 1) (map (ptr K n) (first ++ second)) ≡ map (ptr K n) second
    given =
        ap (drop (mid + 1)) (map-append (ptr K n) first second)
        ∙ drop_first (map (ptr K n) first) (map (ptr K n) second) (mid + 1)
            (omega (arith, w.count, w.middle, length-map (ptr K n) first))

    kept : take (mid + 1) (map (ptr K n) (first ++ second)) ≡ map (ptr K n) first
    kept =
        ap (take (mid + 1)) (map-append (ptr K n) first second)
        ∙ take_first (map (ptr K n) first) (map (ptr K n) second) (mid + 1)
            (omega (arith, w.count, w.middle, length-map (ptr K n) first))

    -- `fresh` is used by no node
    clear :
        (a : Ptr)
        → s.fresh ≤ a
        → out a + (one_if p a + (total (λ t. occ K n a t) first + total (λ t. occ K n a t) second))
          ≡ 0
    clear a h = ground (arith, h, w.apart.inside a)

    p-fresh : p < s.fresh
    p-fresh = w.apart.inside p (ground arith)

    at_new : (a : Ptr) → a < s.fresh → (opened s whole_node mid).cell a ≡ s.cell a
    at_new a h = update-other s.cell s.fresh a _ (λ e. absurd (omega (arith, e, h)))

    -- the heap when the children of the right half have their new parent
    moved : Reparented (opened s whole_node mid) n s.fresh second
    moved =
        for_each-Reparented n (opened s whole_node mid) s.fresh second
          (λ a. omega (arith, w.apart.once a))
          (All-imp (λ t h. (p, h)) second
            (All-Stored-agree K n s.cell (opened s whole_node mid).cell p second
              (λ a h. ap view (at_new a (w.apart.inside a (omega (arith, h))))) w.second_stored))

    still : moved.cell p ≡ some (internal whole_node)
    still = moved.other p (ground (arith, w.apart.once p)) ∙ at_new p p-fresh ∙ w.cell

    abbrev ended : State K
    ended =
        stored_in (record (opened s whole_node mid) { cell = moved.cell }) p
          (cut_down whole_node mid)

    -- what is neither at `p` nor new nor a child of the right half
    untouched :
        (a : Ptr)
        → a < s.fresh
        → one_if p a ≡ 0
        → total (λ t. occ K n a t) second ≡ 0
        → ended.cell a ≡ s.cell a
    untouched a h q r =
        update-other moved.cell p a _ (λ e. absurd (ground (arith, q, e)))
        ∙ moved.other a r
        ∙ at_new a h

    runs : (f : Ptr → K → Ptr → M K (Unit {0})) → split_internal f p s ≡ f p k s.fresh ended
    runs f =
        split_run f s p whole_node k moved.cell w.cell (get_middle ka kb k mid w.middle)
          (ap (λ cs. for_each cs (λ child. set_parent child s.fresh) (opened s whole_node mid))
              given
            ∙ moved.returns)
          still

    left-IsPlaced :
        IsPlaced ended (suc n) parent lower (some k) (least_of s.order (suc n)) left_half
    left-IsPlaced = record {
      stored = (
        update_here moved.cell p _
            ∙ ap (λ n'. some (internal n'))
                (ground (arith, kept, take_first ka (k ∷ kb) mid (sym w.middle))),
        All-Stored-agree K n s.cell ended.cell p first
            (λ a h. ap view (
              untouched a (w.apart.inside a (omega (arith, h))) (omega (arith, h, w.apart.once a))
                (omega (arith, h, w.apart.once a))))
            w.first_stored,
      );
      window = (
        IsSorted-prefix ka (k ∷ kb) w.sorted,
        below_middle lower upper ka k kb w.sorted w.within,
        w.before,
      );
      full =
          (omega (arith, w.middle, w.many), omega (arith, w.middle, w.many, w.big), w.first_full);
    }

    right-IsPlaced :
        IsPlaced ended (suc n) null (some k) upper (least_of s.order (suc n)) right_half
    right-IsPlaced =
        let suffix = IsSorted-suffix ka (k ∷ kb) w.sorted in
        record {
          stored = (
            update-other moved.cell p s.fresh _ (λ e. absurd (omega (arith, e, p-fresh)))
                ∙ moved.other s.fresh (omega (arith, clear s.fresh (omega arith)))
                ∙ update_here s.cell s.fresh _
                ∙ ap (λ n'. some (internal n'))
                    (ground (arith, given, drop_behind ka kb k mid w.middle)),
            All-Stored-agree K n moved.cell ended.cell s.fresh second
                (λ a h. ap view (
                  update-other moved.cell p a _
                    (λ e. absurd (ground (arith, h, e, w.apart.once a)))))
                moved.stored,
          );
          window = (
            suffix.1,
            above_middle upper k kb suffix.0
                (All-imp (λ j q. q.1) kb (All-right _ ka (k ∷ kb) w.within).1),
            w.after,
          );
          full = (
            omega (arith, w.middle, w.many, length-append ka (k ∷ kb)),
            omega (arith, w.middle, w.many, w.big, length-append ka (k ∷ kb)),
            w.second_full,
          );
        }

    ended-IsBlank : IsBlank ended
    ended-IsBlank = record {
      proper = omega arith;
      beyond = λ a h.
          update-other moved.cell p a _ (λ e. absurd (omega (arith, h, e, p-fresh)))
          ∙ moved.blank a (
              update-other s.cell s.fresh a _ (λ e. absurd (omega (arith, h, e)))
              ∙ w.blank.beyond a (omega (arith, h)));
    }

    ended-IsApart :
        IsApart ended (λ a. out a + (occ K (suc n) a left_half + occ K (suc n) a right_half))
    ended-IsApart = record {
      once = λ a. ground (arith, clear a, w.apart.once a);
      inside = λ a h. ground (arith, h, w.apart.inside a);
      nonnull = ground (arith, w.apart.nonnull, w.blank.proper);
    }

    ended-links : (a : Ptr) → links_of (ended.cell a) ≡ links_of (s.cell a)
    ended-links a =
        links_internal moved.cell p a whole_node (cut_down whole_node mid) still
        ∙ moved.links a
        ∙ fresh-links s a _ w.blank refl

  regroup : (pre a b post : List (Entry K)) → pre ++ (a ++ (b ++ post)) ≡ pre ++ ((a ++ b) ++ post)
  regroup pre a b post = ap (λ l. pre ++ l) (sym (append_assoc a b post))

  -- The two halves take the place of the node, in what surrounds it.
  pub split_internal-Grown :
      (s0 s : State K) (n level fuel : ℕ) (p parent : Ptr) (lower upper : Option K) (least : ℕ)
      (out : Ptr → ℕ) (pre post : List (Entry K)) (ka : List K) (k : K) (kb : List K)
      (first second : List (Tree K n))
      → Context s0 (suc n) level p parent lower upper least out pre post
      → level < fuel
      → Keeps out s0 s
      → IsWide s n p parent lower upper ka k kb first second out
      → (s' : State K) × (split_internal (insert_into_parent fuel) p s ≡ some (tt, s'))
        × Same s s'
        × IsWhole s' (pre ++ (join (entries K n) (first ++ second) ++ post))
  split_internal-Grown s0 s n level fuel p parent lower upper least out pre post ka k kb first
        second c deep keeps w =
      let s2 = ended s n p parent lower upper out ka k kb first second w in
      let grown =
        c.grow s2 fuel (left_half s n p parent lower upper out ka k kb first second w)
          (right_half s n p parent lower upper out ka k kb first second w) k null deep refl
          (record {
            order = keeps.order;
            root = keeps.root;
            cells = λ a h.
                ap view (
                  untouched s n p parent lower upper out ka k kb first second w a
                    (w.apart.inside a (omega (arith, h))) (omega (arith, h, w.apart.once a))
                    (omega (arith, h, w.apart.once a)))
                ∙ keeps.cells a h;
          })
          (ended-IsBlank s n p parent lower upper out ka k kb first second w)
          (ended-IsApart s n p parent lower upper out ka k kb first second w)
          (strictly_above lower upper ka k kb (omega (arith, w.middle, w.many, w.big)) w.sorted
            w.within)
          (All-right _ ka (k ∷ kb) w.within).0.1
          (left-IsPlaced s n p parent lower upper out ka k kb first second w)
          (right-IsPlaced s n p parent lower upper out ka k kb first second w) in
      (
        grown.after,
        runs s n p parent lower upper out ka k kb first second w (insert_into_parent fuel)
            ∙ grown.returns,
        record {
          order = grown.same.order;
          size = grown.same.size;
          links = λ a.
              grown.same.links a
              ∙ ended-links s n p parent lower upper out ka k kb first second w a;
        },
        subst (IsWhole grown.after)
            (regroup pre (join (entries K n) first) (join (entries K n) second) post
              ∙ ap (λ l. pre ++ (l ++ post)) (sym (join-append (entries K n) first second)))
            grown.whole,
      )
