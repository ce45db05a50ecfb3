-- ===== src/BTree/Whole.antt =====
-- A whole tree is as `Validate` asks.
use becoming_an_elite_engine.Base.{
  ℕ, zero, suc, ◌%◌, ◌<◌, ◌≤◌, ◌≡◌, ◌≢◌, ap, sym, ◌∙◌, subst, Option, none, some, List, [], ◌∷◌,
  length, arith, Order, All,
}
use becoming_an_elite_engine.BTree.Heap.{null, State, word}
use becoming_an_elite_engine.BTree.Shape.{Entry, Tree, ptr}
use becoming_an_elite_engine.BTree.Stored.{total, occ, occ-ptr}
use becoming_an_elite_engine.BTree.Window.{InWindow, Windows, IsFilled, IsValid}
use becoming_an_elite_engine.BTree.Accept.{length-Windows}
use becoming_an_elite_engine.BTree.Context.{least_of, least_root, IsFull, IsWhole}

least-positive : (n order : ℕ) → 3 ≤ order → least_root n ≤ least_of order n
least-positive zero order h = omega arith
least-positive (suc n) order h = omega (arith, h)

module _ (K : Type 0) where
  nonnull_children :
      (n : ℕ) (ts : List (Tree K n))
      → total (λ t. occ K n null t) ts ≡ 0
      → All (λ u. ptr K n u ≢ null) ts
  nonnull_children n [] h = tt
  nonnull_children n (t ∷ ts) h = (
    λ e. absurd (omega (arith, h, subst (λ a. 0 < occ K n a t) e (occ-ptr K n t))),
    nonnull_children n ts (omega (arith, h)),
  )

module _ {K : Type 0} ⦃o : Order K⦄ where
  IsFilled-children :
      (n : ℕ) (s : State K)
      → ((t : Tree K n) (lower upper : Option K)
          → occ K n null t ≡ 0
          → InWindow K n lower upper t
          → IsFull K s.order (least_of s.order n) n t
          → IsFilled K n s t)
      → (ks : List K) (ts : List (Tree K n)) (lower upper : Option K)
      → total (λ t. occ K n null t) ts ≡ 0
      → Windows K n (InWindow K n) lower upper ks ts
      → All (IsFull K s.order (least_of s.order n) n) ts
      → All (IsFilled K n s) ts
  IsFilled-children n s one ks [] lower upper h w f = tt
  IsFilled-children n s one [] (t ∷ []) lower upper h w f =
      (one t lower upper (omega (arith, h)) w f.0, tt)
  IsFilled-children n s one [] (t ∷ u ∷ ts) lower upper h w f = absurd w
  IsFilled-children n s one (k ∷ ks) (t ∷ ts) lower upper h w f = (
    one t lower (some k) (omega (arith, h)) w.0 f.0,
    IsFilled-children n s one ks ts (some k) upper (omega (arith, h)) w.1 f.1,
  )

  IsFull-IsFilled :
      (n : ℕ) (s : State K) (least : ℕ) (t : Tree K n) (lower upper : Option K)
      → 3 ≤ s.order
      → least_root n ≤ least
      → (ptr K n t ≢ s.root → least_of s.order n ≤ least)
      → occ K n null t ≡ 0
      → InWindow K n lower upper t
      → IsFull K s.order least n t
      → IsFilled K n s t
  IsFull-IsFilled zero s least t lower upper big positive enough h w f =
      (f.1, λ q. omega (arith, enough q, f.0), f.2)
  IsFull-IsFilled (suc n) s least t lower upper big positive enough h w f = (
    f.1,
    λ q. omega (arith, enough q, f.0),
    λ q. omega (arith, positive, f.0, length-Windows n lower upper t.keys t.children w.2),
    nonnull_children K n t.children (omega (arith, h)),
    IsFilled-children n s
        (λ u low high h' w' f'.
          IsFull-IsFilled n s (least_of s.order n) u low high big (least-positive n s.order big)
            (λ q. omega arith) h' w' f')
        t.keys t.children lower upper (omega (arith, h)) w.2 f.2,
  )

  pub IsWhole-IsValid :
      (s : State K) (es : List (Entry K)) (w : IsWhole s es)
      → 3 ≤ s.order
      → s.size ≡ length es % word
      → IsValid s w.height w.tree
  IsWhole-IsValid s es w big size = record {
    root = w.root;
    not_null = λ e. absurd (
        omega (
          arith,
          w.apart.nonnull,
          subst (λ a. 0 < occ K w.height a w.tree) (sym w.root ∙ e) (occ-ptr K w.height w.tree),
        ));
    stored = w.placed.stored;
    window = w.placed.window;
    filled =
        IsFull-IsFilled w.height s (least_root w.height) w.tree none none big (omega arith)
          (λ q. absurd (q (sym w.root))) w.apart.nonnull w.placed.window w.placed.full;
    counted = size ∙ ap (λ l. length l % word) (sym w.all);
  }
