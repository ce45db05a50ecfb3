-- ===== src/BTree/Around.antt =====
-- The keys and the children of an internal node to both sides of one child.
use becoming_an_elite_engine.Base.{
  ℕ, suc, ◌+◌, ◌≡◌, refl, ap, Option, none, some, List, [], ◌∷◌, ◌++◌, length, arith, Order, ◌≺◌,
  All, All-imp, All-append, All-left, All-right, IsSorted, not_lt_of_lt,
}
use becoming_an_elite_engine.BTree.Shape.{Tree}
use becoming_an_elite_engine.BTree.Window.{AtLeast, Below, Within, Windows}
use becoming_an_elite_engine.BTree.Context.{StrictlyAbove}

-- the bound that the keys to the left leave, and the one that those to the right leave
abbrev pub low : {K : Type 0} → Option K → List K → Option K
low b [] = b
low b (k ∷ ks) = low (some k) ks

abbrev pub high : {K : Type 0} → List K → Option K → Option K
high [] b = b
high (k ∷ ks) b = some k

module _ (K : Type 0) ⦃o : Order K⦄ (n : ℕ) (P : Option K → Option K → Tree K n → Type 0) where
  abbrev pub LeftWindows : Option K → List K → List (Tree K n) → Type 0
  LeftWindows lower [] [] = Unit
  LeftWindows lower [] (t ∷ ts) = ⊥
  LeftWindows lower (k ∷ ks) [] = ⊥
  LeftWindows lower (k ∷ ks) (t ∷ ts) = P lower (some k) t × LeftWindows (some k) ks ts

  abbrev pub RightWindows : Option K → List K → List (Tree K n) → Type 0
  RightWindows upper [] [] = Unit
  RightWindows upper [] (t ∷ ts) = ⊥
  RightWindows upper (k ∷ ks) ts = Windows K n P (some k) upper ks ts

  pub Windows-left :
      (lower upper : Option K) (lk ks : List K) (left ts : List (Tree K n))
      → LeftWindows lower lk left
      → Windows K n P (low lower lk) upper ks ts
      → Windows K n P lower upper (lk ++ ks) (left ++ ts)
  Windows-left lower upper [] ks [] ts h w = w
  Windows-left lower upper [] ks (t ∷ left) ts h w = absurd h
  Windows-left lower upper (k ∷ lk) ks [] ts h w = absurd h
  Windows-left lower upper (k ∷ lk) ks (t ∷ left) ts h w =
      (h.0, Windows-left (some k) upper lk ks left ts h.1 w)

  pub Windows-right :
      (b upper : Option K) (rk : List K) (t : Tree K n) (right : List (Tree K n))
      → P b (high rk upper) t
      → RightWindows upper rk right
      → Windows K n P b upper rk (t ∷ right)
  Windows-right b upper [] t [] h w = h
  Windows-right b upper [] t (u ∷ right) h w = absurd w
  Windows-right b upper (k ∷ rk) t right h w = (h, w)

  -- a child with what lies to both sides of it
  pub record Cut (lower upper : Option K) (lk rk : List K) (ts : List (Tree K n)) : Type 0 where
    pub left : List (Tree K n)
    pub target : Tree K n
    pub right : List (Tree K n)
    pub all : ts ≡ left ++ (target ∷ right)
    pub before : LeftWindows lower lk left
    pub here : P (low lower lk) (high rk upper) target
    pub after : RightWindows upper rk right

  pub Windows-Cut :
      (lower upper : Option K) (lk rk : List K) (ts : List (Tree K n))
      → Windows K n P lower upper (lk ++ rk) ts
      → Cut lower upper lk rk ts
  Windows-Cut lower upper [] [] [] w = absurd w
  Windows-Cut lower upper [] [] (t ∷ []) w = record {
    left = [];
    target = t;
    right = [];
    all = refl;
    before = tt;
    here = w;
    after = tt;
  }
  Windows-Cut lower upper [] [] (t ∷ u ∷ ts) w = absurd w
  Windows-Cut lower upper [] (k ∷ rk) [] w = absurd w
  Windows-Cut lower upper [] (k ∷ rk) (t ∷ ts) w = record {
    left = [];
    target = t;
    right = ts;
    all = refl;
    before = tt;
    here = w.0;
    after = w.1;
  }
  Windows-Cut lower upper (k ∷ lk) rk [] w = absurd w
  Windows-Cut lower upper (k ∷ lk) rk (t ∷ ts) w =
      let c = Windows-Cut (some k) upper lk rk ts w.1 in
      record {
        left = t ∷ c.left;
        target = c.target;
        right = c.right;
        all = ap (λ l. t ∷ l) c.all;
        before = (w.0, c.before);
        here = c.here;
        after = c.after;
      }

  pub length-LeftWindows :
      (lower : Option K) (lk : List K) (left : List (Tree K n))
      → LeftWindows lower lk left
      → length left ≡ length lk
  length-LeftWindows lower [] [] h = refl
  length-LeftWindows lower [] (t ∷ left) h = absurd h
  length-LeftWindows lower (k ∷ lk) [] h = absurd h
  length-LeftWindows lower (k ∷ lk) (t ∷ left) h = ap suc (length-LeftWindows (some k) lk left h.1)

  -- a node in two halves, with the key between them
  pub record Halves (lower upper : Option K) (lk : List K) (k : K) (rk : List K)
      (ts : List (Tree K n)) : Type 0 where
    pub first : List (Tree K n)
    pub second : List (Tree K n)
    pub all : ts ≡ first ++ second
    pub count : length first ≡ length lk + 1
    pub before : Windows K n P lower (some k) lk first
    pub after : Windows K n P (some k) upper rk second

  pub Windows-Halves :
      (lower upper : Option K) (lk : List K) (k : K) (rk : List K) (ts : List (Tree K n))
      → Windows K n P lower upper (lk ++ (k ∷ rk)) ts
      → Halves lower upper lk k rk ts
  Windows-Halves lower upper [] k rk [] w = absurd w
  Windows-Halves lower upper [] k rk (t ∷ ts) w = record {
    first = t ∷ [];
    second = ts;
    all = refl;
    count = refl;
    before = w.0;
    after = w.1;
  }
  Windows-Halves lower upper (j ∷ lk) k rk [] w = absurd w
  Windows-Halves lower upper (j ∷ lk) k rk (t ∷ ts) w =
      let h = Windows-Halves (some j) upper lk k rk ts w.1 in
      record {
        first = t ∷ h.first;
        second = h.second;
        all = ap (λ l. t ∷ l) h.all;
        count = omega (arith, h.count);
        before = (w.0, h.before);
        after = h.after;
      }

module _ {K : Type 0} ⦃o : Order K⦄ where
  below_low :
      (x : K) (xs : List K) (k : K) → IsSorted (x ∷ xs) → StrictlyAbove (low (some x) xs) k → x ≺ k
  below_low x [] k sorted h = h
  below_low x (y ∷ ys) k sorted h = o.lt_trans x y k sorted.0.0 (below_low y ys k sorted.1 h)

  above_high :
      (rk : List K) (upper : Option K) (k : K)
      → IsSorted rk
      → Below (high rk upper) k
      → All (λ j. k ≺ j) rk
  above_high [] upper k sorted h = tt
  above_high (j ∷ rk) upper k sorted h = (h, All-imp (λ i q. o.lt_trans k j i h q) rk sorted.0)

  pub IsSorted-suffix : (xs ys : List K) → IsSorted (xs ++ ys) → IsSorted ys
  IsSorted-suffix [] ys h = h
  IsSorted-suffix (x ∷ xs) ys h = IsSorted-suffix xs ys h.1

  pub IsSorted-prefix : (xs ys : List K) → IsSorted (xs ++ ys) → IsSorted xs
  IsSorted-prefix [] ys h = tt
  IsSorted-prefix (x ∷ xs) ys h = (All-left _ xs ys h.0, IsSorted-prefix xs ys h.1)

  -- a key that lies between two parts of an ascending list
  pub IsSorted-insert :
      (lower upper : Option K) (lk rk : List K) (k : K)
      → IsSorted (lk ++ rk)
      → StrictlyAbove (low lower lk) k
      → Below (high rk upper) k
      → IsSorted (lk ++ (k ∷ rk))
  IsSorted-insert lower upper [] rk k sorted h q = (above_high rk upper k sorted q, sorted)
  IsSorted-insert lower upper (x ∷ lk) rk k sorted h q = (
    All-append _ lk (k ∷ rk) (All-left _ lk rk sorted.0) (
      below_low x lk k (All-left _ lk rk sorted.0, IsSorted-prefix lk rk sorted.1) h,
      All-right _ lk rk sorted.0,
    ),
    IsSorted-insert (some x) upper lk rk k sorted.1 h q,
  )

  StrictlyAbove-AtLeast : (b : Option K) (k : K) → StrictlyAbove b k → AtLeast b k
  StrictlyAbove-AtLeast none k h = tt
  StrictlyAbove-AtLeast (some l) k h = not_lt_of_lt l k h

  -- bounds that are narrowed by the keys of a node
  AtLeast-lower :
      (lower : Option K) (upper : Option K) (lk : List K) (k : K)
      → IsSorted lk
      → All (Within lower upper) lk
      → StrictlyAbove (low lower lk) k
      → AtLeast lower k
  AtLeast-lower lower upper [] k sorted within h = StrictlyAbove-AtLeast lower k h
  AtLeast-lower none upper (x ∷ lk) k sorted within h = tt
  AtLeast-lower (some l) upper (x ∷ lk) k sorted within h =
      let below = below_low x lk k sorted h in ground (arith, within.0.0, below, o.lt_trans x k l)

  Below-upper :
      (lower : Option K) (upper : Option K) (rk : List K) (k : K)
      → All (Within lower upper) rk
      → Below (high rk upper) k
      → Below upper k
  Below-upper lower upper [] k within h = h
  Below-upper lower none (x ∷ rk) k within h = tt
  Below-upper lower (some u) (x ∷ rk) k within h = o.lt_trans k x u h within.0.1

  pub Within-insert :
      (lower upper : Option K) (lk rk : List K) (k : K)
      → IsSorted (lk ++ rk)
      → All (Within lower upper) (lk ++ rk)
      → StrictlyAbove (low lower lk) k
      → Below (high rk upper) k
      → All (Within lower upper) (lk ++ (k ∷ rk))
  Within-insert lower upper lk rk k sorted within h q =
      let wl = All-left _ lk rk within in
      let wr = All-right _ lk rk within in
      All-append _ lk (k ∷ rk) wl (
        (
          AtLeast-lower lower upper lk k (IsSorted-prefix lk rk sorted) wl h,
          Below-upper lower upper rk k wr q,
        ),
        wr,
      )
