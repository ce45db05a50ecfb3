-- ===== src/Ring/Queue.antt =====
-- The specification of the ring buffer: a FIFO queue of at most `size` items, oldest first.
use becoming_an_elite_engine.Base.{
  ℕ, Bool, true, false, Option, none, some, List, [], ◌∷◌, ◌++◌, ltb, length, if◌then◌else◌,
}

-- a non-blocking call, and what it answers: the `bool`, and the item that `pop` hands out
pub data Op {ℓ} (A : Type ℓ) : Type ℓ where
  put : A → Op A
  get : Op A

abbrev pub Reply {ℓ} : Type ℓ → Type ℓ
Reply A = Bool × Option A

module _ {ℓ} {A : Type ℓ} (size : ℕ) where
  abbrev pub step : List A → Op A → Reply A × List A
  step q (put x) = if ltb (length q) size then ((true, none), q ++ (x ∷ [])) else ((false, none), q)
  step [] get = ((false, none), [])
  step (x ∷ q) get = ((true, some x), q)

  unfoldable pub run : List A → List (Op A) → List (Reply A) × List A
  run q [] = ([], q)
  run q (op ∷ ops) =
      let (reply, q') = step q op in let (replies, last) = run q' ops in (reply ∷ replies, last)
