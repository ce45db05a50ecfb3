-- ===== src/BTree/Inserts.antt =====
-- `Insert` on a tree that is not empty.
use becoming_an_elite_engine.Base.{
  ℕ, ◌+◌, ◌%◌, ◌^◌, ◌<◌, ◌≤◌, ◌≡◌, ap, ◌∙◌, Option, some, List, ◌++◌, length, Order, ◌⊎◌,
}
use becoming_an_elite_engine.BTree.Heap.{Ptr, RecordId, Leaf, leaf, State, word}
use becoming_an_elite_engine.BTree.Shape.{Entry, entries}
use becoming_an_elite_engine.BTree.Context.{IsWhole, IsBlank}
use becoming_an_elite_engine.BTree.Down.{Spot}
use becoming_an_elite_engine.BTree.Slot.{insert_entry, Slot, insert_entry_inside}
use becoming_an_elite_engine.BTree.LeafSplit.{LinksToLeaf}

module _ {K : Type 0} ⦃o : Order K⦄ (key : K) (id : RecordId) where
  -- what a run of `m` on `s` makes of the entries `es`
  record Outcome (result : Option (Unit {0} × State K)) (s : State K) (es : List (Entry K))
      : Type 0 where
    after : State K
    returns : result ≡ some (tt, after)
    order : after.order ≡ s.order
    whole : IsWhole after (insert_entry key id es)
    size :
        ((after.size ≡ s.size) × (length (insert_entry key id es) ≡ length es))
        ⊎ ((after.size ≡ (s.size + 1) % word) × (length (insert_entry key id es) ≡ length es + 1))

  module _ (s : State K) (fuel level : ℕ) (from : Ptr) (es : List (Entry K))
      (sp : Spot key s fuel level from es) (blank : IsBlank s) (small : s.order ≤ 2 ^ 31)
      (big : 3 ≤ s.order) (deep : level < fuel)
      (links : (a : Ptr) (l : Leaf K) → s.cell a ≡ some (leaf l) → LinksToLeaf s.cell l.next) where
    inside :
        (es' : List (Entry K))
        → insert_entry key id sp.target.entries ≡ es'
        → insert_entry key id es ≡ sp.pre ++ (es' ++ sp.post)
    inside es' h =
        ap (insert_entry key id) sp.all
        ∙ insert_entry_inside key id sp.pre sp.target.entries sp.post sp.pre_low sp.post_high
        ∙ ap (λ l. sp.pre ++ (l ++ sp.post)) h
