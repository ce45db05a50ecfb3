-- ===== src/Ring/Wrap.antt =====
-- What happens when the 64-bit write index wraps.
use becoming_an_elite_engine.Base.{
  ℕ, ◌+◌, ◌^◌, ◌<◌, ◌≡◌, refl, true, false, none, List, [], ◌∷◌, ◌++◌, arith, length, leb,
}
use becoming_an_elite_engine.Ring.{Ring, word, sub_size, push, pop, empty}
use becoming_an_elite_engine.Ring.Refine.{Holds, used, store-Window}
use becoming_an_elite_engine.Ring.Window.{Window}

-- The push that takes the write index from 2 ^ 64 - 1 to 0 on a ring that is not full succeeds: the
-- array holds the items from the read index on, the new one behind the others, and the read index
-- and the number of items are right; but `pop` and `empty` compare the indices by `>=`, and call the
-- ring empty.
pub pop-push_wrapped {ℓ} :
    {A : Type ℓ} (k : ℕ) (r : Ring A) (q : List A) (x : A)
    → 2 ^ k < word
    → Holds k r q
    → length q < 2 ^ k
    → r.write_index + 1 ≡ word
    → let r' = (push k r x).1 in
      ((push k r x).0 ≡ true)
      × Window r'.slots (2 ^ k) r'.read_index (q ++ (x ∷ []))
      × (r'.read_index ≡ r.read_index)
      × (sub_size r'.write_index r'.read_index ≡ length q + 1)
      × (pop k r' ≡ (false, none, r'))
      × (empty k r' ≡ true)
unfolding push pop empty
pop-push_wrapped k r q x small h room top =
    let guard : leb (2 ^ k) (sub_size r.write_index r.read_index) ≡ false =
      ground (arith, used k small h) in
    rw guard (
      refl,
      store-Window k small x h room,
      refl,
      omega (arith, h.written),
      ground arith,
      ground arith,
    )
