-- ===== src/Ring/Refine.antt =====
-- As long as the 64-bit indices do not wrap, the ring is the bounded FIFO queue.
use becoming_an_elite_engine.Base.{
  ℕ, ◌+◌, ◌%◌, ◌^◌, ◌≤◌, ◌<◌, ◌≡◌, refl, ap₂, ◌∙◌, sym, true, false, none, some, List, [], ◌∷◌,
  ◌++◌, arith, length, length-set, length-append, ltb, leb, ltb→lt, subst, inl, inr, ◌⊎◌,
  Bool-cases,
}
use becoming_an_elite_engine.Ring.{
  Ring, word, sub_size, next_size, store, fetch, push, pop, push_blocking, pop_blocking, full,
  empty,
}
use becoming_an_elite_engine.Ring.Queue
use becoming_an_elite_engine.Ring.Queue.{Op, put, get, Reply}
use becoming_an_elite_engine.Ring.Window.{Window, Window-set, Window-append, get_elem?-set_self}
use native.Mathlib.Nat.{mod-lt}

module _ {ℓ} {A : Type ℓ} (k : ℕ) where
  -- The ring holds the items `q`, oldest first.
  pub record Holds (r : Ring A) (q : List A) : Type ℓ where
    pub array : length r.slots ≡ 2 ^ k
    pub written : r.write_index ≡ r.read_index + length q
    pub bounded : length q ≤ 2 ^ k
    pub unwrapped : r.write_index < word
    pub window : Window r.slots (2 ^ k) r.read_index q

module _ {ℓ} {A : Type ℓ} (k : ℕ) (small : 2 ^ k < word) {r : Ring A} where
  pub used : {q : List A} → Holds k r q → sub_size r.write_index r.read_index ≡ length q
  used h = omega arith

  -- The write puts the item behind the others, whether or not the write index wraps after it.
  pub store-Window :
      {q : List A} (x : A)
      → Holds k r q
      → length q < 2 ^ k
      → Window (store k r x).slots (2 ^ k) r.read_index (q ++ (x ∷ []))
  store-Window {q} x h room =
      Window-append _ _ r.read_index q r.write_index x (sym h.written)
        (get_elem?-set_self r.slots (r.write_index % 2 ^ k) x
          (omega (arith, h.array, mod-lt r.write_index {m = 2 ^ k} (omega arith))))
        (Window-set r.slots (2 ^ k) r.read_index q r.write_index x (omega arith) (omega arith)
          h.window)

  pub Holds-store :
      {q : List A} (x : A)
      → Holds k r q
      → length q < 2 ^ k
      → r.write_index + 1 < word
      → Holds k (store k r x) (q ++ (x ∷ []))
  Holds-store {q} x h room nowrap = record {
    array = length-set r.slots _ x ∙ h.array;
    written = omega (arith, length-append {ℓ} q (x ∷ []));
    bounded = omega (arith, length-append {ℓ} q (x ∷ []));
    unwrapped = omega arith;
    window = store-Window x h room;
  }

  Holds-fetch :
      {x : A} {q : List A} → Holds k r (x ∷ q) → ((fetch k r).0 ≡ some x) × Holds k (fetch k r).1 q
  Holds-fetch {q} h = (
    h.window.0,
    record {
      array = h.array;
      written = omega (arith, h.written, h.unwrapped);
      bounded = omega (arith, h.bounded);
      unwrapped = h.unwrapped;
      window =
          let e : next_size r.read_index ≡ r.read_index + 1 =
            omega (arith, h.written, h.unwrapped) in
          subst (λ i. Window r.slots (2 ^ k) i q) (sym e) h.window.1;
    },
  )

  -- `push` fails exactly on a full queue, and then changes nothing; otherwise it appends the item.
  pub push_refines :
      (q : List A) (x : A)
      → Holds k r q
      → r.write_index + 1 < word
      → let (reply, q') = Queue.step (2 ^ k) q (put x) in
        ((push k r x).0 ≡ reply.0) × Holds k (push k r x).1 q'
  unfolding push
  push_refines q x h nowrap = elim (Bool-cases (ltb (length q) (2 ^ k))) [
    | inl room ↦
        let guard : leb (2 ^ k) (sub_size r.write_index r.read_index) ≡ false =
          ground (arith, used h) in
        rw (room, guard) (refl, Holds-store x h (ltb→lt _ _ room) nowrap)
    | inr no_room ↦
        let guard : leb (2 ^ k) (sub_size r.write_index r.read_index) ≡ true =
          ground (arith, used h) in
        rw (no_room, guard) (refl, h)
  ]

  pub pop_refines :
      (q : List A)
      → Holds k r q
      → let (reply, q') = Queue.step (2 ^ k) q get in
        ((pop k r).0 ≡ reply.0) × ((pop k r).1 ≡ reply.1) × Holds k (pop k r).2 q'
  unfolding pop
  pop_refines [] h =
      let guard : leb r.write_index r.read_index ≡ true = ground (arith, h.written) in
      rw guard (refl, refl, h)
  pop_refines (x ∷ q) h =
      let guard : leb r.write_index r.read_index ≡ false = ground (arith, h.written) in
      rw guard (refl, (Holds-fetch h).0, (Holds-fetch h).1)

  -- On a ring that holds a queue, with a write index that does not wrap, `push_blocking` waits exactly
  -- if the queue is full; otherwise the ring then holds the queue with the item at its end.
  pub push_blocking_refines :
      (q : List A) (x : A)
      → Holds k r q
      → r.write_index + 1 < word
      → ((push_blocking k r x ≡ none) × (length q ≡ 2 ^ k))
        ⊎ ((r' : Ring A) × (push_blocking k r x ≡ some r')
            × Holds k r' (q ++ (x ∷ []))
            × (length q < 2 ^ k))
  unfolding push_blocking
  push_blocking_refines q x h nowrap = elim (Bool-cases (ltb (length q) (2 ^ k))) [
    | inl room ↦
        inr (
          store k r x,
          rw (used h, room),
          Holds-store x h (ltb→lt _ _ room) nowrap,
          ltb→lt _ _ room,
        )
    | inr no_room ↦ inl (rw (used h, no_room), ground (arith, h.bounded))
  ]

  -- On a ring that holds a queue `pop_blocking` waits exactly if the queue is empty; otherwise it
  -- hands out the oldest item, and the ring then holds the others.
  pub pop_blocking_refines :
      (q : List A)
      → Holds k r q
      → ((pop_blocking k r ≡ none) × (q ≡ []))
        ⊎ ((x : A) × (rest : List A) × (r' : Ring A) × (q ≡ x ∷ rest)
            × (pop_blocking k r ≡ some (some x, r'))
            × Holds k r' rest)
  unfolding pop_blocking
  pop_blocking_refines [] h = inl (ground (arith, h.written), refl)
  pop_blocking_refines (x ∷ q) h =
      let guard : ltb r.read_index r.write_index ≡ true = ground (arith, h.written) in
      inr (x, q, (fetch k r).1, refl, rw (guard, (Holds-fetch h).0), (Holds-fetch h).1)

-- One call of a client, and a sequence of them.
abbrev pub call {ℓ} : {A : Type ℓ} → ℕ → Ring A → Op A → Reply A × Ring A
call k r (put x) = let (done, r') = push k r x in ((done, none), r')
call k r get = let (done, item, r') = pop k r in ((done, item), r')

unfoldable pub run {ℓ} : {A : Type ℓ} → ℕ → Ring A → List (Op A) → List (Reply A) × Ring A
run k r [] = ([], r)
run k r (op ∷ ops) =
    let (reply, r') = call k r op in let (replies, last) = run k r' ops in (reply ∷ replies, last)

step-put {ℓ} : {A : Type ℓ} (size : ℕ) (q : List A) (x : A) → (Queue.step size q (put x)).0.1 ≡ none
step-put size q x = ground arith

index-push {ℓ} :
    {A : Type ℓ} (k : ℕ) (r : Ring A) (x : A) → (push k r x).1.write_index ≤ r.write_index + 1
unfolding push
index-push k r x = ground arith

index-pop {ℓ} : {A : Type ℓ} (k : ℕ) (r : Ring A) → (pop k r).2.write_index ≤ r.write_index + 1
unfolding pop
index-pop k r = ground arith

module _ {ℓ} {A : Type ℓ} (k : ℕ) (small : 2 ^ k < word) where
  call_refines :
      (r : Ring A) (q : List A) (op : Op A)
      → Holds k r q
      → r.write_index + 1 < word
      → ((call k r op).0 ≡ (Queue.step (2 ^ k) q op).0)
        × Holds k (call k r op).1 (Queue.step (2 ^ k) q op).1
        × ((call k r op).1.write_index ≤ r.write_index + 1)
  call_refines r q (put x) h nowrap =
      let (done, holds) = push_refines k small q x h nowrap in
      (ap₂ (λ b o. (b, o)) done (sym (step-put (2 ^ k) q x)), holds, index-push k r x)
  call_refines r q get h nowrap =
      let (done, item, holds) = pop_refines k small q h in
      (ap₂ (λ b o. (b, o)) done item, holds, index-pop k r)

  -- From a ring that holds a queue, over any sequence of calls of `push` and `pop`, the ring answers
  -- as the bounded queue does, and then holds what the queue holds, if its size is below 2 ^ 64 and
  -- the write index cannot reach 2 ^ 64 in so many calls.
  pub run_refines :
      (ops : List (Op A)) (r : Ring A) (q : List A)
      → Holds k r q
      → r.write_index + length ops < word
      → ((run k r ops).0 ≡ (Queue.run (2 ^ k) q ops).0)
        × Holds k (run k r ops).1 (Queue.run (2 ^ k) q ops).1
  unfolding run Queue.run
  run_refines [] r q h nowrap = (refl, h)
  run_refines (op ∷ ops) r q h nowrap =
      let (reply, holds, index) = call_refines r q op h (omega arith) in
      let (replies, last) = run_refines ops _ _ holds (omega arith) in
      (ap₂ (λ a l. a ∷ l) reply replies, last)

  -- `full` and `empty` answer for the queue.
  pub full-empty_refine :
      (r : Ring A) (q : List A)
      → Holds k r q
      → (full k r ≡ leb (2 ^ k) (length q)) × (empty k r ≡ leb (length q) 0)
  unfolding full empty
  full-empty_refine r q h = (rw (used k small h), ground (arith, h.written))
