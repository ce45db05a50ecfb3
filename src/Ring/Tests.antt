-- ===== src/Ring/Tests.antt =====
-- The theorems on the ring buffer at concrete rings, and runs of it.
use becoming_an_elite_engine.Base.{
  ℕ, ◌^◌, ◌-◌, ◌<◌, ◌≡◌, ◌⊎◌, refl, true, false, none, some, List, [], ◌∷◌, arith,
}
use becoming_an_elite_engine.Ring.{Ring, sub_size, push, pop, push_blocking, pop_blocking, empty}
use becoming_an_elite_engine.Ring.Queue
use becoming_an_elite_engine.Ring.Queue.{Op, put, get}
use becoming_an_elite_engine.Ring.Refine.{
  Holds, push_blocking_refines, pop_blocking_refines, run, run_refines,
}
use becoming_an_elite_engine.Ring.Window.{Window}
use becoming_an_elite_engine.Ring.Wrap.{pop-push_wrapped}

-- two slots, with the oldest item in slot 1
abbrev ring : Ring ℕ
ring = record { write_index = 4; read_index = 3; slots = 9 ∷ 7 ∷ [] }

ring-Holds : Holds 1 ring (7 ∷ [])
ring-Holds = record {
  array = refl;
  written = refl;
  bounded = omega arith;
  unwrapped = omega arith;
  window = (refl, tt);
}

abbrev held : List ℕ
held = 7 ∷ []

abbrev calls : List (Op ℕ)
calls = put 8 ∷ put 6 ∷ get ∷ get ∷ get ∷ []

run_test :
    (run 1 ring calls).0
    ≡ (true, none) ∷ (false, none) ∷ (true, some 7) ∷ (true, some 8) ∷ (false, none) ∷ []
unfolding run push pop
run_test = refl

run_refines_example :
    ((run 1 ring calls).0 ≡ (Queue.run 2 (7 ∷ []) calls).0)
    × Holds 1 (run 1 ring calls).1 (Queue.run 2 (7 ∷ []) calls).1
run_refines_example = run_refines 1 (omega arith) calls ring (7 ∷ []) ring-Holds (omega arith)

push_blocking_refines_example :
    ((push_blocking 1 ring 8 ≡ none) × (◌≡◌ {A = ℕ} 1 2))
    ⊎ ((r' : Ring ℕ) × (push_blocking 1 ring 8 ≡ some r') × Holds 1 r' (7 ∷ 8 ∷ []) × (1 < 2))
push_blocking_refines_example =
    push_blocking_refines 1 (omega arith) (7 ∷ []) 8 ring-Holds (omega arith)

pop_blocking_refines_example :
    ((pop_blocking 1 ring ≡ none) × (held ≡ []))
    ⊎ ((x : ℕ) × (rest : List ℕ) × (r' : Ring ℕ) × (held ≡ x ∷ rest)
        × (pop_blocking 1 ring ≡ some (some x, r'))
        × Holds 1 r' rest)
pop_blocking_refines_example = pop_blocking_refines 1 (omega arith) (held) ring-Holds

-- the indices one push before the wrap
abbrev last : Ring ℕ
last = record { write_index = 2 ^ 64 - 1; read_index = 2 ^ 64 - 2; slots = 7 ∷ 9 ∷ [] }

last-Holds : Holds 1 last (7 ∷ [])
last-Holds = record {
  array = refl;
  written = refl;
  bounded = omega arith;
  unwrapped = omega arith;
  window = (refl, tt);
}

pop-push_wrapped_example :
    let r' = (push 1 last 8).1 in
    ((push 1 last 8).0 ≡ true)
    × Window r'.slots 2 r'.read_index (7 ∷ 8 ∷ [])
    × (r'.read_index ≡ 2 ^ 64 - 2)
    × (sub_size r'.write_index r'.read_index ≡ 2)
    × (pop 1 r' ≡ (false, none, r'))
    × (empty 1 r' ≡ true)
pop-push_wrapped_example =
    pop-push_wrapped 1 last (7 ∷ []) 8 (omega arith) last-Holds (omega arith) refl
