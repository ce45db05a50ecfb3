-- ===== src/Kernal/Await.antt =====
-- The wait for the index ends, in the first round that gives it a reason to.
use becoming_an_elite_engine.Base.{
  ℕ, zero, suc, ◌+◌, ◌*◌, ◌<◌, ◌≤◌, ◌≡◌, ◌⊎◌, inl, inr, refl, Bool, true, false, ◌&&◌, Option, some,
  leb, arith, Bool-cases, subst,
}
use native.Mathlib.Decide.{dec_lt}
use becoming_an_elite_engine.Kernal.{
  Future, Failure, shutdown_requested, timed_out, index_timeout, index_heartbeat, report,
  await_loop,
}

-- `wait_for` returns without the future being ready only after the heartbeat, on a steady clock.
abbrev pub IsTimed : Future → Type 0
IsTimed f = (i : ℕ) → index_heartbeat * (i + 1) ≤ f.now i

-- why the loop ends in a round, and with what
abbrev pub IsVerdict : Bool → Future → ℕ → Option Failure → Type 0
IsVerdict check f i r =
    ((f.ready i ≡ true) × (r ≡ report f.answer))
    ⊎ ((f.ready i ≡ false) × ((check && f.aborted i) ≡ true) × (r ≡ some shutdown_requested))
    ⊎ ((f.ready i ≡ false)
        × ((check && f.aborted i) ≡ false)
        × (index_timeout ≤ f.now i)
        × (r ≡ some timed_out))

-- a round that gives the loop no reason to end
abbrev pub IsWaiting : Bool → Future → ℕ → Type 0
IsWaiting check f i =
    (f.ready i ≡ false) × ((check && f.aborted i) ≡ false) × (f.now i < index_timeout)

await_loop_ends :
    (fuel i : ℕ) (check : Bool) (f : Future)
    → IsTimed f
    → 240 ≤ fuel + i
    → i < 240
    → (r : Option Failure) × (j : ℕ) × (await_loop fuel i check f ≡ some r)
      × (j < 240)
      × IsVerdict check f j r
      × ((m : ℕ) → i ≤ m → m < j → IsWaiting check f m)
unfolding await_loop
await_loop_ends zero i check f timed enough few = absurd (omega arith)
await_loop_ends (suc fuel) i check f timed enough few = elim (Bool-cases (f.ready i)) [
  | inl ready ↦ (
    report f.answer,
    i,
    ground arith,
    few,
    inl (ready, refl),
    (λ m from to. absurd (omega arith)),
  )
  | inr waiting ↦ elim (Bool-cases (check && f.aborted i)) [
    | inl abort ↦ (
      some shutdown_requested,
      i,
      ground arith,
      few,
      inr (inl (waiting, abort, refl)),
      (λ m from to. absurd (omega arith)),
    )
    | inr on ↦ elim (Bool-cases (leb index_timeout (f.now i))) [
      | inl late ↦ (
        some timed_out,
        i,
        ground arith,
        few,
        inr (inr (waiting, on, ground (arith, late), refl)),
        (λ m from to. absurd (omega arith)),
      )
      | inr early ↦
          let (r, j, ends, below, verdict, before) =
            await_loop_ends fuel (i + 1) check f timed (omega arith)
              (ground (arith, early, timed i)) in
          (
            r,
            j,
            ground (arith, ends),
            below,
            verdict,
            (λ m from to. elim (dec_lt i m) [
              | yes past ↦ before m (omega (arith, past)) to
              | no here ↦
                  let same : i ≡ m = omega (arith, here) in
                  subst (IsWaiting check f) same (waiting, on, ground (arith, early))
            ]),
          )
    ]
  ]
]

-- On a clock that does not run behind, `AwaitIndexing_` ends within 240 rounds, in the first one in
-- which the future is ready, the abort check asks for a shutdown, or 20 minutes have passed: with the
-- report of the future if it is ready, else with the error of a shutdown if the abort check asks for
-- it, else with the timeout.
pub await_loop_lem :
    (check : Bool) (f : Future)
    → IsTimed f
    → (r : Option Failure) × (j : ℕ) × (await_loop 240 0 check f ≡ some r)
      × (j < 240)
      × IsVerdict check f j r
      × ((m : ℕ) → m < j → IsWaiting check f m)
await_loop_lem check f timed =
    let (r, j, ends, below, verdict, before) =
      await_loop_ends 240 0 check f timed (omega arith) (omega arith) in
    (r, j, ends, below, verdict, (λ m to. before m (omega arith) to))
