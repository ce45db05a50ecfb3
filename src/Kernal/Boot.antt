-- ===== src/Kernal/Boot.antt =====
-- The registry stays consistent, and the engine starts on a complete index only.
use becoming_an_elite_engine.Base.{
  ℕ, ◌<◌, ◌≡◌, ◌≢◌, ◌⊎◌, inl, inr, refl, ap, sym, ◌∙◌, subst, true, false, Option, none, some, [],
  ◌∷◌, ◌++◌, arith, Bool-cases, Option-cases, if◌then◌else◌,
}
use becoming_an_elite_engine.Kernal.{
  SubsystemId, store, dir_reader, lexer, parser, engine, code, Phase, created, initialized, started,
  Kernal, Hooks, Future, Failure, Answer, result, indexing_error, future_error, other_error, report,
  hook, not_initialized, already_registered, set_phase, register, start_subsystem, start_then,
  start_all, await_indexing, no_future,
}
use becoming_an_elite_engine.Kernal.Await.{IsTimed, IsWaiting, await_loop_lem}
use becoming_an_elite_engine.Kernal.Stop.{
  listed, is_some, IsConsistent, code_eq, Text-cases, is_some_cases, listed-append,
  IsDistinct-append_one,
}

module _ {W : Type 0} where
  -- `Register` keeps the registry consistent; it adds a new subsystem in its first state behind the
  -- others, and refuses one that is there already without changing anything.
  pub register-IsConsistent :
      (k : Kernal W) (id : SubsystemId)
      → IsConsistent k
      → IsConsistent (register k id).1
        × (((listed id k.order ≡ true) × (register k id ≡ (some (already_registered id), k)))
            ⊎ ((listed id k.order ≡ false)
                × ((register k id).0 ≡ none)
                × ((register k id).1.order ≡ k.order ++ (id ∷ []))
                × ((register k id).1.phase id ≡ some created)))
  unfolding register
  register-IsConsistent k id c = elim (Option-cases (k.phase id)) [
    | inl absent ↦
        let new : listed id k.order ≡ false = ground (arith, c.registered id, absent) in
        let made : register k id
            ≡ (none, record (set_phase k id created) { order = k.order ++ (id ∷ []) }) =
          ground (arith, absent) in
        (
          subst (λ r. IsConsistent r.1) (sym made)
              (record {
                distinct = IsDistinct-append_one k.order id c.distinct new;
                registered = λ j.
                    ground (arith, listed-append j k.order (id ∷ []), c.registered j, code_eq j id);
              }),
          inr (
            new,
            ap (λ r. r.0) made,
            ap (λ r. r.1.order) made,
            ap (λ r. r.1.phase id) made ∙ ground arith,
          ),
        )
    | inr (p, there) ↦
        let kept : register k id ≡ (some (already_registered id), k) = ground (arith, there) in
        (
          subst (λ r. IsConsistent r.1) (sym kept) c,
          inl (ground (arith, c.registered id, there), kept),
        )
  ]

-- the future is absent, or on a clock that does not run behind
abbrev pub IsWaitable : Option Future → Type 0
IsWaitable none = Unit
IsWaitable (some f) = IsTimed f

report_silent : (a : Answer) → report a ≡ none → a ≡ result
report_silent result h = refl
report_silent indexing_error h = absurd (cc)
report_silent future_error h = absurd (cc)
report_silent other_error h = absurd (cc)

module _ {W : Type 0} where
  -- The parser has reported a complete index in time: a future is wired, it is ready in one of the
  -- rounds with the result, and no round before gave a reason to give up.
  abbrev pub IsComplete : Kernal W → Type 0
  IsComplete k =
      (f : Future) × (k.index_ready ≡ some f)
      × (f.answer ≡ result)
      × (j : ℕ) × (j < 240)
      × (f.ready j ≡ true)
      × ((m : ℕ) → m < j → IsWaiting k.abort_check f m)

  await_indexing-IsComplete :
      (k : Kernal W)
      → IsWaitable k.index_ready
      → (r : Option Failure) × (await_indexing 240 k ≡ some r) × (r ≡ none → IsComplete k)
  unfolding await_indexing
  await_indexing-IsComplete k timed = elim (Option-cases k.index_ready) [
    | inl absent ↦ (some no_future, ground (arith, absent), (λ fine. absurd (cc)))
    | inr (f, wired) ↦
        let (r, j, ends, below, verdict, before) =
          await_loop_lem k.abort_check f (subst IsWaitable wired timed) in
        (
          r,
          ground (arith, wired, ends),
          (λ fine. (
            f,
            wired,
            report_silent f.answer (ground (arith, verdict, fine)),
            j,
            below,
            ground (arith, verdict, fine),
            before,
          )),
        )
  ]

  await_indexing-wired :
      (k k' : Kernal W)
      → k'.index_ready ≡ k.index_ready
      → k'.abort_check ≡ k.abort_check
      → await_indexing 240 k' ≡ await_indexing 240 k
  unfolding await_indexing
  await_indexing-wired k k' ready check = ground (arith, ready, check)

module _ {W : Type 0} (h : Hooks W) where
  -- what one start does
  record IsStart (id : SubsystemId) (k : Kernal W) (e : Option Failure) (k' : Kernal W)
      : Type 0 where
    ran : start_subsystem h id k ≡ some (e, k')
    others : (j : SubsystemId) → code j ≢ code id → k'.phase j ≡ k.phase j
    ready : k'.index_ready ≡ k.index_ready
    check : k'.abort_check ≡ k.abort_check
    outcome :
        ((e ≡ none)
          × (k.phase id ≡ some initialized)
          × (k'.phase id ≡ some started)
          × (k'.world ≡ (h.on_start id k.world).1))
        ⊎ ((f : Failure) × (e ≡ some f) × (k'.phase id ≡ k.phase id))

  IsStart-exists :
      (id : SubsystemId) (k : Kernal W) (p : Phase)
      → k.phase id ≡ some p
      → (e : Option Failure) × (k' : Kernal W) × IsStart id k e k'
  unfolding start_subsystem
  IsStart-exists id k initialized there = elim (Text-cases (h.on_start id k.world).0) [
    | inl silent ↦ (
      none,
      record (set_phase k id started) { world = (h.on_start id k.world).1 },
      record {
        ran = ground (arith, there, silent);
        others = λ j other. ground (arith, other);
        ready = refl;
        check = refl;
        outcome = inl (refl, there, ground arith, refl);
      },
    )
    | inr (c, text, loud) ↦ (
      some (hook id (c ∷ text)),
      record k { world = (h.on_start id k.world).1 },
      record {
        ran = ground (arith, there, loud);
        others = λ j other. refl;
        ready = refl;
        check = refl;
        outcome = inr (hook id (c ∷ text), refl, refl);
      },
    )
  ]
  IsStart-exists id k p there = (
    some (not_initialized id),
    k,
    record {
      ran = ground (arith, there);
      others = λ j other. refl;
      ready = refl;
      check = refl;
      outcome = inr (not_initialized id, refl, refl);
    },
  )

  -- A boot that reaches the engine: the store is started, and either it had an index, or the three
  -- stages of the pipeline are started and the parser reported a complete index.
  abbrev pub IsIndexed : Kernal W → Kernal W → Type 0
  IsIndexed k k' =
      (k'.phase store ≡ some started)
      × ((h.has_search_index (h.on_start store k.world).1 ≡ true)
          ⊎ ((k'.phase dir_reader ≡ some started)
              × (k'.phase lexer ≡ some started)
              × (k'.phase parser ≡ some started)
              × IsComplete k))

  -- what `StartAll` promises of the engine
  abbrev pub IsBooted : Kernal W → Option Failure → Kernal W → Type 0
  IsBooted k e k' =
      ((f : Failure) × (e ≡ some f) × (k'.phase engine ≡ k.phase engine))
      ⊎ ((e ≡ none)
          × (k.phase engine ≡ some initialized)
          × (k'.phase engine ≡ some started)
          × IsIndexed k k')

  abbrev Boot : (Kernal W → Option (Option Failure × Kernal W)) → Kernal W → Kernal W → Type 0
  Boot next k0 k =
      (e : Option Failure) × (k' : Kernal W) × (next k ≡ some (e, k')) × IsBooted k0 e k'

  start_engine :
      (k0 k : Kernal W)
      → is_some (k.phase engine) ≡ true
      → k.phase engine ≡ k0.phase engine
      → IsIndexed k0 k
      → Boot (start_subsystem h engine) k0 k
  start_engine k0 k known same indexed =
      let (p, there) = is_some_cases (k.phase engine) known in
      let (e, k', s) = IsStart-exists engine k p there in
      (
        e,
        k',
        s.ran,
        ground (
          arith,
          same,
          s.outcome,
          indexed,
          s.others store (omega arith),
          s.others dir_reader (omega arith),
          s.others lexer (omega arith),
          s.others parser (omega arith),
        ),
      )

  start_step :
      (id : SubsystemId) (next : Kernal W → Option (Option Failure × Kernal W)) (k0 k : Kernal W)
      → is_some (k.phase id) ≡ true
      → code engine ≢ code id
      → k.phase engine ≡ k0.phase engine
      → ((k1 : Kernal W) → IsStart id k none k1 → Boot next k0 k1)
      → Boot (λ j. start_then h id j next) k0 k
  start_step id next k0 k known other same rest =
      let (p, there) = is_some_cases (k.phase id) known in
      let (e, k1, s) = IsStart-exists id k p there in
      elim (Option-cases e) [
        | inl fine ↦
            let s' : IsStart id k none k1 = subst (λ x. IsStart id k x k1) fine s in
            let (e', k', ran, booted) = rest k1 s' in (e', k', ground (arith, s'.ran, ran), booted)
        | inr (f, bad) ↦
            (some f, k1, ground (arith, s.ran, bad), inl (f, refl, s.others engine other ∙ same))
      ]

  -- `StartAll` behind the start of the pipeline, and behind that of the store
  abbrev ready_pipeline : Kernal W → Option (Option Failure × Kernal W)
  ready_pipeline k4 = elim (await_indexing 240 k4) [
    | none ↦ none
    | some (some e) ↦ some (some e, k4)
    | some none ↦ start_subsystem h engine k4
  ]

  abbrev ready_store : Kernal W → Option (Option Failure × Kernal W)
  ready_store k1 =
      if h.has_search_index k1.world
      then start_subsystem h engine k1
      else start_then h dir_reader k1
          (λ k2. start_then h lexer k2 (λ k3. start_then h parser k3 ready_pipeline))

  after_pipeline :
      (k k1 k2 k3 k4 : Kernal W)
      → ((id : SubsystemId) → is_some (k.phase id) ≡ true)
      → IsWaitable k.index_ready
      → IsStart store k none k1
      → IsStart dir_reader k1 none k2
      → IsStart lexer k2 none k3
      → IsStart parser k3 none k4
      → Boot ready_pipeline k k4
  after_pipeline k k1 k2 k3 k4 known timed s1 s2 s3 s4 =
      let engine_same : k4.phase engine ≡ k.phase engine =
        s4.others engine (omega arith)
        ∙ s3.others engine (omega arith)
        ∙ s2.others engine (omega arith)
        ∙ s1.others engine (omega arith) in
      let waits : await_indexing 240 k4 ≡ await_indexing 240 k =
        await_indexing-wired k k4 (s4.ready ∙ s3.ready ∙ s2.ready ∙ s1.ready)
          (s4.check ∙ s3.check ∙ s2.check ∙ s1.check) in
      let (r, ends, completed) = await_indexing-IsComplete k timed in
      elim (Option-cases r) [
        | inl complete ↦
            let awaited : await_indexing 240 k ≡ some none = ends ∙ ap some complete in
            let (e, k', ran, booted) =
              start_engine k k4 (ap is_some engine_same ∙ known engine) engine_same (
                s4.others store (omega arith)
                    ∙ s3.others store (omega arith)
                    ∙ s2.others store (omega arith)
                    ∙ ground (arith, s1.outcome),
                inr (
                  s4.others dir_reader (omega arith)
                      ∙ s3.others dir_reader (omega arith)
                      ∙ ground (arith, s2.outcome),
                  s4.others lexer (omega arith) ∙ ground (arith, s3.outcome),
                  ground (arith, s4.outcome),
                  completed complete,
                ),
              ) in
            (e, k', ground (arith, waits, awaited, ran), booted)
        | inr (f, bad) ↦ (some f, k4, ground (arith, waits, ends, bad), inl (f, refl, engine_same))
      ]

  after_store :
      (k k1 : Kernal W)
      → ((id : SubsystemId) → is_some (k.phase id) ≡ true)
      → IsWaitable k.index_ready
      → IsStart store k none k1
      → Boot ready_store k k1
  after_store k k1 known timed s1 = elim (Bool-cases (h.has_search_index k1.world)) [
    | inl warm ↦
        let same = s1.others engine (omega arith) in
        let (e, k', ran, booted) =
          start_engine k k1 (ap is_some same ∙ known engine) same
            (ground (arith, s1.outcome), inl (ground (arith, s1.outcome, warm))) in
        (e, k', ground (arith, warm, ran), booted)
    | inr cold ↦
        let (e, k', ran, booted) =
          start_step dir_reader
            (λ k2. start_then h lexer k2 (λ k3. start_then h parser k3 ready_pipeline)) k k1
            (ap is_some (s1.others dir_reader (omega arith)) ∙ known dir_reader) (omega arith)
            (s1.others engine (omega arith))
            (λ k2 s2.
              start_step lexer (λ k3. start_then h parser k3 ready_pipeline) k k2
                (ap is_some (s2.others lexer (omega arith) ∙ s1.others lexer (omega arith))
                  ∙ known lexer)
                (omega arith) (s2.others engine (omega arith) ∙ s1.others engine (omega arith))
                (λ k3 s3.
                  start_step parser ready_pipeline k k3
                    (ap is_some (
                        s3.others parser (omega arith)
                        ∙ s2.others parser (omega arith)
                        ∙ s1.others parser (omega arith))
                      ∙ known parser)
                    (omega arith)
                    (s3.others engine (omega arith)
                      ∙ s2.others engine (omega arith)
                      ∙ s1.others engine (omega arith))
                    (λ k4 s4. after_pipeline k k1 k2 k3 k4 known timed s1 s2 s3 s4))) in
        (e, k', ground (arith, cold, ran), booted)
  ]

  -- With all five subsystems registered, and a future whose clock does not run behind, `StartAll`
  -- returns; and if it returns without an error, and only then, it has started the engine: the store
  -- is started, and either had an index, or the three stages of the pipeline are started and the future
  -- of the parser is wired and was ready with the result in one of the 240 rounds, the rounds before
  -- giving no reason to stop waiting. Otherwise the engine is as it was.
  pub start_all-IsBooted :
      (k : Kernal W)
      → ((id : SubsystemId) → is_some (k.phase id) ≡ true)
      → IsWaitable k.index_ready
      → (e : Option Failure) × (k' : Kernal W) × (start_all h 240 k ≡ some (e, k'))
        × IsBooted k e k'
  unfolding start_all
  start_all-IsBooted k known timed =
      start_step store ready_store k k (known store) (omega arith) refl
        (λ k1 s1. after_store k k1 known timed s1)
