-- ===== src/Pipeline/Drain.antt =====
-- The parser behind a lexer that is done.
use becoming_an_elite_engine.Base.{
  text_order, ℕ, zero, suc, ◌+◌, ◌%◌, ◌^◌, ◌<◌, ◌≡◌, ◌≢◌, ◌⊎◌, inl, inr, refl, ap, ◌∙◌, sym, true,
  false, Option, none, some, List, [], ◌∷◌, ◌++◌, append-nil, length, length-append, arith, All,
  All-imp, ◌==◌, if◌then◌else◌,
}
use becoming_an_elite_engine.Bst.{Tree, recurse_insertion}
use becoming_an_elite_engine.Lexer.Text.{Text}
use becoming_an_elite_engine.Lexer.Shutdown.{all_finished}
use becoming_an_elite_engine.Lexer.Split.{IsWord}
use becoming_an_elite_engine.Lexer.Sound.{marked-IsStream}
use becoming_an_elite_engine.Parser.{Outcome, Round, fulfilled, failed, run_loop, run}
use becoming_an_elite_engine.Parser.Stream.{rounds, end_of_stream, run-drained}
use becoming_an_elite_engine.Pipeline.Threads.{
  System, at_test, at_pop, ended, not_called, Runs, and_then, test_on, take_token, take_mark,
}
use becoming_an_elite_engine.Pipeline.Joint.{texts, running_loop, joint}
use becoming_an_elite_engine.Pipeline.Given.{given-Runs}

-- what the promise gets for a number of tokens
abbrev verdict : ℕ → Outcome
verdict n = if n == 0 then failed else fulfilled n

-- The rounds of a loop that has not ended took tokens, none of them empty.
run_loop-open :
    (rs : List Round) (t : Tree Text) (n : ℕ)
    → run_loop rs t n ≡ none
    → (rs ≡ rounds (texts rs)) × All (λ token. token ≢ []) (texts rs)
unfolding run_loop
run_loop-open [] t n h = (refl, tt)
run_loop-open ((false, token) ∷ rs) t n h = absurd (cc)
run_loop-open ((true, []) ∷ rs) t n h = absurd (cc)
run_loop-open ((true, c ∷ token) ∷ rs) t n h =
    let (same, full) = run_loop-open rs (recurse_insertion t (c ∷ token)) ((n + 1) % 2 ^ 64) h in
    (ap (λ l. (true, c ∷ token) ∷ l) same, ((λ e. absurd (cc)), full))

verdict-inj : (m n : ℕ) → verdict m ≡ verdict n → m ≡ n
verdict-inj zero zero h = refl
verdict-inj zero (suc n) h = absurd (ground (arith, h))
verdict-inj (suc m) zero h = absurd (ground (arith, h))
verdict-inj (suc m) (suc n) h = ground (arith, h)

outcome-inj :
    (o o' : Outcome) (t t' : Tree Text)
    → ◌≡◌ {A = Option (Outcome × Tree Text)} (some (o, t)) (some (o', t'))
    → o ≡ o'
outcome-inj o o' t t' h = cc

-- The parser has counted the tokens that it took.
indexed-length :
    (taken : List Round) (tree : Tree Text) (indexed : ℕ)
    → length (texts taken) < 2 ^ 64
    → ((later : List Round) → run (taken ++ later) ≡ run_loop later tree indexed)
    → (indexed ≡ length (texts taken)) × All (λ token. token ≢ []) (texts taken)
unfolding run run_loop
indexed-length taken tree indexed small h =
    let (same, full) = run_loop-open taken Tree.null 0 (ap run (sym (append-nil taken)) ∙ h []) in
    let (t, drained, _, _) = run-drained (texts taken) [] [] full small in
    let marked : some (verdict (length (texts taken)), t) ≡ some (verdict indexed, tree) =
      sym drained ∙ ap (λ l. run (l ++ (end_of_stream ∷ []))) (sym same) ∙ h (end_of_stream ∷ []) in
    (
      sym (
          verdict-inj (length (texts taken)) indexed
            (outcome-inj (verdict (length (texts taken))) (verdict indexed) t tree marked)),
      full,
    )

-- What is left of words and a mark behind tokens is words and the mark.
left_stream :
    (P : Text → Type 0) (tokens queue ws : List Text)
    → All (λ token. token ≢ []) tokens
    → All P ws
    → tokens ++ queue ≡ ws ++ ([] ∷ [])
    → (q : List Text) × (queue ≡ q ++ ([] ∷ [])) × All P q × (ws ≡ tokens ++ q)
left_stream P [] queue ws full words e = (ws, e, words, refl)
left_stream P (t ∷ tokens) queue [] full words e = absurd (full.0 (cc))
left_stream P (t ∷ tokens) queue (w ∷ ws) full words e =
    let tails : tokens ++ queue ≡ ws ++ ([] ∷ []) = cc in
    let (q, split, rest, same) = left_stream P tokens queue ws full.1 words.1 tails in
    (q, split, rest, cc)

module _ (stop_set : List Text) where
  abbrev Drained : System → ℕ → Type 0
  Drained s n =
      (s' : System) × Runs stop_set s'
      × (s'.lexer ≡ s.lexer)
      × (s'.stop_call ≡ s.stop_call)
      × (s'.place ≡ ended (verdict n))

  -- With words and the mark in the queue, the steps of the parser alone take it to the end.
  drain :
      (q : List Text) (s : System)
      → Runs stop_set s
      → s.running ≡ true
      → s.place ≡ at_pop
      → s.queue ≡ q ++ ([] ∷ [])
      → All (λ token. token ≢ []) q
      → s.indexed + length q < 2 ^ 64
      → Drained s (s.indexed + length q)
  drain [] s r on at left full small = (
    _,
    and_then s _ r (take_mark s [] at left),
    refl,
    refl,
    ap (λ n. ended (verdict n)) {x = s.indexed} {y = s.indexed + 0} (omega arith),
  )
  drain ([] ∷ q) s r on at left full small = absurd (full.0 refl)
  drain ((c ∷ token) ∷ q) s r on at left full small =
      let taken = and_then s _ r (take_token s c token (q ++ ([] ∷ [])) at left) in
      let next : (s.indexed + 1) % 2 ^ 64 ≡ s.indexed + 1 = omega arith in
      let (s', runs, same, kept, done) =
        drain q _ (and_then _ _ taken (test_on _ refl on)) on refl refl full.1
          (omega (arith, next)) in
      (s', runs, same, kept, done ∙ ap (λ n. ended (verdict n)) (omega (arith, next)))

  drain_any :
      (q : List Text) (s : System)
      → Runs stop_set s
      → s.running ≡ true
      → (s.place ≡ at_test) ⊎ (s.place ≡ at_pop)
      → s.queue ≡ q ++ ([] ∷ [])
      → All (λ token. token ≢ []) q
      → s.indexed + length q < 2 ^ 64
      → Drained s (s.indexed + length q)
  drain_any q s r on (inl at) left full small =
      drain q _ (and_then s _ r (test_on s at on)) on refl left full small
  drain_any q s r on (inr at) left full small = drain q s r on at left full small

  -- From every state in which all workers of the lexer are done, `Parser::OnStop` is not called, the
  -- parser is in its loop and fewer than 2 ^ 64 texts were pushed, the threads can go on, with no
  -- step of the lexer, to one in which the promise has the number of all words that the lexer
  -- has pushed, or the error if there is none.
  pub drained-Runs :
      (s : System)
      → Runs stop_set s
      → all_finished s.lexer.workers ≡ true
      → s.stop_call ≡ not_called
      → (s.place ≡ at_test) ⊎ (s.place ≡ at_pop)
      → length s.given < 2 ^ 64
      → (s' : System) × (ws : List Text) × Runs stop_set s'
        × (s'.lexer ≡ s.lexer)
        × (s'.stop_call ≡ not_called)
        × (s.lexer.pushed ≡ ws ++ ([] ∷ []))
        × All (IsWord stop_set) ws
        × (s'.place ≡ ended (if length ws == 0 then failed else fulfilled (length ws)))
  drained-Runs s r done fresh at small =
      let h = joint stop_set s r in
      let on : s.running ≡ true = ground (arith, h.flag, fresh) in
      let ((n, stream, few, ends), given) = given-Runs stop_set s r in
      let (ws, split, words) =
        marked-IsStream stop_set s.lexer.pushed n (ground (arith, ends, done)) stream in
      let parts : texts s.taken ++ s.queue ≡ ws ++ ([] ∷ []) =
        sym h.order ∙ ground (arith, given, fresh) ∙ split in
      let size : length s.given ≡ length (texts s.taken) + length s.queue =
        ap length h.order ∙ length-append (texts s.taken) s.queue in
      let (count, full) =
        indexed-length s.taken s.tree s.indexed (omega (arith, size))
          (running_loop stop_set s.place s.taken s.tree s.indexed at h.loop) in
      let (q, left, more, whole) =
        left_stream (IsWord stop_set) (texts s.taken) s.queue ws full words parts in
      let total : s.indexed + length q ≡ length ws =
        omega (arith, count, ap length whole, length-append (texts s.taken) q) in
      let (s', runs, same, kept, place) =
        drain_any q s r on at left (All-imp (λ word w. w.0) q more) (
          omega (
            arith,
            size,
            total,
            ap length parts,
            length-append ws ([] ∷ []),
            length-append (texts s.taken) s.queue,
          )) in
      (s', ws, runs, same, kept ∙ fresh, split, words, place ∙ ap (λ m. ended (verdict m)) total)
