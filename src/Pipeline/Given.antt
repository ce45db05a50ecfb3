-- ===== src/Pipeline/Given.antt =====
-- What the parser queue is given, and what the thread of the parser makes of it.
use becoming_an_elite_engine.Base.{
  text_order, ℕ, ◌≤◌, ◌≡◌, ◌⊎◌, subst, true, false, some, List, [], ◌∷◌, ◌++◌,
}
use becoming_an_elite_engine.Lexer.Text.{Text}
use becoming_an_elite_engine.Lexer.Shutdown.{all_finished}
use becoming_an_elite_engine.Lexer.Sound.{IsStream}
use becoming_an_elite_engine.Lexer.Stream.{stream-Reachable}
use becoming_an_elite_engine.Parser.{Outcome, run}
use becoming_an_elite_engine.Pipeline.Threads.{System, ended, Runs}
use becoming_an_elite_engine.Pipeline.Joint.{unblocked, texts, IsAt, joint}

module _ (stop_set : List Text) where
  -- In every state that the threads of the lexer and of the parser can reach, with `OnStop` of both:
  -- the lexer has pushed words only, or words and then one mark of the end, and it has pushed the
  -- mark whenever all workers are done. The parser queue was given just that, in this order, until
  -- `Parser::OnStop` has pushed; from then on it was given one more empty string, at some place in
  -- between.
  pub given-Runs :
      (s : System)
      → Runs stop_set s
      → ((n : ℕ) × IsStream stop_set s.lexer.pushed n
          × (n ≤ 1)
          × ((n ≡ 1) ⊎ (all_finished s.lexer.workers ≡ false)))
        × (((unblocked s.stop_call ≡ false) × (s.given ≡ s.lexer.pushed))
            ⊎ ((unblocked s.stop_call ≡ true)
                × (a : List Text) × (b : List Text) × (s.lexer.pushed ≡ a ++ b)
                × (s.given ≡ a ++ ([] ∷ b))))
  given-Runs s r =
      let h = joint stop_set s r in (stream-Reachable stop_set s.lexer h.lexer, h.given)

  pub run-Runs :
      (s : System) (o : Outcome)
      → Runs stop_set s
      → s.place ≡ ended o
      → (s.given ≡ texts s.taken ++ s.queue) × (run s.taken ≡ some (o, s.tree))
  run-Runs s o r at =
      let h = joint stop_set s r in
      (h.order, subst (λ p. IsAt p s.taken s.tree s.indexed) at h.loop)
