-- ===== src/Pipeline.antt =====
-- The lexer and the parser together: the parser takes from the parser queue, oldest first, what the
-- threads of the lexer have pushed there.
pub mod Threads
pub mod Joint
pub mod Given
pub mod Stop
pub mod Drain
mod Tests
use becoming_an_elite_engine.Base.{
  text_order, ℕ, zero, suc, ◌+◌, ◌^◌, ◌<◌, ◌≤◌, ◌≡◌, ◌≢◌, ◌⊎◌, inl, inr, refl, ap, ◌∙◌, sym, subst,
  Bool, true, false, Option, none, some, List, [], ◌∷◌, ◌++◌, length, length-append, ◌==◌,
  if◌then◌else◌, arith, All, All-imp, contains,
}
use becoming_an_elite_engine.Bst.{Tree, recurse_search}
use becoming_an_elite_engine.Bst.Laws.{value, IsOrdered}
use becoming_an_elite_engine.Lexer.Text.{Text}
use becoming_an_elite_engine.Lexer.Split.{IsWord}
use becoming_an_elite_engine.Lexer.Shutdown.{Shared, Reachable, all_finished}
use becoming_an_elite_engine.Lexer.Sound.{marked-IsStream}
use becoming_an_elite_engine.Lexer.Stream.{stream-Reachable}
use becoming_an_elite_engine.Parser.{fulfilled, failed, run}
use becoming_an_elite_engine.Parser.Stream.{rounds, end_of_stream, run-drained}

rounds-append : (ws : List Text) → rounds (ws ++ ([] ∷ [])) ≡ rounds ws ++ (end_of_stream ∷ [])
rounds-append [] = refl
rounds-append (w ∷ ws) = ap (λ l. (true, w) ∷ l) (rounds-append ws)

module _ (stop_set : List Text) where
  -- Whatever the order of the steps of the lexer's threads: when all workers are done, and have pushed
  -- fewer than 2 ^ 64 texts, a parser that runs on what they pushed drains it. The promise gets
  -- the number of the words, or the error if there is none, and the tree is ordered and finds
  -- exactly the words that were pushed.
  pub run-stream :
      (s : Shared) (w : Text)
      → Reachable stop_set s
      → all_finished s.workers ≡ true
      → length s.pushed < 2 ^ 64
      → (ws : List Text) × (t : Tree Text) × (s.pushed ≡ ws ++ ([] ∷ []))
        × All (IsWord stop_set) ws
        × (run (rounds s.pushed)
            ≡ some (if length ws == 0 then failed else fulfilled (length ws), t))
        × IsOrdered t
        × (value (recurse_search t w) ≡ (if contains w ws then some w else none))
  run-stream s w r done small =
      let (n, stream, few, ended) = stream-Reachable stop_set s r in
      let one : n ≡ 1 = ground (arith, ended, done) in
      let (ws, split, words) = marked-IsStream stop_set s.pushed n one stream in
      let (t, outcome, ordered, found) =
        run-drained ws [] w (All-imp (λ word h. h.0) ws words)
          (omega (arith, ap length split, length-append ws ([] ∷ []))) in
      (
        ws,
        t,
        split,
        words,
        ap (λ l. run (rounds l)) split ∙ ap run (rounds-append ws) ∙ outcome,
        ordered,
        found,
      )
