-- ===== src/Parser.antt =====
-- searchengine/internal/parser/parser.cpp: `Parser::Run`, the last stage of the pipeline. The
-- thread, the clock and the logging are not modelled.
pub mod Stream
mod Tests
use becoming_an_elite_engine.Base.{
  text_order, ℕ, ◌+◌, ◌%◌, ◌^◌, Bool, true, false, Option, none, some, List, [], ◌∷◌, ◌==◌,
  if◌then◌else◌,
}
use becoming_an_elite_engine.Bst.{Tree, null, recurse_insertion}
use becoming_an_elite_engine.Lexer.Text.{Text}

-- What becomes of the promise: it gets the count of tokens, or the `IndexingError`, or is dropped
-- without either, which its owner sees as `broken_promise`.
pub data Outcome : Type 0 where
  fulfilled : ℕ → Outcome
  failed : Outcome
  broken : Outcome

-- A round of the loop: what `running_` holds, and the token that the queue hands out if it is set.
abbrev pub Round : Type 0
Round = Bool × Text

-- `none` is a parser that waits for a token when the rounds end.
unfoldable pub run_loop : List Round → Tree Text → ℕ → Option (Outcome × Tree Text)
run_loop [] tree indexed = none
run_loop ((false, token) ∷ rounds) tree indexed = some (broken, tree)
run_loop ((true, []) ∷ rounds) tree indexed =
    some (if indexed == 0 then failed else fulfilled indexed, tree)
run_loop ((true, c ∷ token) ∷ rounds) tree indexed =
    run_loop rounds (recurse_insertion tree (c ∷ token)) ((indexed + 1) % 2 ^ 64)

unfoldable pub run : List Round → Option (Outcome × Tree Text)
unfolding run_loop
run rounds = run_loop rounds null 0
