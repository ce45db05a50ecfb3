-- ===== src/Parser/Tests.antt =====
-- A stream of three tokens, and the theorems at it.
use becoming_an_elite_engine.Base.{
  text_order, ℕ, ◌≡◌, ◌≢◌, refl, true, false, some, none, List, [], ◌∷◌, ◌++◌, All, contains,
  length, arith, if◌then◌else◌, ◌==◌,
}
use becoming_an_elite_engine.Bst.{Tree, null, node, recurse_insertion, recurse_search}
use becoming_an_elite_engine.Bst.Laws.{value, IsOrdered}
use becoming_an_elite_engine.Lexer.Text.{Text}
use becoming_an_elite_engine.Parser.{fulfilled, failed, broken, Round, run, run_loop}
use becoming_an_elite_engine.Parser.Stream.{rounds, end_of_stream, run-drained, run-fulfilled}

-- "cat", "hat", "cat"
abbrev stream : List Text
stream = (99 ∷ 97 ∷ 116 ∷ []) ∷ (104 ∷ 97 ∷ 116 ∷ []) ∷ (99 ∷ 97 ∷ 116 ∷ []) ∷ []

abbrev all_rounds : List Round
all_rounds = rounds stream ++ (end_of_stream ∷ [])

abbrev built : Tree Text
built = node null (99 ∷ 97 ∷ 116 ∷ []) (node null (104 ∷ 97 ∷ 116 ∷ []) null)

run_test : run all_rounds ≡ some (fulfilled 3, built)
unfolding run run_loop recurse_insertion
run_test = refl

stopped_test : run ((true, 99 ∷ []) ∷ (false, []) ∷ []) ≡ some (broken, node null (99 ∷ []) null)
unfolding run run_loop recurse_insertion
stopped_test = refl

stream_full : All (λ token. token ≢ []) stream
stream_full = ground arith

run-drained_example :
    (t : Tree Text) × (run (rounds stream ++ (end_of_stream ∷ []))
      ≡ some (if length stream == 0 then failed else fulfilled (length stream), t))
    × IsOrdered t
    × (value (recurse_search t (104 ∷ []))
        ≡ (if contains (104 ∷ []) stream then some (104 ∷ []) else none))
run-drained_example = run-drained stream [] (104 ∷ []) stream_full (omega arith)

run-fulfilled_example :
    (tokens : List Text) × (later : List Round) × (all_rounds
      ≡ rounds tokens ++ (end_of_stream ∷ later))
    × All (λ token. token ≢ []) tokens
    × (◌≡◌ {A = ℕ} 3 (length tokens))
run-fulfilled_example = run-fulfilled all_rounds 3 built (omega arith) run_test
