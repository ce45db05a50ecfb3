-- ===== src/Pipeline/Tests.antt =====
-- The parser behind a lexer that has pushed one word: with the mark, and stopped before it.
use becoming_an_elite_engine.Base.{
  text_order, ℕ, ◌≤◌, ◌≡◌, ◌≢◌, ◌⊎◌, inl, refl, true, false, some, none, List, [], ◌∷◌, ◌++◌,
  length, ◌==◌, if◌then◌else◌, arith, All, contains,
}
use becoming_an_elite_engine.Bst.{Tree, null, recurse_insertion, recurse_search}
use becoming_an_elite_engine.Bst.Laws.{value, IsOrdered}
use becoming_an_elite_engine.Lexer.Text.{Text}
use becoming_an_elite_engine.Lexer.Split.{IsWord}
use becoming_an_elite_engine.Lexer.Shutdown.{
  Shared, Step, start_state, testing, emitting, all_finished, queue_line, go_on, take_line, emit,
  next_round, stop, give_up, count_down, close, mark,
}
use becoming_an_elite_engine.Lexer.Sound.{IsStream}
use becoming_an_elite_engine.Lexer.Tests.{stop_set, last, last_reached, cat, cat-pill, tokens_cat}
use becoming_an_elite_engine.Parser.{fulfilled, failed, run}
use becoming_an_elite_engine.Parser.Stream.{rounds}
use becoming_an_elite_engine.Pipeline.{run-stream}
use becoming_an_elite_engine.Pipeline.Threads.{
  System, start_system, at_pop, ended, not_called, returned, Move, by_lexer, test_on, take_token,
  take_mark, clear_running, unblock, join, Runs, begin, and_then,
}
use becoming_an_elite_engine.Pipeline.Joint.{unblocked}
use becoming_an_elite_engine.Pipeline.Given.{given-Runs}
use becoming_an_elite_engine.Pipeline.Stop.{fulfilled-Runs}
use becoming_an_elite_engine.Pipeline.Drain.{drained-Runs}

-- "cat"
abbrev sought : Text
sought = 99 ∷ 97 ∷ 116 ∷ []

run-stream_example :
    (ws : List Text) × (t : Tree Text) × (last.pushed ≡ ws ++ ([] ∷ []))
    × All (IsWord stop_set) ws
    × (run (rounds last.pushed)
        ≡ some (if length ws == 0 then failed else fulfilled (length ws), t))
    × IsOrdered t
    × (value (recurse_search t sought) ≡ (if contains sought ws then some sought else none))
run-stream_example = run-stream stop_set last sought last_reached refl (omega arith)

-- The lexer has pushed "cat", and the parser has taken it and waits for more.
abbrev waiting_system : System
waiting_system = record start_system {
  lexer = record start_state { pushed = sought ∷ []; workers = emitting [] ∷ testing ∷ [] };
  given = sought ∷ [];
  place = at_pop;
  tree = recurse_insertion null sought;
  indexed = 1;
  taken = (true, sought) ∷ [];
}

go : {s s' : System} → Runs stop_set s → Move stop_set s s' → Runs stop_set s'
go {s} {s'} r move = and_then s s' r move

-- a step of the lexer that pushes nothing
quiet :
    {s : System} {l : Shared}
    → Runs stop_set s
    → Step stop_set s.lexer l
    → l.pushed ≡ s.lexer.pushed ++ []
    → Runs stop_set (record s { lexer = l; queue = s.queue ++ []; given = s.given ++ [] })
quiet {s} {l} r step same = and_then s _ r (by_lexer s l [] step same)

emitted-Runs : Runs stop_set (record start_system {
  lexer = record start_state { pushed = sought ∷ []; workers = emitting [] ∷ testing ∷ [] };
  queue = sought ∷ [];
  given = sought ∷ [];
})
emitted-Runs =
    go
      (quiet (quiet (quiet begin (queue_line start_state cat) refl) (go_on _ 0 refl refl) refl)
        (take_line _ 0 cat [] _ refl refl cat-pill tokens_cat) refl)
      (by_lexer _ _ (sought ∷ []) (emit _ 0 sought [] refl) refl)

waiting-Runs : Runs stop_set waiting_system
waiting-Runs =
    go (go (go emitted-Runs (test_on _ refl refl)) (take_token _ 99 (97 ∷ 116 ∷ []) [] refl refl))
      (test_on _ refl refl)

-- `OnStop` has returned, and the lexer is still at work.
abbrev stopped_system : System
stopped_system = record waiting_system {
  given = sought ∷ [] ∷ [];
  running = false;
  place = ended (fulfilled 1);
  taken = (true, sought) ∷ (true, []) ∷ [];
  stop_call = returned;
}

stopped-Runs : Runs stop_set stopped_system
stopped-Runs =
    go
      (go (go (go waiting-Runs (clear_running _ refl)) (unblock _ refl)) (take_mark _ [] refl refl))
      (join _ (fulfilled 1) refl refl)

given-Runs_example :
    ((n : ℕ) × IsStream stop_set stopped_system.lexer.pushed n
      × (n ≤ 1)
      × ((n ≡ 1) ⊎ (all_finished stopped_system.lexer.workers ≡ false)))
    × (((unblocked stopped_system.stop_call ≡ false)
          × (stopped_system.given ≡ stopped_system.lexer.pushed))
        ⊎ ((unblocked stopped_system.stop_call ≡ true)
            × (a : List Text) × (b : List Text) × (stopped_system.lexer.pushed ≡ a ++ b)
            × (stopped_system.given ≡ a ++ ([] ∷ b))))
given-Runs_example = given-Runs stop_set stopped_system stopped-Runs

fulfilled-Runs_example :
    (tokens : List Text) × All (λ token. token ≢ []) tokens
    × (◌≡◌ {A = ℕ} 1 (length tokens))
    × ((stopped_system.lexer.pushed ≡ tokens ++ ([] ∷ []))
        ⊎ ((unblocked stopped_system.stop_call ≡ true)
            × (more : List Text) × (stopped_system.lexer.pushed ≡ tokens ++ more)))
fulfilled-Runs_example = fulfilled-Runs stop_set stopped_system 1 stopped-Runs refl (omega arith)

-- The lexer is done, and the parser has not begun.
abbrev full_system : System
full_system = record start_system {
  lexer = last;
  queue = sought ∷ [] ∷ [];
  given = sought ∷ [] ∷ [];
}

full-Runs : Runs stop_set full_system
full-Runs =
    go
      (quiet
        (quiet
          (quiet
            (quiet
              (quiet (quiet (quiet emitted-Runs (next_round _ 0 refl) refl) (stop _) refl)
                (give_up _ 0 refl refl) refl)
              (count_down _ 0 refl) refl)
            (give_up _ 1 refl refl) refl)
          (count_down _ 1 refl) refl)
        (close _ 1 refl refl) refl)
      (by_lexer _ _ ([] ∷ []) (mark _ 1 refl) refl)

drained-Runs_example :
    (s' : System) × (ws : List Text) × Runs stop_set s'
    × (s'.lexer ≡ full_system.lexer)
    × (s'.stop_call ≡ not_called)
    × (full_system.lexer.pushed ≡ ws ++ ([] ∷ []))
    × All (IsWord stop_set) ws
    × (s'.place ≡ ended (if length ws == 0 then failed else fulfilled (length ws)))
drained-Runs_example =
    drained-Runs stop_set full_system full-Runs refl refl (inl refl) (omega arith)
