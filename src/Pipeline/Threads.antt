-- ===== src/Pipeline/Threads.antt =====
-- searchengine/internal/parser/parser.cpp, `Run` and `OnStop`, beside the lexer of Lexer/Shutdown:
-- the parser queue, and the threads that push into it and take from it. A step is one access to
-- shared state; any thread that can may take the next. The queue has no capacity here: a thread that
-- waits for room is one that takes no step.
use becoming_an_elite_engine.Base.{
  text_order, ℕ, ◌+◌, ◌%◌, ◌^◌, ◌≡◌, Bool, true, false, List, [], ◌∷◌, ◌++◌, ◌==◌, if◌then◌else◌,
}
use becoming_an_elite_engine.Bst.{Tree, null, recurse_insertion}
use becoming_an_elite_engine.Lexer.Text.{Text}
use becoming_an_elite_engine.Lexer.Shutdown.{Shared, Step, start_state}
use becoming_an_elite_engine.Parser.{Outcome, fulfilled, failed, broken, Round}

-- Where `Parser::Run` is: before the test of `running_`, in `pop_blocking`, or behind the promise.
pub data Place : Type 0 where
  at_test : Place
  at_pop : Place
  ended : Outcome → Place

-- `Parser::OnStop`: not called yet, before its push, before its join, or done
pub data StopCall : Type 0 where
  not_called : StopCall
  before_push : StopCall
  before_join : StopCall
  returned : StopCall

-- `given` is all that was pushed into the parser queue so far, and `taken` the rounds of the loop of
-- `Parser::Run`; `running` is the flag of the parser, `tree` and `indexed` its local variables.
pub record System : Type 0 where
  pub lexer : Shared
  pub queue : List Text
  pub given : List Text
  pub running : Bool
  pub place : Place
  pub tree : Tree Text
  pub indexed : ℕ
  pub taken : List Round
  pub stop_call : StopCall

-- `OnStart` of both, once all threads exist
abbrev pub start_system : System
start_system = record {
  lexer = start_state;
  queue = [];
  given = [];
  running = true;
  place = at_test;
  tree = null;
  indexed = 0;
  taken = [];
  stop_call = not_called;
}

pub data Move (stop_set : List Text) : System → System → Type 0 where
  -- a thread of the lexer, which may push
  by_lexer :
      (s : System) (l : Shared) (new : List Text)
      → Step stop_set s.lexer l
      → l.pushed ≡ s.lexer.pushed ++ new
      → Move stop_set s (record s { lexer = l; queue = s.queue ++ new; given = s.given ++ new })
  -- `Run`
  test_on :
      (s : System)
      → s.place ≡ at_test
      → s.running ≡ true
      → Move stop_set s (record s { place = at_pop })
  test_off :
      (s : System)
      → s.place ≡ at_test
      → s.running ≡ false
      → Move stop_set s (record s { place = ended broken; taken = s.taken ++ ((false, []) ∷ []) })
  take_token :
      (s : System) (c : ℕ) (token : Text) (rest : List Text)
      → s.place ≡ at_pop
      → s.queue ≡ (c ∷ token) ∷ rest
      → Move stop_set s (record s {
        queue = rest;
        place = at_test;
        tree = recurse_insertion s.tree (c ∷ token);
        indexed = (s.indexed + 1) % 2 ^ 64;
        taken = s.taken ++ ((true, c ∷ token) ∷ []);
      })
  take_mark :
      (s : System) (rest : List Text)
      → s.place ≡ at_pop
      → s.queue ≡ [] ∷ rest
      → Move stop_set s (record s {
        queue = rest;
        place = ended (if s.indexed == 0 then failed else fulfilled s.indexed);
        taken = s.taken ++ ((true, []) ∷ []);
      })
  -- `OnStop`: the flag, the push, and the join
  clear_running :
      (s : System)
      → s.stop_call ≡ not_called
      → Move stop_set s (record s { running = false; stop_call = before_push })
  unblock :
      (s : System)
      → s.stop_call ≡ before_push
      → Move stop_set s (record s {
        queue = s.queue ++ ([] ∷ []);
        given = s.given ++ ([] ∷ []);
        stop_call = before_join;
      })
  join :
      (s : System) (o : Outcome)
      → s.stop_call ≡ before_join
      → s.place ≡ ended o
      → Move stop_set s (record s { stop_call = returned })

pub data Runs (stop_set : List Text) : System → Type 0 where
  begin : Runs stop_set start_system
  and_then : (s s' : System) → Runs stop_set s → Move stop_set s s' → Runs stop_set s'
