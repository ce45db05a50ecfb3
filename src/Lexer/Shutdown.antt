-- ===== src/Lexer/Shutdown.antt =====
-- The end of the stream in lexer.cpp: the workers, the count of those that are active, and
-- `CloseParserQueue_`, which a worker or the `OnStop` of the lexer calls. A step is one access to
-- shared state; any thread that can may take the next. The coordinator may queue any lines. The push
-- of `Parser::OnStop` into the same queue is in Pipeline/Threads.
use becoming_an_elite_engine.Base.{
  ℕ, ◌-◌, ◌≡◌, ◌≢◌, Bool, true, false, some, List, [], ◌∷◌, ◌++◌, get_elem?, set, ◌==◌,
  if◌then◌else◌,
}
use becoming_an_elite_engine.Lexer.Text.{Text}
use becoming_an_elite_engine.Lexer.Words.{tokens}

-- `ILP`
pub record Ilp : Type 0 where
  pub filepath : Text
  pub line : Text

abbrev pub pill : Ilp
pill = record { filepath = []; line = [] }

-- Where a worker is: before the test of `running_`, in `pop_blocking`, with tokens of its line
-- still to push, after the loop, before the exchange of `downstreamClosed_`, before the push of the
-- mark, or done.
pub data Worker : Type 0 where
  testing : Worker
  waiting : Worker
  emitting : List Text → Worker
  leaving : Worker
  closing : Worker
  marking : Worker
  finished : Worker

-- `OnStop`: before its own close, before its push of the mark, or done
pub data Stopper : Type 0 where
  joining : Stopper
  stop_marking : Stopper
  stopped : Stopper

-- `pushed` is what the lexer has pushed into the parser queue so far.
pub record Shared : Type 0 where
  pub running : Bool
  pub active : ℕ
  pub closed : Bool
  pub lines : List Ilp
  pub pushed : List Text
  pub workers : List Worker
  pub stopper : Stopper

abbrev pub at_finish : Worker → Bool
at_finish finished = true
at_finish testing = false
at_finish waiting = false
at_finish (emitting ts) = false
at_finish leaving = false
at_finish closing = false
at_finish marking = false

abbrev pub all_finished : List Worker → Bool
all_finished [] = true
all_finished (w ∷ ws) = if at_finish w then all_finished ws else false

abbrev pub move : Shared → ℕ → Worker → Shared
move s i w = record s { workers = set s.workers i w }

-- `OnStart`, once all threads exist
abbrev pub start_state : Shared
start_state = record {
  running = true;
  active = 2;
  closed = false;
  lines = [];
  pushed = [];
  workers = testing ∷ testing ∷ [];
  stopper = joining;
}

pub data Step (stop_set : List Text) : Shared → Shared → Type 0 where
  go_on :
      (s : Shared) (i : ℕ)
      → get_elem? s.workers i ≡ some testing
      → s.running ≡ true
      → Step stop_set s (move s i waiting)
  give_up :
      (s : Shared) (i : ℕ)
      → get_elem? s.workers i ≡ some testing
      → s.running ≡ false
      → Step stop_set s (move s i leaving)
  take_pill :
      (s : Shared) (i : ℕ) (rest : List Ilp)
      → get_elem? s.workers i ≡ some waiting
      → s.lines ≡ pill ∷ rest
      → Step stop_set s (record (move s i leaving) { lines = rest })
  take_line :
      (s : Shared) (i : ℕ) (l : Ilp) (rest : List Ilp) (ts : List Text)
      → get_elem? s.workers i ≡ some waiting
      → s.lines ≡ l ∷ rest
      → l ≢ pill
      → tokens stop_set l.line ≡ some ts
      → Step stop_set s (record (move s i (emitting ts)) { lines = rest })
  emit :
      (s : Shared) (i : ℕ) (t : Text) (ts : List Text)
      → get_elem? s.workers i ≡ some (emitting (t ∷ ts))
      → Step stop_set s (record (move s i (emitting ts)) { pushed = s.pushed ++ (t ∷ []) })
  next_round :
      (s : Shared) (i : ℕ)
      → get_elem? s.workers i ≡ some (emitting [])
      → Step stop_set s (move s i testing)
  -- `fetch_sub`; the worker that sees 1 closes the queue
  count_down :
      (s : Shared) (i : ℕ)
      → get_elem? s.workers i ≡ some leaving
      → Step stop_set s (record (move s i (if s.active == 1 then closing else finished)) {
        active = s.active - 1;
      })
  -- `compare_exchange_strong`
  close :
      (s : Shared) (i : ℕ)
      → get_elem? s.workers i ≡ some closing
      → s.closed ≡ false
      → Step stop_set s (record (move s i marking) { closed = true })
  closed_already :
      (s : Shared) (i : ℕ)
      → get_elem? s.workers i ≡ some closing
      → s.closed ≡ true
      → Step stop_set s (move s i finished)
  mark :
      (s : Shared) (i : ℕ)
      → get_elem? s.workers i ≡ some marking
      → Step stop_set s (record (move s i finished) { pushed = s.pushed ++ ([] ∷ []) })
  -- the coordinator
  queue_line : (s : Shared) (l : Ilp) → Step stop_set s (record s { lines = s.lines ++ (l ∷ []) })
  -- `OnStop`: the flag, and after all joins the close
  stop : (s : Shared) → Step stop_set s (record s { running = false })
  stop_close :
      (s : Shared)
      → s.stopper ≡ joining
      → all_finished s.workers ≡ true
      → s.closed ≡ false
      → Step stop_set s (record s { closed = true; stopper = stop_marking })
  stop_closed_already :
      (s : Shared)
      → s.stopper ≡ joining
      → all_finished s.workers ≡ true
      → s.closed ≡ true
      → Step stop_set s (record s { stopper = stopped })
  stop_mark :
      (s : Shared)
      → s.stopper ≡ stop_marking
      → Step stop_set s (record s { pushed = s.pushed ++ ([] ∷ []); stopper = stopped })

pub data Reachable (stop_set : List Text) : Shared → Type 0 where
  start : Reachable stop_set start_state
  after : (s s' : Shared) → Reachable stop_set s → Step stop_set s s' → Reachable stop_set s'
