-- ===== src/Lexer/Sound.antt =====
-- What holds between the steps of the lexer's threads: who is active, who closes, and what was
-- pushed so far.
use becoming_an_elite_engine.Base.{
  ℕ, zero, suc, ◌+◌, ◌<◌, ◌≡◌, ◌⊎◌, sym, subst, Bool, true, false, some, List, [], ◌∷◌, ◌++◌, All,
  get_elem?, set, arith,
}
use becoming_an_elite_engine.Lexer.Text.{Text}
use becoming_an_elite_engine.Lexer.Split.{IsWord}
use becoming_an_elite_engine.Lexer.Shutdown.{
  Ilp, Worker, testing, waiting, emitting, leaving, closing, marking, finished, Stopper, joining,
  stop_marking, stopped, Shared, move,
}

-- whether a worker counts as active, is about to close, or is about to push the mark
abbrev pub is_active : Worker → ℕ
is_active testing = 1
is_active waiting = 1
is_active (emitting ts) = 1
is_active leaving = 1
is_active closing = 0
is_active marking = 0
is_active finished = 0

abbrev pub is_closing : Worker → ℕ
is_closing closing = 1
is_closing marking = 0
is_closing finished = 0
is_closing testing = 0
is_closing waiting = 0
is_closing (emitting ts) = 0
is_closing leaving = 0

abbrev pub is_marking : Worker → ℕ
is_marking marking = 1
is_marking closing = 0
is_marking finished = 0
is_marking testing = 0
is_marking waiting = 0
is_marking (emitting ts) = 0
is_marking leaving = 0

abbrev pub is_stop_marking : Stopper → ℕ
is_stop_marking joining = 0
is_stop_marking stop_marking = 1
is_stop_marking stopped = 0

abbrev pub flag : Bool → ℕ
flag true = 1
flag false = 0

abbrev pub total : (Worker → ℕ) → List Worker → ℕ
total f [] = 0
total f (w ∷ ws) = f w + total f ws

pub total-set :
    (f : Worker → ℕ) (ws : List Worker) (i : ℕ) (old new : Worker)
    → get_elem? ws i ≡ some old
    → total f (set ws i new) + f old ≡ total f ws + f new
total-set f [] i old new h = absurd (cc)
total-set f (w ∷ ws) zero old new h = ground (arith, h)
total-set f (w ∷ ws) (suc i) old new h = omega (arith, total-set f ws i old new h)

module _ (stop_set : List Text) where
  abbrev pub WordsLeft : Worker → Type 0
  WordsLeft (emitting ts) = All (IsWord stop_set) ts
  WordsLeft testing = Unit
  WordsLeft waiting = Unit
  WordsLeft leaving = Unit
  WordsLeft closing = Unit
  WordsLeft marking = Unit
  WordsLeft finished = Unit

  -- words and then `n` marks
  abbrev pub IsStream : List Text → ℕ → Type 0
  IsStream pushed zero = All (IsWord stop_set) pushed
  IsStream pushed (suc n) = (ws : List Text) × (pushed ≡ ws ++ ([] ∷ [])) × IsStream ws n

  pub marked-IsStream :
      (pushed : List Text) (n : ℕ)
      → n ≡ 1
      → IsStream pushed n
      → (ws : List Text) × (pushed ≡ ws ++ ([] ∷ [])) × All (IsWord stop_set) ws
  marked-IsStream pushed n one h = subst (IsStream pushed) one h

  -- Nobody is active once the queue is closed or about to be; until then somebody is; and the marks
  -- pushed or about to be are one if the queue is closed, and none if not.
  pub record IsSound (s : Shared) : Type 0 where
    pub counted : s.active ≡ total is_active s.workers
    pub quiet : (s.active ≡ 0) ⊎ (total is_closing s.workers + flag s.closed ≡ 0)
    pub pending : 0 < s.active + total is_closing s.workers + flag s.closed
    pub marks : ℕ
    pub marked : marks + total is_marking s.workers + is_stop_marking s.stopper ≡ flag s.closed
    pub idle : is_stop_marking s.stopper ≡ 0
    pub stream : IsStream s.pushed marks
    pub left : All WordsLeft s.workers

  pub All-set :
      (P : Worker → Type 0) (ws : List Worker) (i : ℕ) (w : Worker)
      → All P ws
      → P w
      → All P (set ws i w)
  All-set P [] i w h p = tt
  All-set P (v ∷ ws) zero w h p = (p, h.1)
  All-set P (v ∷ ws) (suc i) w h p = (h.0, All-set P ws i w h.1 p)

  -- The flag and the queue of lines do not matter.
  pub IsSound-lines :
      (s : Shared) (r : Bool) (ls : List Ilp)
      → IsSound s
      → IsSound (record s { running = r; lines = ls })
  IsSound-lines s r ls h = record {
    counted = h.counted;
    quiet = h.quiet;
    pending = h.pending;
    marks = h.marks;
    marked = h.marked;
    idle = h.idle;
    stream = h.stream;
    left = h.left;
  }

  -- a move between two places with the same part in the end
  pub IsSound-move :
      (s : Shared) (i : ℕ) (old new : Worker)
      → IsSound s
      → get_elem? s.workers i ≡ some old
      → is_active new ≡ is_active old
      → is_closing new ≡ is_closing old
      → is_marking new ≡ is_marking old
      → WordsLeft new
      → IsSound (move s i new)
  IsSound-move s i old new h e a c m words =
      let active = total-set is_active s.workers i old new e in
      let closing_now = total-set is_closing s.workers i old new e in
      let marking_now = total-set is_marking s.workers i old new e in
      let same : total is_closing (set s.workers i new) ≡ total is_closing s.workers =
        omega arith in
      record {
        counted = omega (arith, h.counted);
        quiet = subst (λ n. (s.active ≡ 0) ⊎ (n + flag s.closed ≡ 0)) (sym same) h.quiet;
        pending = omega (arith, h.pending);
        marks = h.marks;
        marked = omega (arith, h.marked);
        idle = h.idle;
        stream = h.stream;
        left = All-set WordsLeft s.workers i new h.left words;
      }

  -- While a worker is active nothing is marked.
  pub open_stream :
      (s : Shared) (i : ℕ) (w : Worker)
      → IsSound s
      → get_elem? s.workers i ≡ some w
      → is_active w ≡ 1
      → (flag s.closed ≡ 0) × (total is_closing s.workers ≡ 0) × IsStream s.pushed 0
  open_stream s i w h e a =
      let one = total-set is_active s.workers i w finished e in
      let no_marks : h.marks ≡ 0 = ground (arith, h.marked, h.quiet, h.counted, one) in
      (
        ground (arith, h.quiet, h.counted, one),
        ground (arith, h.quiet, h.counted, one),
        subst (IsStream s.pushed) no_marks h.stream,
      )
