-- ===== src/Kernal.antt =====
-- searchengine/internal/kernal/kernal.cpp and core/headerfiles/subsystem.hpp: the registry of the
-- subsystems, and their start and stop. What a subsystem does in `OnInit`, `OnStart` and `OnStop` is
-- a function on the world `W` around the kernal, which returns the error's message.
pub mod Await
pub mod Stop
pub mod Boot
mod Tests
use becoming_an_elite_engine.Base.{
  ℕ, zero, suc, ◌+◌, ◌*◌, Bool, true, false, not, ◌&&◌, Option, none, some, List, [], ◌∷◌, ◌++◌,
  reverse, leb, ◌==◌, if◌then◌else◌,
}
use becoming_an_elite_engine.Lexer.Text.{Text}

pub data SubsystemId : Type 0 where
  store : SubsystemId
  dir_reader : SubsystemId
  lexer : SubsystemId
  parser : SubsystemId
  engine : SubsystemId

-- the value of the enumeration
abbrev pub code : SubsystemId → ℕ
code store = 0
code dir_reader = 1
code lexer = 2
code parser = 3
code engine = 4

-- `Subsystem::State`
pub data Phase : Type 0 where
  created : Phase
  initialized : Phase
  started : Phase
  stopping : Phase
  stopped : Phase

-- the errors, by what their messages say
pub data Failure : Type 0 where
  already_registered : SubsystemId → Failure
  not_created : SubsystemId → Failure
  not_initialized : SubsystemId → Failure
  hook : SubsystemId → Text → Failure
  no_future : Failure
  shutdown_requested : Failure
  timed_out : Failure
  indexing_failed : Failure
  not_completed : Failure
  unexpected : Failure
  stops_failed : List (SubsystemId × Text) → Failure

-- What `get` of the future gives: the result, the error that the parser stored, `future_error`,
-- or another exception.
pub data Answer : Type 0 where
  result : Answer
  indexing_error : Answer
  future_error : Answer
  other_error : Answer

-- What the waiting loop sees in its round `i`: whether the future is ready after the wait, what the
-- abort check says, and the milliseconds since the loop began; and the answer in the end.
pub record Future : Type 0 where
  pub ready : ℕ → Bool
  pub aborted : ℕ → Bool
  pub now : ℕ → ℕ
  pub answer : Answer

pub record Hooks (W : Type 0) : Type 0 where
  pub on_init : SubsystemId → W → Text × W
  pub on_start : SubsystemId → W → Text × W
  pub on_stop : SubsystemId → W → Text × W
  pub has_search_index : W → Bool

-- `phase` is the map `subsystems_`, by the state of each subsystem that is in it.
pub record Kernal (W : Type 0) : Type 0 where
  pub phase : SubsystemId → Option Phase
  pub order : List SubsystemId
  pub index_ready : Option Future
  pub abort_check : Bool
  pub world : W

-- `kIndexTimeout` and `kIndexHeartbeat`, in milliseconds
abbrev pub index_timeout : ℕ
index_timeout = 20 * 60 * 1000

abbrev pub index_heartbeat : ℕ
index_heartbeat = 5 * 1000

module _ {W : Type 0} where
  abbrev pub set_phase : Kernal W → SubsystemId → Phase → Kernal W
  set_phase k id p = record k { phase = λ j. if code j == code id then some p else k.phase j }

  pub register : Kernal W → SubsystemId → Option Failure × Kernal W
  register k id = elim (k.phase id) [
    | some p ↦ (some (already_registered id), k)
    | none ↦ (none, record (set_phase k id created) { order = k.order ++ (id ∷ []) })
  ]

module _ {W : Type 0} (h : Hooks W) where
  -- `Init`, `Start` and `Stop` of a subsystem in the phase given, whose state is stored in the kernal
  abbrev pub init_one : Kernal W → SubsystemId → Phase → Option Failure × Kernal W
  init_one k id created =
      let (message, w) = h.on_init id k.world in
      elim message [
        | [] ↦ (none, record (set_phase k id initialized) { world = w })
        | c ∷ text ↦ (some (hook id (c ∷ text)), record k { world = w })
      ]
  init_one k id initialized = (some (not_created id), k)
  init_one k id started = (some (not_created id), k)
  init_one k id stopping = (some (not_created id), k)
  init_one k id stopped = (some (not_created id), k)

  abbrev pub start_one : Kernal W → SubsystemId → Phase → Option Failure × Kernal W
  start_one k id initialized =
      let (message, w) = h.on_start id k.world in
      elim message [
        | [] ↦ (none, record (set_phase k id started) { world = w })
        | c ∷ text ↦ (some (hook id (c ∷ text)), record k { world = w })
      ]
  start_one k id created = (some (not_initialized id), k)
  start_one k id started = (some (not_initialized id), k)
  start_one k id stopping = (some (not_initialized id), k)
  start_one k id stopped = (some (not_initialized id), k)

  abbrev pub stop_one : Kernal W → SubsystemId → Phase → Text × Kernal W
  stop_one k id started =
      let (message, w) = h.on_stop id k.world in
      (message, record (set_phase k id stopped) { world = w })
  stop_one k id created = ([], k)
  stop_one k id initialized = ([], k)
  stop_one k id stopping = ([], k)
  stop_one k id stopped = ([], k)

  -- `none` is a call through a null pointer.
  unfoldable pub init_loop : List SubsystemId → Kernal W → Option (Option Failure × Kernal W)
  init_loop [] k = some (none, k)
  init_loop (id ∷ ids) k = elim (k.phase id) [
    | none ↦ none
    | some p ↦
        let (error, k') = init_one k id p in
        elim error [ some e ↦ some (some e, k') | none ↦ init_loop ids k' ]
  ]

  pub init_all : Kernal W → Option (Option Failure × Kernal W)
  unfolding init_loop
  init_all k = init_loop k.order k

  pub start_subsystem : SubsystemId → Kernal W → Option (Option Failure × Kernal W)
  start_subsystem id k = elim (k.phase id) [ none ↦ none | some p ↦ some (start_one k id p) ]

  -- the loop of `StopAll`, with the errors so far
  unfoldable pub stop_loop :
      List SubsystemId
      → List (SubsystemId × Text)
      → Kernal W
      → Option (List (SubsystemId × Text) × Kernal W)
  stop_loop [] errors k = some (errors, k)
  stop_loop (id ∷ ids) errors k = elim (k.phase id) [
    | none ↦ none
    | some p ↦
        let (message, k') = stop_one k id p in
        elim message [
          | [] ↦ stop_loop ids errors k'
          | c ∷ text ↦ stop_loop ids (errors ++ ((id, c ∷ text) ∷ [])) k'
        ]
  ]

  pub stop_all : Kernal W → Option (Option Failure × Kernal W)
  unfolding stop_loop
  stop_all k = elim (stop_loop (reverse k.order) [] k) [
    | none ↦ none
    | some (errors, k') ↦
        some (elim errors [ [] ↦ none | e ∷ es ↦ some (stops_failed (e ∷ es)) ], k')
  ]

-- what the `catch` clauses make of the answer
abbrev pub report : Answer → Option Failure
report result = none
report indexing_error = some indexing_failed
report future_error = some not_completed
report other_error = some unexpected

-- The loop of `AwaitIndexing_`; `none` is a loop that has not ended when the fuel is used up.
unfoldable pub await_loop : ℕ → ℕ → Bool → Future → Option (Option Failure)
await_loop zero i check f = none
await_loop (suc fuel) i check f = elim (f.ready i) [
  | true ↦ some (report f.answer)
  | false ↦
      let rest = await_loop fuel (i + 1) check f in
      if check && f.aborted i
      then some (some shutdown_requested)
      else if leb index_timeout (f.now i)
      then some (some timed_out)
      else rest
]

unfoldable pub await_indexing : {W : Type 0} → ℕ → Kernal W → Option (Option Failure)
await_indexing fuel k = elim k.index_ready [
  | none ↦ some (some no_future)
  | some f ↦ await_loop fuel 0 k.abort_check f
]

module _ {W : Type 0} (h : Hooks W) where
  -- `error = StartSubSystem_(id); if (HasError(error)) return error;`, and what follows
  abbrev pub start_then :
      SubsystemId
      → Kernal W
      → (Kernal W → Option (Option Failure × Kernal W))
      → Option (Option Failure × Kernal W)
  start_then id k next = elim (start_subsystem h id k) [
    | none ↦ none
    | some (some e, k') ↦ some (some e, k')
    | some (none, k') ↦ next k'
  ]

  pub start_all : ℕ → Kernal W → Option (Option Failure × Kernal W)
  start_all fuel k = start_then store k (λ k1.
      if h.has_search_index k1.world
      then start_subsystem h engine k1
      else start_then dir_reader k1 (λ k2. start_then lexer k2 (λ k3. start_then parser k3 (λ k4.
        elim (await_indexing fuel k4) [
          | none ↦ none
          | some (some e) ↦ some (some e, k4)
          | some none ↦ start_subsystem h engine k4
        ]))))
