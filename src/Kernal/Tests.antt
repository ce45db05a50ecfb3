-- ===== src/Kernal/Tests.antt =====
-- A kernal of five subsystems that is registered, started and stopped.
use becoming_an_elite_engine.Base.{
  ℕ, ◌+◌, ◌*◌, ◌<◌, ◌≡◌, ◌⊎◌, refl, true, false, Option, none, some, List, [], ◌∷◌, ◌++◌, reverse,
  arith, leb, if◌then◌else◌, ◌==◌,
}
use becoming_an_elite_engine.Kernal.{
  SubsystemId, store, dir_reader, lexer, parser, engine, code, Phase, created, initialized, started,
  Kernal, Hooks, Future, Failure, already_registered, result, register, start_all, stop_all,
  await_loop,
}
use becoming_an_elite_engine.Kernal.Await.{IsTimed, IsVerdict, IsWaiting, await_loop_lem}
use becoming_an_elite_engine.Kernal.Stop.{
  listed, is_some, IsConsistent, after_stop, stop_world, stop_errors, stop_report, stop_all_lem,
}
use becoming_an_elite_engine.Kernal.Boot.{IsBooted, register-IsConsistent, start_all-IsBooted}

-- The world is the list of the calls so far: 1 for `OnStart`, 2 for `OnStop`. The lexer fails to stop.
abbrev hooks : Hooks (List (ℕ × SubsystemId))
hooks = record {
  on_init = λ id w. ([], w);
  on_start = λ id w. ([], w ++ ((1, id) ∷ []));
  on_stop = λ id w. (if code id == 2 then 33 ∷ [] else [], w ++ ((2, id) ∷ []));
  has_search_index = λ w. false;
}

-- ready in the third round
abbrev future : Future
future = record {
  ready = λ i. leb 2 i;
  aborted = λ i. false;
  now = λ i. 6000 * (i + 1);
  answer = result;
}

abbrev blank : Kernal (List (ℕ × SubsystemId))
blank = record {
  phase = λ id. none;
  order = [];
  index_ready = some future;
  abort_check = true;
  world = [];
}

abbrev all_in : Phase → Kernal (List (ℕ × SubsystemId))
all_in p = record blank {
  phase = λ id. some p;
  order = store ∷ dir_reader ∷ lexer ∷ parser ∷ engine ∷ [];
}

future-IsTimed : IsTimed future
future-IsTimed i = omega arith

blank-IsConsistent : IsConsistent blank
blank-IsConsistent = record { distinct = tt; registered = λ id. refl }

all_listed : (id : SubsystemId) → listed id (all_in started).order ≡ true
all_listed store = refl
all_listed dir_reader = refl
all_listed lexer = refl
all_listed parser = refl
all_listed engine = refl

all_in-IsConsistent : IsConsistent (all_in started)
all_in-IsConsistent = record { distinct = ground arith; registered = all_listed }

-- The first error is the lexer's, and all five are stopped.
stop_world_test :
    stop_world hooks (all_in started).phase (reverse (all_in started).order) []
    ≡ (2, engine) ∷ (2, parser) ∷ (2, lexer) ∷ (2, dir_reader) ∷ (2, store) ∷ []
stop_world_test = refl

stop_errors_test :
    stop_errors hooks (all_in started).phase (reverse (all_in started).order) []
    ≡ (lexer, 33 ∷ []) ∷ []
stop_errors_test = refl

await_loop_lem_example :
    (r : Option Failure) × (j : ℕ) × (await_loop 240 0 true future ≡ some r)
    × (j < 240)
    × IsVerdict true future j r
    × ((m : ℕ) → m < j → IsWaiting true future m)
await_loop_lem_example = await_loop_lem true future future-IsTimed

stop_all_lem_example :
    let stopping_order = reverse (all_in started).order in
    (k' : Kernal (List (ℕ × SubsystemId))) × (stop_all hooks (all_in started)
      ≡ some (stop_report hooks (stop_errors hooks (all_in started).phase stopping_order []), k'))
    × (k'.world ≡ stop_world hooks (all_in started).phase stopping_order [])
    × (k'.order ≡ (all_in started).order)
    × ((id : SubsystemId) → k'.phase id ≡ after_stop ((all_in started).phase id))
stop_all_lem_example = stop_all_lem hooks (all_in started) all_in-IsConsistent

register-IsConsistent_example :
    IsConsistent (register blank lexer).1
    × (((listed lexer blank.order ≡ true)
          × (register blank lexer ≡ (some (already_registered lexer), blank)))
        ⊎ ((listed lexer blank.order ≡ false)
            × ((register blank lexer).0 ≡ none)
            × ((register blank lexer).1.order ≡ blank.order ++ (lexer ∷ []))
            × ((register blank lexer).1.phase lexer ≡ some created)))
register-IsConsistent_example = register-IsConsistent blank lexer blank-IsConsistent

all_known : (id : SubsystemId) → is_some ((all_in initialized).phase id) ≡ true
all_known id = refl

start_all-IsBooted_example :
    (e : Option Failure) × (k' : Kernal (List (ℕ × SubsystemId))) × (start_all hooks 240
        (all_in initialized)
      ≡ some (e, k'))
    × IsBooted hooks (all_in initialized) e k'
start_all-IsBooted_example = start_all-IsBooted hooks (all_in initialized) all_known future-IsTimed
