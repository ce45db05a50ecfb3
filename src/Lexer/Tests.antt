-- ===== src/Lexer/Tests.antt =====
-- Lines that are cut, and the theorems at them.
use becoming_an_elite_engine.Base.{ap, true, false, ◌≡◌, ◌≢◌, refl, some, List, [], ◌∷◌, All}
use becoming_an_elite_engine.Lexer.Text.{Text, index_of, clean, is_stop_word, ci_equal}
use becoming_an_elite_engine.Lexer.Words.{space, split_line, split_loop, tokens, token_loop}
use becoming_an_elite_engine.Lexer.Shutdown.{
  Ilp, pill, testing, emitting, finished, joining, Shared, start_state, Step, go_on, give_up,
  take_line, emit, next_round, count_down, close, mark, queue_line, stop, Reachable, start, after,
}
use becoming_an_elite_engine.Lexer.Split.{joined, pieces, words, IsWord, split_line_lem, tokens_lem}

-- "The cat,  a  Hat"
abbrev line : Text
line = 84 ∷ 104 ∷ 101 ∷ 32 ∷ 99 ∷ 97 ∷ 116 ∷ 44 ∷ 32 ∷ 32 ∷ 97 ∷ 32 ∷ 72 ∷ 97 ∷ 116 ∷ []

-- "a", "the"
abbrev pub stop_set : List Text
stop_set = (97 ∷ []) ∷ (116 ∷ 104 ∷ 101 ∷ []) ∷ []

-- "cat", "hat"
tokens_test : tokens stop_set line ≡ some ((99 ∷ 97 ∷ 116 ∷ []) ∷ (104 ∷ 97 ∷ 116 ∷ []) ∷ [])
unfolding tokens token_loop clean is_stop_word ci_equal index_of
tokens_test = refl

split_line_test : split_line (97 ∷ 32 ∷ 32 ∷ 98 ∷ []) ≡ some ((97 ∷ []) ∷ [] ∷ (98 ∷ []) ∷ [])
unfolding split_line split_loop index_of
split_line_test = refl

split_line_lem_example :
    (ps : List Text) × (split_line line ≡ some ps)
    × (joined ps ≡ line)
    × All (λ piece. All (λ c. c ≢ space) piece) ps
split_line_lem_example = split_line_lem line

tokens_lem_example :
    (ws : List Text) × (tokens stop_set line ≡ some ws)
    × (ws ≡ words stop_set (pieces line))
    × All (IsWord stop_set) ws
tokens_lem_example = tokens_lem stop_set line

-- both workers at work: the first pushes "cat", then all stop, and the second closes the queue
abbrev pub last : Shared
last = record {
  running = false;
  active = 0;
  closed = true;
  lines = [];
  pushed = (99 ∷ 97 ∷ 116 ∷ []) ∷ [] ∷ [];
  workers = finished ∷ finished ∷ [];
  stopper = joining;
}

next : {s s' : Shared} → Reachable stop_set s → Step stop_set s s' → Reachable stop_set s'
next {s} {s'} r step = after s s' r step

abbrev pub cat : Ilp
cat = record { filepath = 102 ∷ []; line = 99 ∷ 97 ∷ 116 ∷ [] }

pub tokens_cat : tokens stop_set cat.line ≡ some ((99 ∷ 97 ∷ 116 ∷ []) ∷ [])
unfolding tokens token_loop clean is_stop_word ci_equal index_of
tokens_cat = refl

pub cat-pill : cat ≢ pill
cat-pill e = let no_line : cat.line ≡ [] = ap (λ l. l.line) e in absurd (cc)

pushed_cat : Reachable stop_set (record start_state {
  lines = [];
  pushed = (99 ∷ 97 ∷ 116 ∷ []) ∷ [];
  workers = emitting [] ∷ testing ∷ [];
})
pushed_cat =
    next
      (next (next (next start (queue_line start_state cat)) (go_on _ 0 refl refl))
        (take_line _ 0 cat [] _ refl refl cat-pill tokens_cat))
      (emit _ 0 (99 ∷ 97 ∷ 116 ∷ []) [] refl)

pub last_reached : Reachable stop_set last
last_reached =
    next
      (next
        (next
          (next
            (next
              (next (next (next pushed_cat (next_round _ 0 refl)) (stop _)) (give_up _ 0 refl refl))
              (count_down _ 0 refl))
            (give_up _ 1 refl refl))
          (count_down _ 1 refl))
        (close _ 1 refl refl))
      (mark _ 1 refl)
