-- ===== src/Index.antt =====
-- searchengine/internal/store/store.cpp and searchengine/internal/engine/engine.cpp: the index from
-- words to documents, and the queries on it. The console and the threads are not modelled.
pub mod Queries
mod Tests
use becoming_an_elite_engine.Base.{
  text_eq, Bool, true, false, not, ◌||◌, Option, none, some, List, [], ◌∷◌, ◌++◌, map,
  if◌then◌else◌,
}
use becoming_an_elite_engine.Lexer.Text.{Text, to_lower}

-- `unordered_map`, as its pairs; each key is in one of them
abbrev pub Postings : Type 0
Postings = List (Text × List Text)

pub record Store : Type 0 where
  pub data_files : List Text
  pub search_index : Postings
  pub has_search_index : Bool

abbrev pub empty_store : Store
empty_store = record { data_files = []; search_index = []; has_search_index = false }

unfoldable pub is_empty : Postings → Bool
is_empty [] = true
is_empty (entry ∷ index) = false

unfoldable pub on_start : Store → Store
unfolding is_empty
on_start s =
    if is_empty s.search_index
    then record s { has_search_index = false }
    else record s { has_search_index = true }

unfoldable pub add_data_file : Store → Text → Store
add_data_file s path = record s { data_files = s.data_files ++ (path ∷ []) }

-- `searchIndex_[key].push_back(doc)`, which makes the entry if there is none
unfoldable pub push_posting : Postings → Text → Text → Postings
push_posting [] key doc = (key, doc ∷ []) ∷ []
push_posting ((k, docs) ∷ index) key doc =
    if text_eq k key
    then (k, docs ++ (doc ∷ [])) ∷ index
    else (k, docs) ∷ push_posting index key doc

unfoldable pub add_search_index : Store → Text → Text → Store
unfolding push_posting
add_search_index s key doc = record s { search_index = push_posting s.search_index key doc }

-- `index.find(query)`
unfoldable pub find_posting : Postings → Text → Option (List Text)
find_posting [] key = none
find_posting ((k, docs) ∷ index) key = if text_eq k key then some docs else find_posting index key

-- what `Search` logs below its heading: that there are no results, or the documents
pub data Report : Type 0 where
  no_results : Report
  results : List Text → Report

unfoldable pub search : Store → Text → Report
unfolding find_posting
search s query = elim (find_posting s.search_index (map to_lower query)) [
  | none ↦ no_results
  | some docs ↦ results docs
]

-- A round of `Engine::Run`: what `running_` holds before the prompt, the query, and what `running_`
-- holds after it. `none` is an engine that waits for a query when the rounds end.
unfoldable pub serve : Store → List (Bool × Text × Bool) → Option (List Report)
serve s [] = none
serve s ((false, query, still) ∷ rounds) = some []
serve s ((true, [], still) ∷ rounds) = some []
serve s ((true, c ∷ query, still) ∷ rounds) =
    let rest = serve s rounds in
    if not still
    then some []
    else elim rest [ none ↦ none | some reports ↦ some (search s (c ∷ query) ∷ reports) ]
