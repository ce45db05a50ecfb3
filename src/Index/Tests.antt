-- ===== src/Index/Tests.antt =====
-- A store of two documents, and the theorems at it.
use becoming_an_elite_engine.Base.{
  text_eq, ◌≡◌, refl, true, some, [], ◌∷◌, ◌++◌, map, if◌then◌else◌,
}
use becoming_an_elite_engine.Lexer.Text.{Text, to_lower, ci_equal}
use becoming_an_elite_engine.Index.{
  Store, empty_store, push_posting, find_posting, add_search_index, add_data_file, on_start,
  is_empty, no_results, results, search, serve,
}
use becoming_an_elite_engine.Index.Queries.{documents, search-add_search_index, search-ci_equal}

-- "ab", "Ab"
abbrev word : Text
word = 97 ∷ 98 ∷ []

abbrev query : Text
query = 65 ∷ 98 ∷ []

-- the documents "d" and "e" under "ab"
abbrev filled : Store
filled = on_start (
    add_search_index (add_search_index (add_data_file empty_store (100 ∷ [])) word (100 ∷ [])) word
      (101 ∷ []))

serve_test :
    serve filled ((true, query, true) ∷ (true, 120 ∷ [], true) ∷ (true, [], true) ∷ [])
    ≡ some (results ((100 ∷ []) ∷ (101 ∷ []) ∷ []) ∷ no_results ∷ [])
unfolding serve search find_posting push_posting add_search_index on_start is_empty add_data_file
serve_test = refl

search-add_search_index_example :
    documents (search (add_search_index filled word (102 ∷ [])) query) ≡ (
      if text_eq word (map to_lower query)
      then documents (search filled query) ++ ((102 ∷ []) ∷ [])
      else documents (search filled query))
search-add_search_index_example = search-add_search_index filled word (102 ∷ []) query

same_letters : ci_equal query word ≡ true
unfolding ci_equal
same_letters = refl

search-ci_equal_example : search filled query ≡ search filled word
search-ci_equal_example = search-ci_equal filled query word same_letters
