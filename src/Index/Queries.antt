-- ===== src/Index/Queries.antt =====
-- What a query finds after documents were added, and that it does not look at capitals.
use becoming_an_elite_engine.Base.{
  text_eq, text_eq_iff, ◌≡◌, refl, ◌∙◌, true, Option, none, some, List, [], ◌∷◌, ◌++◌, map,
  if◌then◌else◌, arith, ==_iff,
}
use becoming_an_elite_engine.Lexer.Text.{Text, to_lower, ci_equal}
use becoming_an_elite_engine.Index.{
  Postings, Store, push_posting, find_posting, add_search_index, Report, no_results, results,
  search,
}

-- the documents of a report
abbrev pub documents : Report → List Text
documents no_results = []
documents (results docs) = docs

abbrev docs_of : Option (List Text) → List Text
docs_of none = []
docs_of (some docs) = docs

find-push :
    (index : Postings) (key doc word : Text)
    → find_posting (push_posting index key doc) word ≡ (
        if text_eq key word
        then some (docs_of (find_posting index word) ++ (doc ∷ []))
        else find_posting index word)
unfolding find_posting push_posting
find-push [] key doc word = ground arith
find-push ((k, docs) ∷ index) key doc word = ground (
  arith,
  find-push index key doc word,
  text_eq_iff k key,
  text_eq_iff k word,
  text_eq_iff key word,
)

documents-search :
    (s : Store) (query : Text)
    → documents (search s query) ≡ docs_of (find_posting s.search_index (map to_lower query))
unfolding search
documents-search s query = ground arith

-- After `AddSearchIndex`, `Search` logs the new document behind those that it logged before if the
-- key is the query in small letters, and the same documents as before if it is not.
pub search-add_search_index :
    (s : Store) (key doc query : Text)
    → documents (search (add_search_index s key doc) query) ≡ (
        if text_eq key (map to_lower query)
        then documents (search s query) ++ (doc ∷ [])
        else documents (search s query))
unfolding add_search_index
search-add_search_index s key doc query =
    documents-search (add_search_index s key doc) query
    ∙ ground
        (arith, find-push s.search_index key doc (map to_lower query), documents-search s query)

lower-ci_equal : (a b : Text) → ci_equal a b ≡ true → map to_lower a ≡ map to_lower b
unfolding ci_equal
lower-ci_equal [] [] h = refl
lower-ci_equal [] (c ∷ b) h = absurd (cc)
lower-ci_equal (x ∷ a) [] h = absurd (cc)
lower-ci_equal (x ∷ a) (y ∷ b) h =
    ground (arith, lower-ci_equal a b, ==_iff (to_lower x) (to_lower y))

-- Two queries that differ in capitals only, as the table of stop words compares, get the same
-- report.
pub search-ci_equal : (s : Store) (a b : Text) → ci_equal a b ≡ true → search s a ≡ search s b
unfolding search
search-ci_equal s a b h = ground (arith, lower-ci_equal a b h)
