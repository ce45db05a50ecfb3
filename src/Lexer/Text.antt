-- ===== src/Lexer/Text.antt =====
-- Text as the program sees it: the bytes of a `std::string`, with the calls of <string_view> and
-- <cctype> that the lexer makes (in the "C" locale), and the look-up of stop words.
use becoming_an_elite_engine.Base.{
  ℕ, ◌+◌, Bool, true, false, not, ◌&&◌, ◌||◌, Option, none, some, List, [], ◌∷◌, length, take, drop,
  leb, ltb, ◌==◌, if◌then◌else◌,
}

abbrev pub Text : Type 0
Text = List ℕ

abbrev pub between : ℕ → ℕ → ℕ → Bool
between low high b = leb low b && leb b high

-- `std::isspace`, `std::ispunct` and `std::tolower`
abbrev pub is_space : ℕ → Bool
is_space b = (b == 32) || between 9 13 b

abbrev pub is_punct : ℕ → Bool
is_punct b = between 33 47 b || between 58 64 b || between 91 96 b || between 123 126 b

abbrev pub to_lower : ℕ → ℕ
to_lower b = if between 65 90 b then b + 32 else b

-- the position of the first byte `b`; `none` is `npos`
unfoldable pub index_of : ℕ → Text → Option ℕ
index_of b [] = none
index_of b (c ∷ text) =
    if c == b then some 0 else elim (index_of b text) [ none ↦ none | some i ↦ some (i + 1) ]

-- `text.find(b, start)`
abbrev pub find : Text → ℕ → ℕ → Option ℕ
find text b start = elim (index_of b (drop start text)) [ none ↦ none | some i ↦ some (start + i) ]

-- `text.substr(start, count)` and `text.substr(start)`; `none` is the exception `out_of_range`
abbrev pub substr : Text → ℕ → ℕ → Option Text
substr text start count =
    if ltb (length text) start then none else some (take count (drop start text))

abbrev pub substr_from : Text → ℕ → Option Text
substr_from text start = if ltb (length text) start then none else some (drop start text)

-- `ci_equal`
unfoldable pub ci_equal : Text → Text → Bool
ci_equal [] [] = true
ci_equal [] (c ∷ rhs) = false
ci_equal (b ∷ lhs) [] = false
ci_equal (b ∷ lhs) (c ∷ rhs) = (to_lower b == to_lower c) && ci_equal lhs rhs

-- `isStopWord`, on the words of the table `stop_set`
unfoldable pub is_stop_word : List Text → Text → Bool
is_stop_word stop_set [] = false
is_stop_word [] (b ∷ word) = false
is_stop_word (stop ∷ stop_set) (b ∷ word) =
    ci_equal (b ∷ word) stop || is_stop_word stop_set (b ∷ word)

-- the loop of `Worker` over the bytes of a token
unfoldable pub clean : Text → Text
clean [] = []
clean (c ∷ token) =
    if not (is_space c) && not (is_punct c) then to_lower c ∷ clean token else clean token
