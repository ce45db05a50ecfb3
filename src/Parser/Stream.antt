-- ===== src/Parser/Stream.antt =====
-- What the parser makes of a stream of tokens.
use becoming_an_elite_engine.Base.{
  text_order, ℕ, suc, ◌+◌, ◌%◌, ◌^◌, ◌<◌, ◌≡◌, ◌≢◌, refl, ap, true, false, Option, none, some, List,
  [], ◌∷◌, ◌++◌, length, ◌==◌, if◌then◌else◌, arith, All, contains,
}
use becoming_an_elite_engine.Bst.{Tree, null, recurse_insertion, recurse_search, traverse_in_order}
use becoming_an_elite_engine.Bst.Laws.{value, IsOrdered, search-insertion}
use becoming_an_elite_engine.Lexer.Text.{Text}
use becoming_an_elite_engine.Parser.{fulfilled, failed, Round, run_loop, run}

-- tokens that come while the parser runs, and the mark after the last of them
abbrev pub rounds : List Text → List Round
rounds [] = []
rounds (token ∷ tokens) = (true, token) ∷ rounds tokens

abbrev pub end_of_stream : Round
end_of_stream = (true, [])

-- the tree that the tokens build
abbrev grown : Tree Text → List Text → Tree Text
grown t [] = t
grown t (token ∷ tokens) = grown (recurse_insertion t token) tokens

abbrev finds : Tree Text → Text → Option Text
finds t w = value (recurse_search t w)

grown-search :
    (t : Tree Text) (tokens : List Text) (w : Text)
    → IsOrdered t
    → IsOrdered (grown t tokens)
      × (finds (grown t tokens) w ≡ (if contains w tokens then some w else finds t w))
unfolding contains
grown-search t [] w h = (h, refl)
grown-search t (token ∷ tokens) w h =
    let (ordered, one) = search-insertion t token w h in
    let (ordered', rest) = grown-search (recurse_insertion t token) tokens w ordered in
    (ordered', ground (arith, one, rest, text_order.eq_iff w token, text_order.eq_iff token w))

run_loop-drained :
    (tokens : List Text) (later : List Round) (t : Tree Text) (n : ℕ)
    → All (λ token. token ≢ []) tokens
    → n + length tokens < 2 ^ 64
    → run_loop (rounds tokens ++ (end_of_stream ∷ later)) t n
      ≡ some
          (if n + length tokens == 0 then failed else fulfilled (n + length tokens), grown t tokens)
unfolding run_loop
run_loop-drained [] later t n h small = ground arith
run_loop-drained ([] ∷ tokens) later t n h small = absurd (h.0 refl)
run_loop-drained ((c ∷ token) ∷ tokens) later t n h small = ground (
  arith,
  run_loop-drained tokens later (recurse_insertion t (c ∷ token)) (n + 1) h.1 (omega arith),
)

-- If the mark of the end follows fewer than 2 ^ 64 tokens, none of them empty, all taken while the
-- parser runs, then the promise gets their number, or the error if there is none; and the tree is
-- ordered and finds exactly these tokens. What comes later does not count.
pub run-drained :
    (tokens : List Text) (later : List Round) (w : Text)
    → All (λ token. token ≢ []) tokens
    → length tokens < 2 ^ 64
    → (t : Tree Text) × (run (rounds tokens ++ (end_of_stream ∷ later))
        ≡ some (if length tokens == 0 then failed else fulfilled (length tokens), t))
      × IsOrdered t
      × (value (recurse_search t w) ≡ (if contains w tokens then some w else none))
unfolding run traverse_in_order recurse_search
run-drained tokens later w h small =
    let (ordered, found) = grown-search null tokens w tt in
    (
      grown null tokens,
      ground (arith, run_loop-drained tokens later null 0 h (omega arith)),
      ordered,
      found,
    )

-- rounds that begin with tokens and the mark of the end, the count being `n`
abbrev IsDrained : List Round → ℕ → Type 0
IsDrained rs n =
    (tokens : List Text) × (later : List Round) × (rs ≡ rounds tokens ++ (end_of_stream ∷ later))
    × All (λ token. token ≢ []) tokens
    × (n ≡ length tokens)

run_loop-fulfilled :
    (rs : List Round) (t t' : Tree Text) (m n : ℕ)
    → m + length rs < 2 ^ 64
    → run_loop rs t m ≡ some (fulfilled n, t')
    → (k : ℕ) × IsDrained rs k × (n ≡ m + k)
unfolding run_loop
run_loop-fulfilled [] t t' m n small h = absurd (ground arith)
run_loop-fulfilled ((false, token) ∷ rs) t t' m n small h = absurd (ground arith)
run_loop-fulfilled ((true, []) ∷ rs) t t' m n small h = (0, ([], rs, refl, tt, refl), ground arith)
run_loop-fulfilled ((true, c ∷ token) ∷ rs) t t' m n small h =
    let next : (m + 1) % 2 ^ 64 ≡ m + 1 = omega arith in
    let (k, (tokens, later, split, full, count), sum) =
      run_loop-fulfilled rs (recurse_insertion t (c ∷ token)) t' (m + 1) n (omega arith)
        (ground (arith, h, next)) in
    (
      suc k,
      (
        (c ∷ token) ∷ tokens,
        later,
        ap (λ l. (true, c ∷ token) ∷ l) split,
        ((λ e. absurd (cc)), full),
        omega (arith, count),
      ),
      omega (arith, sum),
    )

-- Whenever the promise gets a number in fewer than 2 ^ 64 rounds, these began with that many tokens,
-- none of them empty, and an empty string, each taken after a test that found the parser running. A
-- round that finds the flag cleared before the empty string never lets the promise have a number.
pub run-fulfilled :
    (rs : List Round) (n : ℕ) (t : Tree Text)
    → length rs < 2 ^ 64
    → run rs ≡ some (fulfilled n, t)
    → (tokens : List Text) × (later : List Round) × (rs ≡ rounds tokens ++ (end_of_stream ∷ later))
      × All (λ token. token ≢ []) tokens
      × (n ≡ length tokens)
unfolding run
run-fulfilled rs n t small h =
    let (k, (tokens, later, split, full, count), sum) =
      run_loop-fulfilled rs null t 0 n (omega arith) h in
    (tokens, later, split, full, omega (arith, sum, count))
