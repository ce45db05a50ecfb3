-- ===== src/Lexer/Split.antt =====
-- Both loops cut a line at its spaces, and the worker keeps the words that it should.
use becoming_an_elite_engine.Base.{
  ℕ, zero, suc, ◌+◌, ◌-◌, ◌<◌, ◌≤◌, ◌≡◌, ◌≢◌, refl, ap, ◌∙◌, sym, false, none, some, List, [], ◌∷◌,
  ◌++◌, append-nil, append_assoc, length, take, drop, All, ◌==◌, if◌then◌else◌, arith, Option-cases,
  length-drop, All-append, Bool-cases, inl, inr,
}
use becoming_an_elite_engine.Lexer.Text.{
  Text, index_of, find, is_space, is_punct, to_lower, is_stop_word, clean,
}
use becoming_an_elite_engine.Lexer.Words.{
  space, split_loop, split_line, emitted, token_loop, tokens,
}

-- the pieces of a text between the spaces, by recursion on the text
abbrev pub pieces : Text → List Text
pieces [] = [] ∷ []
pieces (c ∷ text) =
    let rest = pieces text in
    if c == space
    then [] ∷ rest
    else elim rest [ [] ↦ (c ∷ []) ∷ [] | piece ∷ more ↦ (c ∷ piece) ∷ more ]

-- the text that has these pieces
abbrev pub joined : List Text → Text
joined [] = []
joined (piece ∷ []) = piece
joined (piece ∷ next ∷ more) = piece ++ (space ∷ joined (next ∷ more))

pieces_exist : (text : Text) → (piece : Text) × (more : List Text) × (pieces text ≡ piece ∷ more)
pieces_exist [] = ([], [], refl)
pieces_exist (c ∷ text) =
    let (piece, more, e) = pieces_exist text in
    elim (Bool-cases (c == space)) [
      | inl h ↦ ([], pieces text, ground (arith, h))
      | inr h ↦ (c ∷ piece, more, ground (arith, h, e))
    ]

joined-pieces : (text : Text) → joined (pieces text) ≡ text
joined-pieces [] = refl
joined-pieces (c ∷ text) =
    let (piece, more, e) = pieces_exist text in ground (arith, e, joined-pieces text)

spaceless : (text : Text) → All (λ piece. All (λ c. c ≢ space) piece) (pieces text)
spaceless [] = (tt, tt)
spaceless (c ∷ text) = let (piece, more, e) = pieces_exist text in ground (arith, e, spaceless text)

-- where the first space is, the first piece ends
pieces-index_of-none : (text : Text) → index_of space text ≡ none → pieces text ≡ text ∷ []
unfolding index_of
pieces-index_of-none [] h = refl
pieces-index_of-none (c ∷ text) h = ground (arith, pieces-index_of-none text)

pieces-index_of :
    (text : Text) (i : ℕ)
    → index_of space text ≡ some i
    → (pieces text ≡ take i text ∷ pieces (drop (suc i) text)) × (i < length text)
unfolding index_of
pieces-index_of [] i h = absurd (cc)
pieces-index_of (c ∷ text) zero h = (ground arith, omega arith)
pieces-index_of (c ∷ text) (suc i) h = elim (Option-cases (index_of space text)) [
  | inl none_left ↦ absurd (ground arith)
  | inr (j, e) ↦
      (let same : j ≡ i = ground arith in
        ground (arith, same, pieces-index_of text i (e ∙ ap some same)))
]

drop-add {ℓ} : {A : Type ℓ} (n m : ℕ) (xs : List A) → drop (n + m) xs ≡ drop m (drop n xs)
drop-add zero m xs = ap (λ k. drop k xs) (let zero_add : 0 + m ≡ m = omega arith in zero_add)
drop-add (suc n) zero [] = ground arith
drop-add (suc n) (suc m) [] =
    ap (λ k. drop k []) (let moved : suc n + suc m ≡ suc (n + suc m) = omega arith in moved)
drop-add (suc n) m (x ∷ xs) =
    ap (λ k. drop k (x ∷ xs)) (let moved : suc n + m ≡ suc (n + m) = omega arith in moved)
    ∙ drop-add n m xs

drop-suc : (n i : ℕ) (text : Text) → drop (n + i + 1) text ≡ drop (suc i) (drop n text)
drop-suc n i text =
    ap (λ k. drop k text) (let moved : n + i + 1 ≡ n + suc i = omega arith in moved)
    ∙ drop-add n (suc i) text

-- One word at a time, `splitLine` cuts what is left of the line.
split_loop-pieces :
    (fuel : ℕ) (line : Text) (start : ℕ) (result : List Text)
    → start ≤ length line
    → length line - start < fuel
    → split_loop fuel line start (find line space start) result
      ≡ some (result ++ pieces (drop start line))
unfolding split_loop
split_loop-pieces zero line start result h enough = absurd (omega arith)
split_loop-pieces (suc fuel) line start result h enough =
    elim (Option-cases (index_of space (drop start line))) [
      | inl none_left ↦ ground (arith, none_left, pieces-index_of-none (drop start line) none_left)
      | inr (i, e) ↦
          let rest = drop start line in
          let (cut, inside) = pieces-index_of rest i e in
          let inner : start + i + 1 ≤ length line = omega (arith, length-drop start line) in
          let count : start + i - start ≡ i = omega arith in
          ground (
            arith,
            e,
            count,
            cut,
            drop-suc start i line,
            append_assoc result (take i rest ∷ []) (pieces (drop (suc i) rest)),
            split_loop-pieces fuel line (start + i + 1) (result ++ (take i rest ∷ [])) inner
                (omega arith),
          )
    ]

-- `splitLine` returns, for every line, the pieces between its spaces: none of them has a space, and
-- put together with one space between neighbours they are the line.
pub split_line_lem :
    (line : Text)
    → (ps : List Text) × (split_line line ≡ some ps)
      × (joined ps ≡ line)
      × All (λ piece. All (λ c. c ≢ space) piece) ps
unfolding split_line
split_line_lem line = (
  pieces line,
  split_loop-pieces (length line + 1) line 0 [] (omega arith) (omega arith),
  joined-pieces line,
  spaceless line,
)

take-length {ℓ} : {A : Type ℓ} (xs : List A) → take (length xs) xs ≡ xs
take-length [] = refl
take-length (x ∷ xs) = ap (λ l. x ∷ l) (take-length xs)

-- A word of the index is not empty, has neither spaces nor punctuation nor capitals, and is no
-- stop word.
abbrev pub IsPlain : ℕ → Type 0
IsPlain c = (is_space c ≡ false) × (is_punct c ≡ false) × (to_lower c ≡ c)

abbrev pub IsWord : List Text → Text → Type 0
IsWord stop_set word = (word ≢ []) × All IsPlain word × (is_stop_word stop_set word ≡ false)

module _ (stop_set : List Text) where
  -- the words of some pieces
  abbrev pub words : List Text → List Text
  words [] = []
  words (piece ∷ more) = emitted stop_set (clean piece) ++ words more

  token_loop-words :
      (fuel : ℕ) (line : Text) (start : ℕ) (pushed : List Text)
      → start ≤ length line
      → length line - start < fuel
      → token_loop stop_set fuel line start pushed
        ≡ some (pushed ++ words (pieces (drop start line)))
  unfolding token_loop
  token_loop-words zero line start pushed h enough = absurd (omega arith)
  token_loop-words (suc fuel) line start pushed h enough =
      let rest = drop start line in
      elim (Option-cases (index_of space rest)) [
        | inl none_left ↦
            let whole : take (length line - start) rest ≡ rest =
              ap (λ k. take k rest) (sym (length-drop start line)) ∙ take-length rest in
            ground (
              arith,
              none_left,
              whole,
              pieces-index_of-none rest none_left,
              append-nil (emitted stop_set (clean rest)),
            )
        | inr (i, e) ↦
            let (cut, inside) = pieces-index_of rest i e in
            let inner : start + i + 1 ≤ length line = omega (arith, length-drop start line) in
            let count : start + i - start ≡ i = omega arith in
            let found = emitted stop_set (clean (take i rest)) in
            ground (
              arith,
              e,
              count,
              cut,
              drop-suc start i line,
              append_assoc pushed found (words (pieces (drop (suc i) rest))),
              token_loop-words fuel line (start + i + 1) (pushed ++ found) inner (omega arith),
            )
      ]

  clean-IsPlain : (token : Text) → All IsPlain (clean token)
  unfolding clean
  clean-IsPlain [] = tt
  clean-IsPlain (c ∷ token) = ground (arith, clean-IsPlain token)

  emitted-IsWord : (word : Text) → All IsPlain word → All (IsWord stop_set) (emitted stop_set word)
  emitted-IsWord [] h = tt
  emitted-IsWord (b ∷ word) h = elim (Bool-cases (is_stop_word stop_set (b ∷ word))) [
    | inl stop ↦ rw stop tt
    | inr fine ↦ rw fine (((λ e. absurd (cc)), h, fine), tt)
  ]

  words-IsWord : (ps : List Text) → All (IsWord stop_set) (words ps)
  words-IsWord [] = tt
  words-IsWord (piece ∷ ps) =
      All-append _ (emitted stop_set (clean piece)) (words ps)
        (emitted-IsWord (clean piece) (clean-IsPlain piece)) (words-IsWord ps)

  -- For every line, a worker pushes the cleaned pieces between the line's spaces, in their order
  -- and without the empty ones and the stop words; so all that it pushes are words, none of them
  -- the empty string, which marks the end of the stream.
  pub tokens_lem :
      (line : Text)
      → (ws : List Text) × (tokens stop_set line ≡ some ws)
        × (ws ≡ words (pieces line))
        × All (IsWord stop_set) ws
  unfolding tokens
  tokens_lem line = (
    words (pieces line),
    token_loop-words (length line + 1) line 0 [] (omega arith) (omega arith),
    refl,
    words-IsWord (pieces line),
  )
