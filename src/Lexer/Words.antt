-- ===== src/Lexer/Words.antt =====
-- `splitLine`, and the loop of `Worker` over a line. Each round moves `start` on, so one more round
-- than the line has bytes is enough.
use becoming_an_elite_engine.Base.{
  ℕ, zero, suc, ◌+◌, ◌-◌, not, Option, none, some, List, [], ◌∷◌, ◌++◌, length, leb, if◌then◌else◌,
}
use becoming_an_elite_engine.Lexer.Text.{Text, find, substr, substr_from, is_stop_word, clean}

abbrev pub space : ℕ
space = 32

unfoldable pub split_loop : ℕ → Text → ℕ → Option ℕ → List Text → Option (List Text)
split_loop zero line start end result = none
split_loop (suc fuel) line start none result = elim (substr_from line start) [
  | none ↦ none
  | some piece ↦ some (result ++ (piece ∷ []))
]
split_loop (suc fuel) line start (some end) result = elim (substr line start (end - start)) [
  | none ↦ none
  | some piece ↦ split_loop fuel line (end + 1) (find line space (end + 1)) (result ++ (piece ∷ []))
]

unfoldable pub split_line : Text → Option (List Text)
unfolding split_loop
split_line line = split_loop (length line + 1) line 0 (find line space 0) []

-- what is pushed to the parser for a token: nothing for an empty one or a stop word
abbrev pub emitted : List Text → Text → List Text
emitted stop_set [] = []
emitted stop_set (b ∷ word) = if is_stop_word stop_set (b ∷ word) then [] else (b ∷ word) ∷ []

unfoldable pub token_loop : List Text → ℕ → Text → ℕ → List Text → Option (List Text)
token_loop stop_set zero line start pushed = none
token_loop stop_set (suc fuel) line start pushed =
    if not (leb start (length line)) then some pushed else elim (find line space start) [
      | none ↦ elim (substr line start (length line - start)) [
        | none ↦ none
        | some token ↦ some (pushed ++ emitted stop_set (clean token))
      ]
      | some sep ↦ elim (substr line start (sep - start)) [
        | none ↦ none
        | some token ↦
            token_loop stop_set fuel line (sep + 1) (pushed ++ emitted stop_set (clean token))
      ]
    ]

-- the tokens that a worker pushes for a line
unfoldable pub tokens : List Text → Text → Option (List Text)
unfolding token_loop
tokens stop_set line = token_loop stop_set (length line + 1) line 0 []
