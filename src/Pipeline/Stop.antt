-- ===== src/Pipeline/Stop.antt =====
-- When the promise of the parser is fulfilled, with `Parser::OnStop` at any time.
use becoming_an_elite_engine.Base.{
  text_order, ℕ, zero, suc, ◌^◌, ◌<◌, ◌≤◌, ◌≡◌, ◌≢◌, ◌⊎◌, inl, inr, refl, ap, ◌∙◌, sym, subst, true,
  List, [], ◌∷◌, ◌++◌, length, arith, All,
}
use becoming_an_elite_engine.Lexer.Text.{Text}
use becoming_an_elite_engine.Lexer.Split.{IsWord}
use becoming_an_elite_engine.Lexer.Sound.{IsStream}
use becoming_an_elite_engine.Parser.{Round, fulfilled}
use becoming_an_elite_engine.Parser.Stream.{rounds, end_of_stream, run-fulfilled}
use becoming_an_elite_engine.Pipeline.Threads.{System, ended, Runs}
use becoming_an_elite_engine.Pipeline.Joint.{unblocked, texts}
use becoming_an_elite_engine.Pipeline.Given.{given-Runs, run-Runs}

texts-rounds :
    (tokens : List Text) (later : List Round) (queue : List Text)
    → texts (rounds tokens ++ (end_of_stream ∷ later)) ++ queue
      ≡ tokens ++ ([] ∷ (texts later ++ queue))
texts-rounds [] later queue = refl
texts-rounds (t ∷ tokens) later queue = ap (λ l. t ∷ l) (texts-rounds tokens later queue)

abbrev AreTokens : List Text → Type 0
AreTokens tokens = All (λ token. token ≢ []) tokens

-- An empty string behind tokens is the first one, wherever the other list has an empty string.
first_mark :
    (tokens rest a b : List Text)
    → AreTokens tokens
    → tokens ++ ([] ∷ rest) ≡ a ++ ([] ∷ b)
    → (c : List Text) × (a ++ b ≡ tokens ++ c)
first_mark [] rest a b full e = (a ++ b, refl)
first_mark (t ∷ tokens) rest [] b full e = absurd (full.0 (cc))
first_mark (t ∷ tokens) rest (x ∷ a) b full e =
    let tails : tokens ++ ([] ∷ rest) ≡ a ++ ([] ∷ b) = cc in
    let (c, split) = first_mark tokens rest a b full.1 tails in (c, cc)

no_mark : (P : Text → Type 0) (tokens rest : List Text) → ¬ P [] → ¬ All P (tokens ++ ([] ∷ rest))
no_mark P [] rest not h = not h.0
no_mark P (t ∷ tokens) rest not h = no_mark P tokens rest not h.1

-- words and a mark at the end of the list: the first mark is that one
last_mark :
    (P : Text → Type 0) (tokens rest words : List Text)
    → ¬ P []
    → All P words
    → tokens ++ ([] ∷ rest) ≡ words ++ ([] ∷ [])
    → rest ≡ []
last_mark P [] rest [] not h e = cc
last_mark P [] rest (w ∷ words) not h e =
    let first : w ≡ [] = cc in absurd (not (subst P first h.0))
last_mark P (t ∷ []) rest [] not h e = absurd (cc)
last_mark P (t ∷ u ∷ tokens) rest [] not h e = absurd (cc)
last_mark P (t ∷ tokens) rest (w ∷ words) not h e = last_mark P tokens rest words not h.1 (cc)

module _ (stop_set : List Text) where
  stream_mark :
      (tokens rest : List Text) (n : ℕ)
      → n ≤ 1
      → IsStream stop_set (tokens ++ ([] ∷ rest)) n
      → rest ≡ []
  stream_mark tokens rest zero few h =
      absurd (no_mark (IsWord stop_set) tokens rest (λ w. w.0 refl) h)
  stream_mark tokens rest (suc zero) few (ws, split, words) =
      last_mark (IsWord stop_set) tokens rest ws (λ w. w.0 refl) words split
  stream_mark tokens rest (suc (suc n)) few h = absurd (omega arith)

  -- Whenever the threads can reach a state in which the promise has a number, after fewer than 2 ^ 64
  -- rounds, the number is that of the tokens of the parser, none of them empty, with which what the
  -- lexer has pushed begins. Either they are all its words, and its mark follows as the last of its
  -- pushes; or `Parser::OnStop` has pushed its empty string, and any more words may follow.
  pub fulfilled-Runs :
      (s : System) (n : ℕ)
      → Runs stop_set s
      → s.place ≡ ended (fulfilled n)
      → length s.taken < 2 ^ 64
      → (tokens : List Text) × All (λ token. token ≢ []) tokens
        × (n ≡ length tokens)
        × ((s.lexer.pushed ≡ tokens ++ ([] ∷ []))
            ⊎ ((unblocked s.stop_call ≡ true)
                × (more : List Text) × (s.lexer.pushed ≡ tokens ++ more)))
  fulfilled-Runs s n r at small =
      let (order, ran) = run-Runs stop_set s (fulfilled n) r at in
      let (tokens, later, split, full, count) = run-fulfilled s.taken n s.tree small ran in
      let ((marks, stream, few, _), given) = given-Runs stop_set s r in
      let rest = texts later ++ s.queue in
      let parts : s.given ≡ tokens ++ ([] ∷ rest) =
        order ∙ ap (λ l. texts l ++ s.queue) split ∙ texts-rounds tokens later s.queue in
      (
        tokens,
        full,
        count,
        elim given [
          | inl (_, same) ↦
              let pushed : s.lexer.pushed ≡ tokens ++ ([] ∷ rest) = sym same ∙ parts in
              let none_left =
                stream_mark tokens rest marks few
                  (subst (λ l. IsStream stop_set l marks) pushed stream) in
              inl (pushed ∙ ap (λ l. tokens ++ ([] ∷ l)) none_left)
          | inr (behind, a, b, halves, given) ↦
              let (more, same) = first_mark tokens rest a b full (sym parts ∙ given) in
              inr (behind, more, halves ∙ same)
        ],
      )
