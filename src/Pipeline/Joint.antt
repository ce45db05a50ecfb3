-- ===== src/Pipeline/Joint.antt =====
-- What holds between the steps of the threads of the lexer and of the parser.
use becoming_an_elite_engine.Base.{
  text_order, ◌≡◌, ◌⊎◌, inl, inr, refl, ap, ◌∙◌, sym, ℕ, Bool, true, false, some, List, [], ◌∷◌,
  ◌++◌, arith, append_assoc, append-nil,
}
use becoming_an_elite_engine.Bst.{Tree}
use becoming_an_elite_engine.Lexer.Text.{Text}
use becoming_an_elite_engine.Lexer.Shutdown.{Shared, Step, Reachable, start, after}
use becoming_an_elite_engine.Parser.{Round, run_loop, run}
use becoming_an_elite_engine.Pipeline.Threads.{
  Place, at_test, at_pop, ended, StopCall, not_called, before_push, before_join, returned, System,
  Move, by_lexer, test_on, test_off, take_token, take_mark, clear_running, unblock, join, Runs,
  begin, and_then,
}

-- whether `Parser::OnStop` has pushed its empty string
abbrev pub unblocked : StopCall → Bool
unblocked not_called = false
unblocked before_push = false
unblocked before_join = true
unblocked returned = true

abbrev pub called : StopCall → Bool
called not_called = false
called before_push = true
called before_join = true
called returned = true

-- The queue was given what the lexer has pushed, with one empty string in between once the parser
-- was unblocked.
abbrev pub IsGiven : System → Type 0
IsGiven s =
    ((unblocked s.stop_call ≡ false) × (s.given ≡ s.lexer.pushed))
    ⊎ ((unblocked s.stop_call ≡ true)
        × (a : List Text) × (b : List Text) × (s.lexer.pushed ≡ a ++ b)
        × (s.given ≡ a ++ ([] ∷ b)))

-- what the rounds have taken from the queue
abbrev pub texts : List Round → List Text
texts [] = []
texts ((true, token) ∷ rounds) = token ∷ texts rounds
texts ((false, token) ∷ rounds) = texts rounds

-- The loop of the parser stands where `run` stands after the same rounds.
abbrev pub IsAt : Place → List Round → Tree Text → ℕ → Type 0
IsAt (ended o) taken tree indexed = run taken ≡ some (o, tree)
IsAt at_test taken tree indexed =
    (later : List Round) → run (taken ++ later) ≡ run_loop later tree indexed
IsAt at_pop taken tree indexed =
    (later : List Round) → run (taken ++ later) ≡ run_loop later tree indexed

texts-append : (xs ys : List Round) → texts (xs ++ ys) ≡ texts xs ++ texts ys
texts-append [] ys = refl
texts-append ((true, token) ∷ xs) ys = ap (λ l. token ∷ l) (texts-append xs ys)
texts-append ((false, token) ∷ xs) ys = texts-append xs ys

module _ (stop_set : List Text) where
  pub record IsJoint (s : System) : Type 0 where
    pub lexer : Reachable stop_set s.lexer
    pub given : IsGiven s
    pub flag : (called s.stop_call ≡ true) ⊎ (s.running ≡ true)
    pub order : s.given ≡ texts s.taken ++ s.queue
    pub loop : IsAt s.place s.taken s.tree s.indexed

  IsJoint-by_lexer :
      (s : System) (l : Shared) (new : List Text)
      → Step stop_set s.lexer l
      → l.pushed ≡ s.lexer.pushed ++ new
      → IsJoint s
      → IsJoint (record s { lexer = l; queue = s.queue ++ new; given = s.given ++ new })
  IsJoint-by_lexer s l new step more h = record {
    lexer = after s.lexer l h.lexer step;
    given = elim h.given [
      | inl (before, same) ↦ inl (before, ap (λ g. g ++ new) same ∙ sym more)
      | inr (behind, a, b, split, given) ↦ inr (
        behind,
        a,
        b ++ new,
        more ∙ ap (λ g. g ++ new) split ∙ append_assoc a b new,
        ap (λ g. g ++ new) given ∙ append_assoc a ([] ∷ b) new,
      )
    ];
    flag = h.flag;
    order = ap (λ g. g ++ new) h.order ∙ append_assoc (texts s.taken) s.queue new;
    loop = h.loop;
  }

  -- A token that is popped goes from the queue to the rounds.
  texts-next :
      (taken : List Round) (given queue : List Text) (token : Text) (rest : List Text)
      → given ≡ texts taken ++ queue
      → queue ≡ token ∷ rest
      → given ≡ texts (taken ++ ((true, token) ∷ [])) ++ rest
  texts-next taken given queue token rest order first =
      order
      ∙ ap (λ q. texts taken ++ q) first
      ∙ sym (append_assoc (texts taken) (token ∷ []) rest)
      ∙ ap (λ l. l ++ rest) (sym (texts-append taken ((true, token) ∷ [])))

  pub running_loop :
      (p : Place) (taken : List Round) (tree : Tree Text) (indexed : ℕ)
      → (p ≡ at_test) ⊎ (p ≡ at_pop)
      → IsAt p taken tree indexed
      → (later : List Round) → run (taken ++ later) ≡ run_loop later tree indexed
  running_loop at_test taken tree indexed at h = h
  running_loop at_pop taken tree indexed at h = h
  running_loop (ended o) taken tree indexed at h = absurd (ground (arith, at))

  IsJoint-Move : (s s' : System) → Move stop_set s s' → IsJoint s → IsJoint s'
  unfolding run_loop
  IsJoint-Move s s' (by_lexer _ l new step more) h = IsJoint-by_lexer s l new step more h
  IsJoint-Move s s' (test_on _ at on) h = record {
    lexer = h.lexer;
    given = h.given;
    flag = h.flag;
    order = h.order;
    loop = running_loop s.place s.taken s.tree s.indexed (inl at) h.loop;
  }
  IsJoint-Move s s' (test_off _ at off) h = record {
    lexer = h.lexer;
    given = h.given;
    flag = h.flag;
    order =
        h.order
        ∙ ap (λ l. l ++ s.queue)
            (sym (texts-append s.taken ((false, []) ∷ []) ∙ append-nil (texts s.taken)));
    loop = running_loop s.place s.taken s.tree s.indexed (inl at) h.loop ((false, []) ∷ []);
  }
  IsJoint-Move s s' (take_token _ c token rest at first) h = record {
    lexer = h.lexer;
    given = h.given;
    flag = h.flag;
    order = texts-next s.taken s.given s.queue (c ∷ token) rest h.order first;
    loop = λ later.
        ap run (append_assoc s.taken ((true, c ∷ token) ∷ []) later)
        ∙ running_loop s.place s.taken s.tree s.indexed (inr at) h.loop ((true, c ∷ token) ∷ later);
  }
  IsJoint-Move s s' (take_mark _ rest at first) h = record {
    lexer = h.lexer;
    given = h.given;
    flag = h.flag;
    order = texts-next s.taken s.given s.queue [] rest h.order first;
    loop = running_loop s.place s.taken s.tree s.indexed (inr at) h.loop ((true, []) ∷ []);
  }
  IsJoint-Move s s' (clear_running _ first) h = record {
    lexer = h.lexer;
    given = ground (arith, h.given, first);
    flag = inl refl;
    order = h.order;
    loop = h.loop;
  }
  IsJoint-Move s s' (unblock _ next) h = record {
    lexer = h.lexer;
    given =
        let same : s.given ≡ s.lexer.pushed = ground (arith, h.given, next) in
        inr (
          refl,
          s.lexer.pushed,
          [],
          sym (append-nil s.lexer.pushed),
          ap (λ g. g ++ ([] ∷ [])) same,
        );
    flag = inl refl;
    order = ap (λ g. g ++ ([] ∷ [])) h.order ∙ append_assoc (texts s.taken) s.queue ([] ∷ []);
    loop = h.loop;
  }
  IsJoint-Move s s' (join _ o next at) h = record {
    lexer = h.lexer;
    given = ground (arith, h.given, next);
    flag = inl refl;
    order = h.order;
    loop = h.loop;
  }

  pub joint : (s : System) → Runs stop_set s → IsJoint s
  unfolding run
  joint s begin = record {
    lexer = start;
    given = inl (refl, refl);
    flag = inr refl;
    order = refl;
    loop = λ later. refl;
  }
  joint s (and_then s0 _ r move) = IsJoint-Move s0 s move (joint s0 r)
