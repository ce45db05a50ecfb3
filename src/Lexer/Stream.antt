-- ===== src/Lexer/Stream.antt =====
-- Whatever the order of the steps of the lexer's threads, they push words, and then one mark.
use becoming_an_elite_engine.Base.{
  ℕ, suc, ◌-◌, ◌≤◌, ◌≡◌, ◌⊎◌, inl, inr, refl, subst, true, false, some, List, [], ◌∷◌, ◌++◌, All,
  All-append, All-get_elem?, get_elem?, ◌==◌, if◌then◌else◌, arith, Bool-cases,
}
use becoming_an_elite_engine.Lexer.Text.{Text}
use becoming_an_elite_engine.Lexer.Split.{IsWord, tokens_lem}
use becoming_an_elite_engine.Lexer.Shutdown.{
  Worker, testing, waiting, emitting, leaving, closing, marking, finished, Shared, all_finished,
  move, Step, go_on, give_up, take_pill, take_line, emit, next_round, count_down, close,
  closed_already, mark, queue_line, stop, stop_close, stop_closed_already, stop_mark, Reachable,
  start, after,
}
use becoming_an_elite_engine.Lexer.Sound.{
  is_active, is_closing, is_marking, flag, total, total-set, WordsLeft, IsStream, IsSound, All-set,
  IsSound-lines, IsSound-move, open_stream,
}

module _ (stop_set : List Text) where
  finished-total :
      (ws : List Worker)
      → all_finished ws ≡ true
      → (total is_active ws ≡ 0) × (total is_closing ws ≡ 0) × (total is_marking ws ≡ 0)
  finished-total [] h = (refl, refl, refl)
  finished-total (finished ∷ ws) h = ground (arith, finished-total ws h)
  finished-total (testing ∷ ws) h = absurd (cc)
  finished-total (waiting ∷ ws) h = absurd (cc)
  finished-total (emitting ts ∷ ws) h = absurd (cc)
  finished-total (leaving ∷ ws) h = absurd (cc)
  finished-total (closing ∷ ws) h = absurd (cc)
  finished-total (marking ∷ ws) h = absurd (cc)

  IsSound-emit :
      (s : Shared) (i : ℕ) (t : Text) (ts : List Text)
      → IsSound stop_set s
      → get_elem? s.workers i ≡ some (emitting (t ∷ ts))
      → IsSound stop_set (record (move s i (emitting ts)) { pushed = s.pushed ++ (t ∷ []) })
  IsSound-emit s i t ts h e =
      let moved =
        IsSound-move stop_set s i (emitting (t ∷ ts)) (emitting ts) h e refl refl refl
          (All-get_elem? (WordsLeft stop_set) s.workers i h.left e).1 in
      let (flag_down, none_closing, fresh) =
        open_stream stop_set s i (emitting (t ∷ ts)) h e refl in
      record {
        counted = moved.counted;
        quiet = moved.quiet;
        pending = moved.pending;
        marks = 0;
        marked = omega (arith, moved.marked, flag_down);
        idle = moved.idle;
        stream =
            All-append _ s.pushed (t ∷ []) fresh
              ((All-get_elem? (WordsLeft stop_set) s.workers i h.left e).0, tt);
        left = moved.left;
      }

  IsSound-count_down :
      (s : Shared) (i : ℕ)
      → IsSound stop_set s
      → get_elem? s.workers i ≡ some leaving
      → IsSound stop_set (record (move s i (if s.active == 1 then closing else finished)) {
        active = s.active - 1;
      })
  IsSound-count_down s i h e =
      let new = if s.active == 1 then closing else finished in
      let active = total-set is_active s.workers i leaving new e in
      let closing_now = total-set is_closing s.workers i leaving new e in
      let marking_now = total-set is_marking s.workers i leaving new e in
      let (flag_down, none_closing, fresh) = open_stream stop_set s i leaving h e refl in
      record {
        counted = ground (arith, h.counted, active);
        quiet = ground (arith, flag_down, none_closing, closing_now, h.counted, active);
        pending = ground (arith, h.counted, active, closing_now);
        marks = 0;
        marked = ground (arith, h.marked, marking_now, flag_down);
        idle = h.idle;
        stream = fresh;
        left = All-set stop_set (WordsLeft stop_set) s.workers i new h.left (ground arith);
      }

  IsSound-close :
      (s : Shared) (i : ℕ)
      → IsSound stop_set s
      → get_elem? s.workers i ≡ some closing
      → s.closed ≡ false
      → IsSound stop_set (record (move s i marking) { closed = true })
  IsSound-close s i h e down =
      let active = total-set is_active s.workers i closing marking e in
      let closing_now = total-set is_closing s.workers i closing marking e in
      let marking_now = total-set is_marking s.workers i closing marking e in
      record {
        counted = omega (arith, h.counted);
        quiet = inl (ground (arith, h.quiet, closing_now));
        pending = omega arith;
        marks = h.marks;
        marked = ground (arith, h.marked, marking_now, down);
        idle = h.idle;
        stream = h.stream;
        left = All-set stop_set (WordsLeft stop_set) s.workers i marking h.left tt;
      }

  IsSound-closed_already :
      (s : Shared) (i : ℕ)
      → IsSound stop_set s
      → get_elem? s.workers i ≡ some closing
      → s.closed ≡ true
      → IsSound stop_set (move s i finished)
  IsSound-closed_already s i h e up =
      let active = total-set is_active s.workers i closing finished e in
      let closing_now = total-set is_closing s.workers i closing finished e in
      let marking_now = total-set is_marking s.workers i closing finished e in
      record {
        counted = omega (arith, h.counted);
        quiet = inl (ground (arith, h.quiet, closing_now));
        pending = ground (arith, up);
        marks = h.marks;
        marked = omega (arith, h.marked);
        idle = h.idle;
        stream = h.stream;
        left = All-set stop_set (WordsLeft stop_set) s.workers i finished h.left tt;
      }

  IsSound-mark :
      (s : Shared) (i : ℕ)
      → IsSound stop_set s
      → get_elem? s.workers i ≡ some marking
      → IsSound stop_set (record (move s i finished) { pushed = s.pushed ++ ([] ∷ []) })
  IsSound-mark s i h e =
      let active = total-set is_active s.workers i marking finished e in
      let closing_now = total-set is_closing s.workers i marking finished e in
      let marking_now = total-set is_marking s.workers i marking finished e in
      record {
        counted = omega (arith, h.counted);
        quiet = ground (arith, h.quiet, closing_now);
        pending = omega (arith, h.pending);
        marks = suc h.marks;
        marked = omega (arith, h.marked);
        idle = h.idle;
        stream = (s.pushed, refl, h.stream);
        left = All-set stop_set (WordsLeft stop_set) s.workers i finished h.left tt;
      }

  -- Once all workers are done one of them has closed the queue.
  closed_by_worker :
      (s : Shared) → IsSound stop_set s → all_finished s.workers ≡ true → flag s.closed ≡ 1
  closed_by_worker s h done =
      let (a, c, m) = finished-total s.workers done in ground (arith, h.pending, h.counted, a, c)

  IsSound-step : (s s' : Shared) → Step stop_set s s' → IsSound stop_set s → IsSound stop_set s'
  IsSound-step s s' (go_on _ i e _) h =
      IsSound-move stop_set s i testing waiting h e refl refl refl tt
  IsSound-step s s' (give_up _ i e _) h =
      IsSound-move stop_set s i testing leaving h e refl refl refl tt
  IsSound-step s s' (take_pill _ i rest e _) h =
      IsSound-lines stop_set _ s.running rest
        (IsSound-move stop_set s i waiting leaving h e refl refl refl tt)
  IsSound-step s s' (take_line _ i l rest ts e _ _ cut) h =
      let (ws, cut', _, words) = tokens_lem stop_set l.line in
      let same : ws ≡ ts = ground (arith, cut, cut') in
      IsSound-lines stop_set _ s.running rest (
        IsSound-move stop_set s i waiting (emitting ts) h e refl refl refl
          (subst (All (IsWord stop_set)) same words))
  IsSound-step s s' (emit _ i t ts e) h = IsSound-emit s i t ts h e
  IsSound-step s s' (next_round _ i e) h =
      IsSound-move stop_set s i (emitting []) testing h e refl refl refl tt
  IsSound-step s s' (count_down _ i e) h = IsSound-count_down s i h e
  IsSound-step s s' (close _ i e down) h = IsSound-close s i h e down
  IsSound-step s s' (closed_already _ i e up) h = IsSound-closed_already s i h e up
  IsSound-step s s' (mark _ i e) h = IsSound-mark s i h e
  IsSound-step s s' (queue_line _ l) h = IsSound-lines stop_set s s.running (s.lines ++ (l ∷ [])) h
  IsSound-step s s' (stop _) h = IsSound-lines stop_set s false s.lines h
  IsSound-step s s' (stop_close _ at done down) h =
      absurd (ground (arith, closed_by_worker s h done))
  IsSound-step s s' (stop_closed_already _ at done up) h = record {
    counted = h.counted;
    quiet = h.quiet;
    pending = h.pending;
    marks = h.marks;
    marked = omega (arith, h.marked, h.idle);
    idle = refl;
    stream = h.stream;
    left = h.left;
  }
  IsSound-step s s' (stop_mark _ at) h = absurd (ground (arith, h.idle))

  sound : (s : Shared) → Reachable stop_set s → IsSound stop_set s
  sound s start = record {
    counted = refl;
    quiet = inr refl;
    pending = omega arith;
    marks = 0;
    marked = refl;
    idle = refl;
    stream = tt;
    left = (tt, (tt, tt));
  }
  sound s (after s0 _ r step) = IsSound-step s0 s step (sound s0 r)

  -- In every state that the threads of the lexer can reach from the start, they have pushed words
  -- only, or words and then one mark of the end and nothing after it; and they have pushed the mark
  -- whenever all workers are done.
  pub stream-Reachable :
      (s : Shared)
      → Reachable stop_set s
      → (n : ℕ) × IsStream stop_set s.pushed n
        × (n ≤ 1)
        × ((n ≡ 1) ⊎ (all_finished s.workers ≡ false))
  stream-Reachable s r =
      let h = sound s r in
      (
        h.marks,
        h.stream,
        ground (arith, h.marked),
        elim (Bool-cases (all_finished s.workers)) [
          | inl done ↦ inl (
              omega
                (arith, h.marked, h.idle, finished-total s.workers done, closed_by_worker s h done))
          | inr more ↦ inr more
        ],
      )
