-- ===== src/Kernal/Stop.antt =====
-- `StopAll` stops what is started, in the reverse order of registration, whatever fails.
use becoming_an_elite_engine.Base.{
  ℕ, ◌⊎◌, inl, inr, ◌≡◌, refl, ap, sym, ◌∙◌, subst, Bool, true, false, Option, none, some, List, [],
  ◌∷◌, ◌++◌, append_assoc, append-nil, reverse, reverse-cons, All, arith, ◌==◌, if◌then◌else◌,
  Bool-cases,
}
use becoming_an_elite_engine.Lexer.Text.{Text}
use becoming_an_elite_engine.Kernal.{
  SubsystemId, store, dir_reader, lexer, parser, engine, code, Phase, created, initialized, started,
  stopping, stopped, Kernal, Hooks, Failure, stops_failed, stop_one, stop_loop, stop_all,
}

-- a subsystem is in a list
abbrev pub listed : SubsystemId → List SubsystemId → Bool
listed id [] = false
listed id (j ∷ ids) = if code j == code id then true else listed id ids

abbrev pub IsDistinct : List SubsystemId → Type 0
IsDistinct [] = Unit
IsDistinct (id ∷ ids) = (listed id ids ≡ false) × IsDistinct ids

-- the phase after `Stop`
abbrev pub after_stop : Option Phase → Option Phase
after_stop none = none
after_stop (some created) = some created
after_stop (some initialized) = some initialized
after_stop (some started) = some stopped
after_stop (some stopping) = some stopping
after_stop (some stopped) = some stopped

abbrev pub is_started : Option Phase → Bool
is_started none = false
is_started (some created) = false
is_started (some initialized) = false
is_started (some started) = true
is_started (some stopping) = false
is_started (some stopped) = false

abbrev pub failed_with : SubsystemId → Text → List (SubsystemId × Text)
failed_with id [] = []
failed_with id (c ∷ text) = (id, c ∷ text) ∷ []

pub code_eq : (a b : SubsystemId) → code a ≡ code b → a ≡ b
code_eq store store e = refl
code_eq dir_reader dir_reader e = refl
code_eq lexer lexer e = refl
code_eq parser parser e = refl
code_eq engine engine e = refl
code_eq a b e = absurd (omega arith)

pub Text-cases : (t : Text) → (t ≡ []) ⊎ ((c : ℕ) × (text : Text) × (t ≡ c ∷ text))
Text-cases [] = inl refl
Text-cases (c ∷ text) = inr (c, text, refl)

module _ {W : Type 0} (h : Hooks W) where
  -- `OnStop` of those of a list that are started in the phases given, one after the other: the world
  -- that they leave, and those whose message is not empty
  abbrev pub stop_world : (SubsystemId → Option Phase) → List SubsystemId → W → W
  stop_world phase [] w = w
  stop_world phase (id ∷ ids) w =
      stop_world phase ids (if is_started (phase id) then (h.on_stop id w).1 else w)

  abbrev pub stop_errors :
      (SubsystemId → Option Phase) → List SubsystemId → W → List (SubsystemId × Text)
  stop_errors phase [] w = []
  stop_errors phase (id ∷ ids) w =
      if is_started (phase id)
      then failed_with id (h.on_stop id w).0 ++ stop_errors phase ids (h.on_stop id w).1
      else stop_errors phase ids w

  stop_step :
      (id : SubsystemId) (ids : List SubsystemId) (errors : List (SubsystemId × Text))
      (k : Kernal W) (p : Phase)
      → k.phase id ≡ some p
      → stop_loop h (id ∷ ids) errors k
        ≡ stop_loop h ids (errors ++ failed_with id (stop_one h k id p).0) (stop_one h k id p).1
  unfolding stop_loop
  stop_step id ids errors k p e = elim (Text-cases (stop_one h k id p).0) [
    | inl silent ↦ ground (arith, e, silent, append-nil errors)
    | inr (c, text, loud) ↦ ground (arith, e, loud)
  ]

  stop_one_lem :
      (k : Kernal W) (id : SubsystemId) (p : Phase)
      → k.phase id ≡ some p
      → ((stop_one h k id p).1.world
          ≡ (if is_started (some p) then (h.on_stop id k.world).1 else k.world))
        × ((stop_one h k id p).1.order ≡ k.order)
        × (failed_with id (stop_one h k id p).0
            ≡ (if is_started (some p) then failed_with id (h.on_stop id k.world).0 else []))
  stop_one_lem k id created e = (refl, refl, refl)
  stop_one_lem k id initialized e = (refl, refl, refl)
  stop_one_lem k id started e = (refl, refl, refl)
  stop_one_lem k id stopping e = (refl, refl, refl)
  stop_one_lem k id stopped e = (refl, refl, refl)

  stop_one-phase :
      (k : Kernal W) (id : SubsystemId) (p : Phase) (j : SubsystemId)
      → k.phase id ≡ some p
      → (stop_one h k id p).1.phase j
        ≡ (if code j == code id then after_stop (some p) else k.phase j)
  stop_one-phase k id created j e = ground (arith, e, code_eq j id)
  stop_one-phase k id initialized j e = ground (arith, e, code_eq j id)
  stop_one-phase k id started j e = ground (arith, e, code_eq j id)
  stop_one-phase k id stopping j e = ground (arith, e, code_eq j id)
  stop_one-phase k id stopped j e = ground (arith, e, code_eq j id)

  -- the subsystems listed are in the map, in the phases given
  abbrev InPhase : (SubsystemId → Option Phase) → List SubsystemId → Kernal W → Type 0
  InPhase phase ids k = All (λ id. (p : Phase) × (phase id ≡ some p) × (k.phase id ≡ some p)) ids

  InPhase-stop_one :
      (phase : SubsystemId → Option Phase) (ids : List SubsystemId) (k : Kernal W)
      (id : SubsystemId) (p : Phase)
      → k.phase id ≡ some p
      → listed id ids ≡ false
      → InPhase phase ids k
      → InPhase phase ids (stop_one h k id p).1
  InPhase-stop_one phase [] k id p e out all = tt
  InPhase-stop_one phase (j ∷ ids) k id p e out (now, rest) =
      let (q, expected, actual) = now in
      (
        (q, expected, ground (arith, stop_one-phase k id p j e, actual, out)),
        InPhase-stop_one phase ids k id p e (ground (arith, out)) rest,
      )

  stop_loop_lem :
      (phase : SubsystemId → Option Phase) (ids : List SubsystemId)
      (errors : List (SubsystemId × Text)) (k : Kernal W)
      → IsDistinct ids
      → InPhase phase ids k
      → (k' : Kernal W) × (stop_loop h ids errors k
          ≡ some (errors ++ stop_errors phase ids k.world, k'))
        × (k'.world ≡ stop_world phase ids k.world)
        × (k'.order ≡ k.order)
        × ((j : SubsystemId)
            → k'.phase j ≡ (if listed j ids then after_stop (phase j) else k.phase j))
  unfolding stop_loop
  stop_loop_lem phase [] errors k distinct all =
      (k, ap (λ l. some (l, k)) (sym (append-nil errors)), refl, refl, λ j. refl)
  stop_loop_lem phase (id ∷ ids) errors k distinct (now, rest) =
      let (p, expected, actual) = now in
      let k1 = (stop_one h k id p).1 in
      let (world, order, failed) = stop_one_lem k id p actual in
      let (k', loop, world', order', phases) =
        stop_loop_lem phase ids (errors ++ failed_with id (stop_one h k id p).0) k1 distinct.1
          (InPhase-stop_one phase ids k id p actual distinct.0 rest) in
      (
        k',
        stop_step id ids errors k p actual
            ∙ loop
            ∙ ground (
              arith,
              expected,
              world,
              failed,
              append_assoc errors (failed_with id (stop_one h k id p).0)
                  (stop_errors phase ids k1.world),
            ),
        world' ∙ ground (arith, expected, world),
        order' ∙ order,
        λ j.
            phases j
            ∙ ground (
              arith,
              stop_one-phase k id p j actual,
              expected,
              code_eq j id,
              code_eq id j,
              distinct.0,
            ),
      )

abbrev pub is_some : Option Phase → Bool
is_some none = false
is_some (some p) = true

-- The order lists each subsystem of the map once, and no other.
pub record IsConsistent {W : Type 0} (k : Kernal W) : Type 0 where
  pub distinct : IsDistinct k.order
  pub registered : (id : SubsystemId) → listed id k.order ≡ is_some (k.phase id)

pub listed-append :
    (id : SubsystemId) (a b : List SubsystemId)
    → listed id (a ++ b) ≡ (if listed id a then true else listed id b)
listed-append id [] b = refl
listed-append id (j ∷ a) b = ground (arith, listed-append id a b)

listed-reverse :
    (id : SubsystemId) (ids : List SubsystemId) → listed id (reverse ids) ≡ listed id ids
listed-reverse id [] = refl
listed-reverse id (j ∷ ids) =
    ap (listed id) (reverse-cons j ids)
    ∙ listed-append id (reverse ids) (j ∷ [])
    ∙ ground (arith, listed-reverse id ids)

pub IsDistinct-append_one :
    (ids : List SubsystemId) (id : SubsystemId)
    → IsDistinct ids
    → listed id ids ≡ false
    → IsDistinct (ids ++ (id ∷ []))
IsDistinct-append_one [] id h out = (refl, tt)
IsDistinct-append_one (j ∷ ids) id h out = (
  ground (arith, listed-append j ids (id ∷ []), h.0, out),
  IsDistinct-append_one ids id h.1 (ground (arith, out)),
)

IsDistinct-reverse : (ids : List SubsystemId) → IsDistinct ids → IsDistinct (reverse ids)
IsDistinct-reverse [] h = tt
IsDistinct-reverse (id ∷ ids) h = subst IsDistinct (sym (reverse-cons id ids)) (
    IsDistinct-append_one (reverse ids) id (IsDistinct-reverse ids h.1)
      (listed-reverse id ids ∙ h.0))

List-cases :
    (l : List (SubsystemId × Text))
    → (l ≡ []) ⊎ ((e : SubsystemId × Text) × (es : List (SubsystemId × Text)) × (l ≡ e ∷ es))
List-cases [] = inl refl
List-cases (e ∷ es) = inr (e, es, refl)

pub is_some_cases : (p : Option Phase) → is_some p ≡ true → (q : Phase) × (p ≡ some q)
is_some_cases none h = absurd (cc)
is_some_cases (some q) h = (q, refl)

not_registered : (p : Option Phase) → is_some p ≡ false → p ≡ none
not_registered none h = refl
not_registered (some p) h = absurd (cc)

module _ {W : Type 0} (h : Hooks W) where
  InPhase-order :
      (k : Kernal W) (ids : List SubsystemId)
      → ((id : SubsystemId) → listed id ids ≡ true → is_some (k.phase id) ≡ true)
      → InPhase h k.phase ids k
  InPhase-order k [] all = tt
  InPhase-order k (id ∷ ids) all =
      let (q, e) = is_some_cases (k.phase id) (all id (ground arith)) in
      ((q, e, e), InPhase-order k ids (λ j m. all j (ground (arith, m))))

  -- what `StopAll` returns
  abbrev pub stop_report : List (SubsystemId × Text) → Option Failure
  stop_report [] = none
  stop_report (e ∷ errors) = some (stops_failed (e ∷ errors))

  -- With a consistent registry, `StopAll` calls `OnStop` of exactly the started subsystems, once each,
  -- in the reverse order of registration and also after one that fails, and returns all their errors;
  -- these subsystems are then stopped, and every other one is as it was.
  pub stop_all_lem :
      (k : Kernal W)
      → IsConsistent k
      → let stopping_order = reverse k.order in
        (k' : Kernal W) × (stop_all h k
          ≡ some (stop_report (stop_errors h k.phase stopping_order k.world), k'))
        × (k'.world ≡ stop_world h k.phase stopping_order k.world)
        × (k'.order ≡ k.order)
        × ((id : SubsystemId) → k'.phase id ≡ after_stop (k.phase id))
  unfolding stop_all
  stop_all_lem k c =
      let ids = reverse k.order in
      let (k', loop, world, order, phases) =
        stop_loop_lem h k.phase ids [] k (IsDistinct-reverse k.order c.distinct) (
          InPhase-order k ids
            (λ id m. sym (c.registered id) ∙ sym (listed-reverse id k.order) ∙ m)) in
      (
        k',
        elim (List-cases (stop_errors h k.phase ids k.world)) [
          | inl silent ↦ ground (arith, loop, silent)
          | inr (e, es, loud) ↦ ground (arith, loop, loud)
        ],
        world,
        order,
        λ id. phases id ∙ elim (Bool-cases (listed id ids)) [
          | inl inside ↦ ground (arith, inside)
          | inr outside ↦ ground (
            arith,
            outside,
            not_registered (k.phase id)
                (sym (c.registered id) ∙ sym (listed-reverse id k.order) ∙ outside),
          )
        ],
      )
