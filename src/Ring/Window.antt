-- ===== src/Ring/Window.antt =====
-- The part of the array that holds the queue: `xs` from index `i` on, round the end.
use becoming_an_elite_engine.Base.{
  ℕ, suc, ◌+◌, ◌-◌, ◌%◌, ◌≤◌, ◌<◌, ◌≡◌, ◌≢◌, refl, ap, ◌∙◌, sym, some, List, [], ◌∷◌, ◌++◌, arith,
  length, get_elem?, set,
}
use native.Mathlib.Nat.{mod-add-mod, mod-eq_of_lt, mod-eq-sub-mod, mod-lt}
use native.Mathlib.Decide.{dec_lt}

module _ {ℓ} {A : Type ℓ} where
  pub get_elem?-set_self :
      (xs : List A) (i : ℕ) (v : A) → i < length xs → get_elem? (set xs i v) i ≡ some v
  get_elem?-set_self [] i v h = absurd (omega arith)
  get_elem?-set_self (x ∷ xs) ℕ.zero v h = refl
  get_elem?-set_self (x ∷ xs) (suc i) v h = get_elem?-set_self xs i v (omega arith)

  pub get_elem?-set_ne :
      (xs : List A) (i j : ℕ) (v : A) → i ≢ j → get_elem? (set xs i v) j ≡ get_elem? xs j
  get_elem?-set_ne [] i j v h = refl
  get_elem?-set_ne (x ∷ xs) ℕ.zero ℕ.zero v h = absurd (h refl)
  get_elem?-set_ne (x ∷ xs) ℕ.zero (suc j) v h = refl
  get_elem?-set_ne (x ∷ xs) (suc i) ℕ.zero v h = refl
  get_elem?-set_ne (x ∷ xs) (suc i) (suc j) v h = get_elem?-set_ne xs i j v (λ e. h (ap suc e))

-- Two indices less than one round apart are different slots.
pub mod-ne : (m a b : ℕ) → a < b → b < a + m → a % m ≢ b % m
mod-ne m a b h k e =
    let shifted : b % m ≡ (a % m + (b - a)) % m =
      ap (λ n. n % m) {x = b} {y = a + (b - a)} (omega arith) ∙ sym (mod-add-mod a m (b - a)) in
    let small : a % m < m = mod-lt a (omega arith) in
    elim (dec_lt (a % m + (b - a)) m) [
      | yes p ↦ absurd (omega (arith, mod-eq_of_lt p))
      | no p ↦ absurd (
          omega (
            arith,
            mod-eq-sub-mod {n = a % m + (b - a)} {m = m} (omega arith),
            mod-eq_of_lt {n = a % m + (b - a) - m} {m = m} (omega arith),
          ))
    ]

module _ {ℓ} {A : Type ℓ} (slots : List A) (size : ℕ) where
  abbrev pub Window : ℕ → List A → Type ℓ
  Window i [] = Unit
  Window i (x ∷ xs) = (get_elem? slots (i % size) ≡ some x) × Window (i + 1) xs

module _ {ℓ} {A : Type ℓ} (slots : List A) (size : ℕ) where
  -- A write behind the window, less than a round from its start, leaves it as it is.
  pub Window-set :
      (i : ℕ) (xs : List A) (t : ℕ) (v : A)
      → i + length xs ≤ t
      → t < i + size
      → Window slots size i xs
      → Window (set slots (t % size) v) size i xs
  Window-set i [] t v h k w = tt
  Window-set i (x ∷ xs) t v h k w = (
    get_elem?-set_ne slots (t % size) (i % size) v (λ e. mod-ne size i t (omega arith) k (sym e))
        ∙ w.0,
    Window-set (i + 1) xs t v (omega arith) (omega arith) w.1,
  )

  pub Window-append :
      (i : ℕ) (xs : List A) (j : ℕ) (v : A)
      → i + length xs ≡ j
      → get_elem? slots (j % size) ≡ some v
      → Window slots size i xs
      → Window slots size i (xs ++ (v ∷ []))
  Window-append i [] j v e g w =
      let e' : i ≡ j = omega arith in (ap (λ n. get_elem? slots (n % size)) e' ∙ g, tt)
  Window-append i (x ∷ xs) j v e g w = (w.0, Window-append (i + 1) xs j v (omega arith) g w.1)
