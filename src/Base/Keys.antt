-- ===== src/Base/Keys.antt =====
-- What the containers ask of the keys: the strict order `<` and the equality `==` of the key type.
use Prim.Native.Nat.{ℕ}
use mathlib.Core.Path.{◌≡◌}
use mathlib.Core.Logic.{◌↔◌}
use mathlib.Core.Bool.{Bool, true, false}
use native.Mathlib.Omega.{arith}
use becoming_an_elite_engine.Base.Tests.{ltb, ◌==◌ as nat_eq, ==_iff}

pub record Order {ℓ} (K : Type ℓ) : Type ℓ where
  pub lt : K → K → Bool
  pub eq : K → K → Bool
  pub eq_iff : (a b : K) → (eq a b ≡ true) ↔ (a ≡ b)
  pub lt_irrefl : (a : K) → lt a a ≡ false
  pub lt_trans : (a b c : K) → lt a b ≡ true → lt b c ≡ true → lt a c ≡ true
  pub eq_of_not_lt : (a b : K) → lt a b ≡ false → lt b a ≡ false → a ≡ b

module _ {ℓ} {K : Type ℓ} ⦃o : Order K⦄ where
  infix 50 ◌≺◌
  abbrev pub ◌≺◌ : K → K → Type 0
  a ≺ b = o.lt a b ≡ true

  pub not_lt_of_lt : (a b : K) → a ≺ b → o.lt b a ≡ false
  not_lt_of_lt a b h = ground (arith, o.lt_trans a b a h, o.lt_irrefl a)

module _ {ℓ} {K : Type ℓ} ⦃o : Order K⦄ where
  pub lt_of_lt_of_not_lt : (a b c : K) → a ≺ b → o.lt c b ≡ false → a ≺ c
  lt_of_lt_of_not_lt a b c h k =
      ground (arith, o.lt_trans c a b, o.eq_of_not_lt a c, o.lt_trans a c b)

  pub lt_of_not_lt_of_lt : (a b c : K) → o.lt b a ≡ false → b ≺ c → a ≺ c
  lt_of_not_lt_of_lt a b c h k =
      ground (arith, o.lt_trans b c a, o.eq_of_not_lt a c, o.lt_trans b a c, o.eq_of_not_lt a b)

pub ltb_irrefl : (a : ℕ) → ltb a a ≡ false
ltb_irrefl a = ground arith

pub ltb_trans : (a b c : ℕ) → ltb a b ≡ true → ltb b c ≡ true → ltb a c ≡ true
ltb_trans a b c h k = ground arith

pub eq_of_not_ltb : (a b : ℕ) → ltb a b ≡ false → ltb b a ≡ false → a ≡ b
eq_of_not_ltb a b h k = ground arith

instance abbrev pub nat_order : Order ℕ
nat_order = record {
  lt = ltb;
  eq = nat_eq;
  eq_iff = ==_iff;
  lt_irrefl = ltb_irrefl;
  lt_trans = ltb_trans;
  eq_of_not_lt = eq_of_not_ltb;
}
