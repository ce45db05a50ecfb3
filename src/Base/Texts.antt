-- ===== src/Base/Texts.antt =====
-- The order and the equality of `std::string`: byte by byte, a prefix first.
use Prim.Native.Nat.{ℕ}
use mathlib.Core.Path.{◌≡◌, refl}
use mathlib.Core.Logic.{◌↔◌}
use mathlib.Core.Bool.{Bool, true, false, ◌&&◌}
use mathlib.Core.List.{List, [], ◌∷◌}
use native.Mathlib.Omega.{arith}
use becoming_an_elite_engine.Base.Tests.{ltb, ◌==◌, if◌then◌else◌}
use becoming_an_elite_engine.Base.Keys.{Order}

abbrev pub text_lt : List ℕ → List ℕ → Bool
text_lt [] [] = false
text_lt [] (b ∷ bs) = true
text_lt (a ∷ as') [] = false
text_lt (a ∷ as') (b ∷ bs) = if ltb a b then true else if ltb b a then false else text_lt as' bs

abbrev pub text_eq : List ℕ → List ℕ → Bool
text_eq [] [] = true
text_eq [] (b ∷ bs) = false
text_eq (a ∷ as') [] = false
text_eq (a ∷ as') (b ∷ bs) = (a == b) && text_eq as' bs

pub text_eq_iff : (a b : List ℕ) → (text_eq a b ≡ true) ↔ (a ≡ b)
text_eq_iff [] [] = ground arith
text_eq_iff [] (b ∷ bs) = ground arith
text_eq_iff (a ∷ as') [] = ground arith
text_eq_iff (a ∷ as') (b ∷ bs) = ground (arith, text_eq_iff as' bs)

pub text_lt_irrefl : (a : List ℕ) → text_lt a a ≡ false
text_lt_irrefl [] = refl
text_lt_irrefl (a ∷ as') = ground (arith, text_lt_irrefl as')

pub text_lt_trans : (a b c : List ℕ) → text_lt a b ≡ true → text_lt b c ≡ true → text_lt a c ≡ true
text_lt_trans [] [] c h k = k
text_lt_trans [] (b ∷ bs) [] h k = ground arith
text_lt_trans [] (b ∷ bs) (c ∷ cs) h k = refl
text_lt_trans (a ∷ as') [] c h k = ground arith
text_lt_trans (a ∷ as') (b ∷ bs) [] h k = ground arith
text_lt_trans (a ∷ as') (b ∷ bs) (c ∷ cs) h k = ground (arith, text_lt_trans as' bs cs)

pub eq_of_not_text_lt : (a b : List ℕ) → text_lt a b ≡ false → text_lt b a ≡ false → a ≡ b
eq_of_not_text_lt [] [] h k = refl
eq_of_not_text_lt [] (b ∷ bs) h k = ground arith
eq_of_not_text_lt (a ∷ as') [] h k = ground arith
eq_of_not_text_lt (a ∷ as') (b ∷ bs) h k = ground (arith, eq_of_not_text_lt as' bs)

instance abbrev pub text_order : Order (List ℕ)
text_order = record {
  lt = text_lt;
  eq = text_eq;
  eq_iff = text_eq_iff;
  lt_irrefl = text_lt_irrefl;
  lt_trans = text_lt_trans;
  eq_of_not_lt = eq_of_not_text_lt;
}
