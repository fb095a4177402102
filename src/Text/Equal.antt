-- ===== src/Text/Equal.antt =====
-- What the test on the equality of texts tells.
use knovaryn.Base.{ℕ, true, List, [], ◌∷◌, ◌≡◌, refl, arith}
use knovaryn.Text.{text_eq}

pub text_eq_self : (x : List ℕ) → text_eq x x ≡ true
unfolding text_eq
text_eq_self [] = refl
text_eq_self (n ∷ x) = ground (arith, text_eq_self x)

pub eq_of_text_eq : (x y : List ℕ) → text_eq x y ≡ true → x ≡ y
unfolding text_eq
eq_of_text_eq [] [] e = refl
eq_of_text_eq [] (m ∷ y) e = absurd cc
eq_of_text_eq (n ∷ x) [] e = absurd cc
eq_of_text_eq (n ∷ x) (m ∷ y) e =
    let rest : x ≡ y = eq_of_text_eq x y (ground (arith, e)) in
    let head : n ≡ m = ground (arith, e) in cc
