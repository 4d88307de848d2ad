-- ===== src/Base/Keys.antt =====
-- Lexicographic order on lists, from equality and an order on the items. Texts are ordered so by
-- their characters, and records by their lists of texts.
use mathlib.Core.Path.{◌≡◌, refl, subst}
use mathlib.Core.Logic.{◌↔◌}
use mathlib.Core.Bool.{Bool, true, false, ◌&&◌}
use mathlib.Core.List.{List, [], ◌∷◌}
use native.Mathlib.Omega.{arith}
use aws_cost_exporter.Base.Tests.{if◌then◌else◌, Eq, ◌=?◌, ltb, nat_eq}

pub record IsStrictOrder {ℓ} {A : Type ℓ} (lt : A → A → Bool) : Type ℓ where
  pub irrefl : (a : A) → lt a a ≡ false
  pub trans : (a b c : A) → lt a b ≡ true → lt b c ≡ true → lt a c ≡ true
  pub connected : (a b : A) → lt a b ≡ false → lt b a ≡ false → a ≡ b

pub ltb-IsStrictOrder : IsStrictOrder ltb
ltb-IsStrictOrder = record {
  irrefl = λ a. ground arith;
  trans = λ a b c h k. ground arith;
  connected = λ a b h k. ground arith;
}

module _ {ℓ} {A : Type ℓ} ⦃e : Eq A⦄ where
  unfoldable pub list_same : List A → List A → Bool
  list_same [] [] = true
  list_same [] (y ∷ ys) = false
  list_same (x ∷ xs) [] = false
  list_same (x ∷ xs) (y ∷ ys) = x =? y && list_same xs ys

  list_same→eq : (xs ys : List A) → list_same xs ys ≡ true → xs ≡ ys
  unfolding list_same
  list_same→eq [] [] h = refl
  list_same→eq [] (y ∷ ys) h = cc
  list_same→eq (x ∷ xs) [] h = cc
  list_same→eq (x ∷ xs) (y ∷ ys) h = ground (arith, e.same_iff x y, list_same→eq xs ys)

  list_same_refl : (xs : List A) → list_same xs xs ≡ true
  unfolding list_same
  list_same_refl [] = refl
  list_same_refl (x ∷ xs) = ground (arith, e.same_iff x x, list_same_refl xs)

  pub list_same_iff : (xs ys : List A) → (list_same xs ys ≡ true) ↔ (xs ≡ ys)
  list_same_iff xs ys =
      (list_same→eq xs ys, λ p. subst (λ zs. list_same xs zs ≡ true) p (list_same_refl xs))

  unfoldable pub lex_lt : (A → A → Bool) → List A → List A → Bool
  lex_lt lt [] [] = false
  lex_lt lt [] (y ∷ ys) = true
  lex_lt lt (x ∷ xs) [] = false
  lex_lt lt (x ∷ xs) (y ∷ ys) = if x =? y then lex_lt lt xs ys else lt x y

  module _ (lt : A → A → Bool) (o : IsStrictOrder lt) where
    lex_lt_irrefl : (xs : List A) → lex_lt lt xs xs ≡ false
    unfolding lex_lt
    lex_lt_irrefl [] = refl
    lex_lt_irrefl (x ∷ xs) = ground (arith, e.same_iff x x, lex_lt_irrefl xs)

    lex_lt_trans :
        (xs ys zs : List A)
        → lex_lt lt xs ys ≡ true
        → lex_lt lt ys zs ≡ true
        → lex_lt lt xs zs ≡ true
    unfolding lex_lt
    lex_lt_trans [] [] zs h k = cc
    lex_lt_trans [] (y ∷ ys) [] h k = cc
    lex_lt_trans [] (y ∷ ys) (z ∷ zs) h k = refl
    lex_lt_trans (x ∷ xs) [] zs h k = cc
    lex_lt_trans (x ∷ xs) (y ∷ ys) [] h k = cc
    lex_lt_trans (x ∷ xs) (y ∷ ys) (z ∷ zs) h k = ground (
      arith,
      e.same_iff x y,
      e.same_iff y z,
      e.same_iff x z,
      o.trans x y z,
      o.irrefl x,
      o.trans x y x,
      lex_lt_trans xs ys zs,
    )

    lex_lt_connected :
        (xs ys : List A) → lex_lt lt xs ys ≡ false → lex_lt lt ys xs ≡ false → xs ≡ ys
    unfolding lex_lt
    lex_lt_connected [] [] h k = refl
    lex_lt_connected [] (y ∷ ys) h k = cc
    lex_lt_connected (x ∷ xs) [] h k = cc
    lex_lt_connected (x ∷ xs) (y ∷ ys) h k =
        ground (arith, e.same_iff x y, e.same_iff y x, o.connected x y, lex_lt_connected xs ys)

    pub lex_lt-IsStrictOrder : IsStrictOrder (lex_lt lt)
    lex_lt-IsStrictOrder = record {
      irrefl = lex_lt_irrefl;
      trans = lex_lt_trans;
      connected = lex_lt_connected;
    }
