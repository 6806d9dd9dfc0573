-- ===== src/Prelude/Keys.antt =====
-- Go's `==` on the types that the program uses as map keys and compares.
use Prim.Native.String.{String}
use text.Mathlib.Text.{◌==◌ as str_eq}
use text.Mathlib.TextEquality.{eq_iff}
use Prim.Native.Nat.{ℕ}
use mathlib.Core.Path.{◌≡◌, refl}
use mathlib.Core.Logic.{◌↔◌, ◌≢◌, inl, inr}
use mathlib.Core.Bool.{Bool, true, false, ◌&&◌}
use mathlib.Core.List.{List, [], ◌∷◌}
use native.Mathlib.Omega.{arith}
use beluuga.Prelude.Tests.{nat_beq, nat_beq_iff, Bool-cases}

pub record Eq {ℓ} (A : Type ℓ) : Type ℓ where
  pub same : A → A → Bool
  pub same_iff : (a b : A) → (same a b ≡ true) ↔ (a ≡ b)

infix 50 ◌==◌
abbrev pub ◌==◌ {ℓ} : {A : Type ℓ} ⦃e : Eq A⦄ → A → A → Bool
◌==◌ ⦃e⦄ = e.same

unfoldable pub list_beq : List ℕ → List ℕ → Bool
list_beq [] [] = true
list_beq [] (b ∷ bs) = false
list_beq (a ∷ as') [] = false
list_beq (a ∷ as') (b ∷ bs) = nat_beq a b && list_beq as' bs

list_beq_sound : (xs ys : List ℕ) → list_beq xs ys ≡ true → xs ≡ ys
unfolding list_beq
list_beq_sound [] [] h = refl
list_beq_sound [] (b ∷ bs) h = cc
list_beq_sound (a ∷ xs) [] h = cc
list_beq_sound (a ∷ xs) (b ∷ bs) h = ground (arith, list_beq_sound xs bs)

list_beq_refl : (xs : List ℕ) → list_beq xs xs ≡ true
unfolding list_beq
list_beq_refl [] = refl
list_beq_refl (a ∷ xs) = ground (arith, list_beq_refl xs)

pub list_beq_iff : (xs ys : List ℕ) → (list_beq xs ys ≡ true) ↔ (xs ≡ ys)
list_beq_iff xs ys = (list_beq_sound xs ys, λ e. cc (e, list_beq_refl xs))

instance abbrev pub string_eq : Eq String
string_eq = record { same_iff = eq_iff; same = str_eq }

instance abbrev pub bytes_eq : Eq (List ℕ)
bytes_eq = record { same = list_beq; same_iff = list_beq_iff }

instance abbrev pub nat_eq : Eq ℕ
nat_eq = record { same_iff = nat_beq_iff; same = nat_beq }

module _ {ℓ} {A : Type ℓ} ⦃e : Eq A⦄ where
  pub eq_refl_key : (a : A) → (a == a) ≡ true
  eq_refl_key a = (e.same_iff a a).1 refl

  pub eq_sound : (a b : A) → (a == b) ≡ true → a ≡ b
  eq_sound a b = (e.same_iff a b).0

  pub eq_ne : (a b : A) → a ≢ b → (a == b) ≡ false
  eq_ne a b h = elim (Bool-cases (a == b)) [ inl t ↦ absurd (h (eq_sound a b t)) | inr f ↦ f ]
