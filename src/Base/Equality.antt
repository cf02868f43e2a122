-- ===== src/Base/Equality.antt =====
-- Decidable equality by a Boolean test, as an instance: numbers, texts and options of them.
use Prim.Native.Nat.{ℕ}
use mathlib.Core.Path.{◌≡◌, refl}
use mathlib.Core.Logic.{◌↔◌}
use mathlib.Core.Bool.{Bool, true, false, ◌&&◌}
use mathlib.Core.Option.{Option, none, some}
use mathlib.Core.List.{List, [], ◌∷◌}
use native.Mathlib.Omega.{arith}
use sqlanvil.Base.Tests.{nat_beq}

pub record HasEq {ℓ} (A : Type ℓ) : Type ℓ where
  pub equal : A → A → Bool
  pub equal_iff : (a b : A) → (equal a b ≡ true) ↔ (a ≡ b)

pub nat_beq_iff : (a b : ℕ) → (nat_beq a b ≡ true) ↔ (a ≡ b)
nat_beq_iff a b = ground arith

infix 50 ◌==◌
abbrev pub ◌==◌ {ℓ} : {A : Type ℓ} ⦃e : HasEq A⦄ → A → A → Bool
◌==◌ ⦃e⦄ = e.equal

pub ==_iff {ℓ} : {A : Type ℓ} ⦃e : HasEq A⦄ (a b : A) → ((a == b) ≡ true) ↔ (a ≡ b)
==_iff ⦃e⦄ a b = e.equal_iff a b

instance abbrev pub nat_eq : HasEq ℕ
nat_eq = record { equal = nat_beq; equal_iff = nat_beq_iff }

module _ {ℓ} {A : Type ℓ} ⦃e : HasEq A⦄ where
  abbrev pub list_beq : List A → List A → Bool
  list_beq [] [] = true
  list_beq (x ∷ xs) (y ∷ ys) = e.equal x y && list_beq xs ys
  list_beq _ _ = false

  pub list_beq_iff : (a b : List A) → (list_beq a b ≡ true) ↔ (a ≡ b)
  list_beq_iff [] [] = (λ _. refl, λ _. refl)
  list_beq_iff [] (y ∷ b) = ground arith
  list_beq_iff (x ∷ a) [] = ground arith
  list_beq_iff (x ∷ a) (y ∷ b) = ground (arith, e.equal_iff x y, list_beq_iff a b)

  abbrev pub option_beq : Option A → Option A → Bool
  option_beq none none = true
  option_beq (some x) (some y) = e.equal x y
  option_beq _ _ = false

  pub option_beq_iff : (a b : Option A) → (option_beq a b ≡ true) ↔ (a ≡ b)
  option_beq_iff none none = (λ _. refl, λ _. refl)
  option_beq_iff none (some y) = ground arith
  option_beq_iff (some x) none = ground arith
  option_beq_iff (some x) (some y) = ground (arith, e.equal_iff x y)

-- A JavaScript string, as the list of its UTF-16 code units.
abbrev pub Text : Type 0
Text = List ℕ

instance abbrev pub text_eq : HasEq Text
text_eq = record { equal = list_beq; equal_iff = list_beq_iff }

instance abbrev pub option_text_eq : HasEq (Option Text)
option_text_eq = record { equal = option_beq; equal_iff = option_beq_iff }
