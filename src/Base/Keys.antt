-- ===== src/Base/Keys.antt =====
-- Types of keys whose equality the programs test with `==`.
use Prim.Native.Nat.{ℕ}
use Prim.Native.String.{String}
use mathlib.Core.Path.{◌≡◌, refl}
use mathlib.Core.Logic.{◌≢◌, ◌↔◌}
use mathlib.Core.Bool.{Bool, true, false}
use native.Mathlib.Omega.{arith}
use text.Mathlib.Text.{◌==◌ as str_eq}
use text.Mathlib.TextEquality.{eq_iff}
use distributed_systems_engi.Base.Tests.{eqb, eqb_iff}
use distributed_systems_engi.Base.Int.{ℤ, eqb_ℤ, eqb_ℤ_iff}

pub record Eq {ℓ} (K : Type ℓ) : Type ℓ where
  pub test : K → K → Bool
  pub test_iff : (x y : K) → (test x y ≡ true) ↔ (x ≡ y)

instance abbrev pub string_eq : Eq String
string_eq = record { test = str_eq; test_iff = eq_iff }

instance abbrev pub int_eq : Eq ℤ
int_eq = record { test = eqb_ℤ; test_iff = eqb_ℤ_iff }

instance abbrev pub nat_eq : Eq ℕ
nat_eq = record { test = eqb; test_iff = eqb_iff }

infix 50 ◌==◌
abbrev pub ◌==◌ {ℓ} : {K : Type ℓ} ⦃e : Eq K⦄ → K → K → Bool
◌==◌ ⦃e⦄ = e.test

module _ {ℓ} {A : Type ℓ} ⦃e : Eq A⦄ where
  pub ==-iff : (a b : A) → ((a == b) ≡ true) ↔ (a ≡ b)
  ==-iff a b = e.test_iff a b

  pub ==-self : (a : A) → (a == a) ≡ true
  ==-self a = (e.test_iff a a).1 refl

  pub ==-of_ne : (a b : A) → a ≢ b → (a == b) ≡ false
  ==-of_ne a b h = ground (arith, e.test_iff a b)

  pub ne_of_test : (a b : A) → (a == b) ≡ false → a ≢ b
  ne_of_test a b h p = cc (h, (e.test_iff a b).1 p)
