-- ===== src/Base/Eq.antt =====
-- Python's `==` on keys: an instance for each key type that the program uses.
use Prim.Native.Nat.{ℕ}
use Prim.Native.String.{String}
use mathlib.Core.Path.{◌≡◌, refl}
use mathlib.Core.Logic.{◌↔◌}
use mathlib.Core.Bool.{Bool, true, ◌&&◌}
use native.Mathlib.Omega.{arith}
use text.Mathlib.Text.{◌==◌ as str_eq}
use text.Mathlib.TextEquality.{eq_iff}
use ai_platform_template.Base.Tests.{nat_beq}

-- A type whose values serve as keys.
pub record Keyed {κ} (K : Type κ) : Type κ where
  pub equals : K → K → Bool
  pub equals_iff : (i j : K) → (equals i j ≡ true) ↔ (i ≡ j)

instance abbrev pub string_eq : Keyed String
string_eq = record { equals = str_eq; equals_iff = eq_iff }

pub nat_beq_iff : (i j : ℕ) → (nat_beq i j ≡ true) ↔ (i ≡ j)
nat_beq_iff i j = ground arith

instance abbrev pub nat_eq : Keyed ℕ
nat_eq = record { equals = nat_beq; equals_iff = nat_beq_iff }

module _ {κ} {K : Type κ} ⦃e : Keyed K⦄ where
  infix 50 ◌==◌
  abbrev pub ◌==◌ : K → K → Bool
  i == j = e.equals i j

  pub ==_iff : (i j : K) → ((i == j) ≡ true) ↔ (i ≡ j)
  ==_iff i j = e.equals_iff i j

  pub ==_refl : (i : K) → (i == i) ≡ true
  ==_refl i = (e.equals_iff i i).1 refl

-- Tuples of keys compare by their parts. The test stays shut: proofs use its law.
module _ {ℓ κ} {A : Type ℓ} {B : Type κ} ⦃e : Keyed A⦄ ⦃f : Keyed B⦄ where
  unfoldable pub pair_equals : A × B → A × B → Bool
  pair_equals p q = p.0 == q.0 && p.1 == q.1

  pub pair_equals_iff : (p q : A × B) → (pair_equals p q ≡ true) ↔ (p ≡ q)
  unfolding pair_equals
  pair_equals_iff p q = ground (arith, e.equals_iff p.0 q.0, f.equals_iff p.1 q.1)

  instance abbrev pub pair_eq : Keyed (A × B)
  pair_eq = record { equals = pair_equals; equals_iff = pair_equals_iff }
