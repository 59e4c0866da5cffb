-- ===== src/Prelude/Equality.antt =====
-- Equality as an interface: Python's `==` on the values that serve as keys of dicts and sets.
use Prim.Native.Nat.{ℕ}
use Prim.Native.String.{String}
use mathlib.Core.Path.{◌≡◌, refl}
use mathlib.Core.Logic.{◌↔◌}
use mathlib.Core.Bool.{Bool, true}
use native.Mathlib.Omega.{arith}
use text.Mathlib.Text as Text
use text.Mathlib.TextEquality as TextEquality
use heat.Prelude.Tests.{nat_beq, nat_beq_iff}

-- The keys of a type are compared by a test that holds of a key and itself alone.
pub record Eq {ℓ} (Key : Type ℓ) : Type ℓ where
  pub beq : Key → Key → Bool
  pub beq_iff : (k j : Key) → (beq k j ≡ true) ↔ (k ≡ j)

module _ {ℓ} {Key : Type ℓ} ⦃e : Eq Key⦄ where
  infix 50 ◌==◌
  abbrev pub ◌==◌ : Key → Key → Bool
  k == j = e.beq k j

  pub beq→eq : (k j : Key) → (k == j) ≡ true → k ≡ j
  beq→eq k j h = (e.beq_iff k j).0 h

  pub beq_refl : (k : Key) → (k == k) ≡ true
  beq_refl k = (e.beq_iff k k).1 refl

  pub beq_sym : (k j : Key) → (k == j) ≡ (j == k)
  beq_sym k j = ground (arith, e.beq_iff k j, e.beq_iff j k)

instance abbrev pub string_eq : Eq String
string_eq = record { beq = λ s t. Text.◌==◌ s t; beq_iff = λ s t. TextEquality.eq_iff s t }

instance abbrev pub nat_eq : Eq ℕ
nat_eq = record { beq = λ n m. nat_beq n m; beq_iff = λ n m. nat_beq_iff n m }
