-- ===== src/WatchRule/Numbers.antt =====
-- Python's floating-point numbers, as far as watchrule.py uses them: an order, a sum and a quotient.
-- The laws are those of the order of floats other than NaN.
use heat.Prelude.{ℕ, ◌+◌, ◌/◌, Bool, true, false, ◌≡◌, ltb, arith}

pub record Numbers : Type 1 where
  pub F : Type 0
  pub less : F → F → Bool
  pub zero_f : F
  pub add : F → F → F
  -- `data / samples`
  pub divide : F → ℕ → F
  pub of_count : ℕ → F
  pub less_irrefl : (a : F) → less a a ≡ false
  pub less_trans : (a b c : F) → less a b ≡ true → less b c ≡ true → less a c ≡ true
  pub less_total : (a b c : F) → less a b ≡ false → less b c ≡ false → less a c ≡ false

pub ltb_irrefl : (a : ℕ) → ltb a a ≡ false
ltb_irrefl a = ground arith

pub ltb_trans : (a b c : ℕ) → ltb a b ≡ true → ltb b c ≡ true → ltb a c ≡ true
ltb_trans a b c p q = ground arith

pub ltb_total : (a b c : ℕ) → ltb a b ≡ false → ltb b c ≡ false → ltb a c ≡ false
ltb_total a b c p q = ground arith

-- The laws hold of the whole numbers.
abbrev pub whole_numbers : Numbers
whole_numbers = record {
  F = ℕ;
  less = ltb;
  zero_f = 0;
  add = λ a b. a + b;
  divide = λ a n. a / n;
  of_count = λ n. n;
  less_irrefl = ltb_irrefl;
  less_trans = ltb_trans;
  less_total = ltb_total;
}
