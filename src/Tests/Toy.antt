-- ===== src/Tests/Toy.antt =====
-- A machine arithmetic to run the models with: natural numbers and one NaN.
use self_hosted_anomaly_dete.Common.{
  ℕ, ◌+◌, ◌-◌, ◌*◌, ◌/◌, max, Bool, true, false, Option, none, some, ltb, leb, ◌==◌,
}
use self_hosted_anomaly_dete.Floats.{Floats}

abbrev lift : (ℕ → ℕ → ℕ) → Option ℕ → Option ℕ → Option ℕ
lift f (some x) (some y) = some (f x y)
lift f (some x) none = none
lift f none y = none

abbrev test : (ℕ → ℕ → Bool) → Option ℕ → Option ℕ → Bool
test f (some x) (some y) = f x y
test f (some x) none = false
test f none y = false

abbrev is_none : Option ℕ → Bool
is_none none = true
is_none (some x) = false

abbrev pub toy : Floats
toy = record {
  F = Option ℕ;
  F32 = Option ℕ;
  nan = none;
  is_nan = is_none;
  is_inf = λ x. false;
  of_ℕ = λ n. some n;
  ◌+F◌ = lift (λ x y. x + y);
  ◌-F◌ = lift (λ x y. x - y);
  ◌*F◌ = lift (λ x y. x * y);
  ◌/F◌ = lift (λ x y. x / y);
  max_F = lift (λ x y. max x y);
  abs_F = λ x. x;
  sqrt_F = λ x. x;
  neg_F = λ x. x;
  lt_F = test ltb;
  le_F = test leb;
  eq_F = test (λ x y. x == y);
  narrow = λ x. x;
  widen = λ x. x;
  nan32 = none;
  is_nan32 = is_none;
  add32 = lift (λ x y. x + y);
}
