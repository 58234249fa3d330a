-- ===== src/Floats.antt =====
-- Go's `float64` and `float32`, which the language leaves to the machine: the operations that the
-- source uses, as an interface. What a proof needs of them is a hypothesis of the proof.
use self_hosted_anomaly_dete.Common.{ℕ, Bool}

pub record Floats : Type 1 where
  pub F : Type 0
  pub F32 : Type 0
  pub nan : F
  pub is_nan : F → Bool
  pub is_inf : F → Bool
  -- an integer constant or a conversion of a count
  pub of_ℕ : ℕ → F
  pub ◌+F◌ : F → F → F
  pub ◌-F◌ : F → F → F
  pub ◌*F◌ : F → F → F
  pub ◌/F◌ : F → F → F
  pub max_F : F → F → F
  pub abs_F : F → F
  pub sqrt_F : F → F
  pub neg_F : F → F
  pub lt_F : F → F → Bool
  pub le_F : F → F → Bool
  pub eq_F : F → F → Bool
  -- `float32(v)` and `float64(x)`
  pub narrow : F → F32
  pub widen : F32 → F
  pub nan32 : F32
  pub is_nan32 : F32 → Bool
  pub add32 : F32 → F32 → F32
