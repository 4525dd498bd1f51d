-- ===== src/Float.antt =====
-- The `float` of the core, with the operations that core/src/jitter_buffer.c and core/src/mixer.c use.
-- Rounding and the special values are those of the target, so the type and its operations are a
-- parameter of what uses them.
use audio_project.Base.{ℕ, Bool}

pub record Floats : Type 1 where
  pub F : Type 0
  pub zero_f : F
  pub one_f : F
  -- 1e-6f
  pub small_f : F
  pub of_int : ℕ → F
  pub add : F → F → F
  pub sub : F → F → F
  pub mul : F → F → F
  pub div : F → F → F
  pub abs : F → F
  pub tanh : F → F
  pub lt : F → F → Bool
