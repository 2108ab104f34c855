-- ===== src/Floats.antt =====
-- The arithmetic of `float` that the sources use: a parameter, since the hardware does it.
use conan_exiles_teamspeak.Prelude.{Bool}

pub record Floats (F : Type 0) : Type 0 where
  pub less : F → F → Bool
  pub at_most : F → F → Bool
  pub equal : F → F → Bool
  pub add : F → F → F
  pub subtract : F → F → F
  pub multiply : F → F → F
  pub divide : F → F → F
  pub fabsf : F → F
  pub sqrtf : F → F
  pub zero_f : F
  pub one : F
  pub hundred : F
  pub hundredth : F
  pub tiny : F
  pub fifty : F
