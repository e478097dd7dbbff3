-- ===== src/Base/Strings.antt =====
-- The functions of the package strings that the program calls.
use openclaw_cortex.Base.{String, Bool, List}

pub record Strings : Type 0 where
  pub to_lower : String → String
  pub to_upper : String → String
  pub fields : String → List String
  pub contains : String → String → Bool
  pub trim_space : String → String
