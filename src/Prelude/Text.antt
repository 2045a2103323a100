-- ===== src/Prelude/Text.antt =====
-- The texts that `fmt.Errorf` and `fmt.Sprintf` build, as the pieces of their format: the words of
-- the format string and the values that its verbs render. How `fmt` renders a value is left open.
use llm_gateway_platform.Prelude.{ℕ, String, List, [], ◌∷◌}

pub data Piece : Type 0 where
  words : String → Piece  -- the format's own text, and `%s`
  quoted : String → Piece  -- %q
  number : ℕ → Piece  -- %d

abbrev pub Text : Type 0
Text = List Piece

-- A plain string as a text.
abbrev pub plain : String → Text
plain s = words s ∷ []
