-- ===== src/Console/Print/Examples.antt =====
-- The theorem on `vcprintf` at a console with text in its buffer, and a format without directives.
use ose.Prelude.{ℕ, ◌≡◌, refl, List, [], ◌∷◌}
use ose.Console.Flush.{Console}
use ose.Console.Print.Text.{fitted}

abbrev message : List ℕ
message = b'U' ∷ b'B' ∷ b'!' ∷ b'\n' ∷ []

abbrev no_string : ℕ → List ℕ
no_string p = []

-- Into a room of four bytes go three characters and a 0.
fitted_short : fitted 4 message ≡ b'U' ∷ b'B' ∷ b'!' ∷ 0 ∷ []
unfolding fitted
fitted_short = refl
