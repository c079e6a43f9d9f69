-- ===== src/UnitTests/Contains.antt =====
-- `str::contains`.
use Prim.Native.Char.{code}
use Prim.Native.String.{String, [], ◌∷◌}
use k8s_operator_template.Prelude.{Bool, true, false, ◌==◌, ◌&&◌, ◌||◌, Option, none, some}

abbrev starts_with : String → String → Bool
starts_with s [] = true
starts_with [] (c ∷ p) = false
starts_with (a ∷ s) (c ∷ p) = code a == code c && starts_with s p

unfoldable pub contains : String → String → Bool
contains [] p = starts_with [] p
contains (a ∷ s) p = starts_with (a ∷ s) p || contains s p

-- `o.unwrap().contains(p)`: a panic fails the test.
abbrev pub unwrap_contains : Option String → String → Bool
unwrap_contains none p = false
unwrap_contains (some s) p = contains s p
