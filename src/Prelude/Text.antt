-- ===== src/Prelude/Text.antt =====
-- Texts: `format!` as a concatenation of parts, and the decimal form of an integer (`Display`).
pub mod Decimal
use Prim.Native.Nat.{ℕ, zero, suc, ◌/◌, ◌%◌}
use Prim.Native.String.{String}
use Prim.Native.String
use mathlib.Core.Path.{◌≡◌, refl}
use mathlib.Core.List.{List, [], ◌∷◌}
use k8s_operator_template.Prelude.Tests.{ltb, if◌then◌else◌}
use k8s_operator_template.Prelude.Int.{ℤ, pos, negsuc}

infixl 65 ◌<>◌
abbrev pub ◌<>◌ : String → String → String
s <> t = String.◌++◌ s t

-- The parts of a `format!`, in order.
abbrev pub format : List String → String
format [] = ""
format (s ∷ parts) = s <> format parts

digit : ℕ → String
digit zero = "0"
digit (suc zero) = "1"
digit (suc (suc zero)) = "2"
digit (suc (suc (suc zero))) = "3"
digit (suc (suc (suc (suc zero)))) = "4"
digit (suc (suc (suc (suc (suc zero))))) = "5"
digit (suc (suc (suc (suc (suc (suc zero)))))) = "6"
digit (suc (suc (suc (suc (suc (suc (suc zero))))))) = "7"
digit (suc (suc (suc (suc (suc (suc (suc (suc zero)))))))) = "8"
digit _ = "9"

-- The fuel counts the digits at most; `decimal` gives one more than the number itself.
decimal_from : ℕ → ℕ → String
decimal_from zero n = ""
decimal_from (suc fuel) n =
    let higher = decimal_from fuel (n / 10) in
    if ltb n 10 then digit n else higher <> digit (n % 10)

decimal : ℕ → String
unfolding digit decimal_from
decimal n = decimal_from (suc n) n

-- `i32::to_string`.
unfoldable pub to_string : ℤ → String
unfolding decimal
to_string (pos n) = decimal n
to_string (negsuc n) = "-" <> decimal (suc n)

to_string_tests : (to_string (pos 2050) ≡ "2050") × (to_string (negsuc 11) ≡ "-12")
unfolding to_string
to_string_tests = (refl, refl)
