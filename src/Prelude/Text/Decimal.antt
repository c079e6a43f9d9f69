-- ===== src/Prelude/Text/Decimal.antt =====
-- Reading the decimal form of an integer.
use Prim.Native.Nat.{ℕ, zero, suc, ◌+◌, ◌-◌, ◌*◌, ◌/◌, ◌%◌, ◌<◌, ◌≤◌}
use Prim.Native.Char.{Char, code}
use Prim.Native.String.{String, [], ◌∷◌}
use mathlib.Core.Path.{◌≡◌, refl, ap, ◌∙◌}
use mathlib.Core.Bool.{Bool, true, false, ◌&&◌}
use mathlib.Core.Option.{Option, none, some}
use mathlib.Core.Logic.{inl, inr}
use native.Mathlib.Omega.{arith}
use text.Mathlib.TextLemmas.{nil-append, cons-append}
use k8s_operator_template.Prelude.Tests.{ltb, leb, ◌==◌, if◌then◌else◌, Bool-cases}
use k8s_operator_template.Prelude.Int.{ℤ, pos, negsuc}
use k8s_operator_template.Prelude.Text.{digit, decimal_from, decimal, to_string, ◌<>◌}

-- What has been read: nothing, a minus sign, a number with at least one digit, or something else.
data Reading : Type 0 where
  nothing : Reading
  minus : Reading
  number : Bool → ℕ → Reading
  other : Reading

abbrev is_digit : Char → Bool
is_digit c = leb 48 (code c) && leb (code c) 57

-- One more digit.
abbrev push : Reading → ℕ → Reading
push nothing d = number false d
push minus d = number true d
push (number sign n) d = number sign (n * 10 + d)
push other d = other

-- A minus sign may come first.
abbrev sign_after : Reading → Reading
sign_after nothing = minus
sign_after _ = other

abbrev next : Reading → Char → Reading
next r c = if code c == 45 then sign_after r else if is_digit c then push r (code c - 48) else other

read_from : Reading → String → Reading
read_from r [] = r
read_from r (c ∷ s) = read_from (next r c) s

abbrev signed : Bool → ℕ → ℤ
signed true (suc n) = negsuc n
signed _ n = pos n

abbrev shown : Reading → Option ℤ
shown (number sign n) = some (signed sign n)
shown _ = none

-- The integer that a text shows, if it is an optional minus sign and then decimal digits.
pub read_int : String → Option ℤ
unfolding read_from
read_int s = shown (read_from nothing s)

read_int_tests :
    (read_int "-120" ≡ some (negsuc 119))
    × (read_int "+7" ≡ none)
    × (read_int "" ≡ none)
    × (read_int "1-" ≡ none)
unfolding read_int read_from
read_int_tests = (refl, refl, refl, refl)

digit_read : (r : Reading) (d : ℕ) → d < 10 → read_from r (digit d) ≡ push r d
unfolding read_from digit
digit_read r zero h = refl
digit_read r (suc zero) h = refl
digit_read r (suc (suc zero)) h = refl
digit_read r (suc (suc (suc zero))) h = refl
digit_read r (suc (suc (suc (suc zero)))) h = refl
digit_read r (suc (suc (suc (suc (suc zero))))) h = refl
digit_read r (suc (suc (suc (suc (suc (suc zero)))))) h = refl
digit_read r (suc (suc (suc (suc (suc (suc (suc zero))))))) h = refl
digit_read r (suc (suc (suc (suc (suc (suc (suc (suc zero)))))))) h = refl
digit_read r (suc (suc (suc (suc (suc (suc (suc (suc (suc zero))))))))) h = refl
digit_read r (suc (suc (suc (suc (suc (suc (suc (suc (suc (suc d)))))))))) h =
    absurd (omega (arith, h))

-- One more digit at the end.
append_read :
    (r : Reading) (s : String) (d : ℕ)
    → d < 10
    → read_from r (s <> digit d) ≡ push (read_from r s) d
unfolding read_from
append_read r [] d h = ap (read_from r) (nil-append (digit d)) ∙ digit_read r d h
append_read r (c ∷ s) d h =
    ap (read_from r) (cons-append c s (digit d)) ∙ append_read (next r c) s d h

small_lt : (n : ℕ) → ltb n 10 ≡ true → n < 10
small_lt n h = ground arith

large_le : (n : ℕ) → ltb n 10 ≡ false → 10 ≤ n
large_le n h = ground arith

-- Before the first digit of a number.
abbrev opening : Bool → Reading
opening false = nothing
opening true = minus

push-opening : (sign : Bool) (n : ℕ) → push (opening sign) n ≡ number sign n
push-opening false n = refl
push-opening true n = refl

module _ (sign : Bool) where
  decimal_from_read :
      (fuel n : ℕ) → n < fuel → read_from (opening sign) (decimal_from fuel n) ≡ number sign n
  unfolding decimal_from
  decimal_from_read zero n h = absurd (omega (arith, h))
  decimal_from_read (suc fuel) n h = elim (Bool-cases (ltb n 10)) [
    | inl small ↦ rw small (digit_read (opening sign) n (small_lt n small) ∙ push-opening sign n)
    | inr large ↦
        let few : n / 10 < fuel = omega (arith, h, large_le n large) in
        let higher = decimal_from_read fuel (n / 10) few in
        rw large (
          append_read (opening sign) (decimal_from fuel (n / 10)) (n % 10) (omega arith)
          ∙ ap (λ (t : Reading). push t (n % 10)) higher
          ∙ ap (number sign) (omega arith))
  ]

  decimal_read : (n : ℕ) → read_from (opening sign) (decimal n) ≡ number sign n
  unfolding decimal
  decimal_read n = decimal_from_read (suc n) n (omega arith)

-- The decimal form of an integer, read back, is the integer.
pub read_int-to_string : (n : ℤ) → read_int (to_string n) ≡ some n
unfolding read_int to_string read_from
read_int-to_string (pos n) = ap shown (decimal_read false n)
read_int-to_string (negsuc n) =
    ap (λ s. shown (read_from nothing s)) (cons-append _ [] (decimal (suc n)))
    ∙ ap (λ s. shown (read_from minus s)) (nil-append (decimal (suc n)))
    ∙ ap shown (decimal_read true (suc n))
