-- ===== src/Common/Numbers.antt =====
-- Numbers as JavaScript reads and prints them.
use Prim.Native.Nat.{ℕ, zero, suc, ◌+◌, ◌-◌, ◌*◌, ◌/◌, ◌%◌, ◌≤◌, ◌<◌}
use mathlib.Core.Path.{◌≡◌, refl, sym, ap, ◌∙◌}
use mathlib.Core.Logic.{inl, inr}
use mathlib.Core.Bool.{Bool, true, false, ◌&&◌}
use mathlib.Core.List.{[], ◌∷◌, ◌++◌, reverse}
use native.Mathlib.Omega.{arith}
use connexia.Common.Tests.{◌==◌, leb, ltb, Bool-cases, if◌then◌else◌}
use connexia.Common.Lists.{All, All-append}
use connexia.Common.Texts.{Text, is_space}

unfoldable pub is_digit : ℕ → Bool
is_digit c = leb b'0' c && leb c b'9'

-- The number that the digits at the head of a text spell.
digits_value : ℕ → Text → ℕ
digits_value acc [] = acc
digits_value acc (c ∷ cs) =
    let rest = digits_value (acc * 10 + (c - b'0')) cs in if is_digit c then rest else acc

pub data Parsed : Type 0 where
  not_a_number : Parsed
  negative natural : ℕ → Parsed

parse_digits : (ℕ → Parsed) → Text → Parsed
parse_digits sign [] = not_a_number
parse_digits sign (c ∷ cs) = if is_digit c then sign (digits_value 0 (c ∷ cs)) else not_a_number

parse_signed : Text → Parsed
parse_signed [] = not_a_number
parse_signed (c ∷ cs) =
    if c == b'-'
    then parse_digits negative cs
    else if c == b'+'
    then parse_digits natural cs
    else parse_digits natural (c ∷ cs)

trim_start : Text → Text
trim_start [] = []
trim_start (c ∷ cs) = let rest = trim_start cs in if is_space c then rest else c ∷ cs

-- `parseInt(text, 10)`
unfoldable pub parse_int : Text → Parsed
unfolding is_digit digits_value parse_digits parse_signed trim_start is_space
parse_int text = parse_signed (trim_start text)

-- `text.trim()`
unfoldable pub trim : Text → Text
unfolding trim_start is_space
trim text = reverse (trim_start (reverse (trim_start text)))

-- `String(n)` for a number that is not negative: at most as many digits as the number itself.
digits_of : ℕ → ℕ → Text
digits_of zero n = []
digits_of (suc fuel) n = elim (ltb n 10) [
  | true ↦ (b'0' + n) ∷ []
  | false ↦ digits_of fuel (n / 10) ++ (b'0' + n % 10) ∷ []
]

unfoldable pub decimal : ℕ → Text
unfolding digits_of
decimal n = digits_of (n + 1) n

digits_of-All : (fuel n : ℕ) → All (λ c. is_digit c ≡ true) (digits_of fuel n)
unfolding digits_of is_digit
digits_of-All zero n = tt
digits_of-All (suc fuel) n = elim (Bool-cases (ltb n 10)) [
  | inl e ↦ rw (e, digits_of) (ground arith, tt)
  | inr e ↦
      rw (e, digits_of)
        (All-append (λ c. is_digit c ≡ true) (digits_of fuel (n / 10)) _
          (digits_of-All fuel (n / 10)) (ground arith, tt))
]

-- A decimal is made of digits, whatever is printed.
pub decimal-All : (n : ℕ) → All (λ c. is_digit c ≡ true) (decimal n)
unfolding decimal
decimal-All n = digits_of-All (n + 1) n

plain_value : ℕ → Text → ℕ
plain_value acc [] = acc
plain_value acc (c ∷ cs) = plain_value (acc * 10 + (c - b'0')) cs

plain_value-push :
    (acc : ℕ) (cs : Text) (c : ℕ)
    → plain_value acc (cs ++ c ∷ []) ≡ plain_value acc cs * 10 + (c - b'0')
unfolding plain_value
plain_value-push acc [] c = refl
plain_value-push acc (d ∷ cs) c = plain_value-push (acc * 10 + (d - b'0')) cs c

plain_value-digits_of : (fuel n : ℕ) → n < fuel → plain_value 0 (digits_of fuel n) ≡ n
unfolding digits_of plain_value
plain_value-digits_of zero n h = absurd (omega arith)
plain_value-digits_of (suc fuel) n h = elim (Bool-cases (ltb n 10)) [
  | inl e ↦ rw (e, digits_of) (omega arith)
  | inr e ↦
      let big : 10 ≤ n = ground arith in
      rw (e, digits_of, plain_value-push 0 (digits_of fuel (n / 10)) (b'0' + n % 10))
        (omega (arith, plain_value-digits_of fuel (n / 10) (omega arith)))
]

plain_value-decimal : (n : ℕ) → plain_value 0 (decimal n) ≡ n
unfolding decimal
plain_value-decimal n = plain_value-digits_of (n + 1) n (omega arith)

-- Different numbers are printed differently.
pub decimal-injective : (m n : ℕ) → decimal m ≡ decimal n → m ≡ n
decimal-injective m n h = sym (plain_value-decimal m) ∙ ap (plain_value 0) h ∙ plain_value-decimal n
