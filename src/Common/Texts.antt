-- ===== src/Common/Texts.antt =====
-- JavaScript strings as lists of code units.
use Prim.Native.Nat.{ℕ}
use Prim.Native.Char.{code}
use Prim.Native.String.{String}
use mathlib.Core.Path.{◌≡◌, refl}
use mathlib.Core.Logic.{◌↔◌}
use mathlib.Core.Bool.{Bool, true, false, ◌&&◌, ◌||◌}
use mathlib.Core.Option.{Option, none, some}
use mathlib.Core.List.{List, [], ◌∷◌, ◌++◌}
use native.Mathlib.Omega.{arith}
use mathlib.Core.Logic.{◌≢◌}
use connexia.Common.Tests.{◌==◌, leb, if◌then◌else◌}
use connexia.Common.Lists.{All, length, drop, drop-append_left}

abbrev pub Text : Type 0
Text = List ℕ

-- A literal. `String` has its own `[]` and `∷`.
abbrev pub codes : String → Text
codes String.[] = []
codes (String.◌∷◌ c s) = code c ∷ codes s

-- `a === b`
unfoldable pub same : Text → Text → Bool
same [] [] = true
same [] (b ∷ bs) = false
same (a ∷ as') [] = false
same (a ∷ as') (b ∷ bs) = (a == b) && same as' bs

pub same_iff : (a b : Text) → (same a b ≡ true) ↔ (a ≡ b)
unfolding same
same_iff [] [] = (λ _. refl, λ _. refl)
same_iff [] (b ∷ bs) = (λ h. cc, λ h. cc)
same_iff (a ∷ as') [] = (λ h. cc, λ h. cc)
same_iff (a ∷ as') (b ∷ bs) = ground (arith, same_iff as' bs)

pub same_self : (a : Text) → same a a ≡ true
same_self a = (same_iff a a).1 refl

-- `\s` of a regular expression, and what `trim` removes.
unfoldable pub is_space : ℕ → Bool
is_space c =
    (leb 9 c && leb c 13)
    || (c == 32
        || (c == 160
            || (c == 0x1680
                || ((leb 0x2000 c && leb c 0x200a)
                    || (c == 0x2028
                        || (c == 0x2029
                            || (c == 0x202f || (c == 0x205f || (c == 0x3000 || c == 0xfeff)))))))))

-- `text.startsWith(prefix)`
unfoldable pub starts_with : Text → Text → Bool
starts_with [] text = true
starts_with (p ∷ ps) [] = false
starts_with (p ∷ ps) (c ∷ cs) = (p == c) && starts_with ps cs

-- The text before the first occurrence of a mark, and the text behind it.
unfoldable pub cut : Text → Text → Option (Text × Text)
unfolding starts_with
cut mark [] = if starts_with mark [] then some ([], []) else none
cut mark (c ∷ cs) =
    let rest = cut mark cs in
    if starts_with mark (c ∷ cs)
    then some ([], drop (length mark) (c ∷ cs))
    else elim rest [ none ↦ none | some (before, after) ↦ some (c ∷ before, after) ]

-- `text.includes(word)`
unfoldable pub includes : Text → Text → Bool
unfolding cut
includes text word = elim (cut word text) [ none ↦ false | some found ↦ true ]

starts_with-append : (mark rest : Text) → starts_with mark (mark ++ rest) ≡ true
unfolding starts_with
starts_with-append [] rest = refl
starts_with-append (m ∷ ms) rest = ground (arith, starts_with-append ms rest)

-- A mark whose first character is not in the text before it is found behind that text.
pub cut-append :
    (m : ℕ) (ms before rest : Text)
    → All (λ c. c ≢ m) before
    → cut (m ∷ ms) (before ++ ((m ∷ ms) ++ rest)) ≡ some (before, rest)
unfolding cut starts_with
cut-append m ms [] rest h = ground (arith, starts_with-append ms rest, drop-append_left ms rest)
cut-append m ms (c ∷ cs) rest h = ground (arith, cut-append m ms cs rest h.1, h.0)
