-- ===== src/Common/Split.antt =====
-- `text.split(mark)` for a mark of one character, `parts.join(mark)`, and the text before the last
-- occurrence of a mark.
use Prim.Native.Nat.{ℕ}
use mathlib.Core.Path.{◌≡◌, refl, ap, ◌∙◌}
use mathlib.Core.Logic.{inl, inr}
use mathlib.Core.Bool.{Bool, true, false}
use mathlib.Core.Option.{Option, none, some}
use mathlib.Core.List.{List, [], ◌∷◌, ◌++◌}
use native.Mathlib.Omega.{arith}
use connexia.Common.Tests.{◌==◌, if◌then◌else◌, Bool-cases, ==_iff}
use connexia.Common.Lists.{All}
use connexia.Common.Texts.{Text}

-- A character in front of the first part.
abbrev pub onto_first : ℕ → List Text → List Text
onto_first c [] = (c ∷ []) ∷ []
onto_first c (part ∷ parts) = (c ∷ part) ∷ parts

unfoldable pub split : ℕ → Text → List Text
split mark [] = [] ∷ []
split mark (c ∷ cs) = let rest = split mark cs in if c == mark then [] ∷ rest else onto_first c rest

unfoldable pub join : Text → List Text → Text
join mark [] = []
join mark (part ∷ []) = part
join mark (part ∷ next ∷ parts) = part ++ (mark ++ join mark (next ∷ parts))

-- The text has none of the mark.
abbrev pub Lacks : ℕ → Text → Type 0
Lacks mark = All (λ c. (c == mark) ≡ false)

-- `text.slice(0, text.lastIndexOf(mark))`, where the mark occurs.
unfoldable pub before_last : ℕ → Text → Option Text
before_last mark [] = none
before_last mark (c ∷ cs) = elim (before_last mark cs) [
  | some before ↦ some (c ∷ before)
  | none ↦ if c == mark then some [] else none
]

pub split-Lacks : (mark : ℕ) (text : Text) → Lacks mark text → split mark text ≡ text ∷ []
unfolding split
split-Lacks mark [] h = refl
split-Lacks mark (c ∷ cs) h = rw (h.0, split-Lacks mark cs h.1) refl

pub split-append :
    (mark : ℕ) (text rest : Text)
    → Lacks mark text
    → split mark (text ++ mark ∷ rest) ≡ text ∷ split mark rest
unfolding split
split-append mark [] rest h = ground arith
split-append mark (c ∷ cs) rest h = rw (h.0, split-append mark cs rest h.1) refl

pub before_last-Lacks : (mark : ℕ) (text : Text) → Lacks mark text → before_last mark text ≡ none
unfolding before_last
before_last-Lacks mark [] h = refl
before_last-Lacks mark (c ∷ cs) h = rw (before_last-Lacks mark cs h.1, h.0) refl

pub before_last-append :
    (mark : ℕ) (text rest : Text)
    → Lacks mark rest
    → before_last mark (text ++ mark ∷ rest) ≡ some text
unfolding before_last
before_last-append mark [] rest h = rw (before_last-Lacks mark rest h) (ground arith)
before_last-append mark (c ∷ cs) rest h = rw (before_last-append mark cs rest h) refl

-- Each part lacks the mark that the text is split at.
pub split-All-Lacks : (mark : ℕ) (text : Text) → All (Lacks mark) (split mark text)
unfolding split
split-All-Lacks mark [] = (tt, tt)
split-All-Lacks mark (c ∷ cs) = elim (Bool-cases (c == mark)) [
  | inl e ↦ rw e (tt, split-All-Lacks mark cs)
  | inr e ↦ rw e (onto (split mark cs) (split-All-Lacks mark cs) e)
]
  where
    onto :
        (parts : List Text)
        → All (Lacks mark) parts
        → (c == mark) ≡ false
        → All (Lacks mark) (onto_first c parts)
    onto [] h e = ((e, tt), tt)
    onto (part ∷ parts) h e = ((e, h.0), h.1)

-- A split has a first part.
is_filled : List Text → Bool
is_filled [] = false
is_filled (part ∷ parts) = true

is_filled-onto_first : (c : ℕ) (parts : List Text) → is_filled (onto_first c parts) ≡ true
unfolding is_filled
is_filled-onto_first c [] = refl
is_filled-onto_first c (part ∷ parts) = refl

is_filled-split : (mark : ℕ) (text : Text) → is_filled (split mark text) ≡ true
unfolding is_filled split
is_filled-split mark [] = refl
is_filled-split mark (c ∷ cs) = elim (Bool-cases (c == mark)) [
  | inl e ↦ rw e refl
  | inr e ↦ rw e (is_filled-onto_first c (split mark cs))
]

onto_first-append :
    (c : ℕ) (parts rest : List Text)
    → is_filled parts ≡ true
    → onto_first c (parts ++ rest) ≡ onto_first c parts ++ rest
unfolding is_filled
onto_first-append c [] rest h = ground arith
onto_first-append c (part ∷ parts) rest h = refl

-- One more part behind the last mark.
pub split-push :
    (mark : ℕ) (text part : Text)
    → Lacks mark part
    → split mark (text ++ (mark ∷ part)) ≡ split mark text ++ part ∷ []
unfolding split
split-push mark [] part l = rw ((==_iff mark mark).1 refl, split-Lacks mark part l) refl
split-push mark (c ∷ cs) part l = elim (Bool-cases (c == mark)) [
  | inl e ↦ rw e (ap ([] ∷◌) (split-push mark cs part l))
  | inr e ↦ rw e (
      ap (onto_first c) (split-push mark cs part l)
      ∙ onto_first-append c (split mark cs) (part ∷ []) (is_filled-split mark cs))
]
