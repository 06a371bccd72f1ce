-- ===== src/Metrics/Shell/Quoting.antt =====
-- How a POSIX shell reads what the commands quote.
use connexia.Common.{
  ◌≡◌, refl, ap, ◌∙◌, arith, false, Option, none, some, List, [], ◌∷◌, ◌++◌, append_assoc, Text,
  same, same_self, All, split, split-push, Lacks, ◌==◌, ==_iff, if◌then◌else◌, Bool-cases, inl, inr,
  append-nil, codes, cut, starts_with, ◌&&◌,
}
use connexia.Metrics.Shell.{escape_quotes, sh_quote, here_document, crontab_mark, crontab_script}

pub data Mode : Type 0 where
  bare quoted escaped : Mode

-- A shell word of single quotes and of backslashes outside of them: any other character ends the
-- word, and is given back with what follows it.
unfoldable pub sh_word : Mode → Text → Text → Option (Text × Text)
sh_word bare word [] = some (word, [])
sh_word quoted word [] = none
sh_word escaped word [] = none
sh_word escaped word (c ∷ cs) = sh_word bare (word ++ c ∷ []) cs
sh_word quoted word (c ∷ cs) =
    let out = sh_word bare word cs in
    let on = sh_word quoted (word ++ c ∷ []) cs in if c == 39 then out else on
sh_word bare word (c ∷ cs) =
    let within = sh_word quoted word cs in
    let behind = sh_word escaped word cs in
    if c == 39 then within else if c == 92 then behind else some (word, c ∷ cs)

sh_word-escape_quotes :
    (word value rest : Text)
    → sh_word quoted word (escape_quotes value ++ (39 ∷ rest)) ≡ sh_word bare (word ++ value) rest
unfolding sh_word escape_quotes
sh_word-escape_quotes word [] rest = rw (append-nil word) refl
sh_word-escape_quotes word (c ∷ cs) rest = elim (Bool-cases (c == 39)) [
  | inr e ↦
      rw (e, e)
        (sh_word-escape_quotes (word ++ c ∷ []) cs rest
          ∙ ap (λ w. sh_word bare w rest) (append_assoc word (c ∷ []) cs))
  | inl e ↦
      let is_quote = (==_iff c 39).0 e in
      rw e (
        rw is_quote (
          sh_word-escape_quotes (word ++ 39 ∷ []) cs rest
          ∙ ap (λ w. sh_word bare w rest) (append_assoc word (39 ∷ []) cs)))
]

-- A shell reads a quoted value as that value and nothing more, whatever characters it has, up to
-- the space behind it.
pub sh_word-sh_quote :
    (value rest : Text) → sh_word bare [] (sh_quote value ++ 32 ∷ rest) ≡ some (value, 32 ∷ rest)
unfolding sh_word sh_quote
sh_word-sh_quote value rest =
    rw (append_assoc (escape_quotes value) (39 ∷ []) (32 ∷ rest))
      (sh_word-escape_quotes [] value (32 ∷ rest))

-- The lines of a here-document, up to the first that is the mark.
unfoldable pub here_lines : Text → List Text → Option (List Text)
here_lines mark [] = none
here_lines mark (line ∷ lines) =
    let rest = here_lines mark lines in
    if same line mark then some [] else elim rest [ none ↦ none | some ls ↦ some (line ∷ ls) ]

here_lines-append :
    (mark : Text) (lines rest : List Text)
    → All (λ line. same line mark ≡ false) lines
    → here_lines mark (lines ++ mark ∷ rest) ≡ some lines
unfolding here_lines
here_lines-append mark [] rest h = rw (same_self mark) refl
here_lines-append mark (line ∷ lines) rest h = rw (h.0, here_lines-append mark lines rest h.1) refl

-- The mark of a here-document, behind `<<`, if it is quoted, so that the shell does not expand what
-- follows.
unfoldable pub quoted_mark : Text → Option Text
quoted_mark [] = none
quoted_mark (c ∷ cs) = elim (sh_word bare [] (c ∷ cs)) [
  | none ↦ none
  | some (mark, rest) ↦ if c == 39 && same rest [] then some mark else none
]

-- What a shell makes of a script that is one command with a here-document that it does not expand:
-- the command, and the lines that it is given, up to the mark.
unfoldable pub crontab_input : Text → Option (Text × List Text)
crontab_input script = elim (split 10 script) [
  | [] ↦ none
  | first ∷ lines ↦ elim (cut (codes " <<") first) [
    | none ↦ none
    | some (command, word) ↦ elim (quoted_mark word) [
      | none ↦ none
      | some mark ↦ elim (here_lines mark lines) [
        | none ↦ none
        | some given ↦ some (command, given)
      ]
    ]
  ]
]

-- A shell runs `crontab -` and gives it the lines of the body, unexpanded, all of them and no more,
-- when none of them is the mark of the here-document.
pub crontab_input-crontab_script :
    (body : Text)
    → All (λ line. same line crontab_mark ≡ false) (split 10 body)
    → crontab_input (crontab_script body) ≡ some (codes "crontab - 2>&1", split 10 body)
unfolding crontab_input crontab_script here_document split cut starts_with sh_word quoted_mark same
crontab_input-crontab_script body h =
    rw
      (
        crontab_input,
        split-push 10 body crontab_mark crontab_mark-Lacks,
        here_lines-append crontab_mark (split 10 body) [] h,
      )
      refl
  where
    crontab_mark-Lacks : Lacks 10 crontab_mark
    crontab_mark-Lacks = ground arith
