-- ===== src/Crypto/PrivateKey/Pem.antt =====
-- The text form of a key: lines of 70 characters between two marks.
use mathlib.Core.Path.{ap₂}
use connexia.Common.{
  ℕ, zero, suc, ◌≤◌, ◌≡◌, ◌≢◌, refl, sym, ◌∙◌, ap, Bool, true, not, some, List, [], ◌∷◌, ◌++◌,
  append-nil, append_assoc, length, take, drop, filter, All, All-append, Text, codes, cut,
  cut-append, is_space, arith, take-append-drop, length-drop, ◌>>=◌,
}
use connexia.Crypto.Platform.{is_base64}
use connexia.Crypto.PrivateKey.{begin_mark, end_mark, lines_of, join_lines, pem_text, pem_body}

abbrev IsBase64 : Text → Type 0
IsBase64 = All (λ c. is_base64 c ≡ true)

-- Base64 has no white space, and no dash.
base64-keeps : (c : ℕ) → is_base64 c ≡ true → not (is_space c) ≡ true
unfolding is_space
base64-keeps c h = ground arith

base64-ne-dash : (c : ℕ) → is_base64 c ≡ true → c ≢ b'-'
base64-ne-dash c h e = ground arith

filter-append :
    (test : ℕ → Bool) (xs ys : Text) → filter test (xs ++ ys) ≡ filter test xs ++ filter test ys
filter-append test [] ys = refl
filter-append test (x ∷ xs) ys = ground (arith, filter-append test xs ys)

filter-base64 : (t : Text) → IsBase64 t → filter (λ c. not (is_space c)) t ≡ t
filter-base64 [] h = refl
filter-base64 (c ∷ cs) h = rw (base64-keeps c h.0, filter-base64 cs h.1)

IsBase64-take : (n : ℕ) (t : Text) → IsBase64 t → IsBase64 (take n t)
IsBase64-take zero t h = tt
IsBase64-take (suc n) [] h = tt
IsBase64-take (suc n) (c ∷ cs) h = (h.0, IsBase64-take n cs h.1)

IsBase64-drop : (n : ℕ) (t : Text) → IsBase64 t → IsBase64 (drop n t)
IsBase64-drop zero t h = h
IsBase64-drop (suc n) [] h = tt
IsBase64-drop (suc n) (c ∷ cs) h = IsBase64-drop n cs h.1

-- The lines hold base64, and are the text again when the line ends are taken out.
abbrev strip : Text → Text
strip t = filter (λ c. not (is_space c)) t

strip-nil : strip (join_lines []) ≡ []
unfolding join_lines
strip-nil = refl

strip-join_lines-cons :
    (line : Text) (ls : List Text)
    → strip (join_lines (line ∷ ls)) ≡ strip line ++ strip (join_lines ls)
unfolding join_lines is_space
strip-join_lines-cons line [] = sym (append-nil (strip line))
strip-join_lines-cons line (next ∷ rest) = filter-append _ line (10 ∷ join_lines (next ∷ rest))

strip-join_lines :
    (fuel : ℕ) (t : Text) → length t ≤ fuel → IsBase64 t → strip (join_lines (lines_of fuel t)) ≡ t
unfolding lines_of
strip-join_lines zero [] h b = strip-nil
strip-join_lines zero (c ∷ cs) h b = absurd (omega arith)
strip-join_lines (suc fuel) [] h b = strip-nil
strip-join_lines (suc fuel) (c ∷ cs) h b =
    strip-join_lines-cons (take 70 (c ∷ cs)) (lines_of fuel (drop 70 (c ∷ cs)))
    ∙ ap₂ ◌++◌ (filter-base64 (take 70 (c ∷ cs)) (IsBase64-take 70 (c ∷ cs) b)) (
        strip-join_lines fuel (drop 70 (c ∷ cs)) (omega (arith, length-drop 70 (c ∷ cs)))
          (IsBase64-drop 70 (c ∷ cs) b))
    ∙ take-append-drop 70 (c ∷ cs)

base64-NoDash : (t : Text) → IsBase64 t → All (λ c. c ≢ b'-') t
base64-NoDash [] h = tt
base64-NoDash (c ∷ cs) h = (base64-ne-dash c h.0, base64-NoDash cs h.1)

join_lines-cons-no-dash :
    (line : Text) (ls : List Text)
    → All (λ c. c ≢ b'-') line
    → All (λ c. c ≢ b'-') (join_lines ls)
    → All (λ c. c ≢ b'-') (join_lines (line ∷ ls))
unfolding join_lines
join_lines-cons-no-dash line [] h k = h
join_lines-cons-no-dash line (next ∷ rest) h k =
    All-append (λ c. c ≢ b'-') line (10 ∷ join_lines (next ∷ rest)) h (omega arith, k)

join_lines-no-dash :
    (fuel : ℕ) (t : Text) → IsBase64 t → All (λ c. c ≢ b'-') (join_lines (lines_of fuel t))
unfolding lines_of join_lines
join_lines-no-dash zero t b = tt
join_lines-no-dash (suc fuel) [] b = tt
join_lines-no-dash (suc fuel) (c ∷ cs) b =
    join_lines-cons-no-dash (take 70 (c ∷ cs)) (lines_of fuel (drop 70 (c ∷ cs)))
      (base64-NoDash (take 70 (c ∷ cs)) (IsBase64-take 70 (c ∷ cs) b))
      (join_lines-no-dash fuel (drop 70 (c ∷ cs)) (IsBase64-drop 70 (c ∷ cs) b))

-- The body between the marks: what `join` gave, with a line end before and behind.
abbrev between : Text → Text
between joined = 10 ∷ (joined ++ 10 ∷ [])

cut-begin : (rest : Text) → cut begin_mark (begin_mark ++ rest) ≡ some ([], rest)
cut-begin rest = cut-append b'-' (codes "----BEGIN OPENSSH PRIVATE KEY-----") [] rest tt

cut-end :
    (joined rest : Text)
    → All (λ c. c ≢ b'-') joined
    → cut end_mark (10 ∷ (joined ++ (10 ∷ (end_mark ++ rest)))) ≡ some (between joined, rest)
cut-end joined rest h =
    ap (λ (t : Text). cut end_mark (10 ∷ t))
      (sym (append_assoc joined (10 ∷ []) (end_mark ++ rest)))
    ∙ cut-append b'-' (codes "----END OPENSSH PRIVATE KEY-----") (between joined) rest
        (omega arith, All-append (λ c. c ≢ b'-') joined (10 ∷ []) h (omega arith, tt))

strip-between : (joined : Text) → strip (between joined) ≡ strip joined
unfolding is_space
strip-between joined = filter-append _ joined (10 ∷ []) ∙ append-nil (strip joined)

pem_body_lem :
    (joined rest : Text)
    → All (λ c. c ≢ b'-') joined
    → pem_body (begin_mark ++ (10 ∷ (joined ++ (10 ∷ (end_mark ++ rest))))) ≡ some (between joined)
unfolding pem_body
pem_body_lem joined rest h = rw (cut-begin, ◌>>=◌) (rw (cut-end joined rest h, ◌>>=◌))

-- What stands between the marks of a wrapped text is that text, over lines; white space aside, it
-- is the text itself.
pub pem_body-pem_text :
    (c : ℕ) (cs : Text)
    → All (λ c'. is_base64 c' ≡ true) (c ∷ cs)
    → (pem : Text) × (body : Text) × (pem_text (c ∷ cs) ≡ some pem)
      × (pem_body pem ≡ some body)
      × (filter (λ c'. not (is_space c')) body ≡ c ∷ cs)
unfolding pem_text
pem_body-pem_text c cs b =
    let joined = join_lines (lines_of (length (c ∷ cs)) (c ∷ cs)) in
    (
      _,
      between joined,
      refl,
      pem_body_lem joined _ (join_lines-no-dash _ (c ∷ cs) b),
      strip-between joined ∙ strip-join_lines (length (c ∷ cs)) (c ∷ cs) (omega arith) b,
    )
