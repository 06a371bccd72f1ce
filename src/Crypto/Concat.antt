-- ===== src/Crypto/Concat.antt =====
-- `concat` of crypto.js (server/internal/web/static/js/dashboard/crypto.js). A `Uint8Array` is a
-- list of numbers below 256.
use native.Mathlib.Nat.{zero-add, suc-add}
use connexia.Common.{
  ℕ, zero, suc, ◌+◌, ◌≡◌, refl, sym, ◌∙◌, List, [], ◌∷◌, ◌++◌, append_assoc, length, take, drop,
  replicate, flatten, length-append, length-replicate, take-append_left, arith, Option, none, some,
  ltb, if◌then◌else◌, ap, false,
}

abbrev pub Bytes : Type 0
Bytes = List ℕ

-- `out.set(part, offset)`: the bytes from `offset` on are overwritten. `none` is the `RangeError` for
-- a part that does not fit.
set_from : Bytes → ℕ → Bytes → Option Bytes
set_from out offset part =
    if ltb (length out) (offset + length part)
    then none
    else some (take offset out ++ (part ++ drop (offset + length part) out))

-- The `reduce` that sizes the result.
total : List Bytes → ℕ
total [] = 0
total (p ∷ ps) = length p + total ps

-- The loop: `out.set(part, offset); offset += part.length`.
fill_parts : Bytes → ℕ → List Bytes → Option Bytes
fill_parts out offset [] = some out
fill_parts out offset (p ∷ ps) = elim (set_from out offset p) [
  | none ↦ none
  | some out' ↦ fill_parts out' (offset + length p) ps
]

-- `concat`, which gives an array or throws.
unfoldable pub try_concat : List Bytes → Option Bytes
unfolding set_from total fill_parts
try_concat parts = fill_parts (replicate (total parts) 0) 0 parts

-- `concat` where it is called: the array, for it never throws.
unfoldable pub concat : List Bytes → Bytes
unfolding try_concat
concat parts = elim (try_concat parts) [ none ↦ [] | some out ↦ out ]

drop-append {ℓ} :
    {A : Type ℓ} (xs ys : List A) (n : ℕ) → drop (length xs + n) (xs ++ ys) ≡ drop n ys
drop-append [] ys n = rw zero-add
drop-append (x ∷ xs) ys n = rw suc-add (drop-append xs ys n)

drop-replicate : (n m : ℕ) → drop n (replicate {A = ℕ} (n + m) 0) ≡ replicate m 0
drop-replicate zero m = rw zero-add
drop-replicate (suc n) m = rw suc-add (drop-replicate n m)

-- Writing behind what is done leaves that, and takes the room from the zeros.
set_from-replicate :
    (done p : Bytes) (m : ℕ)
    → set_from (done ++ replicate (length p + m) 0) (length done) p
      ≡ some ((done ++ p) ++ replicate m 0)
unfolding set_from
set_from-replicate done p m =
    rw
      (
        fits,
        take-append_left done (replicate (length p + m) 0),
        drop-append done (replicate (length p + m) 0) (length p),
        drop-replicate (length p) m,
      )
      (ap some (sym (append_assoc done p (replicate m 0))))
  where
    fits : ltb (length (done ++ replicate (length p + m) 0)) (length done + length p) ≡ false
    fits = ground (
      arith,
      length-append done (replicate (length p + m) 0),
      length-replicate (length p + m) zero,
    )

fill_parts-append :
    (done : Bytes) (n : ℕ) (ps : List Bytes)
    → n ≡ length done
    → fill_parts (done ++ replicate (total ps) 0) n ps ≡ some (done ++ flatten ps)
unfolding fill_parts total
fill_parts-append done n [] e = refl
fill_parts-append done n (p ∷ ps) e =
    rw (e, fill_parts, set_from-replicate done p (total ps))
      (fill_parts-append (done ++ p) (n + length p) ps
          (ap (λ k. k + length p) e ∙ sym (length-append done p))
        ∙ ap some (append_assoc done p (flatten ps)))

-- No part is out of range, so nothing is thrown, and the result is the parts one behind the other:
-- nothing is overwritten, and no byte is left over.
pub try_concat-flatten : (parts : List Bytes) → try_concat parts ≡ some (flatten parts)
unfolding try_concat
try_concat-flatten parts = fill_parts-append [] 0 parts refl

pub concat-flatten : (parts : List Bytes) → concat parts ≡ flatten parts
unfolding concat
concat-flatten parts = rw (concat, try_concat-flatten parts) refl
