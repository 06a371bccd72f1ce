-- ===== src/Crypto/Writer/Laws.antt =====
-- What a writer's calls add to its bytes, and the two's-complement integers that `mpint` writes.
use Prim.Native.Nat.{bit_and}
use connexia.Common.{
  ℕ, zero, suc, ◌+◌, ◌*◌, ◌≤◌, ◌<◌, ◌≡◌, refl, ◌∙◌, ◌⊎◌, inl, inr, Bool, true, false, ◌&&◌, List,
  [], ◌∷◌, ◌++◌, append-nil, append_assoc, length, All, arith, flatten-append, ltb, ltb→lt, ◌==◌,
  ==_iff, if◌then◌else◌, Bool-cases,
}
use connexia.Crypto.Concat.{Bytes, concat, concat-flatten}
use connexia.Crypto.Writer.{be32, uint32, string, raw, strip_zeros, sign_pad, mpint, bytes_of}

pub length-be32 : (n : ℕ) → length (be32 n) ≡ 4
unfolding be32
length-be32 n = refl

pub be32-IsBytes : (n : ℕ) → All (λ b. b < 256) (be32 n)
unfolding be32
be32-IsBytes n = omega arith

bytes_of-push : (parts : List Bytes) (b : Bytes) → bytes_of (parts ++ b ∷ []) ≡ bytes_of parts ++ b
unfolding bytes_of
bytes_of-push parts b = rw (concat-flatten, concat-flatten, flatten-append) (simp append-nil)

pub bytes_of-uint32 :
    (parts : List Bytes) (n : ℕ) → bytes_of (uint32 parts n) ≡ bytes_of parts ++ be32 n
unfolding uint32
bytes_of-uint32 parts n = bytes_of-push parts (be32 n)

pub bytes_of-raw : (parts : List Bytes) (b : Bytes) → bytes_of (raw parts b) ≡ bytes_of parts ++ b
unfolding raw
bytes_of-raw parts b = bytes_of-push parts b

-- The length goes before the bytes.
abbrev pub field : Bytes → Bytes
field b = be32 (length b) ++ b

pub bytes_of-string :
    (parts : List Bytes) (b : Bytes) → bytes_of (string parts b) ≡ bytes_of parts ++ field b
unfolding string
bytes_of-string parts b =
    rw (bytes_of-push, bytes_of-uint32) (append_assoc (bytes_of parts) (be32 (length b)) b)

pub bytes_of-nil : bytes_of [] ≡ []
unfolding bytes_of
bytes_of-nil = concat-flatten []

-- The number that big-endian bytes stand for.
abbrev pub value : ℕ → Bytes → ℕ
value acc [] = acc
value acc (b ∷ bs) = value (acc * 256 + b) bs

-- The shortest form of a positive number: no leading zero that is not needed for the sign, and the
-- sign bit clear.
abbrev pub IsMinimal : Bytes → Type 0
IsMinimal [] = Unit
IsMinimal (b ∷ []) = (0 < b) × (b < 128)
IsMinimal (b ∷ c ∷ bs) = (b < 128) × (b ≡ 0 → 128 ≤ c)

value-strip_zeros : (bs : Bytes) → value 0 (strip_zeros bs) ≡ value 0 bs
unfolding strip_zeros
value-strip_zeros [] = refl
value-strip_zeros (b ∷ []) = refl
value-strip_zeros (b ∷ c ∷ bs) = ground (arith, value-strip_zeros (c ∷ bs), ==_iff b 0)

-- No two leading bytes of what is left begin with a zero.
abbrev IsStripped : Bytes → Type 0
IsStripped [] = Unit
IsStripped (b ∷ []) = Unit
IsStripped (b ∷ c ∷ bs) = 0 < b

strip_zeros-IsStripped : (bs : Bytes) → IsStripped (strip_zeros bs)
unfolding strip_zeros
strip_zeros-IsStripped [] = tt
strip_zeros-IsStripped (b ∷ []) = tt
strip_zeros-IsStripped (b ∷ c ∷ bs) = elim (Bool-cases (b == 0)) [
  | inl e ↦ rw e (strip_zeros-IsStripped (c ∷ bs))
  | inr e ↦ rw e (ground arith)
]

strip_zeros-All : (bs : Bytes) → All (λ b. b < 256) bs → All (λ b. b < 256) (strip_zeros bs)
unfolding strip_zeros
strip_zeros-All [] h = tt
strip_zeros-All (b ∷ []) h = h
strip_zeros-All (b ∷ c ∷ bs) h = elim (Bool-cases (b == 0)) [
  | inl e ↦ rw e (strip_zeros-All (c ∷ bs) h.1)
  | inr e ↦ rw e h
]

and_left : (x y : Bool) → (x && y) ≡ true → x ≡ true
and_left true y h = refl
and_left false y h = h

and_right : (x y : Bool) → (x && y) ≡ true → y ≡ true
and_right true y h = h
and_right false y h = cc

abbrev top_bit_agrees : ℕ → Bool
top_bit_agrees b = if bit_and b 0x80 == 0 then ltb b 128 else ltb 127 b

-- Whether the test agrees with the order on the bytes below a bound.
agrees_to : ℕ → Bool
agrees_to zero = true
agrees_to (suc bound) = agrees_to bound && top_bit_agrees bound

agrees_to_lem : (b bound : ℕ) → b < bound → agrees_to bound ≡ true → top_bit_agrees b ≡ true
unfolding agrees_to
agrees_to_lem b zero lt h = absurd (omega arith)
agrees_to_lem b (suc bound) lt h = elim (Bool-cases (b == bound)) [
  | inl e ↦ rw ((==_iff b bound).0 e) (and_right (agrees_to bound) _ h)
  | inr e ↦ agrees_to_lem b bound (ground arith) (and_left (agrees_to bound) _ h)
]

top_bit : (b : ℕ) → b < 256 → top_bit_agrees b ≡ true
unfolding agrees_to
top_bit b h = agrees_to_lem b 256 h refl

sign_pad-flat : (b : ℕ) (bs : Bytes) → concat ((0 ∷ []) ∷ (b ∷ bs) ∷ []) ≡ 0 ∷ b ∷ bs
sign_pad-flat b bs = concat-flatten ((0 ∷ []) ∷ (b ∷ bs) ∷ []) ∙ simp append-nil

value-sign_pad : (bs : Bytes) → value 0 (sign_pad bs) ≡ value 0 bs
unfolding sign_pad
value-sign_pad [] = refl
value-sign_pad (b ∷ bs) = elim (Bool-cases (bit_and b 0x80 == 0)) [
  | inl e ↦ rw e
  | inr e ↦ rw (e, sign_pad-flat b bs)
]

abbrev TopClear : ℕ → Type 0
TopClear b = (b < 128) × ((bit_and b 0x80 == 0) ≡ true)

abbrev TopSet : ℕ → Type 0
TopSet b = (128 ≤ b) × ((bit_and b 0x80 == 0) ≡ false)

top_bit_cases : (b : ℕ) → b < 256 → TopClear b ⊎ TopSet b
top_bit_cases b h = elim (Bool-cases (bit_and b 0x80 == 0)) [
  | inl e ↦ inl (ltb→lt b 128 (rw e at (top_bit b h)), e)
  | inr e ↦ inr (ltb→lt 127 b (rw e at (top_bit b h)), e)
]

sign_pad-IsMinimal :
    (bs : Bytes) → All (λ b. b < 256) bs → 0 < value 0 bs → IsStripped bs → IsMinimal (sign_pad bs)
unfolding sign_pad
sign_pad-IsMinimal [] h v s = tt
sign_pad-IsMinimal (b ∷ []) h v s = elim (top_bit_cases b h.0) [
  | inl (small, e) ↦ rw e (omega arith, small)
  | inr (large, e) ↦ rw (e, sign_pad-flat b []) (omega arith, λ _. large)
]
sign_pad-IsMinimal (b ∷ c ∷ bs) h v s = elim (top_bit_cases b h.0) [
  | inl (small, e) ↦ rw e (small, λ z. absurd (omega arith))
  | inr (large, e) ↦ rw (e, sign_pad-flat b (c ∷ bs)) (omega arith, λ _. large)
]

-- `mpint` writes a positive number, given as bytes with any leading zeros, as a string of the same
-- value that is not negative and as short as can be. (Zero is written as one zero byte.)
pub mpint_canonical :
    (parts : List Bytes) (bs : Bytes)
    → All (λ b. b < 256) bs
    → 0 < value 0 bs
    → (body : Bytes) × (bytes_of (mpint parts bs) ≡ bytes_of parts ++ field body)
      × (value 0 body ≡ value 0 bs)
      × IsMinimal body
unfolding mpint
mpint_canonical parts bs h v = (
  sign_pad (strip_zeros bs),
  bytes_of-string parts (sign_pad (strip_zeros bs)),
  value-sign_pad (strip_zeros bs) ∙ value-strip_zeros bs,
  sign_pad-IsMinimal (strip_zeros bs) (strip_zeros-All bs h) (rw (value-strip_zeros bs) v)
      (strip_zeros-IsStripped bs),
)

sign_pad-All : (bs : Bytes) → All (λ b. b < 256) bs → All (λ b. b < 256) (sign_pad bs)
unfolding sign_pad
sign_pad-All [] h = tt
sign_pad-All (b ∷ bs) h = elim (Bool-cases (bit_and b 0x80 == 0)) [
  | inl e ↦ rw e h
  | inr e ↦ rw (e, sign_pad-flat b bs) (omega arith, h)
]

pub mpint-string :
    (parts : List Bytes) (bs : Bytes)
    → All (λ b. b < 256) bs
    → (body : Bytes) × (mpint parts bs ≡ string parts body) × All (λ b. b < 256) body
unfolding mpint
mpint-string parts bs h =
    (sign_pad (strip_zeros bs), refl, sign_pad-All (strip_zeros bs) (strip_zeros-All bs h))
