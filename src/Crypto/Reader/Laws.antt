-- ===== src/Crypto/Reader/Laws.antt =====
-- What the reader makes of what the writer wrote, and of other input.
use connexia.Common.{
  ℕ, ◌+◌, ◌≤◌, ◌<◌, ◌≡◌, refl, ◌∙◌, ap, some, List, [], ◌∷◌, ◌++◌, append_assoc, length, take, drop,
  arith, length-append, length-take, length-drop, take-append_left, drop-append_left, ◌==◌, ==_iff,
  inl, inr, Option-cases, true, drop-drop,
}
use connexia.Crypto.Concat.{Bytes}
use connexia.Crypto.Writer
use connexia.Crypto.Writer.{be32, bytes_of}
use connexia.Crypto.Writer.Laws.{field, length-be32, bytes_of-string}
use connexia.Crypto.Reader.{Reader, get_be32, uint32, read_body, string}

-- The reader stands in front of `rest`.
abbrev pub At : Reader → Bytes → Type 0
At r rest = drop r.offset r.bytes ≡ rest

At-add :
    (r : Reader) (xs rest : Bytes)
    → At r (xs ++ rest)
    → At (record r { offset = r.offset + length xs }) rest
At-add r xs rest h = drop-drop r.offset (length xs) r.bytes ∙ (rw h (drop-append_left xs rest))

get_be32-be32 : (n : ℕ) (rest : Bytes) → n < 4294967296 → get_be32 (be32 n ++ rest) ≡ some n
unfolding get_be32 be32
get_be32-be32 n rest h = ap some (omega arith)

-- A number below 2^32 comes back, and the reader stands behind it.
pub uint32-be32 :
    (r : Reader) (n : ℕ) (rest : Bytes)
    → n < 4294967296
    → At r (be32 n ++ rest)
    → (r' : Reader) × (uint32 r ≡ some (n, r')) × At r' rest
unfolding uint32
uint32-be32 r n rest h at = (
  record r { offset = r.offset + 4 },
  rw (at, get_be32-be32 n rest h, uint32),
  rw length-be32 at (At-add r (be32 n) rest at),
)

length_self : (xs : Bytes) → (length xs == length xs) ≡ true
length_self xs = (==_iff (length xs) (length xs)).1 refl

read_body_lem :
    (r : Reader) (b rest : Bytes)
    → At r (b ++ rest)
    → read_body (length b) r ≡ some (b, record r { offset = r.offset + length b })
unfolding read_body
read_body_lem r b rest at = rw (at, take-append_left b rest, length_self b)

-- A string of fewer than 2^32 bytes comes back, and the reader stands behind it.
pub string-field :
    (r : Reader) (b rest : Bytes)
    → length b < 4294967296
    → At r (field b ++ rest)
    → (r' : Reader) × (string r ≡ some (b, r')) × At r' rest
unfolding string
string-field r b rest h at =
    let (r', e, at') =
      uint32-be32 r (length b) (b ++ rest) h (at ∙ append_assoc (be32 (length b)) b rest) in
    (
      record r' { offset = r'.offset + length b },
      rw (e, string) (read_body_lem r' b rest at'),
      At-add r' b rest at',
    )

string-At :
    (r : Reader) (b rest : Bytes)
    → length b < 4294967296
    → At r (field b ++ rest)
    → string r ≡ some (b, record r { offset = r.offset + 4 + length b })
unfolding string uint32
string-At r b rest h at =
    let at' : At r (be32 (length b) ++ (b ++ rest)) = at ∙ append_assoc (be32 (length b)) b rest in
    rw (string, uint32, at', get_be32-be32 (length b) (b ++ rest) h)
      (read_body_lem (record r { offset = r.offset + 4 }) b rest
        (rw length-be32 at (At-add r (be32 (length b)) (b ++ rest) at')))

-- What `SshWriter.string` writes behind any other parts, a body of fewer than 2^32 bytes,
-- `SshReader.string` reads back from that place, whatever follows, and the reader stands behind it.
pub string-bytes_of :
    (parts : List Bytes) (b rest : Bytes)
    → length b < 4294967296
    → string (record {
      bytes = bytes_of (Writer.string parts b) ++ rest;
      offset = length (bytes_of parts);
    })
      ≡ some (
        b,
        record {
          bytes = bytes_of (Writer.string parts b) ++ rest;
          offset = length (bytes_of (Writer.string parts b));
        },
      )
string-bytes_of parts b rest h =
    let text = bytes_of (Writer.string parts b) ++ rest in
    let at : drop (length (bytes_of parts)) text ≡ field b ++ rest =
      rw (bytes_of-string parts b, append_assoc (bytes_of parts) (field b) rest)
        (drop-append_left (bytes_of parts) (field b ++ rest)) in
    let place : length (bytes_of parts) + 4 + length b ≡ length (bytes_of (Writer.string parts b)) =
      rw (bytes_of-string parts b) (
        omega (
          arith,
          length-append (bytes_of parts) (field b),
          length-append (be32 (length b)) b,
          length-be32 (length b),
        )) in
    string-At (record { bytes = text; offset = length (bytes_of parts) }) b rest h at
    ∙ ap (λ n. some (b, record { bytes = text; offset = n })) place

get_be32-some : (bs : Bytes) {n : ℕ} → get_be32 bs ≡ some n → 4 ≤ length bs
unfolding get_be32
get_be32-some [] h = cc
get_be32-some (a ∷ []) h = cc
get_be32-some (a ∷ b ∷ []) h = cc
get_be32-some (a ∷ b ∷ c ∷ []) h = cc
get_be32-some (a ∷ b ∷ c ∷ d ∷ rest) h = omega arith

uint32_bounds :
    (r : Reader) (n : ℕ) (r' : Reader)
    → uint32 r ≡ some (n, r')
    → (r' ≡ record r { offset = r.offset + 4 }) × (r.offset + 4 ≤ length r.bytes)
unfolding uint32
uint32_bounds r n r' h =
    ground (arith, get_be32-some (drop r.offset r.bytes), length-drop r.offset r.bytes)

read_body_bounds :
    (n : ℕ) (r : Reader) (b : Bytes) (r' : Reader)
    → r.offset ≤ length r.bytes
    → read_body n r ≡ some (b, r')
    → (r' ≡ record r { offset = r.offset + length b })
      × (r.offset + length b ≤ length r.bytes)
      × (b ≡ take (length b) (drop r.offset r.bytes))
unfolding read_body
read_body_bounds n r b r' fits h =
    ground (arith, length-take n (drop r.offset r.bytes), length-drop r.offset r.bytes)

-- A string that is read lies within the input, behind its four bytes of length, and is not cut
-- short, whatever length the input claims.
pub string_bounds :
    (r : Reader) (b : Bytes) (r' : Reader)
    → string r ≡ some (b, r')
    → (r'.bytes ≡ r.bytes)
      × (r'.offset ≡ r.offset + 4 + length b)
      × (r'.offset ≤ length r.bytes)
      × (b ≡ take (length b) (drop (r.offset + 4) r.bytes))
unfolding string
string_bounds r b r' h = elim (Option-cases (uint32 r)) [
  | inl e ↦ absurd (cc (rw (e, string) at h))
  | inr ((n, r1), e) ↦
      ground (arith, uint32_bounds r n r1 e, read_body_bounds n r1 b r', rw (e, string) at h)
]
