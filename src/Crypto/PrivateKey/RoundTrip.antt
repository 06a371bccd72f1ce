-- ===== src/Crypto/PrivateKey/RoundTrip.antt =====
-- The public key that `publicKeyFromPrivate` finds in a file of `opensshPrivateKey`.
use connexia.Common.{
  ◌-◌, ◌%◌, ◌<◌, ◌≡◌, refl, ap, some, [], ◌∷◌, ◌++◌, append_assoc, length, length-append,
  All-append, Text, codes, same_self, arith, ◌>>=◌,
}
use connexia.Crypto.Concat.{Bytes}
use connexia.Crypto.Writer.{be32}
use connexia.Crypto.Writer.Laws.{
  field, bytes_of-nil, bytes_of-raw, bytes_of-uint32, bytes_of-string, be32-IsBytes,
}
use connexia.Crypto.Reader.{Reader, reader}
use connexia.Crypto.Reader.Laws.{At, string-field, uint32-be32}
use connexia.Crypto.Platform.{Platform, Documented, IsBytes, IsAscii}
use connexia.Crypto.Base64.Laws.{bytes_to_b64-btoa, b64_to_bytes-bytes_to_b64}
use connexia.Crypto.PrivateKey.{
  magic, pem_wrap, private_section, padded, key_file, openssh_private_key, openssh_body,
  read_public_key, public_key_from_private,
}
use connexia.Crypto.PrivateKey.Padding.{count_from-IsBytes, padded_lem}
use connexia.Crypto.PrivateKey.Pem.{pem_body-pem_text}

abbrev none_text : Text
none_text = codes "none"

-- What follows the magic bytes in a key file.
abbrev fields_of : Bytes → Bytes → Bytes
fields_of blob body =
    field none_text ++ (field none_text ++ (field [] ++ (be32 1 ++ (field blob ++ field body))))

pub field-IsBytes : (b : Bytes) → IsBytes b → IsBytes (field b)
field-IsBytes b h = All-append (λ x. x < 256) (be32 (length b)) b (be32-IsBytes (length b)) h

module _ (p : Platform) (d : Documented p) where
  encode-magic : p.encode magic ≡ magic
  encode-magic = d.encode-IsAscii magic (omega arith)

  encode-none : p.encode none_text ≡ none_text
  encode-none = d.encode-IsAscii none_text (omega arith)

  key_file_lem : (blob body : Bytes) → key_file p blob body ≡ magic ++ fields_of blob body
  unfolding key_file
  key_file_lem blob body =
      rw (encode-magic, encode-none)
        (simp (bytes_of-string, bytes_of-uint32, bytes_of-raw, bytes_of-nil, append_assoc))

  -- A key file is read from behind its magic bytes.
  read_public_key_lem :
      (r : Reader) (blob body kind rest : Bytes)
      → At r (fields_of blob body)
      → length blob < 4294967296
      → blob ≡ field kind ++ rest
      → IsAscii kind
      → read_public_key p r ≡ some (kind ++ (32 ∷ p.btoa blob))
  unfolding read_public_key
  read_public_key_lem r blob body kind rest at fits e ascii =
      let (r1, e1, a1) = string-field r none_text _ (omega arith) at in
      let (r2, e2, a2) = string-field r1 none_text _ (omega arith) a1 in
      let (r3, e3, a3) = string-field r2 [] _ (omega arith) a2 in
      let (r4, e4, a4) = uint32-be32 r3 1 _ (omega arith) a3 in
      let (r5, e5, a5) = string-field r4 blob (field body) fits a4 in
      let (r6, e6, a6) =
        string-field (reader blob) kind rest
          (omega (
            arith,
            ap length e,
            length-append (field kind) rest,
            length-append (be32 (length kind)) kind,
          ))
          e in
      rw (e1, e2, e3, e4, e5, e6, ◌>>=◌) (rw (d.decode-IsAscii kind ascii, bytes_to_b64-btoa))

  -- Whatever follows the magic bytes in a file is what the reader gets from the text of the file.
  openssh_body-pem_wrap :
      (rest : Bytes)
      → IsBytes rest
      → (pem : Text) × (pem_wrap p (magic ++ rest) ≡ some pem)
        × (openssh_body p pem ≡ some (reader rest))
  unfolding pem_wrap openssh_body
  openssh_body-pem_wrap rest h =
      let all = All-append (λ b. b < 256) magic rest (omega arith) h in
      let (c, cs, ec) = d.btoa-ne-nil 111 (codes "penssh-key-v1" ++ 0 ∷ rest) in
      let (pem, body, e1, e2, e3) =
        pem_body-pem_text c cs (rw ec at (d.btoa-Base64 (magic ++ rest) all)) in
      let decoded =
        rw (bytes_to_b64-btoa, ec) at (b64_to_bytes-bytes_to_b64 p d (magic ++ rest) all) in
      (
        pem,
        rw (bytes_to_b64-btoa, ec) e1,
        rw (e2, ◌>>=◌)
            (rw (e3, decoded, ◌>>=◌) (rw (d.decode-IsAscii magic (omega arith), same_self magic))),
      )

  -- The parts of a key file are bytes.
  fields_of-IsBytes :
      (blob body : Bytes) → IsBytes blob → IsBytes body → IsBytes (fields_of blob body)
  fields_of-IsBytes blob body hb hc =
      join (field none_text) _ (field-IsBytes none_text (omega arith)) (
        join (field none_text) _ (field-IsBytes none_text (omega arith)) (
          join (field []) _ (field-IsBytes [] tt) (
            join (be32 1) _ (be32-IsBytes 1)
              (join (field blob) (field body) (field-IsBytes blob hb) (field-IsBytes body hc)))))
    where
      join : (xs ys : Bytes) → IsBytes xs → IsBytes ys → IsBytes (xs ++ ys)
      join = All-append (λ b. b < 256)

  padded-IsBytes : (body : Bytes) → IsBytes body → IsBytes (padded p body)
  unfolding padded
  padded-IsBytes body h = rw (padded_lem p body) (
      All-append (λ b. b < 256) body _ h
        (count_from-IsBytes 1 ((8 - length body % 8) % 8) (omega arith)))

  private_section-IsBytes :
      (check fields : Bytes) (comment : Text)
      → IsBytes check
      → IsBytes fields
      → IsBytes (private_section p check fields comment)
  unfolding private_section
  private_section-IsBytes check fields comment hc hf =
      simp (bytes_of-string, bytes_of-raw, bytes_of-nil, append_assoc)
        (All-append (λ b. b < 256) check _ hc
          (All-append (λ b. b < 256) check _ hc
            (All-append (λ b. b < 256) fields _ hf
              (field-IsBytes (p.encode comment) (d.encode-IsBytes comment)))))

  -- The public key that `publicKeyFromPrivate` finds in the text of `opensshPrivateKey` is the one
  -- that went in: the type that the blob begins with, and the blob in base64.
  pub public_key_from_private-openssh_private_key :
      (check blob fields kind rest : Bytes) (comment : Text)
      → IsBytes check
      → IsBytes fields
      → IsBytes blob
      → length blob < 4294967296
      → blob ≡ field kind ++ rest
      → IsAscii kind
      → (pem : Text) × (openssh_private_key p check blob fields comment ≡ some pem)
        × (public_key_from_private p pem ≡ some (kind ++ (32 ∷ p.btoa blob)))
  unfolding openssh_private_key public_key_from_private
  public_key_from_private-openssh_private_key check blob fields kind rest comment hc hf hb fits e
        ascii =
      let body = padded p (private_section p check fields comment) in
      let bytes =
        fields_of-IsBytes blob body hb
          (padded-IsBytes _ (private_section-IsBytes check fields comment hc hf)) in
      let (pem, e1, e2) = openssh_body-pem_wrap (fields_of blob body) bytes in
      (
        pem,
        rw (key_file_lem blob body) e1,
        rw (e2, ◌>>=◌)
            (read_public_key_lem (reader (fields_of blob body)) blob body kind rest refl fits e
              ascii),
      )
