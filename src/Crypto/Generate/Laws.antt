-- ===== src/Crypto/Generate/Laws.antt =====
-- The two halves of a generated key.
use connexia.Common.{
  ℕ, ◌<◌, ◌≡◌, sym, Option, some, List, [], ◌∷◌, ◌++◌, append-nil, append_assoc, length, All-append,
  Text, codes, arith, ◌>>=◌, Ensures, Ensures->>=,
}
use connexia.Crypto.Concat.{Bytes, concat, concat-flatten}
use connexia.Crypto.Writer
use connexia.Crypto.Writer.Laws.{field, bytes_of-string, bytes_of-nil, mpint-string}
use connexia.Crypto.Platform.{Platform, Documented, IsBytes, IsAscii}
use connexia.Crypto.Base64.{b64url_to_bytes, bytes_to_b64}
use connexia.Crypto.Base64.Laws.{bytes_to_b64-btoa, b64url_to_bytes-IsBytes}
use connexia.Crypto.PrivateKey.{public_key_from_private}
use connexia.Crypto.PrivateKey.RoundTrip.{
  field-IsBytes, public_key_from_private-openssh_private_key,
}
use connexia.Crypto.Generate.{
  KeyRequest, ed25519, ecdsa, rsa, KeyPair, curve_of, start, key_material, generate_ssh_key,
}

Ascii-Bytes : (t : Text) → IsAscii t → IsBytes t
Ascii-Bytes [] h = tt
Ascii-Bytes (c ∷ cs) h = (omega arith, Ascii-Bytes cs h.1)

-- A writer that began with the type's name, and holds bytes.
abbrev Begins : Text → List Bytes → Type 0
Begins kind parts =
    ((rest : Bytes) × (Writer.bytes_of parts ≡ field kind ++ rest))
    × IsBytes (Writer.bytes_of parts)

string-Begins :
    (kind : Text) (parts : List Bytes) (b : Bytes)
    → IsBytes b
    → Begins kind parts
    → Begins kind (Writer.string parts b)
string-Begins kind parts b h ((rest, e), k) = (
  (rest ++ field b, rw (bytes_of-string, e) (append_assoc (field kind) rest (field b))),
  rw bytes_of-string
      (All-append (λ x. x < 256) (Writer.bytes_of parts) (field b) k (field-IsBytes b h)),
)

mpint-Begins :
    (kind : Text) (parts : List Bytes) (b : Bytes)
    → IsBytes b
    → Begins kind parts
    → Begins kind (Writer.mpint parts b)
mpint-Begins kind parts b h s =
    let (body, e, k) = mpint-string parts b h in rw e (string-Begins kind parts body k s)

curve_of-IsAscii : (bits : ℕ) → Ensures IsAscii (curve_of bits)
unfolding curve_of
curve_of-IsAscii bits = ground arith

point-IsBytes :
    (px py : Bytes) → IsBytes px → IsBytes py → IsBytes (concat ((4 ∷ []) ∷ px ∷ py ∷ []))
point-IsBytes px py hx hy =
    rw concat-flatten (omega arith, All-append (λ b. b < 256) px _ hx (rw append-nil hy))

module _ (p : Platform) (d : Documented p) where
  start-Begins : (kind : Text) → IsAscii kind → Begins kind (start p kind)
  unfolding start
  start-Begins kind h = rw (d.encode-IsAscii kind h) (
      rw (bytes_of-string, bytes_of-nil)
        (([], sym (append-nil (field kind))), field-IsBytes kind (Ascii-Bytes kind h)))

  -- The fields of the material are what the key file needs of them.
  record IsMaterial (kind : Text) (blob fields : Bytes) : Type 0 where
    ascii : IsAscii kind
    rest : Bytes
    begins : blob ≡ field kind ++ rest
    blob_IsBytes : IsBytes blob
    fields_IsBytes : IsBytes fields

  material :
      (kind : Text) (public_parts private_parts : List Bytes)
      → IsAscii kind
      → Begins kind public_parts
      → Begins kind private_parts
      → IsMaterial kind (Writer.bytes_of public_parts) (Writer.bytes_of private_parts)
  material kind ps qs a ((rest, e), h) (_, k) = record {
    ascii = a;
    rest = rest;
    begins = e;
    blob_IsBytes = h;
    fields_IsBytes = k;
  }

  -- What holds of the parts of a blob that decodes.
  abbrev Good : Text × Bytes × Bytes → Type 0
  Good (kind, blob, fields) = IsMaterial kind blob fields

  decoded :
      {A : Type 0} (Q : A → Type 0) (t : Text) (f : Bytes → Option A)
      → ((b : Bytes) → IsBytes b → Ensures Q (f b))
      → Ensures Q (b64url_to_bytes p t >>= f)
  decoded Q t f k = Ensures->>= IsBytes Q (b64url_to_bytes p t) f (b64url_to_bytes-IsBytes p t) k

  -- Each branch fills a writer that begins with the type's name, with strings and integers that
  -- are bytes.
  key_material-Good : (request : KeyRequest) → Ensures Good (key_material p request)
  unfolding key_material
  key_material-Good (ed25519 x d') = decoded Good x _ λ public hp. decoded Good d' _ λ seed hs.
      let kind = codes "ssh-ed25519" in
      let parts = string-Begins kind _ public hp (start-Begins kind (omega arith)) in
      material kind _ _ (omega arith) parts (
        string-Begins kind _ _
          (rw concat-flatten (All-append (λ b. b < 256) seed _ hs (rw append-nil hp))) parts)
  key_material-Good (ecdsa bits x y d') =
      Ensures->>= IsAscii Good (curve_of bits) _ (curve_of-IsAscii bits) λ curve hc.
        decoded Good x _ λ px hx. decoded Good y _ λ py hy. decoded Good d' _ λ scalar hd.
          let kind = codes "ecdsa-sha2-" ++ curve in
          let ascii = All-append (λ b. b < 128) (codes "ecdsa-sha2-") curve (omega arith) hc in
          let parts = string-Begins kind _ _ (point-IsBytes px py hx hy) (
            string-Begins kind _ (p.encode curve) (d.encode-IsBytes curve)
              (start-Begins kind ascii)) in
          material kind _ _ ascii parts (mpint-Begins kind _ scalar hd parts)
  key_material-Good (rsa n e d' fp fq qi) = decoded Good n _ λ n' hn. decoded Good e _ λ e' he.
      decoded Good d' _ λ d'' hd. decoded Good fp _ λ p' hp. decoded Good fq _ λ q' hq.
        decoded Good qi _ λ qi' hqi.
          let kind = codes "ssh-rsa" in
          let begun = start-Begins kind (omega arith) in
          let secret =
            mpint-Begins kind _ d'' hd
              (mpint-Begins kind _ e' he (mpint-Begins kind _ n' hn begun)) in
          material kind _ _ (omega arith)
            (mpint-Begins kind _ n' hn (mpint-Begins kind _ e' he begun))
            (mpint-Begins kind _ q' hq
              (mpint-Begins kind _ p' hp (mpint-Begins kind _ qi' hqi secret)))

  -- Both halves of a generated key belong together: `publicKeyFromPrivate` finds in the private
  -- text the public line, without its comment. Where the exported fields decode, and the blob is
  -- shorter than 2^32 bytes, there is a key.
  pub generate_ssh_key_lem :
      (check : Bytes) (comment : Text) (request : KeyRequest) (kind : Text) (blob fields : Bytes)
      → IsBytes check
      → key_material p request ≡ some (kind, blob, fields)
      → length blob < 4294967296
      → (pair : KeyPair) × (line : Text) × (generate_ssh_key p check comment request ≡ some pair)
        × (public_key_from_private p pair.private_pem ≡ some line)
        × (pair.public_key ≡ line ++ (32 ∷ comment))
  unfolding generate_ssh_key
  generate_ssh_key_lem check comment request kind blob fields hc e fits =
      let m : Good (kind, blob, fields) = rw e at (key_material-Good request) in
      let (pem, e1, e2) =
        public_key_from_private-openssh_private_key p d check blob fields kind m.rest comment hc
          m.fields_IsBytes m.blob_IsBytes fits m.begins m.ascii in
      (
        record {
          private_pem = pem;
          public_key = kind ++ (32 ∷ (bytes_to_b64 p blob ++ (32 ∷ comment)));
        },
        kind ++ (32 ∷ p.btoa blob),
        rw (e, ◌>>=◌) (rw (e1, ◌>>=◌)),
        e2,
        rw bytes_to_b64-btoa (sym (append_assoc kind (32 ∷ p.btoa blob) (32 ∷ comment))),
      )
