-- ===== src/Crypto/Generate.antt =====
-- `generateSshKey` of server/internal/web/static/js/dashboard/crypto.js. What `crypto.subtle`
-- generates and exports as a JSON web key is an argument; `none` is an exception.
pub mod Laws
use connexia.Common.{
  ℕ, Option, none, some, List, [], ◌∷◌, ◌++◌, Text, codes, ◌==◌, if◌then◌else◌, ◌>>=◌,
}
use connexia.Crypto.Concat.{Bytes, concat}
use connexia.Crypto.Writer
use connexia.Crypto.Platform.{Platform}
use connexia.Crypto.Base64.{bytes_to_b64, b64url_to_bytes}
use connexia.Crypto.PrivateKey.{openssh_private_key}

-- The type that is asked for, with the fields of the exported key that its branch reads.
pub data KeyRequest : Type 0 where
  ed25519 : (x d : Text) → KeyRequest
  ecdsa : (bits : ℕ) (x y d : Text) → KeyRequest
  rsa : (n e d p q qi : Text) → KeyRequest

pub record KeyPair : Type 0 where
  pub private_pem : Text
  pub public_key : Text

-- `CURVES[bits].ssh`; of another size there is no curve, and the access is a `TypeError`.
pub curve_of : ℕ → Option Text
curve_of bits =
    if bits == 256
    then some (codes "nistp256")
    else if bits == 384
    then some (codes "nistp384")
    else if bits == 521
    then some (codes "nistp521")
    else none

module _ (p : Platform) where
  -- `new SshWriter().string(kind)`
  unfoldable pub start : Text → List Bytes
  start kind = Writer.string [] (p.encode kind)

  -- The key's type, its public blob and its private fields.
  unfoldable pub key_material : KeyRequest → Option (Text × Bytes × Bytes)
  key_material (ed25519 x d) = do
    public ← b64url_to_bytes p x
    seed ← b64url_to_bytes p d
    let kind = codes "ssh-ed25519"
    let blob = Writer.bytes_of (Writer.string (start kind) public)
    let fields =
        Writer.bytes_of
          (Writer.string (Writer.string (start kind) public) (concat (seed ∷ public ∷ [])))
    some (kind, blob, fields)
  key_material (ecdsa bits x y d) = do
    curve ← curve_of bits
    px ← b64url_to_bytes p x
    py ← b64url_to_bytes p y
    scalar ← b64url_to_bytes p d
    let kind = codes "ecdsa-sha2-" ++ curve
    let point = concat ((4 ∷ []) ∷ px ∷ py ∷ [])
    let public_parts = Writer.string (Writer.string (start kind) (p.encode curve)) point
    some (kind, Writer.bytes_of public_parts, Writer.bytes_of (Writer.mpint public_parts scalar))
  key_material (rsa n e d fp fq qi) = do
    n' ← b64url_to_bytes p n
    e' ← b64url_to_bytes p e
    d' ← b64url_to_bytes p d
    p' ← b64url_to_bytes p fp
    q' ← b64url_to_bytes p fq
    qi' ← b64url_to_bytes p qi
    let kind = codes "ssh-rsa"
    let blob = Writer.bytes_of (Writer.mpint (Writer.mpint (start kind) e') n')
    let secret = Writer.mpint (Writer.mpint (Writer.mpint (start kind) n') e') d'
    some (kind, blob, Writer.bytes_of (Writer.mpint (Writer.mpint (Writer.mpint secret qi') p') q'))

  -- `check` stands for the four random bytes of the key file.
  pub generate_ssh_key : Bytes → Text → KeyRequest → Option KeyPair
  generate_ssh_key check comment request = do
    (kind, blob, fields) ← key_material request
    pem ← openssh_private_key p check blob fields comment
    some (record {
      private_pem = pem;
      public_key = kind ++ (32 ∷ (bytes_to_b64 p blob ++ (32 ∷ comment)));
    })
