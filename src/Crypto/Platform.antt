-- ===== src/Crypto/Platform.antt =====
-- The browser's functions that server/internal/web/static/js/dashboard/crypto.js calls: `btoa`,
-- `atob`, `TextEncoder`, `TextDecoder` and AES-GCM of `crypto.subtle`. They are parameters of the
-- model, and `Documented` states what the code relies on.
use connexia.Common.{
  ℕ, ◌<◌, ◌≡◌, Bool, false, true, Option, some, List, [], ◌∷◌, All, Text, leb, ◌==◌, ◌&&◌, ◌||◌,
}
use connexia.Crypto.Concat.{Bytes}

abbrev pub IsBytes : List ℕ → Type 0
IsBytes = All (λ b. b < 256)

abbrev pub IsAscii : List ℕ → Type 0
IsAscii = All (λ b. b < 128)

-- The characters that `btoa` writes.
abbrev pub is_base64 : ℕ → Bool
is_base64 c =
    (leb b'A' c && leb c b'Z')
    || ((leb b'a' c && leb c b'z')
        || ((leb b'0' c && leb c b'9') || (c == b'+' || (c == b'/' || c == b'='))))

pub record Platform : Type 0 where
  pub btoa : Text → Text
  -- `none` is an `InvalidCharacterError`.
  pub atob : Text → Option Text
  pub encode : Text → Bytes
  pub decode : Bytes → Text
  pub is_well_formed : Text → Bool
  -- AES-GCM under a key and a nonce; `none` is an `OperationError`.
  pub encrypt : Bytes → Bytes → Bytes → Bytes
  pub decrypt : Bytes → Bytes → Bytes → Option Bytes

-- The text begins with U+FEFF, which `TextDecoder` takes for a byte order mark and leaves out.
abbrev pub begins_with_bom : Text → Bool
begins_with_bom [] = false
begins_with_bom (c ∷ cs) = c == 0xfeff

pub record Documented (p : Platform) : Type 0 where
  pub atob-btoa : (t : Text) → IsBytes t → p.atob (p.btoa t) ≡ some t
  pub btoa-Base64 : (t : Text) → IsBytes t → All (λ c. is_base64 c ≡ true) (p.btoa t)
  pub btoa-ne-nil : (b : ℕ) (t : Text) → (c : ℕ) × (cs : Text) × (p.btoa (b ∷ t) ≡ c ∷ cs)
  pub decode-encode :
      (t : Text) → p.is_well_formed t ≡ true → begins_with_bom t ≡ false → p.decode (p.encode t) ≡ t
  pub encode-IsBytes : (t : Text) → IsBytes (p.encode t)
  pub encode-IsAscii : (t : Text) → IsAscii t → p.encode t ≡ t
  pub decode-IsAscii : (b : Bytes) → IsAscii b → p.decode b ≡ b
  pub decrypt-encrypt :
      (key nonce plain : Bytes)
      → IsBytes plain
      → p.decrypt key nonce (p.encrypt key nonce plain) ≡ some plain
  pub encrypt-IsBytes : (key nonce plain : Bytes) → IsBytes (p.encrypt key nonce plain)
