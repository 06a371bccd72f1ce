-- ===== src/Crypto/Base64.antt =====
-- `b64ToBytes`, `bytesToB64`, `b64urlToBytes`, `encryptString` and `decryptString` of
-- server/internal/web/static/js/dashboard/crypto.js.
pub mod Laws
use connexia.Common.{
  ℕ, zero, suc, ◌+◌, ◌-◌, ◌%◌, Bool, true, false, Option, none, some, List, [], ◌∷◌, ◌++◌, map,
  length, take, drop, replicate, Text, ltb, ◌==◌, if◌then◌else◌, ◌>>=◌,
}
use connexia.Crypto.Concat.{Bytes}
use connexia.Crypto.Platform.{Platform}

-- `String.fromCharCode` over the slices of 0x8000 bytes that the loop takes from `i` on.
unfoldable pub binary_loop : ℕ → Bytes → ℕ → Text → Text
binary_loop zero bytes i binary = binary
binary_loop (suc fuel) bytes i binary = elim (ltb i (length bytes)) [
  | true ↦ binary_loop fuel bytes (i + 0x8000) (binary ++ take 0x8000 (drop i bytes))
  | false ↦ binary
]

-- Each round takes one byte at least, so there are fewer rounds than `length bytes + 1`.
unfoldable pub binary_of : Bytes → Text
unfolding binary_loop
binary_of bytes = binary_loop (length bytes + 1) bytes 0 []

-- `replace(/-/g, "+").replace(/_/g, "/")`
unfoldable pub from_url : ℕ → ℕ
from_url c = if c == b'-' then b'+' else if c == b'_' then b'/' else c

module _ (p : Platform) where
  unfoldable pub bytes_to_b64 : Bytes → Text
  bytes_to_b64 bytes = p.btoa (binary_of bytes)

  -- A `Uint8Array` keeps each code modulo 256.
  unfoldable pub b64_to_bytes : Text → Option Bytes
  b64_to_bytes b64 = do binary ← p.atob b64; some (map (λ c. c % 256) binary)

  unfoldable pub b64url_to_bytes : Text → Option Bytes
  b64url_to_bytes text =
      let b64 = map from_url text in b64_to_bytes (b64 ++ replicate ((4 - length b64 % 4) % 4) b'=')

  -- The nonce stands for `randomBytes(12)`.
  unfoldable pub encrypt_string : Bytes → Text → Bytes → Text
  encrypt_string nonce plaintext key =
      bytes_to_b64 (nonce ++ p.encrypt key nonce (p.encode plaintext))

  unfoldable pub decrypt_string : Text → Bytes → Option Text
  decrypt_string ciphertext key = do
    raw ← b64_to_bytes ciphertext
    plain ← p.decrypt key (take 12 raw) (drop 12 raw)
    some (p.decode plain)
