-- ===== src/Crypto/Base64/Laws.antt =====
-- Round trips of the base64 helpers and of the encryption of texts.
use native.Mathlib.Nat.{mod-eq_of_lt}
use connexia.Common.{
  ℕ, zero, suc, ◌+◌, ◌%◌, ◌≤◌, ◌<◌, ◌≡◌, refl, ◌∙◌, ap, inl, inr, true, false, Option, none, some,
  List, [], ◌∷◌, ◌++◌, append_assoc, append-nil, map, length, take, drop, Text, ltb, All-append,
  arith, Bool-cases, take-append-drop, drop-drop, take-append_left, drop-append_left, ◌>>=◌,
  Ensures,
}
use connexia.Crypto.Concat.{Bytes}
use connexia.Crypto.Platform.{Platform, Documented, IsBytes, begins_with_bom}
use connexia.Crypto.Base64.{
  binary_loop, binary_of, bytes_to_b64, b64_to_bytes, b64url_to_bytes, encrypt_string,
  decrypt_string,
}

drop-nil_of_le {ℓ} : {A : Type ℓ} (n : ℕ) (xs : List A) → length xs ≤ n → drop n xs ≡ []
drop-nil_of_le zero [] h = refl
drop-nil_of_le zero (x ∷ xs) h = absurd (omega arith)
drop-nil_of_le (suc n) [] h = refl
drop-nil_of_le (suc n) (x ∷ xs) h = drop-nil_of_le n xs (omega arith)

slice-append-drop {ℓ} :
    {A : Type ℓ} (k i : ℕ) (xs : List A) → take k (drop i xs) ++ drop (i + k) xs ≡ drop i xs
slice-append-drop k i xs = rw (drop-drop i k xs) (take-append-drop k (drop i xs))

binary_loop-drop :
    (fuel : ℕ) (bytes : Bytes) (i : ℕ) (binary : Text)
    → length bytes < fuel + i
    → binary_loop fuel bytes i binary ≡ binary ++ drop i bytes
unfolding binary_loop
binary_loop-drop zero bytes i binary h = rw (drop-nil_of_le i bytes (omega arith), append-nil)
binary_loop-drop (suc fuel) bytes i binary h = elim (Bool-cases (ltb i (length bytes))) [
  | inl e ↦
      rw (e, binary_loop)
        (binary_loop-drop fuel bytes (i + 0x8000) (binary ++ take 0x8000 (drop i bytes))
            (omega arith)
          ∙ append_assoc binary (take 0x8000 (drop i bytes)) (drop (i + 0x8000) bytes)
          ∙ ap (◌++◌ binary) (slice-append-drop 0x8000 i bytes))
  | inr e ↦ rw (e, binary_loop, drop-nil_of_le i bytes (ground arith), append-nil)
]

-- The slices, put together, are the bytes.
pub binary_of_lem : (bytes : Bytes) → binary_of bytes ≡ bytes
unfolding binary_of
binary_of_lem bytes = binary_loop-drop (length bytes + 1) bytes 0 [] (omega arith)

map-mod : (bs : Bytes) → IsBytes bs → map (λ c. c % 256) bs ≡ bs
map-mod [] h = refl
map-mod (b ∷ bs) h = cc (mod-eq_of_lt h.0, map-mod bs h.1)

pub bytes_to_b64-btoa : (p : Platform) (bytes : Bytes) → bytes_to_b64 p bytes ≡ p.btoa bytes
unfolding bytes_to_b64
bytes_to_b64-btoa p bytes = ap p.btoa (binary_of_lem bytes)

map-mod-IsBytes : (t : Text) → IsBytes (map (λ c. c % 256) t)
map-mod-IsBytes [] = tt
map-mod-IsBytes (c ∷ cs) = (omega arith, map-mod-IsBytes cs)

decoded-IsBytes :
    (o : Option Text) → Ensures IsBytes (o >>= λ binary. some (map (λ c. c % 256) binary))
decoded-IsBytes none = tt
decoded-IsBytes (some binary) = map-mod-IsBytes binary

-- What is decoded is bytes.
pub b64url_to_bytes-IsBytes : (p : Platform) (t : Text) → Ensures IsBytes (b64url_to_bytes p t)
unfolding b64url_to_bytes b64_to_bytes
b64url_to_bytes-IsBytes p t = decoded-IsBytes (p.atob _)

module _ (p : Platform) (d : Documented p) where
  -- Bytes come back from their base64 text.
  pub b64_to_bytes-bytes_to_b64 :
      (bytes : Bytes) → IsBytes bytes → b64_to_bytes p (bytes_to_b64 p bytes) ≡ some bytes
  unfolding b64_to_bytes
  b64_to_bytes-bytes_to_b64 bytes h =
      rw (bytes_to_b64-btoa p bytes, d.atob-btoa bytes h, ◌>>=◌) (ap some (map-mod bytes h))

  -- Any well-formed text that does not begin with U+FEFF comes back from `decryptString` under the key and the 12 bytes of nonce
  -- that `encryptString` took.
  pub decrypt_string-encrypt_string :
      (nonce key : Bytes) (plaintext : Text)
      → length nonce ≡ 12
      → IsBytes nonce
      → p.is_well_formed plaintext ≡ true
      → begins_with_bom plaintext ≡ false
      → decrypt_string p (encrypt_string p nonce plaintext key) key ≡ some plaintext
  unfolding decrypt_string encrypt_string
  decrypt_string-encrypt_string nonce key plaintext n h w m =
      rw
        (
          b64_to_bytes-bytes_to_b64 (nonce ++ sealed) (
              All-append (λ b. b < 256) nonce sealed h
                (d.encrypt-IsBytes key nonce (p.encode plaintext))),
          ← n,
          take-append_left nonce sealed,
          drop-append_left nonce sealed,
          d.decrypt-encrypt key nonce (p.encode plaintext) (d.encode-IsBytes plaintext),
          ◌>>=◌,
        )
        (ap some (d.decode-encode plaintext w m))
    where
      sealed : Bytes
      sealed = p.encrypt key nonce (p.encode plaintext)

  pub encrypt_string-ne-nil :
      (nonce key : Bytes) (plaintext : Text)
      → length nonce ≡ 12
      → (c : ℕ) × (cs : Text) × (encrypt_string p nonce plaintext key ≡ c ∷ cs)
  unfolding encrypt_string
  encrypt_string-ne-nil [] key plaintext n = absurd (omega arith)
  encrypt_string-ne-nil (b ∷ bs) key plaintext n = rw (bytes_to_b64-btoa p) (d.btoa-ne-nil b _)
