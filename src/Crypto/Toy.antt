-- ===== src/Crypto/Toy.antt =====
-- A browser for the tests, which meets `Documented`: two letters for each byte in place of base64,
-- and texts of codes below 256.
use native.Mathlib.Nat.{mod-eq_of_lt}
use connexia.Common.{
  ℕ, ◌+◌, ◌-◌, ◌*◌, ◌/◌, ◌%◌, ◌<◌, ◌≡◌, refl, ap, Bool, true, false, ◌&&◌, Option, none, some, [],
  ◌∷◌, map, All, Text, ltb, arith, ◌>>=◌,
}
use connexia.Crypto.Concat.{Bytes}
use connexia.Crypto.Platform.{Platform, Documented, begins_with_bom, IsBytes, IsAscii, is_base64}

unfoldable pub toy_btoa : Text → Text
toy_btoa [] = []
toy_btoa (c ∷ cs) = (b'A' + c / 16 % 16) ∷ (b'A' + c % 16) ∷ toy_btoa cs

unfoldable pub toy_atob : Text → Option Text
toy_atob [] = some []
toy_atob (a ∷ []) = none
toy_atob (a ∷ b ∷ cs) = do rest ← toy_atob cs; some (((a - b'A') * 16 + (b - b'A')) ∷ rest)

unfoldable pub toy_bytes : Text → Bytes
toy_bytes t = map (λ c. c % 256) t

unfoldable pub all_small : Text → Bool
all_small [] = true
all_small (c ∷ cs) = ltb c 256 && all_small cs

abbrev pub toy : Platform
toy = record {
  btoa = toy_btoa;
  atob = toy_atob;
  encode = toy_bytes;
  decode = λ b. b;
  is_well_formed = all_small;
  encrypt = λ key nonce plain. toy_bytes plain;
  decrypt = λ key nonce sealed. some sealed;
}

pub toy_bytes_lem : (t : Text) → IsBytes t → toy_bytes t ≡ t
unfolding toy_bytes
toy_bytes_lem [] h = refl
toy_bytes_lem (c ∷ cs) h = cc (mod-eq_of_lt h.0, toy_bytes_lem cs h.1)

toy_atob-toy_btoa : (t : Text) → IsBytes t → toy_atob (toy_btoa t) ≡ some t
unfolding toy_atob toy_btoa
toy_atob-toy_btoa [] h = refl
toy_atob-toy_btoa (c ∷ cs) h =
    rw (toy_atob-toy_btoa cs h.1, ◌>>=◌) (ap (λ (n : ℕ). some (n ∷ cs)) (omega arith))

toy_btoa-Base64 : (t : Text) → All (λ c. is_base64 c ≡ true) (toy_btoa t)
unfolding toy_btoa
toy_btoa-Base64 [] = tt
toy_btoa-Base64 (c ∷ cs) =
    (letter (c / 16 % 16) (omega arith), (letter (c % 16) (omega arith), toy_btoa-Base64 cs))
  where
    letter : (n : ℕ) → n < 16 → is_base64 (b'A' + n) ≡ true
    letter n h = ground arith

toy_bytes-IsBytes : (t : Text) → IsBytes (toy_bytes t)
unfolding toy_bytes
toy_bytes-IsBytes [] = tt
toy_bytes-IsBytes (c ∷ cs) = (omega arith, toy_bytes-IsBytes cs)

IsBytes-of_all_small : (t : Text) → all_small t ≡ true → IsBytes t
unfolding all_small
IsBytes-of_all_small [] h = tt
IsBytes-of_all_small (c ∷ cs) h = ground (arith, IsBytes-of_all_small cs)

IsBytes-of_IsAscii : (t : Text) → IsAscii t → IsBytes t
IsBytes-of_IsAscii [] h = tt
IsBytes-of_IsAscii (c ∷ cs) h = (omega arith, IsBytes-of_IsAscii cs h.1)

pub small_begins : (t : Text) → all_small t ≡ true → begins_with_bom t ≡ false
unfolding all_small
small_begins [] h = refl
small_begins (c ∷ cs) h = ground arith

pub toy-Documented : Documented toy
unfolding toy_btoa
toy-Documented = record {
  atob-btoa = toy_atob-toy_btoa;
  btoa-Base64 = λ t _. toy_btoa-Base64 t;
  btoa-ne-nil = λ b t. (_, _, refl);
  decode-encode = λ t h _. toy_bytes_lem t (IsBytes-of_all_small t h);
  encode-IsBytes = toy_bytes-IsBytes;
  encode-IsAscii = λ t h. toy_bytes_lem t (IsBytes-of_IsAscii t h);
  decode-IsAscii = λ b h. refl;
  decrypt-encrypt = λ key nonce plain h. ap some (toy_bytes_lem plain h);
  encrypt-IsBytes = λ key nonce plain. toy_bytes-IsBytes plain;
}
