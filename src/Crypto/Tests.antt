-- ===== src/Crypto/Tests.antt =====
-- Runs of the code of crypto.js, and the theorems about it at concrete inputs.
use connexia.Common.{
  ℕ, ◌+◌, ◌%◌, ◌≤◌, ◌<◌, ◌≡◌, refl, none, some, [], ◌∷◌, ◌++◌, length, Text, codes, arith,
}
use connexia.Crypto.Concat.{Bytes, concat, try_concat, try_concat-flatten}
use connexia.Crypto.Writer
use connexia.Crypto.Writer.{be32}
use connexia.Crypto.Writer.Laws.{field, mpint_canonical, value, IsMinimal}
use connexia.Crypto.Reader.{Reader, reader}
use connexia.Crypto.Reader
use connexia.Crypto.Reader.Laws.{string-bytes_of, string_bounds}
use connexia.Crypto.Toy.{toy, toy-Documented, toy_btoa, toy_atob, toy_bytes, all_small}
use connexia.Crypto.Base64.{encrypt_string, decrypt_string, b64url_to_bytes, b64_to_bytes, from_url}
use connexia.Crypto.Base64.Laws.{decrypt_string-encrypt_string}
use connexia.Crypto.PrivateKey.{padded, openssh_private_key, public_key_from_private}
use connexia.Crypto.PrivateKey.Padding.{count_from, padded_aligned}
use connexia.Crypto.PrivateKey.RoundTrip.{public_key_from_private-openssh_private_key}
use connexia.Crypto.Generate.{KeyRequest, ed25519, KeyPair, generate_ssh_key, key_material, start}
use connexia.Crypto.Generate.Laws.{generate_ssh_key_lem}

concat_runs : concat ((1 ∷ 2 ∷ []) ∷ [] ∷ (3 ∷ []) ∷ []) ≡ 1 ∷ 2 ∷ 3 ∷ []
unfolding concat
concat_runs = refl

mpint_canonical_example :
    (body : Bytes) × (Writer.bytes_of (Writer.mpint [] (0 ∷ 0 ∷ 200 ∷ 1 ∷ []))
      ≡ Writer.bytes_of [] ++ field body)
    × (value 0 body ≡ 51201)
    × IsMinimal body
mpint_canonical_example = mpint_canonical [] (0 ∷ 0 ∷ 200 ∷ 1 ∷ []) (omega arith) (omega arith)

string-bytes_of_example :
    Reader.string (record {
      bytes = Writer.bytes_of (Writer.string ((1 ∷ 2 ∷ []) ∷ []) (7 ∷ [])) ++ 9 ∷ [];
      offset = length (Writer.bytes_of ((1 ∷ 2 ∷ []) ∷ []));
    })
    ≡ some (
      7 ∷ [],
      record {
        bytes = Writer.bytes_of (Writer.string ((1 ∷ 2 ∷ []) ∷ []) (7 ∷ [])) ++ 9 ∷ [];
        offset = length (Writer.bytes_of (Writer.string ((1 ∷ 2 ∷ []) ∷ []) (7 ∷ [])));
      },
    )
string-bytes_of_example = string-bytes_of ((1 ∷ 2 ∷ []) ∷ []) (7 ∷ []) (9 ∷ []) (omega arith)

truncated : Reader.string (reader (0 ∷ 0 ∷ 0 ∷ 5 ∷ 7 ∷ [])) ≡ none
unfolding Reader.string
truncated = refl

string_bounds_example :
    (◌≡◌ {A = Bytes} (0 ∷ 0 ∷ 0 ∷ 1 ∷ 7 ∷ 9 ∷ []) (0 ∷ 0 ∷ 0 ∷ 1 ∷ 7 ∷ 9 ∷ []))
    × (◌≡◌ {A = ℕ} 5 (0 + 4 + 1))
    × (5 ≤ 6)
    × (◌≡◌ {A = Bytes} (7 ∷ []) (7 ∷ []))
unfolding Reader.string
string_bounds_example =
    string_bounds (reader (0 ∷ 0 ∷ 0 ∷ 1 ∷ 7 ∷ 9 ∷ [])) (7 ∷ [])
      (record { bytes = 0 ∷ 0 ∷ 0 ∷ 1 ∷ 7 ∷ 9 ∷ []; offset = 5 }) refl

abbrev nonce12 : Bytes
nonce12 = 1 ∷ 2 ∷ 3 ∷ 4 ∷ 5 ∷ 6 ∷ 7 ∷ 8 ∷ 9 ∷ 10 ∷ 11 ∷ 12 ∷ []

decrypt_string-encrypt_string_example :
    decrypt_string toy (encrypt_string toy nonce12 (codes "secret") (7 ∷ [])) (7 ∷ [])
    ≡ some (codes "secret")
unfolding all_small
decrypt_string-encrypt_string_example =
    decrypt_string-encrypt_string toy toy-Documented nonce12 (7 ∷ []) (codes "secret") refl
      (omega arith) refl refl

padded_aligned_example :
    (k : ℕ) × (padded toy (1 ∷ 2 ∷ 3 ∷ []) ≡ (1 ∷ 2 ∷ 3 ∷ []) ++ count_from 1 k)
    × (k < 8)
    × (length (padded toy (1 ∷ 2 ∷ 3 ∷ [])) % 8 ≡ 0)
padded_aligned_example = padded_aligned toy (1 ∷ 2 ∷ 3 ∷ [])

-- The blob of an Ed25519 key: its type, and the 32 bytes of the point, here four.
abbrev ed_type : Text
ed_type = codes "ssh-ed25519"

abbrev ed_blob : Bytes
ed_blob = (0 ∷ 0 ∷ 0 ∷ 11 ∷ []) ++ (codes "ssh-ed25519" ++ (0 ∷ 0 ∷ 0 ∷ 4 ∷ 5 ∷ 6 ∷ 7 ∷ 8 ∷ []))

public_key_from_private_example :
    (pem : Text) × (openssh_private_key toy (1 ∷ 2 ∷ 3 ∷ 4 ∷ []) ed_blob (9 ∷ []) (codes "me")
      ≡ some pem)
    × (public_key_from_private toy pem ≡ some (ed_type ++ (32 ∷ toy_btoa ed_blob)))
unfolding be32
public_key_from_private_example =
    public_key_from_private-openssh_private_key toy toy-Documented (1 ∷ 2 ∷ 3 ∷ 4 ∷ []) ed_blob
      (9 ∷ []) ed_type (0 ∷ 0 ∷ 0 ∷ 4 ∷ 5 ∷ 6 ∷ 7 ∷ 8 ∷ []) (codes "me") (omega arith) (omega arith)
      (omega arith) (omega arith) refl (omega arith)

-- Five to eight as `toy` spells them: "AFAGAHAI".
abbrev ed_request : KeyRequest
ed_request = ed25519 (codes "AFAGAHAI") (codes "AJAK")

abbrev ed_fields : Bytes
ed_fields = ed_blob ++ (0 ∷ 0 ∷ 0 ∷ 6 ∷ 9 ∷ 10 ∷ 5 ∷ 6 ∷ 7 ∷ 8 ∷ [])

ed_material : key_material toy ed_request ≡ some (ed_type, ed_blob, ed_fields)
unfolding key_material start be32 b64url_to_bytes b64_to_bytes Writer.string Writer.bytes_of concat
    toy_atob toy_bytes from_url
ed_material = refl

generate_ssh_key_example :
    (pair : KeyPair) × (line : Text) × (generate_ssh_key toy
        (1 ∷ 2 ∷ 3 ∷ 4 ∷ [])
        (codes "me")
        ed_request
      ≡ some pair)
    × (public_key_from_private toy pair.private_pem ≡ some line)
    × (pair.public_key ≡ line ++ (32 ∷ codes "me"))
generate_ssh_key_example =
    generate_ssh_key_lem toy toy-Documented (1 ∷ 2 ∷ 3 ∷ 4 ∷ []) (codes "me") ed_request ed_type
      ed_blob ed_fields (omega arith) ed_material (omega arith)

try_concat-flatten_example : try_concat ((1 ∷ 2 ∷ []) ∷ [] ∷ (3 ∷ []) ∷ []) ≡ some (1 ∷ 2 ∷ 3 ∷ [])
try_concat-flatten_example = try_concat-flatten ((1 ∷ 2 ∷ []) ∷ [] ∷ (3 ∷ []) ∷ [])
