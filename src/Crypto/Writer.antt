-- ===== src/Crypto/Writer.antt =====
-- `SshWriter` of server/internal/web/static/js/dashboard/crypto.js. A writer is the list of its
-- parts, in the order in which they were pushed.
pub mod Laws
use Prim.Native.Nat.{bit_and}
use connexia.Common.{ℕ, ◌/◌, ◌%◌, Bool, List, [], ◌∷◌, ◌++◌, length, ◌==◌, if◌then◌else◌}
use connexia.Crypto.Concat.{Bytes, concat}

-- `DataView.setUint32(0, n)`: big-endian, modulo 2^32.
unfoldable pub be32 : ℕ → Bytes
be32 n = (n / 16777216 % 256) ∷ (n / 65536 % 256) ∷ (n / 256 % 256) ∷ (n % 256) ∷ []

pub uint32 : List Bytes → ℕ → List Bytes
uint32 parts n = parts ++ be32 n ∷ []

unfoldable pub string : List Bytes → Bytes → List Bytes
unfolding uint32
string parts bytes = uint32 parts (length bytes) ++ bytes ∷ []

pub raw : List Bytes → Bytes → List Bytes
raw parts bytes = parts ++ bytes ∷ []

-- The loop of `mpint` passes over leading zeros, but never the last byte.
strip_zeros : Bytes → Bytes
strip_zeros [] = []
strip_zeros (b ∷ []) = b ∷ []
strip_zeros (b ∷ c ∷ bs) = let rest = strip_zeros (c ∷ bs) in if b == 0 then rest else b ∷ c ∷ bs

-- A first byte with its top bit set gets a zero in front. `value[0]` of an empty array is
-- `undefined`, and `undefined & 0x80` is 0.
sign_pad : Bytes → Bytes
sign_pad [] = []
sign_pad (b ∷ bs) = if bit_and b 0x80 == 0 then b ∷ bs else concat ((0 ∷ []) ∷ (b ∷ bs) ∷ [])

pub mpint : List Bytes → Bytes → List Bytes
unfolding strip_zeros sign_pad string
mpint parts bytes = string parts (sign_pad (strip_zeros bytes))

unfoldable pub bytes_of : List Bytes → Bytes
bytes_of parts = concat parts
