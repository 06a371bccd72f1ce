-- ===== src/Crypto/Reader.antt =====
-- `SshReader` of server/internal/web/static/js/dashboard/crypto.js. `none` is an exception: the
-- `RangeError` of a read past the end, or "truncated key".
pub mod Laws
use connexia.Common.{
  ℕ, ◌+◌, ◌*◌, Option, none, some, List, [], ◌∷◌, length, take, drop, ◌==◌, if◌then◌else◌,
}
use connexia.Crypto.Concat.{Bytes}

pub record Reader : Type 0 where
  pub bytes : Bytes
  pub offset : ℕ

abbrev pub reader : Bytes → Reader
reader bs = record { bytes = bs; offset = 0 }

-- `DataView.getUint32`: the number that the next four bytes stand for.
get_be32 : Bytes → Option ℕ
get_be32 (a ∷ b ∷ c ∷ d ∷ rest) = some (a * 16777216 + b * 65536 + c * 256 + d)
get_be32 _ = none

pub uint32 : Reader → Option (ℕ × Reader)
unfolding get_be32
uint32 r = elim (get_be32 (drop r.offset r.bytes)) [
  | none ↦ none
  | some n ↦ some (n, record r { offset = r.offset + 4 })
]

-- `subarray` stops at the end of the array.
read_body : ℕ → Reader → Option (Bytes × Reader)
read_body n r =
    let out = take n (drop r.offset r.bytes) in
    if length out == n then some (out, record r { offset = r.offset + n }) else none

unfoldable pub string : Reader → Option (Bytes × Reader)
unfolding uint32 read_body
string r = elim (uint32 r) [ none ↦ none | some (n, r') ↦ read_body n r' ]
