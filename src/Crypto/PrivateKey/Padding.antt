-- ===== src/Crypto/PrivateKey/Padding.antt =====
-- The padding of `opensshPrivateKey`.
use connexia.Common.{
  ℕ, zero, suc, ◌+◌, ◌-◌, ◌%◌, ◌≤◌, ◌<◌, ◌≡◌, ◌≢◌, refl, ◌∙◌, ap, false, [], ◌∷◌, ◌++◌, append-nil,
  append_assoc, length, length-append, ◌==◌, ==_iff, arith,
}
use connexia.Crypto.Concat.{Bytes}
use connexia.Crypto.Concat.{concat-flatten}
use connexia.Crypto.Platform.{Platform, IsBytes}
use connexia.Crypto.PrivateKey.{pad_loop, padding_of, padded}

-- `i, i + 1, ...`, `k` numbers.
abbrev pub count_from : ℕ → ℕ → Bytes
count_from i zero = []
count_from i (suc k) = i ∷ count_from (i + 1) k

ne_test : (x : ℕ) → x ≢ 0 → (x == 0) ≡ false
ne_test x h = ground arith

-- `k` rounds are left when `k` is the distance to the next multiple of 8.
pad_loop-count_from :
    (fuel n k i : ℕ) (acc : Bytes)
    → i ≡ length acc + 1
    → k < fuel
    → k < 8
    → (n + length acc + k) % 8 ≡ 0
    → pad_loop fuel n i acc ≡ acc ++ count_from i k
unfolding pad_loop
pad_loop-count_from zero n k i acc l h b e = absurd (omega arith)
pad_loop-count_from (suc fuel) n zero i acc l h b e =
    rw ((==_iff ((n + length acc) % 8) 0).1 (omega arith), pad_loop, append-nil)
pad_loop-count_from (suc fuel) n (suc k) i acc l h b e =
    rw (ne_test ((n + length acc) % 8) (omega arith), pad_loop)
      (pad_loop-count_from fuel n k (i + 1) (acc ++ i ∷ []) (omega (arith, longer)) (omega arith)
          (omega arith) (omega (arith, longer))
        ∙ append_assoc acc (i ∷ []) (count_from (i + 1) k))
  where
    longer : length (acc ++ i ∷ []) ≡ length acc + 1
    longer = length-append acc (i ∷ [])

padding_of_lem : (n : ℕ) → padding_of n ≡ count_from 1 ((8 - n % 8) % 8)
unfolding padding_of
padding_of_lem n =
    pad_loop-count_from 8 n ((8 - n % 8) % 8) 1 [] (omega arith) (omega arith) (omega arith)
      (omega arith)

length-count_from : (i k : ℕ) → length (count_from i k) ≡ k
length-count_from i zero = refl
length-count_from i (suc k) = ap suc (length-count_from (i + 1) k)

pub count_from-IsBytes : (i k : ℕ) → i + k ≤ 256 → IsBytes (count_from i k)
count_from-IsBytes i zero h = tt
count_from-IsBytes i (suc k) h = (omega arith, count_from-IsBytes (i + 1) k (omega arith))

pub padded_lem :
    (p : Platform) (body : Bytes) → padded p body ≡ body ++ count_from 1 ((8 - length body % 8) % 8)
unfolding padded
padded_lem p body = rw (concat-flatten, padding_of_lem, append-nil)

-- The section is padded with the bytes 1, 2, 3, ... up to the next multiple of the block size: at
-- most seven of them, and none if its length is one.
pub padded_aligned :
    (p : Platform) (body : Bytes)
    → (k : ℕ) × (padded p body ≡ body ++ count_from 1 k)
      × (k < 8)
      × (length (padded p body) % 8 ≡ 0)
padded_aligned p body =
    let k = (8 - length body % 8) % 8 in
    (
      k,
      padded_lem p body,
      omega arith,
      rw (padded_lem p body, length-append body (count_from 1 k), length-count_from 1 k)
          (omega arith),
    )
