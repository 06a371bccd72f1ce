-- ===== src/Ssh/HostKeys/Trust.antt =====
-- What `checkHostKey` says behind `trustHostKey` and `verifyHostKey`.
use connexia.Common.{
  ℕ, ◌≡◌, ◌≢◌, ◌⊎◌, inl, inr, refl, sym, ap, true, false, some, List, [], ◌∷◌, ◌++◌, Text, All,
  same, same_iff, same_self, decimal, decimal-All, decimal-injective, find, if◌then◌else◌,
  Bool-cases, is_digit, drop, subst,
}
use connexia.Ssh.HostKeys.{
  KnownHost, host_key_of, key_type_of, trusted, matches, is_for, check_host_key, renewed, new_entry,
  trust, trust_host_key,
}

All-append_right :
    (a c : Text) → All (λ x. is_digit x ≡ true) (a ++ c) → All (λ x. is_digit x ≡ true) c
All-append_right [] c h = h
All-append_right (x ∷ a) c h = All-append_right a c h.1

no_colon : (b c d : Text) → All (λ x. is_digit x ≡ true) c → c ≢ b ++ (b':' ∷ d)
unfolding is_digit
no_colon b c d h e =
    let k = All-append_right b (b':' ∷ d) (subst (All (λ x. is_digit x ≡ true)) e h) in
    absurd (cc (k.0))

-- The last colon ends the address, since no digit is a colon.
split_at_colon :
    (a b c d : Text)
    → All (λ x. is_digit x ≡ true) c
    → All (λ x. is_digit x ≡ true) d
    → a ++ (b':' ∷ c) ≡ b ++ (b':' ∷ d)
    → (a ≡ b) × (c ≡ d)
split_at_colon [] [] c d hc hd e = (refl, ap (drop 1) e)
split_at_colon [] (x ∷ b) c d hc hd e = absurd (no_colon b c d hc (ap (drop 1) e))
split_at_colon (x ∷ a) [] c d hc hd e = absurd (no_colon a d c hd (ap (drop 1) (sym e)))
split_at_colon (x ∷ a) (y ∷ b) c d hc hd e =
    let r = split_at_colon a b c d hc hd (ap (drop 1) e) in (cc (e, r.0), r.1)

same-false : (a b : Text) → a ≢ b → same a b ≡ false
same-false a b h = elim (Bool-cases (same a b)) [
  | inl e ↦ absurd (h ((same_iff a b).0 e))
  | inr e ↦ e
]

-- Addresses and ports have different host keys.
pub host_key_of-injective :
    (a b : Text) (m n : ℕ) → host_key_of a m ≡ host_key_of b n → (a ≡ b) × (m ≡ n)
host_key_of-injective a b m n e =
    let r = split_at_colon a b (decimal m) (decimal n) (decimal-All m) (decimal-All n) e in
    (r.0, decimal-injective m n r.1)

find-trust_other :
    (now host_key key_type fingerprint other : Text) (ks : List KnownHost)
    → same host_key other ≡ false
    → find (is_for other) (trust now host_key key_type fingerprint ks) ≡ find (is_for other) ks
unfolding trust
find-trust_other now host_key key_type fingerprint other [] h = rw h refl
find-trust_other now host_key key_type fingerprint other (k ∷ ks) h =
    elim (Bool-cases (is_for host_key k)) [
      | inl e ↦
          let other_entry : is_for other k ≡ false = rw ((same_iff k.host_key host_key).0 e) h in
          rw e (rw other_entry refl)
      | inr e ↦ rw e (
          ap (λ r. if is_for other k then some k else r)
            (find-trust_other now host_key key_type fingerprint other ks h))
    ]

-- The table has the key for the host.
abbrev Has : Text → Text → Text → List KnownHost → Type 0
Has host_key key_type fingerprint ks =
    (k : KnownHost) × (find (is_for host_key) ks ≡ some k)
    × (k.key_type ≡ key_type)
    × (k.fingerprint ≡ fingerprint)

find-trust :
    (now host_key key_type fingerprint : Text) (ks : List KnownHost)
    → Has host_key key_type fingerprint (trust now host_key key_type fingerprint ks)
unfolding trust
find-trust now host_key key_type fingerprint [] =
    (new_entry now host_key key_type fingerprint, rw (same_self host_key) refl, refl, refl)
find-trust now host_key key_type fingerprint (k ∷ ks) = elim (Bool-cases (is_for host_key k)) [
  | inl e ↦ rw e (renewed now key_type fingerprint k, rw e refl, refl, refl)
  | inr e ↦ rw e (rw e (find-trust now host_key key_type fingerprint ks))
]

matches_self :
    (k : KnownHost) (key_type fingerprint : Text)
    → k.key_type ≡ key_type
    → k.fingerprint ≡ fingerprint
    → matches k key_type fingerprint ≡ true
unfolding matches
matches_self k key_type fingerprint e f = rw (e, f, same_self key_type, same_self fingerprint) refl

-- A key that has been trusted for an address and port is trusted there the next time, and what is
-- known of every other address or port stays as it is.
pub check_host_key-trust_host_key :
    (now address : Text) (port : ℕ) (wire_type fingerprint : Text) (ks : List KnownHost)
    → let after = trust_host_key now address port (key_type_of wire_type) fingerprint ks in
      (check_host_key after address port wire_type fingerprint ≡ trusted (key_type_of wire_type))
      × ((address' : Text) (port' : ℕ) (wire_type' fingerprint' : Text)
          → ((address ≢ address') ⊎ (port ≢ port'))
          → check_host_key after address' port' wire_type' fingerprint'
            ≡ check_host_key ks address' port' wire_type' fingerprint')
unfolding check_host_key trust_host_key
check_host_key-trust_host_key now address port wire_type fingerprint ks = (
  known (find-trust now (host_key_of address port) (key_type_of wire_type) fingerprint ks),
  λ address' port' wire_type' fingerprint' d.
      rw
        (
          find-trust_other now (host_key_of address port) (key_type_of wire_type) fingerprint
              (host_key_of address' port') ks
              (same-false _ _
                (λ e. differ d (host_key_of-injective address address' port port' e))),
          check_host_key,
        )
        refl,
)
  where
    differ :
        {address' : Text} {port' : ℕ}
        → ((address ≢ address') ⊎ (port ≢ port'))
        → (address ≡ address') × (port ≡ port')
        → ⊥
    differ (inl h) e = h e.0
    differ (inr h) e = h e.1

    known :
        Has
          (host_key_of address port)
          (key_type_of wire_type)
          fingerprint
          (trust now (host_key_of address port) (key_type_of wire_type) fingerprint ks)
        → check_host_key
            (trust now (host_key_of address port) (key_type_of wire_type) fingerprint ks)
            address
            port
            wire_type
            fingerprint
          ≡ trusted (key_type_of wire_type)
    known (k, e, t, f) =
        rw (e, check_host_key) (rw (matches_self k (key_type_of wire_type) fingerprint t f) refl)
