-- ===== src/Sftp/Transfers/Whole.antt =====
-- What a transfer that ends well has transferred.
use connexia.Common.{
  ℕ, ◌≡◌, ◌⊎◌, refl, sym, ap, ◌∙◌, arith, Bool, true, false, not, ◌&&◌, Option, none, some, List,
  [], ◌∷◌, ◌++◌, append_assoc, append-nil, Text, Bool-cases, Option-cases, inl, inr,
}
use connexia.Sftp.Transfers.{
  Round, Ending, read_all, unwritten, committed, Download, Script, read_script, Sent, finish_remote,
  copy_between, send_all, upload_file,
}

-- All that the source holds.
abbrev pub source_of : List Round → List ℕ
source_of [] = []
source_of (r ∷ rs) = r.bytes ++ source_of rs

read_all-whole :
    (rs : List Round) (last : Option Text) (late : Bool) (w : List ℕ)
    → (read_all rs last late w).failure ≡ none
    → (read_all rs last late w).written ≡ w ++ source_of rs
unfolding read_all
read_all-whole [] last late w h = sym (append-nil w)
read_all-whole (r ∷ rs) last late w h = elim (Bool-cases r.canceled) [
  | inl e ↦ absurd (cc (rw (e, read_all) at h))
  | inr e ↦ elim (Option-cases r.failure) [
    | inl f ↦
        rw (e, f)
          (read_all-whole rs last late (w ++ r.bytes) (rw (e, read_all) at (rw f at h))
            ∙ append_assoc w r.bytes (source_of rs))
    | inr (m, f) ↦ absurd (cc (f, e, h))
  ]
]

send_all-whole :
    (rs : List Round) (last : Option Text) (late : Bool) (w : List ℕ)
    → (send_all rs last late w).failure ≡ none
    → (send_all rs last late w).canceled ≡ false
    → (send_all rs last late w).written ≡ w ++ source_of rs
unfolding send_all
send_all-whole [] last late w h k = sym (append-nil w)
send_all-whole (r ∷ rs) last late w h k = elim (Bool-cases r.canceled) [
  | inl e ↦ absurd (cc (rw (e, send_all) at k))
  | inr e ↦ elim (Option-cases r.failure) [
    | inl f ↦
        rw (e, f)
          (send_all-whole rs last late (w ++ r.bytes) (rw (e, f) at h) (rw (e, f) at k)
            ∙ append_assoc w r.bytes (source_of rs))
    | inr (m, f) ↦ absurd (cc (f, e, h))
  ]
]

-- What a download that leaves a file behind has written and shown.
abbrev pub IsWhole : Script → Download → Type 0
IsWhole c d =
    ((bs : List ℕ) → d.target ≡ committed bs → (bs ≡ source_of c.rounds) × (d.shown ≡ none))
    × (d.target ≡ unwritten → ((message : Text) × (d.shown ≡ some message)) ⊎ (c.opening ≡ true))

-- What a transfer to a host leaves there.
abbrev pub IsSent : Script → Sent → Type 0
IsSent c s = s.listed ≡ true → (s.remote ≡ some (source_of c.rounds)) × (s.shown ≡ none)

finish_remote-IsSent :
    (what : Text) (close_target : Option Text) (here : Bool) (c : Script) (e : Ending)
    → (e.failure ≡ none → e.canceled ≡ false → e.written ≡ source_of c.rounds)
    → IsSent c (finish_remote what close_target here e)
unfolding finish_remote
finish_remote-IsSent what close_target here c e w = elim (Option-cases e.failure) [
  | inr (m, f) ↦ rw (f, finish_remote) (λ h. absurd (cc h))
  | inl f ↦ elim (Option-cases close_target) [
    | inr (m, g) ↦ rw (f, finish_remote, g) (λ h. absurd (cc h))
    | inl g ↦ rw (f, finish_remote, g) (λ h. (ap some (w f (kept e.canceled h)), refl))
  ]
]
  where
    kept : (b : Bool) → (not b && here) ≡ true → b ≡ false
    kept b h = ground arith

copy_between-IsSent : (what : Text) (c : Script) → IsSent c (copy_between what c)
unfolding copy_between
copy_between-IsSent what c = elim (Option-cases c.open_source) [
  | inr (m, e) ↦ rw (e, copy_between) (λ h. absurd (cc h))
  | inl e ↦ elim (Bool-cases c.early) [
    | inl k ↦ rw (e, copy_between, k) (λ h. absurd (cc h))
    | inr k ↦ elim (Option-cases c.open_target) [
      | inr (m, g) ↦ rw (e, copy_between, k, g) (λ h. absurd (cc h))
      | inl g ↦
          rw (e, copy_between, k, g)
            (finish_remote-IsSent what c.close_target true c (read_script c)
              (λ f n. read_all-whole c.rounds c.last c.late [] f))
    ]
  ]
]

upload_file-IsSent : (what : Text) (here : Bool) (c : Script) → IsSent c (upload_file what here c)
unfolding upload_file
upload_file-IsSent what here c = elim (Option-cases c.open_target) [
  | inr (m, e) ↦ rw (e, upload_file) (λ h. absurd (cc h))
  | inl e ↦ elim (Bool-cases c.early) [
    | inl k ↦ rw (e, upload_file, k) (λ h. absurd (cc h))
    | inr k ↦
        rw (e, upload_file, k)
          (finish_remote-IsSent what c.close_target here c (send_all c.rounds c.last c.late [])
            (send_all-whole c.rounds c.last c.late []))
  ]
]

-- An upload or a copy between two hosts loads the listings again only when the host has all that the
-- source holds, and then it shows no error.
pub upload_file-copy_between :
    (what : Text) (here : Bool) (c : Script)
    → IsSent c (upload_file what here c) × IsSent c (copy_between what c)
upload_file-copy_between what here c = (upload_file-IsSent what here c, copy_between-IsSent what c)
