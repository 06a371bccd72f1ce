-- ===== src/Sftp/Paths/Normal.antt =====
-- Normal paths: a slash, and the names of directories with slashes between them.
use connexia.Common.{
  ◌≡◌, refl, sym, ap, ◌∙◌, true, false, ◌||◌, some, List, [], ◌∷◌, ◌++◌, append_assoc, append-nil,
  Text, codes, same, All, All-append, split, join, before_last, Lacks, split-Lacks, split-append,
  split-push, split-All-Lacks, before_last-append, Bool-cases, inl, inr,
}
use connexia.Sftp.Paths.{
  slash, pop, walk_part, walk, path_of, normalize_path, join_path, up_to_slash, or_root,
  parent_path,
}

-- A name in a directory: not empty, no `.` and no `..`, and without a slash.
abbrev pub IsName : Text → Type 0
IsName name =
    ((same name [] || same name (codes ".")) ≡ false)
    × (same name (codes "..") ≡ false)
    × Lacks slash name

All-pop : (parts : List Text) → All IsName parts → All IsName (pop parts)
unfolding pop
All-pop [] h = tt
All-pop (part ∷ []) h = tt
All-pop (part ∷ next ∷ parts) h = (h.0, All-pop (next ∷ parts) h.1)

walk_part-All :
    (part : Text) (parts : List Text)
    → Lacks slash part
    → All IsName parts
    → All IsName (walk_part part parts)
unfolding walk_part
walk_part-All part parts l h = elim (Bool-cases (same part [] || same part (codes "."))) [
  | inl e ↦ rw e h
  | inr e ↦ elim (Bool-cases (same part (codes ".."))) [
    | inl f ↦ rw (e, f) (All-pop parts h)
    | inr f ↦ rw (e, f) (All-append IsName parts (part ∷ []) h ((e, f, l), tt))
  ]
]

walk-All :
    (rest parts : List Text)
    → All (Lacks slash) rest
    → All IsName parts
    → All IsName (walk rest parts)
unfolding walk
walk-All [] parts l h = h
walk-All (part ∷ rest) parts l h =
    walk-All rest (walk_part part parts) l.1 (walk_part-All part parts l.0 h)

-- Names are walked one behind the other.
walk-names : (names parts : List Text) → All IsName names → walk names parts ≡ parts ++ names
unfolding walk walk_part
walk-names [] parts h = sym (append-nil parts)
walk-names (name ∷ names) parts h =
    rw (h.0.0, h.0.1)
      (walk-names names (parts ++ name ∷ []) h.1 ∙ append_assoc parts (name ∷ []) names)

split-names :
    (name : Text) (names : List Text)
    → All IsName (name ∷ names)
    → split slash (join (codes "/") (name ∷ names)) ≡ name ∷ names
unfolding join
split-names name [] h = split-Lacks slash name h.0.2
split-names name (next ∷ names) h =
    split-append slash name (join (codes "/") (next ∷ names)) h.0.2
    ∙ ap (name ∷◌) (split-names next names h.1)

walk-split-names :
    (names : List Text) → All IsName names → walk (split slash (path_of names)) [] ≡ names
unfolding walk walk_part join same split
walk-split-names [] h = refl
walk-split-names (name ∷ names) h =
    rw (split-append slash [] (join (codes "/") (name ∷ names)) tt, split-names name names h)
      (walk-names (name ∷ names) [] h)

normalize_path-path_of :
    (names : List Text) → All IsName names → normalize_path (path_of names) ≡ path_of names
unfolding normalize_path
normalize_path-path_of names h = ap path_of (walk-split-names names h)

walk-push :
    (rest : List Text) (part : Text) (parts : List Text)
    → walk (rest ++ part ∷ []) parts ≡ walk_part part (walk rest parts)
unfolding walk
walk-push [] part parts = refl
walk-push (next ∷ rest) part parts = walk-push rest part (walk_part next parts)

pop-push : (before : List Text) (last : Text) → pop (before ++ last ∷ []) ≡ before
unfolding pop
pop-push [] last = refl
pop-push (part ∷ []) last = refl
pop-push (part ∷ next ∷ before) last = ap (part ∷◌) (pop-push (next ∷ before) last)

normalize_path-push :
    (path part : Text)
    → Lacks slash part
    → normalize_path (path ++ slash ∷ part) ≡ path_of (walk_part part (walk (split slash path) []))
unfolding normalize_path
normalize_path-push path part l =
    ap (λ parts. path_of (walk parts [])) (split-push slash path part l)
    ∙ ap path_of (walk-push (split slash path) part [])

walk_part-here :
    (part : Text) (names : List Text)
    → (same part [] || same part (codes ".")) ≡ true
    → walk_part part names ≡ names
unfolding walk_part
walk_part-here part names e = rw e refl

walk_part-up :
    (part : Text) (names before : List Text) (last : Text)
    → part ≡ codes ".."
    → names ≡ before ++ last ∷ []
    → walk_part part names ≡ before
unfolding walk_part same
walk_part-up part names before last e n = rw (e, n) (pop-push before last)

walk_part-root : (part : Text) → part ≡ codes ".." → walk_part part [] ≡ []
unfolding walk_part same pop
walk_part-root part e = rw e refl

walk_part-name :
    (part : Text) (names : List Text) → IsName part → walk_part part names ≡ names ++ part ∷ []
unfolding walk_part
walk_part-name part names h = rw (h.0, h.1) refl

-- What a part behind a path does to the path's names: an empty one and `.` nothing, `..` takes the
-- last name away, or nothing at the root, and a name is added.
pub record Extends (path : Text) (names : List Text) (part : Text) : Type 0 where
  pub keeps :
      (same part [] || same part (codes ".")) ≡ true
      → normalize_path (path ++ slash ∷ part) ≡ path_of names
  pub goes_up :
      (before : List Text) (last : Text)
      → part ≡ codes ".."
      → names ≡ before ++ last ∷ []
      → normalize_path (path ++ slash ∷ part) ≡ path_of before
  pub stays_at_root :
      part ≡ codes ".." → names ≡ [] → normalize_path (path ++ slash ∷ part) ≡ path_of []
  pub adds : IsName part → normalize_path (path ++ slash ∷ part) ≡ path_of (names ++ part ∷ [])

-- Every path is normalised to a slash and names with slashes between them, and a path of that form
-- stays as it is. With one more part behind it, an empty one or `.` changes nothing, `..` takes the
-- last name away, or nothing at the root, and a name is added at the end.
pub normalize_path-IsName :
    (path part : Text)
    → Lacks slash part
    → (names : List Text) × All IsName names
      × (normalize_path path ≡ path_of names)
      × (normalize_path (path_of names) ≡ path_of names)
      × Extends path names part
unfolding normalize_path
normalize_path-IsName path part l =
    let names = walk (split slash path) [] in
    let h = walk-All (split slash path) [] (split-All-Lacks slash path) tt in
    let push = normalize_path-push path part l in
    (
      names,
      h,
      refl,
      normalize_path-path_of names h,
      record {
        keeps = λ e. push ∙ ap path_of (walk_part-here part names e);
        goes_up = λ before last e n. push ∙ ap path_of (walk_part-up part names before last e n);
        stays_at_root = λ e n.
            push ∙ ap (λ ns. path_of (walk_part part ns)) n ∙ ap path_of (walk_part-root part e);
        adds = λ k. push ∙ ap path_of (walk_part-name part names k);
      },
    )

join-push :
    (first : Text) (names : List Text) (name : Text)
    → join (codes "/") ((first ∷ names) ++ name ∷ [])
      ≡ join (codes "/") (first ∷ names) ++ slash ∷ name
unfolding join
join-push first [] name = refl
join-push first (next ∷ names) name =
    rw (join-push next names name)
      (sym (append_assoc first (codes "/" ++ join (codes "/") (next ∷ names)) (slash ∷ name)))

not_root :
    (first : Text) (names : List Text)
    → All IsName (first ∷ names)
    → same (path_of (first ∷ names)) (codes "/") ≡ false
unfolding join same
not_root [] names h = absurd (cc (h.0.0))
not_root (c ∷ cs) [] h = refl
not_root (c ∷ cs) (next ∷ names) h = refl

join_path-names :
    (names : List Text) (name : Text)
    → All IsName names
    → join_path (path_of names) name ≡ path_of (names ++ name ∷ [])
unfolding join_path join same
join_path-names [] name h = refl
join_path-names (first ∷ names) name h =
    rw (not_root first names h) (ap (slash ∷◌) (sym (join-push first names name)))

parent_path-before :
    (path before : Text)
    → before_last slash path ≡ some before
    → parent_path path ≡ normalize_path (or_root before)
unfolding parent_path up_to_slash
parent_path-before path before e = rw (e, up_to_slash) refl

parent_path-names :
    (names : List Text) (name : Text)
    → All IsName names
    → IsName name
    → parent_path (path_of (names ++ name ∷ [])) ≡ path_of names
unfolding join
parent_path-names [] name h k =
    parent_path-before (slash ∷ name) [] (before_last-append slash [] name k.2)
    ∙ normalize_path-path_of [] tt
parent_path-names (first ∷ names) name h k = rw (join-push first names name) (
    parent_path-before (path_of (first ∷ names) ++ slash ∷ name) (path_of (first ∷ names))
      (before_last-append slash (path_of (first ∷ names)) name k.2)
    ∙ normalize_path-path_of (first ∷ names) h)

-- Opening a directory of a listing gives a normal path, and going up from there leads back.
pub parent_path-join_path :
    (names : List Text) (name : Text)
    → All IsName names
    → IsName name
    → let dir = path_of names in
      (normalize_path (join_path dir name) ≡ path_of (names ++ name ∷ []))
      × (parent_path (join_path dir name) ≡ dir)
parent_path-join_path names name h k = rw (join_path-names names name h) (
  normalize_path-path_of (names ++ name ∷ []) (All-append IsName names (name ∷ []) h (k, tt)),
  parent_path-names names name h k,
)
