-- ===== src/Store/Toy.antt =====
-- A `JSON` for the tests, which meets `JsonDocumented`: numbers in unary, and lists behind their
-- lengths.
use connexia.Common.{
  ℕ, zero, suc, ◌≡◌, refl, true, Option, none, some, List, [], ◌∷◌, Text, length, ◌>>=◌,
}
use connexia.Crypto.Toy.{all_small}
use connexia.Store.Payload.{Data, Payload, Json, JsonDocumented, RawPayload}

unfoldable pub put : ℕ → Text → Text
put zero rest = 0 ∷ rest
put (suc n) rest = 1 ∷ put n rest

unfoldable pub get : Text → Option (ℕ × Text)
get [] = none
get (zero ∷ rest) = some (0, rest)
get (suc c ∷ rest) = do r ← get rest; some (suc r.0, r.1)

unfoldable pub put_items : List ℕ → Text → Text
put_items [] rest = rest
put_items (x ∷ xs) rest = put x (put_items xs rest)

unfoldable pub get_items : ℕ → Text → Option (List ℕ × Text)
get_items zero text = some ([], text)
get_items (suc n) text = do x ← get text; xs ← get_items n x.1; some (x.0 ∷ xs.0, xs.1)

unfoldable pub put_list : List ℕ → Text → Text
put_list xs rest = put (length xs) (put_items xs rest)

unfoldable pub get_list : Text → Option (List ℕ × Text)
get_list text = do n ← get text; get_items n.0 n.1

unfoldable pub put_pairs : List (Text × Text) → Text → Text
put_pairs [] rest = rest
put_pairs ((k, v) ∷ ps) rest = put_list k (put_list v (put_pairs ps rest))

unfoldable pub get_pairs : ℕ → Text → Option (List (Text × Text) × Text)
get_pairs zero text = some ([], text)
get_pairs (suc n) text = do
  k ← get_list text
  v ← get_list k.1
  ps ← get_pairs n v.1
  some ((k.0, v.0) ∷ ps.0, ps.1)

get-put : (n : ℕ) (rest : Text) → get (put n rest) ≡ some (n, rest)
unfolding get put
get-put zero rest = refl
get-put (suc n) rest = rw (get-put n rest) refl

get_items-put_items :
    (xs : List ℕ) (rest : Text) → get_items (length xs) (put_items xs rest) ≡ some (xs, rest)
unfolding get_items put_items
get_items-put_items [] rest = refl
get_items-put_items (x ∷ xs) rest = rw (get-put x, get_items-put_items xs rest) refl

get_list-put_list : (xs : List ℕ) (rest : Text) → get_list (put_list xs rest) ≡ some (xs, rest)
unfolding get_list put_list
get_list-put_list xs rest = rw (get-put (length xs)) (get_items-put_items xs rest)

get_pairs-put_pairs :
    (ps : List (Text × Text)) (rest : Text)
    → get_pairs (length ps) (put_pairs ps rest) ≡ some (ps, rest)
unfolding get_pairs put_pairs
get_pairs-put_pairs [] rest = refl
get_pairs-put_pairs ((k, v) ∷ ps) rest =
    rw (get_list-put_list k, get_list-put_list v, get_pairs-put_pairs ps rest) refl

small-put : (n : ℕ) (rest : Text) → all_small (put n rest) ≡ all_small rest
unfolding put all_small
small-put zero rest = refl
small-put (suc n) rest = small-put n rest

small-put_items : (xs : List ℕ) (rest : Text) → all_small (put_items xs rest) ≡ all_small rest
unfolding put_items
small-put_items [] rest = refl
small-put_items (x ∷ xs) rest = rw (small-put x) (small-put_items xs rest)

small-put_list : (xs : List ℕ) (rest : Text) → all_small (put_list xs rest) ≡ all_small rest
unfolding put_list
small-put_list xs rest = rw (small-put (length xs)) (small-put_items xs rest)

small-put_pairs :
    (ps : List (Text × Text)) (rest : Text) → all_small (put_pairs ps rest) ≡ all_small rest
unfolding put_pairs
small-put_pairs [] rest = refl
small-put_pairs ((k, v) ∷ ps) rest =
    rw (small-put_list k, small-put_list v) (small-put_pairs ps rest)

abbrev tables_of : Data ℕ → List (List ℕ)
tables_of d =
    d.hosts ∷ d.groups ∷ d.identities ∷ d.known_hosts ∷ d.snippets ∷ d.session_logs ∷ d.themes
    ∷ d.tunnels ∷ []

unfoldable pub put_lists : List (List ℕ) → Text → Text
put_lists [] rest = rest
put_lists (xs ∷ xss) rest = put_list xs (put_lists xss rest)

unfoldable pub toy_stringify : Payload ℕ → Text
toy_stringify p = put_list p.modified_at (
    put_lists (tables_of p.content)
      (put (length p.content.settings) (put_pairs p.content.settings [])))

unfoldable pub toy_parse : Text → Option (RawPayload ℕ)
toy_parse text = do
  at ← get_list text
  hosts ← get_list at.1
  groups ← get_list hosts.1
  identities ← get_list groups.1
  known ← get_list identities.1
  snippets ← get_list known.1
  logs ← get_list snippets.1
  themes ← get_list logs.1
  tunnels ← get_list themes.1
  n ← get tunnels.1
  settings ← get_pairs n.0 n.1
  some (record {
    modified_at = at.0;
    content = some (record {
      hosts = some hosts.0;
      groups = some groups.0;
      identities = some identities.0;
      known_hosts = some known.0;
      snippets = some snippets.0;
      session_logs = some logs.0;
      themes = some themes.0;
      tunnels = some tunnels.0;
      settings = some settings.0;
    });
  })

abbrev pub toy_json : Json ℕ
toy_json = record { stringify = toy_stringify; parse = toy_parse }

pub toy_json-Documented : JsonDocumented toy_json
unfolding toy_stringify toy_parse put_lists
toy_json-Documented = record {
  parse-stringify = λ p. rw (get_list-put_list p.modified_at) (
      rw (get_list-put_list p.content.hosts) (
        rw (get_list-put_list p.content.groups) (
          rw (get_list-put_list p.content.identities) (
            rw (get_list-put_list p.content.known_hosts) (
              rw (get_list-put_list p.content.snippets) (
                rw (get_list-put_list p.content.session_logs) (
                  rw (get_list-put_list p.content.themes) (
                    rw (get_list-put_list p.content.tunnels) (
                      rw (get-put (length p.content.settings))
                        (rw (get_pairs-put_pairs p.content.settings []) refl))))))))));
}

small-put_lists :
    (xss : List (List ℕ)) (rest : Text) → all_small (put_lists xss rest) ≡ all_small rest
unfolding put_lists
small-put_lists [] rest = refl
small-put_lists (xs ∷ xss) rest = rw (small-put_list xs) (small-put_lists xss rest)

pub small-toy_stringify : (p : Payload ℕ) → all_small (toy_json.stringify p) ≡ true
unfolding toy_stringify all_small
small-toy_stringify p =
    rw
      (
        small-put_list p.modified_at,
        small-put_lists (tables_of p.content),
        small-put (length p.content.settings),
        small-put_pairs p.content.settings,
      )
      refl
