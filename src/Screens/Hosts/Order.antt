-- ===== src/Screens/Hosts/Order.antt =====
-- In which order the hosts are listed.
use connexia.Common.{
  ℕ, suc, ◌≤◌, ◌≡◌, refl, sym, ap, ◌∙◌, arith, Bool, true, false, Option, none, some, List, [], ◌∷◌,
  map, Text, filter, sort_by, IsSorted, Stands, filter-sort_by_standing, sort_by-IsSorted, All,
  Bool-cases, inl, inr,
}
use connexia.Screens.Hosts.{
  Host, Entry, number_from, is_later, same_time, comes_first, sorted_hosts,
}

later_total : (a b : Option ℕ) → is_later a b ≡ false → is_later b a ≡ true
later_total a none h = ground (arith, h)
later_total none (some b) h = refl
later_total (some a) (some b) h = ground (arith, h)

later_trans : (a b c : Option ℕ) → is_later a b ≡ true → is_later b c ≡ true → is_later a c ≡ true
later_trans a b none h k = refl
later_trans a none (some c) h k = ground (arith, k)
later_trans none (some b) (some c) h k = ground (arith, h)
later_trans (some a) (some b) (some c) h k = ground (arith, h, k)

module _ (time : Option Text → Option ℕ) where
  abbrev pub time_of : Host → Option ℕ
  time_of host = time host.last_connected

  abbrev pub is_newer : Host → Host → Bool
  is_newer a b = is_later (time_of a) (time_of b)

  -- The order of the entries, by its parts.
  comes_first-is_later : (a b : Entry) → comes_first time a b ≡ true → is_newer a.0 b.0 ≡ true
  comes_first-is_later a b h = ground (arith, h)

  comes_first_total : (a b : Entry) → comes_first time a b ≡ false → comes_first time b a ≡ true
  comes_first_total a b h =
      ground
        (arith, h, later_total (time_of a.0) (time_of b.0), later_total (time_of b.0) (time_of a.0))

  comes_first_trans :
      (a b c : Entry)
      → comes_first time a b ≡ true
      → comes_first time b c ≡ true
      → comes_first time a c ≡ true
  comes_first_trans a b c h k = ground (
    arith,
    h,
    k,
    later_trans (time_of a.0) (time_of b.0) (time_of c.0),
    later_trans (time_of c.0) (time_of b.0) (time_of a.0),
    later_trans (time_of c.0) (time_of a.0) (time_of b.0),
    later_trans (time_of b.0) (time_of c.0) (time_of a.0),
  )

  All-newer :
      (e : Entry) (es : List Entry)
      → All (λ d. comes_first time e d ≡ true) es
      → All (λ h. is_newer e.0 h ≡ true) (map (λ d. d.0) es)
  All-newer e [] a = tt
  All-newer e (d ∷ ds) a = (comes_first-is_later e d a.0, All-newer e ds a.1)

  IsSorted-hosts :
      (es : List Entry) → IsSorted (comes_first time) es → IsSorted is_newer (map (λ e. e.0) es)
  IsSorted-hosts [] s = tt
  IsSorted-hosts (e ∷ es) s = (All-newer e es s.0, IsSorted-hosts es s.1)

  -- The hosts of one time.
  abbrev pub at_time : Option ℕ → Host → Bool
  at_time t host = same_time (time_of host) t

  places_behind :
      (t : Option ℕ) (host : Host) (i j : ℕ) (hosts : List Host)
      → i ≤ j
      → All
          (λ e. at_time t host ≡ true → at_time t e.0 ≡ true → comes_first time (host, i) e ≡ true)
          (number_from j hosts)
  places_behind t host i j [] le = tt
  places_behind t host i j (next ∷ hosts) le = (
    λ h k. ground (
      arith,
      le,
      h,
      k,
      later_trans (time_of host) t (time_of next),
      later_trans (time_of next) t (time_of host),
    ),
    places_behind t host i (suc j) hosts (omega (arith, le)),
  )

  places-Stands :
      (t : Option ℕ) (i : ℕ) (hosts : List Host)
      → Stands (comes_first time) (λ e. at_time t e.0) (number_from i hosts)
  places-Stands t i [] = tt
  places-Stands t i (host ∷ hosts) =
      (places_behind t host i (suc i) hosts (omega arith), places-Stands t (suc i) hosts)

  filter-map_host :
      (test : Host → Bool) (es : List Entry)
      → filter test (map (λ e. e.0) es) ≡ map (λ e. e.0) (filter (λ e. test e.0) es)
  filter-map_host test [] = refl
  filter-map_host test (e ∷ es) = elim (Bool-cases (test e.0)) [
    | inl f ↦ rw (f, filter-map_host test es) refl
    | inr f ↦ rw (f, filter-map_host test es) refl
  ]

  map-number_from : (i : ℕ) (hosts : List Host) → map (λ e. e.0) (number_from i hosts) ≡ hosts
  map-number_from i [] = refl
  map-number_from i (host ∷ hosts) = ap (host ∷◌) (map-number_from (suc i) hosts)

-- The hosts are listed with the last connected first and those that never were last, and hosts of
-- one time are all there and in the order of the table.
pub sorted_hosts-IsSorted :
    (time : Option Text → Option ℕ) (hosts : List Host) (t : Option ℕ)
    → IsSorted (is_newer time) (sorted_hosts time hosts)
      × (filter (at_time time t) (sorted_hosts time hosts) ≡ filter (at_time time t) hosts)
unfolding sorted_hosts
sorted_hosts-IsSorted time hosts t =
    let entries = number_from 0 hosts in
    let sorted = sort_by (comes_first time) entries in
    let test = at_time time t in
    (
      IsSorted-hosts time sorted (
          sort_by-IsSorted (comes_first time) (comes_first_total time) (comes_first_trans time)
            entries),
      filter-map_host time test sorted
          ∙ ap (map (λ e. e.0)) (
              filter-sort_by_standing (comes_first time) (λ e. test e.0) entries
                (places-Stands time t 0 hosts))
          ∙ sym (filter-map_host time test entries)
          ∙ ap (filter test) (map-number_from time 0 hosts),
    )
