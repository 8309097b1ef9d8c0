-- ===== src/Pypi/Name.antt =====
-- internal/format/pypi/handler.go: the normalisation of package names.
use packrune.Prelude.{
  ℕ, ◌≡◌, refl, Bool, true, false, not, ◌&&◌, ◌||◌, [], ◌∷◌, arith, Bytes, nat_eq, nat_eq_iff, ltb,
  all, in_range, lower_ascii, is_ascii, to_lower, if◌then◌else◌,
}

abbrev is_separator : ℕ → Bool
is_separator c = nat_eq c b'-' || nat_eq c b'_' || nat_eq c b'.'

-- ReplaceAllString of [-_.]+ by "-"; `run` tells whether the byte before was a separator.
unfoldable pub join_runs : Bool → Bytes → Bytes
join_runs run [] = []
join_runs run (c ∷ s) =
    let inside = join_runs true s in
    let outside = join_runs false s in
    if is_separator c then (if run then inside else b'-' ∷ inside) else c ∷ outside

-- normalize
unfoldable pub normalize : (Bytes → Bytes) → Bytes → Bytes
normalize other name = join_runs false (to_lower other name)

abbrev is_plain : ℕ → Bool
is_plain c = not (in_range b'A' b'Z' c) && not (nat_eq c b'_') && not (nat_eq c b'.') && ltb c 128

-- A name of ASCII without upper case letters, underscores and dots, and without two dashes in a row;
-- behind a dash, none comes first.
unfoldable pub is_normal : Bool → Bytes → Bool
is_normal dash [] = true
is_normal dash (c ∷ s) = is_plain c && not (dash && nat_eq c b'-') && is_normal (nat_eq c b'-') s

join_runs-normal :
    (run : Bool) (s : Bytes)
    → is_ascii s ≡ true
    → is_normal run (join_runs run (lower_ascii s)) ≡ true
unfolding join_runs is_normal lower_ascii is_ascii all
join_runs-normal run [] h = refl
join_runs-normal run (c ∷ s) h = ground (arith, join_runs-normal true s, join_runs-normal false s)

-- The normal form of a name of ASCII is in lower case, and its parts are separated by single dashes.
pub normalize-is_normal :
    (other : Bytes → Bytes) (name : Bytes)
    → is_ascii name ≡ true
    → is_normal false (normalize other name) ≡ true
unfolding normalize
normalize-is_normal other name h = rw h (join_runs-normal false name h)

join_runs_normal :
    (run : Bool) (s : Bytes) → is_normal run s ≡ true → join_runs run (lower_ascii s) ≡ s
unfolding join_runs is_normal lower_ascii
join_runs_normal run [] h = refl
join_runs_normal run (c ∷ s) h =
    ground (arith, join_runs_normal true s, join_runs_normal false s, nat_eq_iff c b'-')

is_normal-is_ascii : (run : Bool) (s : Bytes) → is_normal run s ≡ true → is_ascii s ≡ true
unfolding is_normal is_ascii all
is_normal-is_ascii run [] h = refl
is_normal-is_ascii run (c ∷ s) h = ground (arith, is_normal-is_ascii (nat_eq c b'-') s)

-- A name in normal form is its own normal form.
pub normalize_normal :
    (other : Bytes → Bytes) (name : Bytes)
    → is_normal false name ≡ true
    → normalize other name ≡ name
unfolding normalize
normalize_normal other name h = rw (is_normal-is_ascii false name h) (join_runs_normal false name h)

-- The normal form of a name of ASCII is in lower case with single dashes between its parts, and it is its
-- own normal form.
pub normalize-normalize :
    (other : Bytes → Bytes) (name : Bytes)
    → is_ascii name ≡ true
    → (is_normal false (normalize other name) ≡ true)
      × (normalize other (normalize other name) ≡ normalize other name)
normalize-normalize other name h =
    let normal = normalize-is_normal other name h in
    (normal, normalize_normal other (normalize other name) normal)
