-- ===== src/Prelude/Join.antt =====
-- strings.Join, against strings.Split, and strings.TrimSpace.
use mathlib.Core.Path.{◌≡◌, refl}
use mathlib.Core.Logic.{◌≢◌}
use mathlib.Core.Bool.{Bool, ◌&&◌, ◌||◌}
use mathlib.Core.List.{List, [], ◌∷◌, ◌++◌, append-nil}
use native.Mathlib.Omega.{arith}
use Prim.Native.Nat.{ℕ}
use packrune.Prelude.Tests.{nat_eq, if◌then◌else◌}
use packrune.Prelude.Text.{Bytes}
use packrune.Prelude.Fields.{split, split-append, split_last, in_range, All}

abbrev pub join_from : List Bytes → ℕ → Bytes
join_from [] sep = []
join_from (e ∷ es) sep = sep ∷ (e ++ join_from es sep)

-- strings.Join(elems, sep) for a separator of one byte
unfoldable pub join : List Bytes → ℕ → Bytes
join [] sep = []
join (e ∷ es) sep = e ++ join_from es sep

-- The elements that hold no separator are found again.
pub split-join_from :
    (e : Bytes) (es : List Bytes) (sep : ℕ)
    → All (λ s. All (λ c. c ≢ sep) s) (e ∷ es)
    → split (e ++ join_from es sep) sep ≡ e ∷ es
split-join_from e [] sep (h, hs) = rw (append-nil e) (split_last e sep h)
split-join_from e (f ∷ es) sep (h, hs) =
    ground (arith, split-append e (f ++ join_from es sep) sep h, split-join_from f es sep hs)

-- The fields of a text that may be empty, as the columns with lists are read.
unfoldable pub split_column : Bytes → List Bytes
split_column [] = []
split_column (c ∷ s) = split (c ∷ s) b','

-- A list of texts without commas is read back as it was, unless it is the empty text alone.
pub split_column-join :
    (es : List Bytes)
    → All (λ s. All (λ c. c ≢ b',') s) es
    → es ≢ [] ∷ []
    → split_column (join es b',') ≡ es
unfolding split_column join
split_column-join [] h k = refl
split_column-join ([] ∷ []) h k = absurd (k refl)
split_column-join ([] ∷ f ∷ es) h k = split-join_from [] (f ∷ es) b',' h
split_column-join ((c ∷ e) ∷ es) h k = split-join_from (c ∷ e) es b',' h

-- unicode.IsSpace, at the start of UTF-8: what is left behind a space of one, two or three bytes.
abbrev is_space1 : ℕ → Bool
is_space1 c = in_range 9 13 c || nat_eq c 32

abbrev is_space2 : ℕ → ℕ → Bool
is_space2 c d = nat_eq c 0xC2 && (nat_eq d 0x85 || nat_eq d 0xA0)

abbrev is_space3 : ℕ → ℕ → ℕ → Bool
is_space3 c d e =
    (nat_eq c 0xE1 && (nat_eq d 0x9A && nat_eq e 0x80))
    || (nat_eq c 0xE2
        && (nat_eq d 0x80 && (in_range 0x80 0x8A e || (in_range 0xA8 0xA9 e || nat_eq e 0xAF))))
    || (nat_eq c 0xE2 && (nat_eq d 0x81 && nat_eq e 0x9F))
    || (nat_eq c 0xE3 && (nat_eq d 0x80 && nat_eq e 0x80))

unfoldable pub trim_left : Bytes → Bytes
trim_left [] = []
trim_left (c ∷ []) = if is_space1 c then [] else c ∷ []
trim_left (c ∷ d ∷ []) =
    let rest = trim_left (d ∷ []) in
    if is_space1 c then rest else if is_space2 c d then [] else c ∷ d ∷ []
trim_left (c ∷ d ∷ e ∷ s) =
    let rest1 = trim_left (d ∷ e ∷ s) in
    let rest2 = trim_left (e ∷ s) in
    let rest3 = trim_left s in
    if is_space1 c
    then rest1
    else if is_space2 c d
    then rest2
    else if is_space3 c d e
    then rest3
    else c ∷ d ∷ e ∷ s

abbrev keep : ℕ → Bytes → Bytes → Bytes
keep c [] rest = []
keep c (d ∷ s) rest = c ∷ rest

-- The longest end that is all spaces goes.
unfoldable pub trim_right : Bytes → Bytes
trim_right [] = []
trim_right (c ∷ s) = keep c (trim_left (c ∷ s)) (trim_right s)

-- strings.TrimSpace
unfoldable pub trim_space : Bytes → Bytes
trim_space s = trim_right (trim_left s)
