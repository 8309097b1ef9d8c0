-- ===== src/Gomod/Route.antt =====
-- internal/format/gomod/route.go: the URLs of the module proxy and the escapes in module paths.
use packrune.Prelude.{
  inl, inr, Bool-cases, Option-cases, ℕ, ◌+◌, ◌-◌, ◌≡◌, ◌≢◌, refl, Bool, true, false, not, Option,
  none, some, [], ◌∷◌, arith, Bytes, codes, ◌==◌, nat_eq, nat_eq_iff, if◌then◌else◌, in_range, All,
  all, has_suffix, trim_suffix, trim_prefix, Split, cut_last,
}

pub data RouteKind : Type 0 where
  unknown list latest info mod_file zip : RouteKind

pub record ParsedRoute : Type 0 where
  pub kind : RouteKind
  pub module_path : Bytes
  pub version : Bytes

abbrev pub route : RouteKind → Bytes → Bytes → ParsedRoute
route k m v = record { kind = k; module_path = m; version = v }

abbrev push : ℕ → Option Bytes → Option Bytes
push c none = none
push c (some s) = some (c ∷ s)

abbrev is_lower : ℕ → Bool
is_lower c = in_range b'a' b'z' c

-- The loop of decodeModule.
unfoldable pub decode_from : Bytes → Option Bytes
decode_from [] = some []
decode_from (c ∷ []) = if nat_eq c b'!' then none else some (c ∷ [])
decode_from (c ∷ next ∷ s) =
    let behind = decode_from s in
    let rest = decode_from (next ∷ s) in
    if nat_eq c b'!'
    then (if is_lower next then push (next - (b'a' - b'A')) behind else none)
    else push c rest

unfoldable pub decode_module : Bytes → Option Bytes
decode_module [] = none
decode_module (c ∷ s) = decode_from (c ∷ s)

abbrev routed : RouteKind → Bytes → Option Bytes → ParsedRoute
routed k v none = route unknown [] []
routed k v (some m) = route k m v

abbrev version_route : RouteKind → Bytes → Bytes → ParsedRoute
version_route k v m = if v == [] then route unknown [] [] else routed k v (decode_module m)

abbrev file_route : Bytes → Bytes → ParsedRoute
file_route m rest =
    if has_suffix rest (codes ".info")
    then version_route info (trim_suffix rest (codes ".info")) m
    else if has_suffix rest (codes ".mod")
    then version_route mod_file (trim_suffix rest (codes ".mod")) m
    else if has_suffix rest (codes ".zip")
    then version_route zip (trim_suffix rest (codes ".zip")) m
    else route unknown [] []

-- `if i := strings.LastIndex(p, "/@v/"); i > 0`
abbrev split_route : Option Split → ParsedRoute
split_route none = route unknown [] []
split_route (some ([], rest)) = route unknown [] []
split_route (some (c ∷ m, rest)) = file_route (c ∷ m) rest

unfoldable pub parse_trimmed : Bytes → ParsedRoute
parse_trimmed p =
    if p == []
    then route unknown [] []
    else if has_suffix p (codes "/@latest")
    then routed latest [] (decode_module (trim_suffix p (codes "/@latest")))
    else if has_suffix p (codes "/@v/list")
    then routed list [] (decode_module (trim_suffix p (codes "/@v/list")))
    else split_route (cut_last p (codes "/@v/"))

unfoldable pub parse_path : Bytes → ParsedRoute
parse_path p = parse_trimmed (trim_prefix p (codes "/"))

abbrev pub is_upper : ℕ → Bool
is_upper c = in_range b'A' b'Z' c

-- The escaped form of a module path, as the documentation of Go modules defines it.
unfoldable pub encode_module : Bytes → Bytes
encode_module [] = []
encode_module (c ∷ s) =
    let rest = encode_module s in if is_upper c then b'!' ∷ (c + 32) ∷ rest else c ∷ rest

decode_from-cons :
    (c : ℕ) (s : Bytes) → nat_eq c b'!' ≡ false → decode_from (c ∷ s) ≡ push c (decode_from s)
unfolding decode_from
decode_from-cons c [] h = ground arith
decode_from-cons c (d ∷ s) h = ground arith

decode_from-escape :
    (d : ℕ) (s : Bytes)
    → decode_from (b'!' ∷ d ∷ s)
      ≡ (if is_lower d then push (d - (b'a' - b'A')) (decode_from s) else none)
unfolding decode_from
decode_from-escape d s = ground arith

decode_from-encode : (m : Bytes) → All (λ c. c ≢ b'!') m → decode_from (encode_module m) ≡ some m
unfolding encode_module
decode_from-encode [] h = unfold decode_from in refl
decode_from-encode (c ∷ m) (hc, h) = ground (
  arith,
  decode_from-encode m h,
  decode_from-cons c (encode_module m),
  decode_from-escape (c + 32) (encode_module m),
  nat_eq_iff c b'!',
)

-- A module path that is not empty and has no exclamation mark is decoded from its escaped form.
pub decode_module-encode_module :
    (m : Bytes) → m ≢ [] → All (λ c. c ≢ b'!') m → decode_module (encode_module m) ≡ some m
unfolding decode_module encode_module
decode_module-encode_module [] ne h = absurd (ne refl)
decode_module-encode_module (c ∷ m) ne h = ground (arith, decode_from-encode (c ∷ m) h)

encode-decode_from :
    (s m : Bytes)
    → all (λ c. not (is_upper c)) s ≡ true
    → decode_from s ≡ some m
    → encode_module m ≡ s
unfolding encode_module decode_from all
encode-decode_from [] m h e = ground arith
encode-decode_from (c ∷ []) m h e = ground arith
encode-decode_from (c ∷ d ∷ s) m h e = elim (Bool-cases (nat_eq c b'!')) [
  | inl escape ↦ elim (Option-cases (decode_from s)) [
    | inl p ↦ absurd (ground (arith, p))
    | inr (k, p) ↦ ground (arith, p, escape, encode-decode_from s k)
  ]
  | inr plain ↦ elim (Option-cases (decode_from (d ∷ s))) [
    | inl p ↦ absurd (ground (arith, p, plain))
    | inr (k, p) ↦ ground (arith, p, plain, encode-decode_from (d ∷ s) k)
  ]
]

-- A path without capital letters that is decoded is the escaped form of what it is decoded to: no
-- two such paths name one module.
pub encode_module-decode_module :
    (s m : Bytes)
    → all (λ c. not (is_upper c)) s ≡ true
    → decode_module s ≡ some m
    → encode_module m ≡ s
unfolding decode_module
encode_module-decode_module [] m h e = absurd (ground arith)
encode_module-decode_module (c ∷ s) m h e = encode-decode_from (c ∷ s) m h e
