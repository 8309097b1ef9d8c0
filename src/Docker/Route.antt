-- ===== src/Docker/Route.antt =====
-- internal/format/docker/route.go, and the syntax checks of upload.go and blob.go.
pub mod Urls
use packrune.Prelude.{
  ℕ, zero, suc, ◌+◌, ◌-◌, ◌≤◌, ◌<◌, ◌≡◌, ◌≢◌, ◌⊎◌, inl, inr, refl, sym, ap, ◌∙◌, Bool, true, false,
  not, ◌&&◌, ◌||◌, Option, none, some, List, [], ◌∷◌, ◌++◌, append_assoc, append-nil, arith, Bytes,
  codes, length, length-append, ◌==◌, eq_iff, ==_refl, ltb, leb, nat_eq, nat_eq_iff, if◌then◌else◌,
  is_some, or_else, Option-cases, Bool-cases, strip_prefix?, has_prefix, trim_prefix,
  strip_prefix?-append, eq_of_strip_prefix?, strip_suffix?, has_suffix, trim_suffix,
  eq_of_strip_suffix?, Split, cut, cut_last, eq_of_cut, eq_of_cut_last, cut-append, all, in_range,
}

pub data RouteKind : Type 0 where
  unknown version catalog tags_list manifest blob upload_start upload_session : RouteKind

pub record ParsedRoute : Type 0 where
  pub kind : RouteKind
  pub name : Bytes
  pub reference : Bytes

abbrev pub route : RouteKind → Bytes → Bytes → ParsedRoute
route k n r = record { kind = k; name = n; reference = r }

abbrev positive : Option Split → Option Split
positive none = none
positive (some ([], a)) = none
positive (some (c ∷ b, a)) = some (c ∷ b, a)

-- `if i := strings.Index(p, sep); i > 0`, with the slices on both sides.
unfoldable pub cut_inside : Bytes → Bytes → Option Split
cut_inside p sep = positive (cut p sep)

abbrev or_route : Option Split → RouteKind → ParsedRoute → ParsedRoute
or_route none k other = other
or_route (some (n, r)) k other = route k n r

-- What is parsed once the prefixes are gone.
unfoldable pub parse_trimmed : Bytes → ParsedRoute
parse_trimmed p =
    if p == []
    then route version [] []
    else if p == codes "_catalog"
    then route catalog [] []
    else if has_suffix p (codes "/tags/list")
    then route tags_list (trim_suffix p (codes "/tags/list")) []
    else or_route (cut_inside p (codes "/manifests/")) manifest (
        if has_suffix p (codes "/blobs/uploads/")
        then route upload_start (trim_suffix p (codes "/blobs/uploads/")) []
        else if has_suffix p (codes "/blobs/uploads")
        then route upload_start (trim_suffix p (codes "/blobs/uploads")) []
        else or_route (cut_inside p (codes "/blobs/uploads/")) upload_session
            (or_route (cut_inside p (codes "/blobs/")) blob (route unknown [] [])))

unfoldable pub trim_mount : Bytes → Bytes
trim_mount p = trim_prefix (trim_prefix p (codes "/v2")) (codes "/")

unfoldable pub parse_path : Bytes → ParsedRoute
parse_path p = parse_trimmed (trim_mount p)

abbrev pub is_name_byte : ℕ → Bool
is_name_byte c =
    in_range b'a' b'z' c
    || in_range b'0' b'9' c
    || nat_eq c b'.'
    || nat_eq c b'_'
    || nat_eq c b'-'
    || nat_eq c b'/'

-- The loop is over runes; those behind a byte of 128 or more are refused as that byte is.
unfoldable pub validate_name : Bytes → Bool
validate_name [] = false
validate_name (c ∷ s) = all is_name_byte (c ∷ s)

abbrev pub is_lower_hex : ℕ → Bool
is_lower_hex c = in_range b'0' b'9' c || in_range b'a' b'f' c

abbrev pub sha256_prefix : Bytes
sha256_prefix = codes "sha256:"

-- `d[len(prefix):]` is what TrimPrefix leaves, since the prefix was tested.
unfoldable pub looks_like_digest : Bytes → Bool
looks_like_digest d =
    nat_eq (length d) (length sha256_prefix + 64)
    && (has_prefix d sha256_prefix && all is_lower_hex (trim_prefix d sha256_prefix))
