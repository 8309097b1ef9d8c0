-- ===== src/Npm/Route.antt =====
-- internal/format/npm/route.go: the URLs of the registry.
use packrune.Prelude.{
  Option, none, some, List, [], ◌∷◌, ◌++◌, Bytes, codes, ◌==◌, if◌then◌else◌, has_prefix,
  trim_prefix, Split, cut_last, split,
}

pub data RouteKind : Type 0 where
  unknown root ping whoami search packument version tarball : RouteKind

pub record ParsedRoute : Type 0 where
  pub kind : RouteKind
  pub pkg : Bytes
  pub ref : Bytes

abbrev pub route : RouteKind → Bytes → Bytes → ParsedRoute
route k p r = record { kind = k; pkg = p; ref = r }

abbrev pub no_route : ParsedRoute
no_route = route unknown [] []

abbrev scoped_parts : List Bytes → ParsedRoute
scoped_parts [] = no_route
scoped_parts (s ∷ []) = no_route
scoped_parts (s ∷ p ∷ []) = route packument (s ++ (codes "/" ++ p)) []
scoped_parts (s ∷ p ∷ v ∷ []) = route version (s ++ (codes "/" ++ p)) v
scoped_parts (s ∷ p ∷ v ∷ w ∷ ws) = no_route

abbrev plain_parts : List Bytes → ParsedRoute
plain_parts [] = no_route
plain_parts (p ∷ []) = route packument p []
plain_parts (p ∷ v ∷ []) = route version p v
plain_parts (p ∷ v ∷ w ∷ ws) = no_route

abbrev parts_route : List Bytes → ParsedRoute
parts_route [] = no_route
parts_route (p ∷ ps) =
    if has_prefix p (codes "@") then scoped_parts (p ∷ ps) else plain_parts (p ∷ ps)

-- `if i := strings.LastIndex(p, "/-/"); i > 0`
abbrev tarball_or_parts : Bytes → Option Split → ParsedRoute
tarball_or_parts p none = parts_route (split p b'/')
tarball_or_parts p (some ([], file)) = parts_route (split p b'/')
tarball_or_parts p (some (c ∷ pkg, file)) = route tarball (c ∷ pkg) file

unfoldable pub parse_trimmed : Bytes → ParsedRoute
parse_trimmed p =
    if p == []
    then route root [] []
    else if p == codes "-/ping"
    then route ping [] []
    else if p == codes "-/whoami"
    then route whoami [] []
    else if has_prefix p (codes "-/v1/search")
    then route search [] []
    else tarball_or_parts p (cut_last p (codes "/-/"))

-- parsePath
unfoldable pub parse_path : Bytes → ParsedRoute
parse_path p = parse_trimmed (trim_prefix p (codes "/"))
